-- ===== src/OauthError.antt =====
-- src/oauth_error.rs: the standard error codes, and errors as they go on the wire.
pub mod Codes
pub mod Wire
use Prim.Native.Char.{Char}
use Prim.Native.String
use grindvakt.Prelude.{
  ℕ, zero, suc, String, Bool, true, false, ◌&&◌, ◌||◌, List, [], ◌∷◌, ◌++◌, Option, none, some,
  if◌then◌else◌, nat_eq, leb, ◌==◌, map,
}
use mathlib.Core.Option
use grindvakt.Prelude.Text.{char_count, all_chars, any_char, within, join, split_once, ◌<>◌}
use grindvakt.Result.{Result, ok, err}
use grindvakt.Http.{Response, response, with_header, with_body, redirect}

-- `OAuthErrorCode`
pub data OauthErrorCode : Type 0 where
  invalid_request invalid_client invalid_grant unauthorized_client : OauthErrorCode
  unsupported_grant_type unsupported_response_type invalid_scope : OauthErrorCode
  access_denied login_required server_error temporarily_unavailable : OauthErrorCode
  invalid_dpop_proof : OauthErrorCode

unfoldable pub as_str : OauthErrorCode → String
as_str invalid_request = "invalid_request"
as_str invalid_client = "invalid_client"
as_str invalid_grant = "invalid_grant"
as_str unauthorized_client = "unauthorized_client"
as_str unsupported_grant_type = "unsupported_grant_type"
as_str unsupported_response_type = "unsupported_response_type"
as_str invalid_scope = "invalid_scope"
as_str access_denied = "access_denied"
as_str login_required = "login_required"
as_str server_error = "server_error"
as_str temporarily_unavailable = "temporarily_unavailable"
as_str invalid_dpop_proof = "invalid_dpop_proof"

unfoldable pub http_status : OauthErrorCode → ℕ
http_status invalid_client = 401
http_status server_error = 500
http_status temporarily_unavailable = 503
http_status _ = 400

-- `ParseOAuthErrorCodeError`, the value that holds nothing of the input
pub data ParseError : Type 0 where
  unrecognized : ParseError

pub from_str : String → Result ParseError OauthErrorCode
from_str s =
    if "invalid_request" == s
    then ok invalid_request
    else if "invalid_client" == s
    then ok invalid_client
    else if "invalid_grant" == s
    then ok invalid_grant
    else if "unauthorized_client" == s
    then ok unauthorized_client
    else if "unsupported_grant_type" == s
    then ok unsupported_grant_type
    else if "unsupported_response_type" == s
    then ok unsupported_response_type
    else if "invalid_scope" == s
    then ok invalid_scope
    else if "access_denied" == s
    then ok access_denied
    else if "login_required" == s
    then ok login_required
    else if "server_error" == s
    then ok server_error
    else if "temporarily_unavailable" == s
    then ok temporarily_unavailable
    else if "invalid_dpop_proof" == s
    then ok invalid_dpop_proof
    else err unrecognized

abbrev pub max_wire_description_chars : ℕ
max_wire_description_chars = 256

-- The character set of RFC 6749 §§4.1.2.1 and 5.2.
unfoldable pub is_wire_char : ℕ → Bool
is_wire_char c = nat_eq c 0x20 || nat_eq c 0x21 || within 0x23 0x5b c || within 0x5d 0x7e c

wire_char : Char → Char
unfolding is_wire_char
wire_char c = if is_wire_char (Prim.Native.Char.code c) then c else "?"

-- `description.chars().take(n).map(wire_char).collect()`
wire_chars : ℕ → String → String
unfolding wire_char
wire_chars zero s = ""
wire_chars (suc n) String.[] = ""
wire_chars (suc n) (String.◌∷◌ c s) = String.◌∷◌ (wire_char c) (wire_chars n s)

unfoldable pub wire_description : String → String
unfolding wire_chars
wire_description description = wire_chars max_wire_description_chars description

abbrev pub max_state_chars : ℕ
max_state_chars = 1024

unfoldable pub is_valid_state : String → Bool
is_valid_state state = leb (char_count state) max_state_chars && all_chars (within 0x20 0x7e) state

-- `OAuthError`
pub record OauthError : Type 0 where
  pub code : OauthErrorCode
  pub description : Option String
  pub state : Option String

-- `OAuthError::new`, `OAuthError::bare`, `with_state`
abbrev pub error : OauthErrorCode → String → OauthError
error code description = record { code = code; description = some description; state = none }

abbrev pub bare : OauthErrorCode → OauthError
bare code = record { code = code; description = none; state = none }

abbrev pub with_state : Option String → OauthError → OauthError
with_state state e = record e { state = state }

-- `self.state.as_deref().filter(|s| is_valid_state(s))`
valid_only : Option String → Option String
valid_only none = none
valid_only (some s) = if is_valid_state s then some s else none

pub wire_state : OauthError → Option String
unfolding valid_only
wire_state e = valid_only e.state

-- `ErrorBody`, what is serialised into a JSON body
pub record ErrorBody : Type 0 where
  pub error : String
  pub error_description : Option String
  pub state : Option String

pub error_body : OauthError → ErrorBody
error_body e = record {
  error = as_str e.code;
  error_description = Option.map wire_description e.description;
  state = wire_state e;
}

abbrev is_invalid_client : OauthErrorCode → Bool
is_invalid_client invalid_client = true
is_invalid_client _ = false

-- `to_response`; `to_vec` is `serde_json::to_vec(..).unwrap_or_default()`
pub to_response : (to_vec : ErrorBody → String) → OauthError → Response
to_response to_vec e =
    let r = with_body (to_vec (error_body e)) (
      with_header "cache-control" "no-store"
        (with_header "content-type" "application/json" (response (http_status e.code)))) in
    if is_invalid_client e.code then with_header "www-authenticate" "Basic" r else r

-- The optional pair of a parameter.
abbrev pub optional : String → Option String → List (String × String)
optional name none = []
optional name (some v) = (name, v) ∷ []

-- the parameters of an error redirect, in their order
unfoldable pub error_params : OauthError → List (String × String) → List (String × String)
error_params e extra =
    ("error", as_str e.code)
    ∷ (optional "error_description" (Option.map wire_description e.description)
        ++ (optional "state" (wire_state e) ++ extra))

-- `name=value` joined by `&`; `urlencode` is `form_urlencoded::byte_serialize`
unfoldable pub encode_params : (urlencode : String → String) → List (String × String) → String
encode_params urlencode params = join "&" (map (λ p. urlencode p.0 <> "=" <> urlencode p.1) params)

-- the base and the suffix that begins at the first `#`
unfoldable pub split_fragment : String → String × String
split_fragment uri = elim (split_once b'#' uri) [
  | none ↦ (uri, "")
  | some (base, value) ↦ (base, "#" <> value)
]

unfoldable pub to_redirect_with_params :
    (urlencode : String → String) → OauthError → String → Bool → List (String × String) → Response
to_redirect_with_params urlencode e redirect_uri true extra =
    let sep = if any_char (nat_eq b'#') redirect_uri then "&" else "#" in
    redirect (redirect_uri <> sep <> encode_params urlencode (error_params e extra))
to_redirect_with_params urlencode e redirect_uri false extra =
    let (base, suffix) = split_fragment redirect_uri in
    let sep = if any_char (nat_eq b'?') base then "&" else "?" in
    redirect (base <> sep <> encode_params urlencode (error_params e extra) <> suffix)

unfoldable pub to_redirect : (urlencode : String → String) → OauthError → String → Bool → Response
to_redirect urlencode e redirect_uri fragment =
    to_redirect_with_params urlencode e redirect_uri fragment []
