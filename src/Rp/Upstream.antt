-- ===== src/Rp/Upstream.antt =====
-- src/rp.rs: the error for a response of another server that is no success.
use grindvakt.Prelude.{
  ℕ, zero, suc, ◌+◌, ◌*◌, String, List, [], ◌∷◌, map, Bool, true, false, Option, none, some, leb,
  length, if◌then◌else◌,
}
use grindvakt.Prelude.Text.{char_count, join, ◌<>◌}
use grindvakt.Prelude.Bytes.{as_bytes}
use grindvakt.Dict
use grindvakt.Dict.{Dict}
use grindvakt.Json.{Json}
use grindvakt.Json.Access.{as_object, as_str, and_then}
use grindvakt.Jwt.{take}
use grindvakt.Error.{Error, upstream_http}
use grindvakt.Error.Escape.{escape_upstream_text}
use grindvakt.Error.Challenge.{parse_www_authenticate_bearer}
use grindvakt.Http.Fetch.{HttpFetchResponse, header_values}

pub data UpstreamKind : Type 0 where
  auth metadata : UpstreamKind

abbrev prefix : UpstreamKind → String
prefix auth = "authentication error: "
prefix metadata = "internal error: "

abbrev is_auth : UpstreamKind → Bool
is_auth auth = true
is_auth metadata = false

-- the first characters of a text
abbrev chars : ℕ → String → String
chars zero s = ""
chars (suc n) String.[] = ""
chars (suc n) (String.◌∷◌ c s) = String.◌∷◌ c (chars n s)

abbrev pub max_upstream_message_chars : ℕ
max_upstream_message_chars = 1024

abbrev pub max_error_json_bytes : ℕ
max_error_json_bytes = 16 * 1024

abbrev pub max_error_header_bytes : ℕ
max_error_header_bytes = 8 * 1024

abbrev pub max_error_body_chars : ℕ
max_error_body_chars = 512

unfoldable pub bounded : String → String
bounded message =
    if leb (char_count message) max_upstream_message_chars
    then message
    else chars max_upstream_message_chars message <> "…"

abbrev map_text : ℕ → Option String → Option String
map_text n none = none
map_text n (some s) = some (escape_upstream_text s n)

-- the `error` and the `error_description` of a body
unfoldable pub body_fields : Option Json → Option String × Option String
body_fields body =
    let obj = and_then body as_object in
    let code = and_then (and_then obj (Dict.get "error")) as_str in
    let description = and_then (and_then obj (Dict.get "error_description")) as_str in
    elim code [
      | some code ↦ (some (escape_upstream_text code 64), map_text 256 description)
      | none ↦ (none, none)
    ]

abbrev sum : List ℕ → ℕ
sum [] = 0
sum (n ∷ ns) = n + sum ns

challenge_fields : Option (Option String × Option String) → Option String × Option String
challenge_fields none = (none, none)
challenge_fields (some (e, d)) = (map_text 64 e, map_text 256 d)

unfoldable pub header_fields : List String → Option String × Option String
unfolding challenge_fields
header_fields values =
    if leb (sum (map (λ v. length (as_bytes v)) values)) max_error_header_bytes
    then challenge_fields (parse_www_authenticate_bearer (join ", " values))
    else (none, none)

-- The fields of the body, or else those of the header.
unfoldable pub fields_or :
    Option String × Option String → List String → Option String × Option String
unfolding header_fields
fields_or (some e, d) values = (some e, d)
fields_or (none, d) values = header_fields values

-- `utf8_lossy` is `String::from_utf8_lossy`, `from_slice` the JSON parser.
module _ (utf8_lossy : List ℕ → String) (from_slice : List ℕ → Option Json) where
  excerpt : List ℕ → Option String
  excerpt [] = none
  excerpt (b ∷ bs) = some (
      escape_upstream_text (utf8_lossy (take ((max_error_body_chars + 1) * 4) (b ∷ bs)))
        max_error_body_chars)

  unfoldable pub upstream_error : UpstreamKind → String → HttpFetchResponse → Error
  unfolding bounded body_fields fields_or excerpt header_values
  upstream_error kind message r =
      let parsed = if leb (length r.body) max_error_json_bytes then from_slice r.body else none in
      let fields = fields_or (body_fields parsed) (header_values r "www-authenticate") in
      upstream_http (record {
        status = some r.status;
        error = fields.0;
        error_description = fields.1;
        body = excerpt r.body;
        message = bounded (prefix kind <> message);
        auth_failure = is_auth kind;
      })
