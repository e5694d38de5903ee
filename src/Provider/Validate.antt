-- ===== src/Provider/Validate.antt =====
-- src/provider.rs: the validation of an authorization request against the registered client.
pub mod Accepts
pub mod Advertised
use grindvakt.Prelude.{
  ℕ, String, Bool, true, false, not, ◌&&◌, ◌||◌, List, ◌∷◌, Option, none, some, if◌then◌else◌, has,
  ◌==◌, is_some, any,
}
use grindvakt.Prelude.Text.{any_char, is_whitespace, is_control, split_whitespace}
use grindvakt.Result.{Result, ok, ◌>>=◌, ◌>>◌, fail_if, ok_or}
use grindvakt.Exec.{Exec}
use grindvakt.Exec
use grindvakt.OauthError.{
  OauthError, error, with_state, invalid_scope, unauthorized_client, unsupported_response_type,
}
use grindvakt.Request.{
  AuthorizationRequest, request_error, bad_state, scopes, wants_code, wants_id_token,
  wants_access_token, validate_response_type, validate_prompt, validate_response_mode,
}
use grindvakt.Client.{Client, auth_none, allows_redirect, allows_response_type}
use grindvakt.Pkce.{Encoding, is_valid_s256_challenge}
use grindvakt.Jwt.{supports_oidc_token_hash}
use grindvakt.Provider.Defs.{Provider}
use grindvakt.Provider.Defs.Services.{Services, get_client}

-- `matches!((challenge, method), (Some(c), Some("S256")) if ..)`
unfoldable pub valid_s256 : Encoding → Option String → Option String → Bool
valid_s256 e (some challenge) (some method) =
    method == "S256" && is_valid_s256_challenge e challenge
valid_s256 e _ _ = false

abbrev pub both_none : Option String → Option String → Bool
both_none none none = true
both_none _ _ = false

-- whether the code request has neither a valid challenge nor an allowed omission
pub bad_pkce : Encoding → AuthorizationRequest → String → Bool
bad_pkce e req auth_method =
    not (valid_s256 e req.code_challenge req.code_challenge_method)
    && not
        (both_none req.code_challenge req.code_challenge_method && not (auth_method == auth_none))

pub subject_type_supported : Bool → String → Bool
subject_type_supported caller_managed t =
    if t == "public" then true else if t == "pairwise" then caller_managed else false

-- whether a requested scope is outside the registered ones, where scopes are registered
pub exceeds : Option String → List String → Bool
exceeds none requested = false
exceeds (some registered) requested = any (λ x. not (has x (split_whitespace registered))) requested

abbrev pub is_forbidden : ℕ → Bool
is_forbidden c = is_whitespace c || is_control c

module _ {J W : Type 0} (p : Provider) (s : Services J W) where
  -- What is checked once the client is found, in the order of the code.
  check_request : AuthorizationRequest → Client J → Result OauthError (Unit {0})
  unfolding subject_type_supported exceeds bad_pkce
  check_request req client = do
    fail_if (not (allows_redirect client req.redirect_uri))
        (request_error "redirect_uri not registered")
    fail_if (bad_state req.state) (request_error "invalid state parameter")
    fail_if (any_char is_forbidden req.redirect_uri)
        (request_error "redirect_uri must not contain whitespace or control characters")
    fragment ←
        ok_or (s.url_parse req.redirect_uri) (request_error "redirect_uri must be an absolute URI")
    fail_if (is_some fragment) (request_error "redirect_uri must not contain a fragment")
    fail_if (not (subject_type_supported p.caller_managed_pairwise_subjects client.subject_type)) (
        with_state req.state (
          error unauthorized_client
            "registered subject identifier type is not supported by this provider"))
    validate_response_type req
    validate_prompt req
    validate_response_mode req
    fail_if
        (wants_id_token req
          && ((wants_code req || wants_access_token req)
              && not (supports_oidc_token_hash p.signing_alg)))
        (with_state req.state (
          error unsupported_response_type
            "the configured signing algorithm does not define OIDC c_hash/at_hash"))
    fail_if (not (allows_response_type client req.response_type))
        (with_state req.state (error unauthorized_client "response_type not allowed for client"))
    fail_if (wants_id_token req && not (is_some req.nonce))
        (with_state req.state (request_error "nonce is required for implicit/hybrid flows"))
    fail_if (wants_code req && bad_pkce s.encoding req client.token_endpoint_auth_method) (
        with_state req.state (
          request_error (
            if client.token_endpoint_auth_method == auth_none
            then "public clients must use S256 PKCE"
            else "PKCE must use a canonical S256 code_challenge and method")))
    fail_if (exceeds client.scope (scopes req)) (
        with_state req.state
          (error invalid_scope "requested scope exceeds the client's registered scope"))

  unfoldable pub validate_authorization_request :
      AuthorizationRequest → Exec W OauthError (Client J)
  unfolding check_request
  validate_authorization_request req = Exec.◌>>=◌ (get_client s req.client_id) λ found. Exec.lift (
      ok_or found (request_error "unknown client_id") >>= λ client.
      check_request req client >> ok client)
