-- ===== src/Callback.antt =====
-- src/callback.rs: authorization responses as they reach the relying party.
pub mod Fields
pub mod Parse
pub mod Jarm
pub mod Builders
pub mod Parsed
pub mod Accepted
pub mod Verified
mod Examples
use grindvakt.Prelude.{
  ℕ, String, List, [], ◌∷◌, Bool, true, false, not, ◌&&◌, ◌||◌, Option, none, some, is_some, has,
  ◌==◌, if◌then◌else◌,
}
use grindvakt.Prelude.Text.{is_empty}
use grindvakt.Prelude.Bytes.{as_bytes}
use grindvakt.Error.{Error, bad_request}

abbrev pub response_params : List String
response_params =
    "code" ∷ "state" ∷ "error" ∷ "error_description" ∷ "error_uri" ∷ "iss" ∷ "response" ∷ []

abbrev pub known_error_codes : List String
known_error_codes =
    "invalid_request" ∷ "invalid_client" ∷ "invalid_grant" ∷ "unauthorized_client"
    ∷ "unsupported_grant_type" ∷ "unsupported_response_type" ∷ "invalid_scope" ∷ "access_denied"
    ∷ "server_error" ∷ "temporarily_unavailable" ∷ "login_required" ∷ "interaction_required"
    ∷ "account_selection_required" ∷ "consent_required" ∷ "invalid_request_uri"
    ∷ "invalid_request_object" ∷ "request_not_supported" ∷ "request_uri_not_supported"
    ∷ "registration_not_supported" ∷ "invalid_dpop_proof" ∷ []

abbrev pub response_value_max : ℕ
response_value_max = 2048

abbrev pub response_jarm_max : ℕ
response_jarm_max = 32768

abbrev pub error_description_safe_max : ℕ
error_description_safe_max = 256

pub data ResponseMode : Type 0 where
  query fragment form_post jwt : ResponseMode

abbrev pub mode_eq : ResponseMode → ResponseMode → Bool
mode_eq query query = true
mode_eq fragment fragment = true
mode_eq form_post form_post = true
mode_eq jwt jwt = true
mode_eq _ _ = false

-- `AuthorizationResponseOptions`
pub record AuthorizationResponseOptions : Type 0 where
  pub mode : Option ResponseMode
  pub accept_unverified_jarm : Bool

-- `AuthorizationResponse`
pub record AuthorizationResponse : Type 0 where
  pub code : Option String
  pub state : Option String
  pub error : Option String
  pub error_description_safe : Option String
  pub error_uri : Option String
  pub iss : Option String
  pub jarm_response : Option String
  pub jarm_verified : Bool
  pub response_mode : ResponseMode

-- `bad`
abbrev pub bad : String → Error
bad = bad_request

-- `error_known`
pub error_known : AuthorizationResponse → Bool
error_known r = elim r.error [ none ↦ false | some e ↦ has e known_error_codes ]

-- The state or issuer of a response that has not been verified counts for nothing.
abbrev pub is_unverified : AuthorizationResponse → Bool
is_unverified r = is_some r.jarm_response && not r.jarm_verified

abbrev matches_value : (String → Bool) → Bool → Option String → Bool
matches_value test required none = not required
matches_value test required (some v) = test v

-- `constant_time_eq` is that of an external library.
unfoldable pub matches_state :
    (List ℕ → List ℕ → Bool) → AuthorizationResponse → String → Bool → Bool
matches_state constant_time_eq r expected required =
    if is_empty expected || is_unverified r
    then false
    else matches_value (λ s. constant_time_eq (as_bytes s) (as_bytes expected)) required r.state

unfoldable pub matches_iss : AuthorizationResponse → String → Bool → Bool
matches_iss r expected required =
    if is_empty expected || is_unverified r
    then false
    else matches_value (λ s. s == expected) required r.iss
