-- ===== src/Error.antt =====
-- src/error.rs: the error type of the library. What `thiserror` wraps is kept as its text.
pub mod Escape
pub mod Shown
pub mod Scan
pub mod Challenge
pub mod Pieces
use grindvakt.Prelude.{
  ℕ, String, Bool, true, false, ◌||◌, Option, none, some, leb, nat_eq, if◌then◌else◌,
}
use grindvakt.Prelude.Text.{◌<>◌}

-- `UpstreamHttpError`
pub record UpstreamHttpError : Type 0 where
  pub status : Option ℕ
  pub error : Option String
  pub error_description : Option String
  pub body : Option String
  pub message : String
  pub auth_failure : Bool

pub data Error : Type 0 where
  no_bound_endpoint unknown_module bad_request authn state config crypto : String → Error
  attribute jose json internal : String → Error
  upstream_http : UpstreamHttpError → Error

-- `e.to_string()`
pub to_string : Error → String
to_string (no_bound_endpoint s) = "no endpoint bound to path: " <> s
to_string (unknown_module s) = "unknown module: " <> s
to_string (bad_request s) = "bad request: " <> s
to_string (authn s) = "authentication error: " <> s
to_string (state s) = "state error: " <> s
to_string (config s) = "configuration error: " <> s
to_string (crypto s) = "crypto error: " <> s
to_string (attribute s) = "attribute mapping error: " <> s
to_string (jose s) = "jose error: " <> s
to_string (json s) = "json error: " <> s
to_string (internal s) = "internal error: " <> s
to_string (upstream_http e) = e.message

retryable_status : Option ℕ → Bool
retryable_status none = false
retryable_status (some s) = leb 500 s || nat_eq s 429

-- `is_retryable`
pub is_retryable : Error → Bool
unfolding retryable_status
is_retryable (upstream_http e) = retryable_status e.status
is_retryable _ = false

-- `is_auth_failure`
pub is_auth_failure : Error → Bool
is_auth_failure (authn s) = true
is_auth_failure (upstream_http e) = e.auth_failure
is_auth_failure _ = false

-- `status_hint`
pub status_hint : Error → ℕ
status_hint (upstream_http e) = if e.auth_failure then 401 else 502
status_hint (no_bound_endpoint s) = 404
status_hint (bad_request s) = 400
status_hint (unknown_module s) = 404
status_hint (authn s) = 401
status_hint _ = 500
