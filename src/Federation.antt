-- ===== src/Federation.antt =====
-- src/federation.rs: what the module takes from libraries and from the network.
pub mod Statement
pub mod Chain
pub mod Anchored
pub mod Resolve
pub mod Collection
pub mod Policy
pub mod Constraints
mod Examples
use grindvakt.Prelude.{ℕ, String, Bool, List, Option, ◌==◌}
use grindvakt.Result
use grindvakt.Result.{Result}
use grindvakt.Exec
use grindvakt.Exec.{Exec}
use grindvakt.Error.{Error, jose}
use grindvakt.Json.{Json}
use grindvakt.Jwt.{Claims}
use grindvakt.Http.Fetch.{HttpFetchResponse}
use grindvakt.Url.{UrlLibrary}

-- `jose_rs::jwt::Validation`, as far as this module sets it
pub record Validation : Type 0 where
  pub typ : String
  pub require_exp : Bool

-- `K` is `JwkSet`, `W` what the network and the clock read and change.
pub record Library (K W : Type 0) : Type 0 where
  -- base64url, the JSON codec of claims, and `serde_json::to_value` of claims and of a key set
  pub decode : String → Option (List ℕ)
  pub claims_from_slice : List ℕ → Option Claims
  pub to_value : Claims → Option Json
  pub jwks_to_value : K → Option Json
  -- `jose_rs::jwt::decode_with_jwkset`, which reads the clock
  pub decode_with_jwkset : K → String → Validation → W → Result String Claims × W
  -- `serde_json::from_value` at a key set and at a list of keys, `JwkSet::from_json`
  pub jwks_from_value : Json → Option K
  pub keys_from_value : Json → Option K
  pub jwks_from_json : String → Option K
  -- a float as a `u64`
  pub f64_as_u64 : String → ℕ
  -- `HttpClient::get`, `now_secs`, `String::from_utf8_lossy`, `serde_json::from_slice`
  pub http_get : String → W → Result Error HttpFetchResponse × W
  pub clock : W → ℕ × W
  pub utf8_lossy : List ℕ → String
  pub from_slice : List ℕ → Option Json
  pub urls : UrlLibrary

abbrev pub entity_statement_typ : String
entity_statement_typ = "entity-statement+jwt"

abbrev pub resolve_response_typ : String
resolve_response_typ = "resolve-response+jwt"

abbrev pub jwk_set_typ : String
jwk_set_typ = "jwk-set+jwt"

-- `jwt::verify_with_jwks`
abbrev pub verify_with_jwks :
    {K W : Type 0} → Library K W → K → String → Validation → Exec W Error Claims
verify_with_jwks l jwks token validation =
    Exec.map_err jose (l.decode_with_jwkset jwks token validation)
