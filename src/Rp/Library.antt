-- ===== src/Rp/Library.antt =====
-- src/rp.rs: what the module takes from libraries and from the network.
use grindvakt.Prelude.{ℕ, String, Bool, List, Option}
use grindvakt.Result.{Result}
use grindvakt.Exec
use grindvakt.Exec.{Exec}
use grindvakt.Error.{Error, jose}
use grindvakt.Json.{Json}
use grindvakt.Jwt.{JwsAlgorithm, Claims, Hashing}
use grindvakt.Metadata.{ProviderMetadata}
use grindvakt.Http.Fetch.{HttpFetchResponse}
use grindvakt.Pkce.{Encoding}
use grindvakt.Url.{UrlLibrary}

-- what the header of a token says
pub record Header : Type 0 where
  pub alg : String
  pub typ : Option String
  pub kid : Option String

-- `jose_rs::jwt::Validation`, as far as this module sets it
pub record Validation : Type 0 where
  pub issuer : String
  pub audience : String
  pub allowed_algorithms : List JwsAlgorithm
  pub leeway : Option ℕ
  pub max_age : Option ℕ
  pub typ : Option String
  pub require_exp : Bool
  pub require_iat : Bool
  pub require_kid : Bool

-- `K` is `JwkSet`, `S` is `SigningKey`, `W` what the network, the clock and the randomness change.
pub record RpLibrary (K S W : Type 0) : Type 0 where
  pub urls : UrlLibrary
  pub encoding : Encoding
  pub hashing : Hashing
  -- the comparison of MACs and the standard base64
  pub constant_time_eq : List ℕ → List ℕ → Bool
  pub base64 : List ℕ → String
  -- `jose_rs`: headers, algorithms, the identifiers of the keys, signatures
  pub decode_header : String → Option Header
  pub parse_alg : String → Option JwsAlgorithm
  pub kids : K → List (Option String)
  pub decode_with_jwkset : K → String → Validation → W → Result String Claims × W
  pub sign : S → Claims → W → Result Error String × W
  pub jwks_from_json : String → Option K
  -- the JSON codec, the text of bytes, and the seconds of a finite float that is not negative
  pub metadata_from_slice : List ℕ → Option ProviderMetadata
  pub from_slice : List ℕ → Option Json
  pub to_value : Claims → Option Json
  pub utf8_lossy : List ℕ → String
  pub f64_floor : String → Option ℕ
  -- `HttpClient`, `now_secs`, `random_token`
  pub http_get : String → W → Result Error HttpFetchResponse × W
  pub post_form :
      String
      → List (String × String)
      → List (String × String)
      → W
      → Result Error HttpFetchResponse × W
  pub get_with_headers : String → List (String × String) → W → Result Error HttpFetchResponse × W
  pub clock : W → ℕ × W
  pub random_token : ℕ → W → String × W

-- `jwt::verify_with_jwks`
abbrev pub verify_with_jwks :
    {K S W : Type 0} → RpLibrary K S W → K → String → Validation → Exec W Error Claims
verify_with_jwks l jwks token validation =
    Exec.map_err jose (l.decode_with_jwkset jwks token validation)
