-- ===== src/Provider/Defs/Services.antt =====
-- src/provider.rs: what a provider is given: the stores behind their traits, the clock, the
-- randomness, and the libraries that it calls.
use grindvakt.Prelude.{ℕ, ◌≡◌, String, Bool, List, Option}
use grindvakt.Dict.{Dict}
use grindvakt.Json.{Json}
use grindvakt.Error.{Error, to_string}
use grindvakt.OauthError.{OauthError, error, server_error}
use grindvakt.Result.{Result, ok, map_err-eq-ok}
use grindvakt.Exec.{Exec, run, map_err, Returns}
use grindvakt.Client.{Client}
use grindvakt.Tokens.{TokenCrypto}
use grindvakt.Pkce.{Encoding}
use grindvakt.Jwt.{Hashing, Claims}

-- what a validated client assertion is checked against
pub record Validation : Type 0 where
  pub issuer : String
  pub subject : String
  pub max_age : ℕ
  pub leeway : ℕ

-- What `registration_value` serializes: a registration whose keys have no extensions, and these.
abbrev pub Registration : Type 0 → Type 0
Registration J = Client J × Option (List (Dict Json))

-- `J` is the key set type, `W` all that the stores, the clock and the randomness read and change.
pub record Services (J W : Type 0) : Type 0 where
  -- `ClientStore::get`, `TokenUseStore::consume`, `now_secs`, and a draw of randomness
  pub client_get : String → W → Option (Client J) × W
  pub token_consume : String → ℕ → W → Result String Bool × W
  pub clock : W → ℕ × W
  pub draw : W → ℕ × W
  -- the libraries
  pub crypto : TokenCrypto
  pub encoding : Encoding
  pub hashing : Hashing
  -- `form_urlencoded::byte_serialize` and `form_urlencoded::parse`
  pub urlencode : String → String
  pub form_parse : String → List (String × String)
  -- `url::Url::parse`, and the fragment of the result
  pub url_parse : String → Option (Option String)
  -- `jwt::sign` under the signing key, with randomness
  pub sign : ℕ → Claims → Result Error String
  -- base64url and the JSON codec of claims
  pub decode_url : String → Option (List ℕ)
  pub claims_from_slice : List ℕ → Option Claims
  -- `jwt::verify_with_jwks`, which reads the clock
  pub verify_with_jwks : J → String → Validation → W → Option Claims × W
  -- the leeway of `Validation::new()`
  pub default_leeway : ℕ
  -- base64 (standard) to a text, the bytes of `percent_decode_str`, and their text, which is lossy
  pub decode_standard : String → Option String
  pub percent_decode_str : String → List ℕ
  pub utf8_lossy : List ℕ → String
  -- the field `extra` of each key of a set, in the order of its names, and the set with these empty
  pub key_extras : J → List (Dict Json)
  pub without_extras : J → J
  -- `serde_json::to_value`, and the equality of values
  pub to_value : Registration J → Option Json
  pub value_eq : Json → Json → Bool

module _ {J W : Type 0} (s : Services J W) where
  abbrev pub get_client : String → Exec W OauthError (Option (Client J))
  get_client id = run (s.client_get id)

  abbrev pub now_secs : {E : Type 0} → Exec W E ℕ
  now_secs = run s.clock

  -- an operation that draws randomness first
  unfoldable pub drawn : {E A : Type 0} → (ℕ → Result E A) → Exec W E A
  drawn f w = (f (s.draw w).0, (s.draw w).1)

-- `.map_err(|e| OAuthError::new(OAuthErrorCode::ServerError, e.to_string()))?`
unfoldable pub server_failure : {W A : Type 0} → Exec W Error A → Exec W OauthError A
server_failure m = map_err (λ e. error server_error (to_string e)) m

-- What has been drawn for and returned is what the operation gives at the randomness drawn.
pub drawn-Returns :
    {J W A : Type 0} (s : Services J W) (f : ℕ → Result Error A) (w : W) {a : A} {w' : W}
    → Returns (server_failure (drawn s f)) w a w'
    → f (s.draw w).0 ≡ ok a
unfolding server_failure drawn
drawn-Returns s f w h =
    map_err-eq-ok (λ e. error server_error (to_string e)) (f (s.draw w).0) (λ i. (h i).0)
