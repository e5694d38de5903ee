-- ===== src/Provider/Clients.antt =====
-- src/provider.rs: the authentication of clients at the token endpoint.
pub mod Assertion
pub mod Methods
pub mod Frame
pub mod Errors
pub mod Authenticated
pub mod Shown
use mathlib.Core.Option
use grindvakt.Prelude.{
  ℕ, ◌+◌, ◌-◌, max, min, String, Bool, true, false, not, ◌&&◌, ◌||◌, ◌∷◌, Option, none, some,
  if◌then◌else◌, ◌==◌, ltb, ◌≡◌, refl,
}
use grindvakt.Prelude.Text.{split_once}
use grindvakt.Prelude.Words.{saturating_add}
use grindvakt.Prelude.Bytes.{as_bytes}
use grindvakt.Dict
use grindvakt.Dict.{Dict}
use grindvakt.Result.{Result, ok, err, fail_if, ok_or, map_err}
use grindvakt.Result
use grindvakt.Exec.{Exec, pure, lift, run, ◌>>=◌, ◌>>◌}
use grindvakt.OauthError.{OauthError, error, invalid_client, server_error}
use grindvakt.Pkce.{constant_time_eq}
use grindvakt.Jwt.{Claims, NumericDate, Audience, aud_contains, peek_claims_unverified}
use grindvakt.Client.{Client, auth_private_key_jwt}
use grindvakt.Provider.Defs.{Provider}
use grindvakt.Provider.Defs.Services.{Services, Validation, get_client, now_secs}
use grindvakt.Provider.Form.{assertion_use_hash}

abbrev pub client_error : String → OauthError
client_error = error invalid_client

-- `decode_basic`
abbrev decode_pair : (String → String) → Option (String × String) → Option (String × String)
decode_pair percent_decode none = none
decode_pair percent_decode (some (id, secret)) = some (percent_decode id, percent_decode secret)

decode_text : (String → String) → Option String → Option (String × String)
decode_text percent_decode none = none
decode_text percent_decode (some s) = decode_pair percent_decode (split_once b':' s)

module _ {J W : Type 0} (s : Services J W) where
  percent_decode : String → String
  percent_decode t = s.utf8_lossy (s.percent_decode_str t)

  pub decode_basic : String → Option (String × String)
  unfolding decode_text percent_decode
  decode_basic b64 = decode_text percent_decode (s.decode_standard b64)

-- the guard of `check_secret` on the registered secret
unfoldable pub secret_matches : Option String → String → Bool
secret_matches none secret = false
secret_matches (some expected) secret = constant_time_eq (as_bytes expected) (as_bytes secret)

module _ {J W : Type 0} (s : Services J W) where
  unfoldable pub check_secret : String → String → String → Exec W OauthError (Client J)
  unfolding secret_matches
  check_secret client_id secret presented_method = do
    found ← get_client s client_id
    client ← lift (ok_or found (client_error "unknown client"))
    lift (
        fail_if (not (client.token_endpoint_auth_method == presented_method))
          (client_error "client authentication method does not match the registered method"))
    lift (
        fail_if (not (secret_matches client.client_secret secret))
          (client_error "bad client secret"))
    pure client

-- the deadlines of a client assertion
unfoldable pub exp_deadline : NumericDate → ℕ → ℕ
exp_deadline exp leeway =
    saturating_add (saturating_add exp.as_secs (if ltb 0 exp.subsec_nanos then 1 else 0)) leeway

unfoldable pub age_deadline : NumericDate → ℕ → ℕ → ℕ
age_deadline iat max_age leeway =
    saturating_add (saturating_add (saturating_add iat.as_secs max_age) leeway) 1

-- `[exp, age].into_iter().flatten().min().unwrap_or(now)`
unfoldable pub earliest : ℕ → Option ℕ → Option ℕ → ℕ
earliest now none none = now
earliest now none (some b) = b
earliest now (some a) none = a
earliest now (some a) (some b) = min a b

-- How long the use of an assertion is remembered.
unfoldable pub assertion_ttl : Claims → (max_age leeway now : ℕ) → ℕ
unfolding exp_deadline age_deadline earliest
assertion_ttl claims max_age leeway now =
    max
      (earliest now (Option.map (λ d. exp_deadline d leeway) claims.exp)
          (Option.map (λ d. age_deadline d max_age leeway) claims.iat)
        - now)
      1

-- what is answered to a `consume`
unfoldable pub consumed : OauthError → Result String Bool → Result OauthError (Unit {0})
consumed used (ok true) = ok tt
consumed used (ok false) = err used
consumed used (err e) = err (error server_error "temporarily unable to process the request")

pub consumed-eq-ok :
    (e : OauthError) (r : Result String Bool) {u : Unit {0}} → consumed e r ≡ ok u → r ≡ ok true
unfolding consumed
consumed-eq-ok e (ok true) h = refl
consumed-eq-ok e (ok false) h = cc
consumed-eq-ok e (err x) h = cc

-- `claims.sub.or(claims.iss)`
first_of : Option String → Option String → Option String
first_of none b = b
first_of (some a) b = some a

unfoldable pub aud_ok : Option Audience → String → String → Bool
aud_ok none token_url issuer = false
aud_ok (some aud) token_url issuer = aud_contains token_url aud || aud_contains issuer aud

module _ {J W : Type 0} (p : Provider) (s : Services J W) where
  -- the client id of the form, or of the assertion
  unfoldable pub asserted_id : String → Option String → Result OauthError String
  unfolding first_of
  asserted_id assertion (some id) = ok id
  asserted_id assertion none =
      Result.◌>>=◌
        (map_err (λ _. client_error "unreadable client_assertion")
          (peek_claims_unverified s.decode_url s.claims_from_slice assertion))
        (λ claims.
          ok_or (first_of claims.sub claims.iss) (client_error "client_assertion missing sub/iss"))

  abbrev pub validation : String → Validation
  validation client_id = record {
    issuer = client_id;
    subject = client_id;
    max_age = p.client_assertion_max_age;
    leeway = s.default_leeway;
  }

  -- What follows the verification of the signature.
  unfoldable pub use_assertion : String → String → Claims → Exec W OauthError (Unit {0})
  unfolding aud_ok assertion_ttl consumed
  use_assertion client_id token_url claims = do
    lift (
        fail_if (not (aud_ok claims.aud token_url p.metadata.issuer))
          (client_error "client_assertion audience mismatch"))
    jti ← lift (ok_or claims.jti (client_error "client_assertion missing jti"))
    now ← now_secs s
    answer ← run (
        s.token_consume (assertion_use_hash s.encoding client_id jti)
          (assertion_ttl claims p.client_assertion_max_age s.default_leeway now))
    lift (consumed (client_error "client_assertion already used") answer)

  unfoldable pub verify_private_key_jwt :
      String → Dict String → String → Exec W OauthError (Client J)
  unfolding asserted_id use_assertion
  verify_private_key_jwt assertion form token_url = do
    client_id ← lift (asserted_id assertion (Dict.get "client_id" form))
    found ← get_client s client_id
    client ← lift (ok_or found (client_error "unknown client"))
    lift (
        fail_if (not (client.token_endpoint_auth_method == auth_private_key_jwt))
          (client_error "client is not configured for private_key_jwt"))
    jwks ← lift (ok_or client.jwks (client_error "client has no keys for private_key_jwt"))
    verified ← run (s.verify_with_jwks jwks assertion (validation client_id))
    claims ← lift (ok_or verified (client_error "client_assertion validation failed"))
    use_assertion client_id token_url claims
    pure client
