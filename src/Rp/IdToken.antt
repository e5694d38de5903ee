-- ===== src/Rp/IdToken.antt =====
-- src/rp.rs: verification of an ID token.
pub mod Options
pub mod Hash
pub mod Bound
pub mod Addressed
pub mod Verified
use grindvakt.Prelude.{
  ℕ, String, List, [], ◌∷◌, Bool, true, false, not, ◌&&◌, ◌||◌, Option, none, some, is_some,
  unwrap_or, has, length, ltb, opt_str_eq, ◌==◌, if◌then◌else◌,
}
use grindvakt.Prelude.Text.{is_empty, ◌<>◌}
use grindvakt.Prelude.Words.{saturating_add}
use grindvakt.Dict
use grindvakt.Dict.{filter_option}
use grindvakt.Json.{Json, number, float}
use grindvakt.Json.Access.{and_then, as_str}
use grindvakt.Jwt.{JwsAlgorithm, Claims, Audience, multiple}
use grindvakt.Result.{Result, ok, err, ok_or, fail_if, ◌>>=◌, ◌>>◌}
use grindvakt.Exec
use grindvakt.Exec.{Exec, lift, run, pure}
use grindvakt.Error.{Error, bad_request, authn, jose}
use grindvakt.Error.Escape.{display_safe}
use grindvakt.Rp.Library.{RpLibrary, Validation, Header, verify_with_jwks}
use grindvakt.Rp.Kids.{ensure_kid_names_key, several}
use grindvakt.Rp.IdToken.Options.{
  IdTokenOptions, default_leeway, max_id_token_leeway, unchecked_options,
}
use grindvakt.Rp.IdToken.Hash.{check_token_hash}

abbrev exceeds : Option ℕ → Bool
exceeds none = false
exceeds (some leeway) = ltb max_id_token_leeway leeway

abbrev pub is_nil {ℓ} : {A : Type ℓ} → List A → Bool
is_nil [] = true
is_nil (x ∷ xs) = false

abbrev is_empty_list : Option (List String) → Bool
is_empty_list none = false
is_empty_list (some xs) = is_nil xs

-- The checks on the options, in their order.
unfoldable pub check_options : List JwsAlgorithm → IdTokenOptions → Result Error (Unit {0})
check_options algorithms o =
    fail_if (is_nil algorithms)
      (bad_request "at least one allowed id_token signing algorithm is required")
    >> (fail_if (o.require_at_hash && not (is_some o.access_token))
          (bad_request "require_at_hash needs an access_token to check against")
        >> (fail_if (o.require_c_hash && not (is_some o.authorization_code))
              (bad_request "require_c_hash needs an authorization_code to check against")
            >> (fail_if (exceeds o.leeway)
                  (bad_request "id_token leeway must be at most 300 seconds")
                >> fail_if (is_empty_list o.acr_values)
                    (bad_request "acr_values must not be empty when set"))))

-- The loop over several audiences, with those seen so far.
unfoldable pub check_audiences :
    String → List String → List String → List String → Result Error (Unit {0})
check_audiences client_id trusted seen [] = ok tt
check_audiences client_id trusted seen (audience ∷ audiences) =
    let rest = check_audiences client_id trusted (audience ∷ seen) audiences in
    if has audience seen
    then err (authn "id_token contains duplicate audiences")
    else if not (audience == client_id) && not (has audience trusted)
    then err (authn ("id_token contains untrusted audience: " <> display_safe audience))
    else rest

abbrev pub claim_text : String → Claims → Option String
claim_text name c = and_then (Dict.get name c.extra) as_str

unfoldable pub check_audience :
    String → List String → Claims → Option Audience → Result Error (Unit {0})
check_audience client_id trusted c (some (multiple values)) =
    check_audiences client_id trusted [] values
    >> fail_if (ltb 1 (length values) && not (opt_str_eq (claim_text "azp" c) (some client_id)))
        (authn "multi-audience id_token requires azp equal to client_id")
check_audience client_id trusted c _ = ok tt

-- an `azp` that is there and is not the client
abbrev pub wrong_azp : String → Option Json → Bool
wrong_azp client_id none = false
wrong_azp client_id (some azp) = not (opt_str_eq (as_str azp) (some client_id))

abbrev pub wrong_nonce : Option String → Option String → Bool
wrong_nonce none got = false
wrong_nonce (some nonce) got = not (opt_str_eq got (some nonce))

-- The checks on subject, audience, authorized party and nonce.
unfoldable pub check_claims :
    String → Option String → List String → Claims → Result Error (Unit {0})
check_claims client_id expected_nonce trusted c =
    fail_if (not (is_some (filter_option (λ s. not (is_empty s)) c.sub)))
      (authn "id_token missing sub")
    >> (check_audience client_id trusted c c.aud
        >> (fail_if (wrong_azp client_id (Dict.get "azp" c.extra)) (authn "id_token azp mismatch")
            >> fail_if (wrong_nonce expected_nonce (claim_text "nonce" c))
                (authn "id_token nonce mismatch")))

abbrev wrong_acr : Option (List String) → Option String → Bool
wrong_acr none acr = false
wrong_acr (some allowed) none = true
wrong_acr (some allowed) (some acr) = not (has acr allowed)

unfoldable pub check_acr : Option (List String) → Claims → Result Error (Unit {0})
check_acr acr_values c =
    fail_if (wrong_acr acr_values (claim_text "acr" c))
      (authn "id_token acr missing or not in the accepted list")

-- The two checks on the time of authentication.
unfoldable pub check_auth_time : ℕ → ℕ → ℕ → ℕ → Result Error (Unit {0})
check_auth_time auth_time max_age leeway now =
    fail_if (ltb (saturating_add auth_time max_age) now)
      (authn "id_token auth_time is older than max_age")
    >> fail_if (ltb (saturating_add now leeway) auth_time)
        (authn "id_token auth_time is in the future")

module _ {K S W : Type 0} (l : RpLibrary K S W) where
  unfoldable pub auth_time_secs : Json → Result Error ℕ
  auth_time_secs (number n) = ok n
  auth_time_secs (float x) =
      ok_or (l.f64_floor x) (authn "id_token auth_time is not a valid number")
  auth_time_secs _ = err (authn "id_token auth_time is not a valid number")

  unfoldable pub check_max_age : IdTokenOptions → Claims → Option ℕ → Exec W Error (Unit {0})
  check_max_age o c none = pure tt
  check_max_age o c (some max_age) =
      Exec.◌>>=◌
        (lift (
          ok_or (Dict.get "auth_time" c.extra)
            (authn "id_token missing auth_time required by max_age")
          >>= auth_time_secs))
        λ auth_time.
          Exec.◌>>=◌ (run l.clock)
            λ now. lift (check_auth_time auth_time max_age (unwrap_or default_leeway o.leeway) now)

  unfoldable pub check_kid : K → Header → Result Error (Unit {0})
  check_kid keys header =
      fail_if (several (l.kids keys) && not (is_some header.kid))
        (authn "id_token has no kid but the JWK Set has several (l.kids keys)")
      >> ensure_kid_names_key (l.kids keys) header.kid "id_token"

  abbrev pub validation : K → String → String → List JwsAlgorithm → IdTokenOptions → Validation
  validation keys issuer client_id algorithms o = record {
    issuer = issuer;
    audience = client_id;
    allowed_algorithms = algorithms;
    leeway = o.leeway;
    max_age = none;
    typ = none;
    require_exp = true;
    require_iat = true;
    require_kid = several (l.kids keys);
  }

  -- `peek_header`
  abbrev pub peek_header : String → Result Error Header
  peek_header token = ok_or (l.decode_header token) (jose "header")

  -- The two checks on token hashes.
  abbrev pub check_hashes : Claims → String → IdTokenOptions → Result Error (Unit {0})
  check_hashes c token o =
      check_token_hash l c token "at_hash" o.access_token o.require_at_hash o.allow_unchecked_hashes
      >> check_token_hash l c token "c_hash" o.authorization_code o.require_c_hash
          o.allow_unchecked_hashes

  unfoldable pub verify_id_token_with :
      K
      → String
      → String
      → String
      → Option String
      → List JwsAlgorithm
      → List String
      → IdTokenOptions
      → Exec W Error Claims
  verify_id_token_with keys id_token issuer client_id expected_nonce algorithms trusted o =
      Exec.◌>>=◌ (lift (check_options algorithms o)) λ _.
        Exec.◌>>=◌ (lift (peek_header id_token)) λ header.
          Exec.◌>>=◌ (lift (check_kid keys header)) λ _.
            Exec.◌>>=◌
              (verify_with_jwks l keys id_token (validation keys issuer client_id algorithms o))
              λ claims.
                Exec.◌>>=◌ (lift (check_claims client_id expected_nonce trusted claims)) λ _.
                  Exec.◌>>=◌ (check_max_age o claims o.max_age) λ _.
                    Exec.◌>>=◌ (lift (check_acr o.acr_values claims))
                      λ _. Exec.◌>>=◌ (lift (check_hashes claims id_token o)) λ _. pure claims

  pub verify_id_token :
      K
      → String
      → String
      → String
      → Option String
      → List JwsAlgorithm
      → List String
      → Exec W Error Claims
  verify_id_token keys id_token issuer client_id expected_nonce algorithms trusted =
      verify_id_token_with keys id_token issuer client_id expected_nonce algorithms trusted
        unchecked_options
