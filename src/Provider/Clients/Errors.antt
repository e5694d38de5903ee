-- ===== src/Provider/Clients/Errors.antt =====
-- src/provider.rs: with which errors client authentication fails.
use grindvakt.Prelude.{String, ◌≡◌, refl, Bool, true, false, Option, none, some}
use grindvakt.Dict
use grindvakt.Dict.{Dict}
use grindvakt.Result.{Result, ok, err}
use grindvakt.Exec.Fails.{
  Fails, FailsWith, fail_if-FailsWith, ok_or-FailsWith, map_err-FailsWith, step-FailsWith,
  bind-Fails, lift-Fails, run-Fails, if-Fails,
}
use grindvakt.OauthError.{
  OauthErrorCode, OauthError, invalid_request, invalid_client, invalid_grant,
  unsupported_grant_type, invalid_scope, server_error, invalid_dpop_proof,
}
use grindvakt.Jwt.{Claims, peek_claims_unverified}
use grindvakt.Client.{auth_client_secret_basic, auth_client_secret_post}
use grindvakt.Provider.Defs.{Provider}
use grindvakt.Provider.Defs.Services.{Services}
use grindvakt.Provider.Clients.{
  consumed, check_secret, asserted_id, use_assertion, verify_private_key_jwt,
}
use grindvakt.Provider.Clients.Methods.{
  assertion_present, with_assertion, with_basic, with_post, as_public, by_header,
  authenticate_client_map,
}

-- the codes that the token endpoint may answer with
abbrev pub is_token_error : OauthErrorCode → Bool
is_token_error invalid_request = true
is_token_error invalid_client = true
is_token_error invalid_grant = true
is_token_error unsupported_grant_type = true
is_token_error invalid_scope = true
is_token_error invalid_dpop_proof = true
is_token_error server_error = true
is_token_error _ = false

-- The code is one of those, and no state is echoed.
abbrev pub IsTokenError : OauthError → Type 0
IsTokenError e = (is_token_error e.code ≡ true) × (e.state ≡ none)

pub consumed-FailsWith :
    (e : OauthError) (r : Result String Bool)
    → IsTokenError e
    → FailsWith IsTokenError (consumed e r)
unfolding consumed
consumed-FailsWith e (ok true) h = tt
consumed-FailsWith e (ok false) h = h
consumed-FailsWith e (err x) h = (refl, refl)

abbrev P : OauthError → Type 0
P = IsTokenError

module _ {J W : Type 0} (p : Provider) (s : Services J W) where
  check_secret-Fails : (id secret method : String) → Fails P (check_secret s id secret method)
  unfolding check_secret
  check_secret-Fails id secret method = run-Fails P _ _ λ found.
      lift-Fails P _ _ (ok_or-FailsWith P found _ (refl, refl)) λ client.
        lift-Fails P _ _ (fail_if-FailsWith P _ _ (refl, refl))
          λ _. lift-Fails P _ _ (fail_if-FailsWith P _ _ (refl, refl)) λ _ w. tt

  use_assertion-Fails : (id url : String) (c : Claims) → Fails P (use_assertion p s id url c)
  unfolding use_assertion
  use_assertion-Fails id url c = lift-Fails P _ _ (fail_if-FailsWith P _ _ (refl, refl)) λ _.
      lift-Fails P _ _ (ok_or-FailsWith P c.jti _ (refl, refl)) λ jti.
        run-Fails P _ _ λ now. run-Fails P _ _ λ answer w. consumed-FailsWith _ answer (refl, refl)

  asserted_id-FailsWith :
      (assertion : String) (id : Option String) → FailsWith P (asserted_id p s assertion id)
  unfolding asserted_id
  asserted_id-FailsWith assertion (some id) = tt
  asserted_id-FailsWith assertion none =
      step-FailsWith P _ _
        (map_err-FailsWith P _ (peek_claims_unverified s.decode_url s.claims_from_slice assertion)
          λ x. (refl, refl))
        λ claims. ok_or-FailsWith P _ _ (refl, refl)

  verify_private_key_jwt-Fails :
      (assertion : String) (form : Dict String) (url : String)
      → Fails P (verify_private_key_jwt p s assertion form url)
  unfolding verify_private_key_jwt
  verify_private_key_jwt-Fails assertion form url =
      lift-Fails P _ _ (asserted_id-FailsWith assertion (Dict.get "client_id" form)) λ id.
        run-Fails P _ _ λ found. lift-Fails P _ _ (ok_or-FailsWith P found _ (refl, refl)) λ client.
          lift-Fails P _ _ (fail_if-FailsWith P _ _ (refl, refl)) λ _.
            lift-Fails P _ _ (ok_or-FailsWith P client.jwks _ (refl, refl)) λ jwks.
              run-Fails P _ _ λ verified.
                lift-Fails P _ _ (ok_or-FailsWith P verified _ (refl, refl))
                  λ claims. bind-Fails P _ _ (use_assertion-Fails id url claims) λ _ w. tt

  with_assertion-Fails : (form : Dict String) (url : String) → Fails P (with_assertion p s form url)
  unfolding with_assertion
  with_assertion-Fails form url =
      lift-Fails P _ _ (ok_or-FailsWith P (Dict.get "client_assertion" form) _ (refl, refl))
        λ assertion.
          lift-Fails P _ _ (fail_if-FailsWith P _ _ (refl, refl))
            λ _. verify_private_key_jwt-Fails assertion form url

  as_public-Fails : (id : Option String) → Fails P (as_public p s id)
  unfolding as_public
  as_public-Fails none = λ w. (refl, refl)
  as_public-Fails (some id) = run-Fails P _ _ λ found.
      lift-Fails P _ _ (ok_or-FailsWith P found _ (refl, refl))
        λ client. lift-Fails P _ _ (fail_if-FailsWith P _ _ (refl, refl)) λ _ w. tt

  by_header-Fails :
      (form : Dict String) (header secret : Option String)
      → Fails P (by_header p s form header secret)
  unfolding by_header with_basic with_post
  by_header-Fails form (some header) secret =
      lift-Fails P _ _ (ok_or-FailsWith P _ _ (refl, refl)) λ parts.
        lift-Fails P _ _ (fail_if-FailsWith P _ _ (refl, refl)) λ _.
          lift-Fails P _ _ (ok_or-FailsWith P _ _ (refl, refl))
            λ credentials. check_secret-Fails credentials.0 credentials.1 auth_client_secret_basic
  by_header-Fails form none (some secret) =
      lift-Fails P _ _ (ok_or-FailsWith P _ _ (refl, refl))
        λ id. check_secret-Fails id secret auth_client_secret_post
  by_header-Fails form none none = as_public-Fails (Dict.get "client_id" form)

  pub authenticate_client_map-Fails :
      (form : Dict String) (header : Option String) (url : String)
      → Fails IsTokenError (authenticate_client_map p s form header url)
  unfolding authenticate_client_map
  authenticate_client_map-Fails form header url =
      lift-Fails P _ _ (fail_if-FailsWith P _ _ (refl, refl)) λ _.
        if-Fails P (assertion_present form) _ _ (with_assertion-Fails form url)
          (by_header-Fails form header (Dict.get "client_secret" form))
