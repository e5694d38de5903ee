-- ===== src/Provider/Grants/Errors.antt =====
-- src/provider.rs: with which errors the token endpoint answers.
use grindvakt.Prelude.{
  ℕ, String, ◌≡◌, refl, subst, Bool, true, false, List, [], ◌∷◌, Option, none, some, ◌==◌, is_some,
  has, not, ◌&&◌, if◌then◌else◌, Bool-cases, inl, inr,
}
use grindvakt.Prelude.Text.{◌<>◌}
use grindvakt.Dict
use grindvakt.Dict.{Dict}
use grindvakt.Result
use grindvakt.Result.{Result, ok, err, fail_if}
use grindvakt.Exec.{Exec, raise}
use grindvakt.Exec.Fails.{
  Fails, FailsWith, fail_if-FailsWith, ok_or-FailsWith, map_err-FailsWith, guard-FailsWith,
  bind-Fails, lift-Fails, run-Fails, if-Fails, when-Fails,
}
use grindvakt.Error.{Error}
use grindvakt.OauthError.{OauthError, error, invalid_scope, unsupported_grant_type}
use grindvakt.Pkce.{Encoding}
use grindvakt.Client.{Client, auth_none}
use grindvakt.Tokens.{AuthCodePayload, RefreshTokenPayload, open_code, open_refresh_token}
use grindvakt.Provider.Defs.{Provider}
use grindvakt.Provider.Defs.Services.{Services, server_failure}
use grindvakt.Provider.Form.{collect_unique, unique_parameters}
use grindvakt.Provider.Clients.Errors.{
  IsTokenError, is_token_error, consumed-FailsWith, authenticate_client_map-Fails,
}
use grindvakt.Provider.Grants.{Dpop, TokenResponse, grant_error, consume_token_once}
use grindvakt.Provider.Grants.Code.{
  redirect_matches, has_s256, check_verifier, check_code, issue_for_code, handle_authorization_code,
}
use grindvakt.Provider.Grants.Refresh.{
  refreshed_binding, narrowed_scope, reissue, handle_refresh_token,
}
use grindvakt.Provider.Grants.Credentials.{
  allowed_scopes, granted_scopes, is_nil, check_credentials, handle_client_credentials,
}
use grindvakt.Provider.Grants.Endpoint.{by_grant, handle_token_request_map, handle_token_request}

abbrev P : OauthError → Type 0
P = IsTokenError

collect_unique-FailsWith :
    (m : Dict String) (params : List (String × String)) → FailsWith P (collect_unique m params)
unfolding collect_unique
collect_unique-FailsWith m [] = tt
collect_unique-FailsWith m ((name, value) ∷ params) =
    elim (Bool-cases (is_some (Dict.get name m))) [
      | inl twice ↦ rw twice (refl, refl)
      | inr new ↦ rw new (collect_unique-FailsWith (Dict.insert name value m) params)
    ]

check_verifier-FailsWith :
    (e : Encoding) (challenge method verifier : Option String)
    → FailsWith P (check_verifier e challenge method verifier)
unfolding check_verifier
check_verifier-FailsWith e none method verifier = tt
check_verifier-FailsWith e (some challenge) method none = (refl, refl)
check_verifier-FailsWith e (some challenge) method (some verifier) =
    fail_if-FailsWith P _ _ (refl, refl)

binding-FailsWith : (jkt dpop : Option String) → FailsWith P (refreshed_binding jkt dpop)
unfolding refreshed_binding
binding-FailsWith none dpop = tt
binding-FailsWith (some jkt) none = (refl, refl)
binding-FailsWith (some jkt) (some key) = elim (Bool-cases (key == jkt)) [
  | inl same ↦ rw same tt
  | inr other ↦ rw other (refl, refl)
]

if-FailsWith :
    {A : Type 0} (b : Bool) (e : OauthError) (a : A) → P e → FailsWith P (if b then err e else ok a)
if-FailsWith true e a h = h
if-FailsWith false e a h = tt

scope-FailsWith : (original : String) (o : Option String) → FailsWith P (narrowed_scope original o)
unfolding narrowed_scope
scope-FailsWith original none = tt
scope-FailsWith original (some requested) = if-FailsWith _ _ _ (refl, refl)

credentials-FailsWith :
    {J : Type 0} (client : Client J) (o : Option String) → FailsWith P (check_credentials client o)
unfolding check_credentials
credentials-FailsWith client o =
    let granted = granted_scopes (allowed_scopes client.scope) o in
    let none_left =
      Result.◌>>◌ (fail_if (is_nil granted) (error invalid_scope "no valid scopes requested"))
        (ok granted) in
    let with_openid =
      Result.◌>>◌
        (fail_if (has "openid" granted)
          (error invalid_scope "openid scope requires end-user authorization"))
        none_left in
    let not_allowed =
      Result.◌>>◌
        (fail_if (not (has "client_credentials" client.grant_types))
          (grant_error "client_credentials grant not allowed for client"))
        with_openid in
    guard-FailsWith P _ _ not_allowed (refl, refl)
      (guard-FailsWith P _ _ with_openid (refl, refl)
        (guard-FailsWith P _ _ none_left (refl, refl)
          (guard-FailsWith P _ _ (ok granted) (refl, refl) tt)))

module _ {J W : Type 0} (p : Provider) (s : Services J W) where
  check_code-FailsWith :
      (client : Client J) (form : Dict String) (q : AuthCodePayload)
      → FailsWith P (check_code p s client form q)
  unfolding check_code
  check_code-FailsWith client form q =
      let last =
        check_verifier s.encoding q.code_challenge q.code_challenge_method
          (Dict.get "code_verifier" form) in
      let no_pkce =
        Result.◌>>◌
          (fail_if
            (client.token_endpoint_auth_method == auth_none
              && not (has_s256 q.code_challenge q.code_challenge_method))
            (grant_error "public client code was issued without S256 PKCE"))
          last in
      let other_uri =
        Result.◌>>◌
          (fail_if (not (redirect_matches q.redirect_uri (Dict.get "redirect_uri" form)))
            (grant_error "redirect_uri mismatch"))
          no_pkce in
      guard-FailsWith P _ _ other_uri (refl, refl)
        (guard-FailsWith P _ _ no_pkce (refl, refl)
          (guard-FailsWith P _ _ last (refl, refl)
            (check_verifier-FailsWith s.encoding q.code_challenge q.code_challenge_method
              (Dict.get "code_verifier" form))))

  server_failure-Fails : {A : Type 0} (m : Exec W Error A) → Fails P (server_failure m)
  unfolding server_failure
  server_failure-Fails m w = map_err-FailsWith P _ (m w).0 λ x. (refl, refl)

  consume-Fails :
      (kind token : String) (exp : ℕ) (message : String)
      → Fails P (consume_token_once s kind token exp message)
  unfolding consume_token_once
  consume-Fails kind token exp message =
      run-Fails P _ _ λ now. run-Fails P _ _ λ answer w. consumed-FailsWith _ answer (refl, refl)

  issue_for_code-Fails :
      (client : Client J) (q : AuthCodePayload) (dpop : Dpop)
      → Fails P (issue_for_code p s client q dpop)
  unfolding issue_for_code
  issue_for_code-Fails client q dpop = run-Fails P _ _ λ now.
      bind-Fails P _ _ (server_failure-Fails _) λ access.
        bind-Fails P _ _ (when-Fails P _ _ (server_failure-Fails _)) λ id_token.
          bind-Fails P _ _ (when-Fails P _ _ (run-Fails P _ _ λ later. server_failure-Fails _))
            λ refresh w. tt

  reissue-Fails :
      (client : Client J) (rt : RefreshTokenPayload) (binding : Option String) (scope : String)
      (now : ℕ) (dpop : Dpop)
      → Fails P (reissue p s client rt binding scope now dpop)
  unfolding reissue
  reissue-Fails client rt binding scope now dpop =
      bind-Fails P _ _ (server_failure-Fails _) λ access.
        bind-Fails P _ _ (when-Fails P _ _ (server_failure-Fails _))
          λ id_token. bind-Fails P _ _ (server_failure-Fails _) λ refresh w. tt

  code-Fails :
      (form : Dict String) (auth : Option String) (url : String) (dpop : Dpop)
      → Fails P (handle_authorization_code p s form auth url dpop)
  unfolding handle_authorization_code
  code-Fails form auth url dpop =
      bind-Fails P _ _ (authenticate_client_map-Fails p s form auth url) λ client.
        lift-Fails P _ _ (fail_if-FailsWith P _ _ (refl, refl)) λ _.
          lift-Fails P _ _ (ok_or-FailsWith P _ _ (refl, refl)) λ code. run-Fails P _ _ λ now.
            lift-Fails P _ _
              (map_err-FailsWith P _ (open_code s.crypto p.codec now code) λ x. (refl, refl))
              λ payload. lift-Fails P _ _ (check_code-FailsWith client form payload) λ _.
                bind-Fails P _ _ (consume-Fails "code" code payload.exp _)
                  λ _. issue_for_code-Fails client payload dpop

  refresh-Fails :
      (form : Dict String) (auth : Option String) (url : String) (dpop : Dpop)
      → Fails P (handle_refresh_token p s form auth url dpop)
  unfolding handle_refresh_token
  refresh-Fails form auth url dpop =
      bind-Fails P _ _ (authenticate_client_map-Fails p s form auth url) λ client.
        lift-Fails P _ _ (fail_if-FailsWith P _ _ (refl, refl)) λ _.
          lift-Fails P _ _ (ok_or-FailsWith P _ _ (refl, refl)) λ token.
            run-Fails P _ _ λ opened_at.
              lift-Fails P _ _
                (map_err-FailsWith P _ (open_refresh_token s.crypto p.codec opened_at token)
                  λ x. (refl, refl))
                λ rt. lift-Fails P _ _ (fail_if-FailsWith P _ _ (refl, refl)) λ _.
                  lift-Fails P _ _ (binding-FailsWith rt.cnf_jkt dpop) λ binding.
                    lift-Fails P _ _ (scope-FailsWith rt.scope (Dict.get "scope" form)) λ scope.
                      run-Fails P _ _ λ now.
                        bind-Fails P _ _ (consume-Fails "refresh" token rt.exp _)
                          λ _. reissue-Fails client rt binding scope now dpop

  credentials-Fails :
      (form : Dict String) (auth : Option String) (url : String) (dpop : Dpop)
      → Fails P (handle_client_credentials p s form auth url dpop)
  unfolding handle_client_credentials
  credentials-Fails form auth url dpop =
      bind-Fails P _ _ (authenticate_client_map-Fails p s form auth url) λ client.
        lift-Fails P _ _ (credentials-FailsWith client (Dict.get "scope" form))
          λ granted. run-Fails P _ _ λ now. bind-Fails P _ _ (server_failure-Fails _) λ access w. tt

  grant-Fails :
      (grant : Option String) (form : Dict String) (auth : Option String) (url : String)
      (dpop : Dpop)
      → Fails P (by_grant p s grant form auth url dpop)
  unfolding by_grant
  grant-Fails none form auth url dpop = λ w. (refl, refl)
  grant-Fails (some grant) form auth url dpop =
      let refused : Exec W OauthError TokenResponse =
        raise (error unsupported_grant_type ("unsupported grant_type: " <> grant)) in
      let refresh = handle_refresh_token p s form auth url dpop in
      let credentials = handle_client_credentials p s form auth url dpop in
      let code = handle_authorization_code p s form auth url dpop in
      let no_credentials = if grant == "refresh_token" then refresh else refused in
      let no_code = if grant == "client_credentials" then credentials else no_credentials in
      if-Fails P (grant == "authorization_code") code no_code (code-Fails form auth url dpop) (
        if-Fails P (grant == "client_credentials") credentials no_credentials
          (credentials-Fails form auth url dpop)
          (if-Fails P (grant == "refresh_token") refresh refused (refresh-Fails form auth url dpop)
            λ w. (refl, refl)))

  -- Every error with which the token endpoint answers has the code invalid_request,
  -- invalid_client, invalid_grant, unsupported_grant_type, invalid_scope, invalid_dpop_proof
  -- or server_error, and echoes no state.
  pub handle_token_request_errors :
      (params : List (String × String)) (auth : Option String) (url : String) (dpop : Dpop) (w : W)
      {e : OauthError}
      → (handle_token_request p s params auth url dpop w).0 ≡ err e
      → (is_token_error e.code ≡ true) × (e.state ≡ none)
  unfolding handle_token_request handle_token_request_map unique_parameters
  handle_token_request_errors params auth url dpop w h = subst (FailsWith P) h (
      lift-Fails P _ _ (collect_unique-FailsWith [] params)
        (λ form. grant-Fails (Dict.get "grant_type" form) form auth url dpop) w)
