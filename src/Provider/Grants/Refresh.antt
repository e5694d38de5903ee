-- ===== src/Provider/Grants/Refresh.antt =====
-- src/provider.rs: the `refresh_token` grant.
use grindvakt.Prelude.{
  ℕ, String, Bool, true, false, not, ◌||◌, List, [], ◌∷◌, Option, none, some, if◌then◌else◌, ◌==◌,
  has, any,
}
use grindvakt.Prelude.Text.{join, split_whitespace}
use grindvakt.Prelude.Words.{add_u64}
use grindvakt.Dict
use grindvakt.Dict.{Dict}
use grindvakt.Result.{Result, ok, err, fail_if, ok_or, map_err}
use grindvakt.Exec.{Exec, pure, lift, when, ◌>>=◌, ◌>>◌}
use grindvakt.OauthError.{OauthError, error, invalid_request, invalid_scope, invalid_dpop_proof}
use grindvakt.Tokens.{
  RefreshTokenPayload, open_refresh_token, seal_access_token, seal_refresh_token,
}
use grindvakt.Jwt.{supports_oidc_token_hash}
use grindvakt.Client.{Client}
use grindvakt.Provider.Defs.{Provider}
use grindvakt.Provider.Defs.Services.{Services, now_secs, drawn, server_failure}
use grindvakt.Provider.Claims.{filter_claims}
use grindvakt.Provider.Mint.{build_id_token}
use grindvakt.Provider.Clients.Methods.{authenticate_client_map}
use grindvakt.Provider.Grants.{
  TokenResponse, grant_error, Dpop, token_type, client_allows_refresh, then_some,
  consume_token_once,
}

-- the key that the new tokens are bound to
unfoldable pub refreshed_binding : Option String → Dpop → Result OauthError (Option String)
refreshed_binding (some bound_jkt) (some jkt) =
    if jkt == bound_jkt
    then ok (some bound_jkt)
    else err (error invalid_dpop_proof "DPoP proof key does not match the refresh token's cnf.jkt")
refreshed_binding (some bound_jkt) none =
    err (error invalid_dpop_proof "refresh token is DPoP-bound; a matching DPoP proof is required")
refreshed_binding none dpop = ok dpop

abbrev is_nil : List String → Bool
is_nil [] = true
is_nil (x ∷ xs) = false

-- the scope of the new tokens, given that of the refresh token and that of the request
unfoldable pub narrowed_scope : String → Option String → Result OauthError String
narrowed_scope original none = ok original
narrowed_scope original (some requested) =
    let requested_scopes = split_whitespace requested in
    let original_scopes = split_whitespace original in
    if is_nil requested_scopes || any (λ scope. not (has scope original_scopes)) requested_scopes
    then err (error invalid_scope "requested scope exceeds original grant")
    else ok (join " " requested_scopes)

module _ {J W : Type 0} (p : Provider) (s : Services J W) where
  -- The tokens that are minted for a refresh token, at the time `now`.
  unfoldable pub reissue :
      Client J
      → RefreshTokenPayload
      → Option String
      → String
      → ℕ
      → Dpop
      → Exec W OauthError TokenResponse
  reissue client rt cnf_jkt scope now dpop = do
    let claims = filter_claims scope rt.claims
    access_token ← server_failure (
        drawn s (λ r. seal_access_token s.crypto p.codec r (record {
          client_id = client.client_id;
          sub = rt.sub;
          scope = scope;
          claims = claims;
          exp = add_u64 now p.lifetimes.access_token_ttl;
          cnf_jkt = cnf_jkt;
        })))
    id_token ← when (has "openid" (split_whitespace scope)) (
        server_failure (
          build_id_token p s (record {
            client_id = client.client_id;
            sub = rt.sub;
            nonce = rt.nonce;
            claims = claims;
            acr = rt.acr;
            auth_time = rt.auth_time;
            code = none;
            access_token = then_some (supports_oidc_token_hash p.signing_alg) access_token;
          })))
    refresh_token ← server_failure (
        drawn s (λ r. seal_refresh_token s.crypto p.codec r (record {
          client_id = client.client_id;
          sub = rt.sub;
          scope = scope;
          nonce = rt.nonce;
          claims = claims;
          auth_time = rt.auth_time;
          exp = add_u64 now p.lifetimes.refresh_token_ttl;
          acr = rt.acr;
          cnf_jkt = cnf_jkt;
        })))
    pure (record {
      access_token = access_token;
      token_type = token_type dpop;
      expires_in = p.lifetimes.access_token_ttl;
      id_token = id_token;
      scope = some scope;
      refresh_token = some refresh_token;
    })

  unfoldable pub handle_refresh_token :
      Dict String → Option String → String → Dpop → Exec W OauthError TokenResponse
  unfolding refreshed_binding narrowed_scope reissue
  handle_refresh_token form auth_header token_url dpop = do
    client ← authenticate_client_map p s form auth_header token_url
    lift (
        fail_if (not (client_allows_refresh client))
          (grant_error "refresh_token grant not allowed for client"))
    token ←
        lift (ok_or (Dict.get "refresh_token" form) (error invalid_request "missing refresh_token"))
    opened_at ← now_secs s
    rt ← lift (
        map_err (λ _. grant_error "invalid or expired refresh_token")
          (open_refresh_token s.crypto p.codec opened_at token))
    lift (
        fail_if (not (rt.client_id == client.client_id))
          (grant_error "refresh token was issued to another client"))
    cnf_jkt ← lift (refreshed_binding rt.cnf_jkt dpop)
    scope ← lift (narrowed_scope rt.scope (Dict.get "scope" form))
    now ← now_secs s
    consume_token_once s "refresh" token rt.exp "refresh token already used"
    reissue client rt cnf_jkt scope now dpop
