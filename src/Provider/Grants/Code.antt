-- ===== src/Provider/Grants/Code.antt =====
-- src/provider.rs: the `authorization_code` grant.
use grindvakt.Prelude.{String, Bool, false, not, ◌&&◌, ◌||◌, Option, none, some, ◌==◌, has}
use grindvakt.Prelude.Text.{is_empty, split_whitespace}
use grindvakt.Prelude.Words.{add_u64}
use grindvakt.Dict
use grindvakt.Dict.{Dict}
use grindvakt.Result.{Result, ok, err, fail_if, ok_or, map_err}
use grindvakt.Result
use grindvakt.Exec.{Exec, pure, lift, when, ◌>>=◌, ◌>>◌}
use grindvakt.OauthError.{OauthError, error, invalid_request}
use grindvakt.Pkce.{Encoding, verify}
use grindvakt.Tokens.{AuthCodePayload, open_code, seal_access_token, seal_refresh_token}
use grindvakt.Jwt.{supports_oidc_token_hash}
use grindvakt.Client.{Client, auth_none}
use grindvakt.Provider.Defs.{Provider}
use grindvakt.Provider.Defs.Services.{Services, now_secs, drawn, server_failure}
use grindvakt.Provider.Mint.{build_id_token}
use grindvakt.Provider.Clients.Methods.{authenticate_client_map}
use grindvakt.Provider.Grants.{
  TokenResponse, grant_error, Dpop, token_type, client_allows_refresh, then_some,
  consume_token_once,
}

-- `if let Some(uri) = form.get("redirect_uri") && uri == expected`, where one was sealed in
unfoldable pub redirect_matches : String → Option String → Bool
redirect_matches expected none = is_empty expected
redirect_matches expected (some uri) = is_empty expected || uri == expected

-- whether a challenge was sealed in that a public client may redeem
unfoldable pub has_s256 : Option String → Option String → Bool
has_s256 (some challenge) (some method) = method == "S256" && not (is_empty challenge)
has_s256 _ _ = false

unfoldable pub check_verifier :
    Encoding → Option String → Option String → Option String → Result OauthError (Unit {0})
check_verifier e none method verifier = ok tt
check_verifier e (some challenge) method none = err (grant_error "missing code_verifier")
check_verifier e (some challenge) method (some verifier) =
    fail_if (not (verify e verifier challenge method)) (grant_error "PKCE verification failed")

module _ {J W : Type 0} (p : Provider) (s : Services J W) where
  -- What is checked of the opened code, in the order of the code.
  unfoldable pub check_code :
      Client J → Dict String → AuthCodePayload → Result OauthError (Unit {0})
  unfolding redirect_matches has_s256 check_verifier
  check_code client form payload =
      Result.◌>>◌
        (fail_if (not (payload.client_id == client.client_id))
          (grant_error "code was issued to another client"))
        (Result.◌>>◌
          (fail_if (not (redirect_matches payload.redirect_uri (Dict.get "redirect_uri" form)))
            (grant_error "redirect_uri mismatch"))
          (Result.◌>>◌
            (fail_if
              (client.token_endpoint_auth_method == auth_none
                && not (has_s256 payload.code_challenge payload.code_challenge_method))
              (grant_error "public client code was issued without S256 PKCE"))
            (check_verifier s.encoding payload.code_challenge payload.code_challenge_method
              (Dict.get "code_verifier" form))))

  -- The tokens that are minted for a code.
  unfoldable pub issue_for_code :
      Client J → AuthCodePayload → Dpop → Exec W OauthError TokenResponse
  issue_for_code client payload dpop = do
    now ← now_secs s
    access_token ← server_failure (
        drawn s (λ r. seal_access_token s.crypto p.codec r (record {
          client_id = client.client_id;
          sub = payload.sub;
          scope = payload.scope;
          claims = payload.claims;
          exp = add_u64 now p.lifetimes.access_token_ttl;
          cnf_jkt = dpop;
        })))
    id_token ← when (has "openid" (split_whitespace payload.scope)) (
        server_failure (
          build_id_token p s (record {
            client_id = client.client_id;
            sub = payload.sub;
            nonce = payload.nonce;
            claims = payload.claims;
            acr = payload.acr;
            auth_time = payload.auth_time;
            code = none;
            access_token = then_some (supports_oidc_token_hash p.signing_alg) access_token;
          })))
    refresh_token ← when (client_allows_refresh client) (do
      later ← now_secs s
      server_failure (
          drawn s (λ r. seal_refresh_token s.crypto p.codec r (record {
            client_id = client.client_id;
            sub = payload.sub;
            scope = payload.scope;
            nonce = payload.nonce;
            claims = payload.claims;
            auth_time = payload.auth_time;
            exp = add_u64 later p.lifetimes.refresh_token_ttl;
            acr = payload.acr;
            cnf_jkt = dpop;
          }))))
    pure (record {
      access_token = access_token;
      token_type = token_type dpop;
      expires_in = p.lifetimes.access_token_ttl;
      id_token = id_token;
      scope = some payload.scope;
      refresh_token = refresh_token;
    })

  unfoldable pub handle_authorization_code :
      Dict String → Option String → String → Dpop → Exec W OauthError TokenResponse
  unfolding check_code issue_for_code
  handle_authorization_code form auth_header token_url dpop = do
    client ← authenticate_client_map p s form auth_header token_url
    lift (
        fail_if (not (has "authorization_code" client.grant_types))
          (grant_error "authorization_code grant not allowed for client"))
    code ← lift (ok_or (Dict.get "code" form) (error invalid_request "missing code"))
    now ← now_secs s
    payload ←
        lift (
          map_err (λ _. grant_error "invalid or expired code")
            (open_code s.crypto p.codec now code))
    lift (check_code client form payload)
    consume_token_once s "code" code payload.exp "authorization code already used"
    issue_for_code client payload dpop
