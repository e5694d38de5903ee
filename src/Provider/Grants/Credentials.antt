-- ===== src/Provider/Grants/Credentials.antt =====
-- src/provider.rs: the `client_credentials` grant.
use grindvakt.Prelude.{
  String, Bool, true, false, not, List, [], ◌∷◌, Option, none, some, ◌==◌, has, unwrap_or, keep,
}
use grindvakt.Prelude.Text.{join, split_whitespace}
use grindvakt.Prelude.Words.{add_u64}
use grindvakt.Dict
use grindvakt.Dict.{Dict}
use grindvakt.Result
use grindvakt.Result.{Result, ok, fail_if}
use grindvakt.Exec.{Exec, pure, lift, ◌>>=◌}
use grindvakt.OauthError.{OauthError, error, invalid_client, invalid_scope}
use grindvakt.Tokens.{seal_access_token}
use grindvakt.Client.{Client, auth_none}
use grindvakt.Provider.Defs.{Provider}
use grindvakt.Provider.Defs.Services.{Services, now_secs, drawn, server_failure}
use grindvakt.Provider.Clients.Methods.{authenticate_client_map}
use grindvakt.Provider.Grants.{TokenResponse, grant_error, Dpop, token_type}

abbrev pub is_nil : List String → Bool
is_nil [] = true
is_nil (x ∷ xs) = false

abbrev pub allowed_scopes : Option String → List String
allowed_scopes scope = split_whitespace (unwrap_or "" scope)

-- requested ∩ allowed, or all that is allowed
unfoldable pub granted_scopes : List String → Option String → List String
granted_scopes allowed none = allowed
granted_scopes allowed (some requested) = keep (λ s. has s allowed) (split_whitespace requested)

-- What is checked of an authenticated client, and the scopes it is granted.
unfoldable pub check_credentials :
    {J : Type 0} → Client J → Option String → Result OauthError (List String)
unfolding granted_scopes
check_credentials client requested =
    let granted = granted_scopes (allowed_scopes client.scope) requested in
    Result.◌>>◌
      (fail_if (client.token_endpoint_auth_method == auth_none)
        (error invalid_client "client_credentials requires confidential client authentication"))
      (Result.◌>>◌
        (fail_if (not (has "client_credentials" client.grant_types))
          (grant_error "client_credentials grant not allowed for client"))
        (Result.◌>>◌
          (fail_if (has "openid" granted)
            (error invalid_scope "openid scope requires end-user authorization"))
          (Result.◌>>◌ (fail_if (is_nil granted) (error invalid_scope "no valid scopes requested"))
            (ok granted))))

module _ {J W : Type 0} (p : Provider) (s : Services J W) where
  unfoldable pub handle_client_credentials :
      Dict String → Option String → String → Dpop → Exec W OauthError TokenResponse
  unfolding check_credentials
  handle_client_credentials form auth_header token_url dpop = do
    client ← authenticate_client_map p s form auth_header token_url
    granted ← lift (check_credentials client (Dict.get "scope" form))
    let scope = join " " granted
    now ← now_secs s
    access_token ← server_failure (
        drawn s (λ r. seal_access_token s.crypto p.codec r (record {
          client_id = client.client_id;
          sub = client.client_id;
          scope = scope;
          claims = [];
          exp = add_u64 now p.lifetimes.access_token_ttl;
          cnf_jkt = dpop;
        })))
    pure (record {
      access_token = access_token;
      token_type = token_type dpop;
      expires_in = p.lifetimes.access_token_ttl;
      id_token = none;
      scope = some scope;
      refresh_token = none;
    })
