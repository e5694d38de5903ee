-- ===== src/Provider/Grants/Examples.antt =====
-- Runs of the grants on the example provider.
use grindvakt.Dict
use grindvakt.Dict.{Dict}
use grindvakt.OauthError.{error, invalid_grant}
use grindvakt.Provider.Clients.Errors.{is_token_error}
use grindvakt.Provider.Grants.Errors.{handle_token_request_errors}
use grindvakt.Prelude.{IsDistinct}
use grindvakt.Provider.Grants.Endpoint.{handle_token_request}
use grindvakt.Provider.Grants.Answers.{IsEarned, handle_token_request-IsEarned}
use grindvakt.Prelude.{String, ◌≡◌, refl, true, [], ◌∷◌, none, some}
use grindvakt.Provider.Grants.{TokenResponse}
use grindvakt.Provider.Grants.Code.{handle_authorization_code}
use grindvakt.Provider.Grants.Redeem.{IsRedeemed, code-IsRedeemed}
use grindvakt.Prelude.Text.{split_whitespace}
use grindvakt.Provider.Grants.Refresh.{handle_refresh_token}
use grindvakt.Provider.Grants.Narrow.{IsRefreshed}
use grindvakt.Provider.Grants.Scopes.{IsWithin, IsBound, refresh-narrows}
use grindvakt.Provider.Fixture.{op, services, code_form, refresh_form}

abbrev redeemed : TokenResponse
redeemed = record {
  access_token = "access-1";
  token_type = "Bearer";
  expires_in = 3600;
  id_token = some "id-1";
  scope = some "openid";
  refresh_token = some "refresh-1";
}

code-IsRedeemed_example : IsRedeemed op services code_form none "https://op/token" none [] redeemed
unfolding handle_authorization_code grindvakt.Exec.◌>>=◌
    grindvakt.Provider.Clients.Methods.authenticate_client_map grindvakt.Dict.get
    grindvakt.Provider.Clients.check_secret grindvakt.Pkce.constant_time_eq
    grindvakt.Prelude.Bytes.as_bytes grindvakt.Tokens.open_code grindvakt.Tokens.open_token
    grindvakt.Provider.Grants.consume_token_once grindvakt.Provider.Clients.consumed
    grindvakt.Provider.Defs.Services.server_failure grindvakt.Provider.Defs.Services.drawn
    grindvakt.Tokens.seal_access_token grindvakt.Tokens.seal grindvakt.Exec.when
    grindvakt.Prelude.Text.split_whitespace grindvakt.Provider.Mint.build_id_token
    grindvakt.Jwt.supports_oidc_token_hash grindvakt.Jwt.oidc_token_hash
    grindvakt.Provider.Grants.client_allows_refresh grindvakt.Tokens.seal_refresh_token
    grindvakt.Provider.Grants.token_type grindvakt.Provider.Form.token_use_hash
code-IsRedeemed_example =
    code-IsRedeemed op services code_form none "https://op/token" none [] {r = redeemed}
      {w' = "code:digest" ∷ []} refl

abbrev refreshed : TokenResponse
refreshed = record {
  access_token = "access-1";
  token_type = "DPoP";
  expires_in = 3600;
  id_token = none;
  scope = some "email";
  refresh_token = some "refresh-1";
}

refresh-narrows_example :
    (f : IsRefreshed op services refresh_form none "https://op/token" (some "key") [] refreshed)
    × IsWithin "email" f.rt.scope
    × IsBound f.rt.cnf_jkt (some "key") f.binding
unfolding handle_refresh_token grindvakt.Exec.◌>>=◌
    grindvakt.Provider.Clients.Methods.authenticate_client_map grindvakt.Dict.get
    grindvakt.Provider.Clients.check_secret grindvakt.Pkce.constant_time_eq
    grindvakt.Prelude.Bytes.as_bytes grindvakt.Provider.Grants.client_allows_refresh
    grindvakt.Tokens.open_refresh_token grindvakt.Tokens.open_token split_whitespace
    grindvakt.Provider.Grants.consume_token_once grindvakt.Provider.Clients.consumed
    grindvakt.Provider.Defs.Services.server_failure grindvakt.Provider.Defs.Services.drawn
    grindvakt.Tokens.seal_access_token grindvakt.Tokens.seal grindvakt.Exec.when
    grindvakt.Prelude.Text.join grindvakt.Tokens.seal_refresh_token
    grindvakt.Provider.Grants.token_type grindvakt.Provider.Form.token_use_hash
refresh-narrows_example =
    refresh-narrows op services refresh_form none "https://op/token" (some "key") [] {r = refreshed}
      {w' = "refresh:digest" ∷ []} refl

handle_token_request-IsEarned_example :
    (form : Dict String) × IsDistinct (Dict.keys code_form)
    × ((k : String) → Dict.get k form ≡ Dict.get k code_form)
    × IsEarned op services
        (Dict.get "grant_type" form)
        form
        none
        "https://op/token"
        none
        []
        redeemed
unfolding handle_token_request grindvakt.Provider.Form.unique_parameters Dict.insert
    grindvakt.Provider.Grants.Endpoint.handle_token_request_map handle_authorization_code
    grindvakt.Exec.◌>>=◌ grindvakt.Provider.Clients.Methods.authenticate_client_map
    grindvakt.Dict.get grindvakt.Provider.Clients.check_secret grindvakt.Pkce.constant_time_eq
    grindvakt.Prelude.Bytes.as_bytes grindvakt.Tokens.open_code grindvakt.Tokens.open_token
    grindvakt.Provider.Grants.consume_token_once grindvakt.Provider.Clients.consumed
    grindvakt.Provider.Defs.Services.server_failure grindvakt.Provider.Defs.Services.drawn
    grindvakt.Tokens.seal_access_token grindvakt.Tokens.seal grindvakt.Exec.when
    grindvakt.Prelude.Text.split_whitespace grindvakt.Provider.Mint.build_id_token
    grindvakt.Jwt.supports_oidc_token_hash grindvakt.Jwt.oidc_token_hash
    grindvakt.Provider.Grants.client_allows_refresh grindvakt.Tokens.seal_refresh_token
    grindvakt.Provider.Grants.token_type grindvakt.Provider.Form.token_use_hash
handle_token_request-IsEarned_example =
    handle_token_request-IsEarned op services code_form none "https://op/token" none []
      {r = redeemed} {w' = "code:digest" ∷ []} refl

handle_token_request_errors_example :
    (is_token_error (error invalid_grant "authorization code already used").code ≡ true)
    × ((error invalid_grant "authorization code already used").state ≡ none)
unfolding handle_token_request grindvakt.Provider.Form.unique_parameters Dict.insert
    grindvakt.Provider.Grants.Endpoint.handle_token_request_map handle_authorization_code
    grindvakt.Exec.◌>>=◌ grindvakt.Provider.Clients.Methods.authenticate_client_map
    grindvakt.Dict.get grindvakt.Provider.Clients.check_secret grindvakt.Pkce.constant_time_eq
    grindvakt.Prelude.Bytes.as_bytes grindvakt.Tokens.open_code grindvakt.Tokens.open_token
    grindvakt.Provider.Grants.consume_token_once grindvakt.Provider.Clients.consumed
    grindvakt.Provider.Defs.Services.server_failure grindvakt.Provider.Defs.Services.drawn
    grindvakt.Tokens.seal_access_token grindvakt.Tokens.seal grindvakt.Exec.when
    grindvakt.Prelude.Text.split_whitespace grindvakt.Provider.Mint.build_id_token
    grindvakt.Jwt.supports_oidc_token_hash grindvakt.Jwt.oidc_token_hash
    grindvakt.Provider.Grants.client_allows_refresh grindvakt.Tokens.seal_refresh_token
    grindvakt.Provider.Grants.token_type grindvakt.Provider.Form.token_use_hash
handle_token_request_errors_example =
    handle_token_request_errors op services code_form none "https://op/token" none
      ("code:digest" ∷ []) {e = error invalid_grant "authorization code already used"} refl
