-- ===== src/Provider/Grants/Endpoint.antt =====
-- src/provider.rs: the token endpoint.
use grindvakt.Prelude.{String, List, Option, none, some, if◌then◌else◌, ◌==◌}
use grindvakt.Prelude.Text.{◌<>◌}
use grindvakt.Dict
use grindvakt.Dict.{Dict}
use grindvakt.Exec.{Exec, lift, raise, ◌>>=◌}
use grindvakt.OauthError.{OauthError, error, invalid_request, unsupported_grant_type}
use grindvakt.Provider.Defs.{Provider}
use grindvakt.Provider.Defs.Services.{Services}
use grindvakt.Provider.Form.{unique_parameters}
use grindvakt.Provider.Grants.{TokenResponse, Dpop}
use grindvakt.Provider.Grants.Code.{handle_authorization_code}
use grindvakt.Provider.Grants.Credentials.{handle_client_credentials}
use grindvakt.Provider.Grants.Refresh.{handle_refresh_token}

module _ {J W : Type 0} (p : Provider) (s : Services J W) where
  unfoldable pub by_grant :
      Option String → Dict String → Option String → String → Dpop → Exec W OauthError TokenResponse
  by_grant none form auth_header token_url dpop = raise (error invalid_request "missing grant_type")
  by_grant (some grant_type) form auth_header token_url dpop =
      if grant_type == "authorization_code"
      then handle_authorization_code p s form auth_header token_url dpop
      else if grant_type == "client_credentials"
      then handle_client_credentials p s form auth_header token_url dpop
      else if grant_type == "refresh_token"
      then handle_refresh_token p s form auth_header token_url dpop
      else raise (error unsupported_grant_type ("unsupported grant_type: " <> grant_type))

  unfoldable pub handle_token_request_map :
      Dict String → Option String → String → Dpop → Exec W OauthError TokenResponse
  unfolding by_grant
  handle_token_request_map form auth_header token_url dpop =
      by_grant (Dict.get "grant_type" form) form auth_header token_url dpop

  unfoldable pub handle_token_request :
      List (String × String) → Option String → String → Dpop → Exec W OauthError TokenResponse
  handle_token_request params auth_header token_url dpop = do
    form ← lift (unique_parameters params)
    handle_token_request_map form auth_header token_url dpop
