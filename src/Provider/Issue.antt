-- ===== src/Provider/Issue.antt =====
-- src/provider.rs: the entry points that issue an authorization response.
pub mod Pairwise
use grindvakt.Prelude.{String, Bool, false, not, List, [], Option, none, some, ◌==◌, if◌then◌else◌}
use grindvakt.Dict.{Dict}
use grindvakt.Json.{Json}
use grindvakt.Result
use grindvakt.Result.{Result, ok, err, ok_or, fail_if}
use mathlib.Core.Option
use grindvakt.Exec.{Exec, lift, ◌>>=◌, ◌>>◌}
use grindvakt.Http.{Response}
use grindvakt.OauthError.{OauthError, error, with_state, server_error, unauthorized_client}
use grindvakt.Request.{AuthorizationRequest}
use grindvakt.Client.{Client}
use grindvakt.Provider.Defs.{Provider}
use grindvakt.Provider.Defs.Services.{Services, get_client}
use grindvakt.Provider.Validate.{validate_authorization_request}
use grindvakt.Provider.Mint.{Authentication, mint_authorization_response}

-- what the resolver of a precomputed subject answers
unfoldable pub precomputed :
    {J : Type 0} → AuthorizationRequest → String → Client J → Result OauthError String
precomputed req sub client =
    if not (client.subject_type == "public")
    then err (
        with_state req.state
          (error unauthorized_client "pairwise subjects require an issuance-time subject resolver"))
    else ok sub

module _ {J W : Type 0} (p : Provider) (s : Services J W) where
  -- the closure `registration_value`
  unfoldable pub registration_value : Client J → Result OauthError Json
  registration_value client =
      ok_or
        (s.to_value (
          record client { jwks = Option.map s.without_extras client.jwks },
          Option.map s.key_extras client.jwks,
        ))
        (error server_error "cannot compare client registration")

  -- whether the registration is still the one that was validated
  unfoldable pub still_registered : Client J → Option (Client J) → Result OauthError Bool
  still_registered client none = ok false
  still_registered client (some current) =
      Result.◌>>=◌ (registration_value client)
        λ old. Result.◌>>=◌ (registration_value current) λ new. ok (s.value_eq old new)

  -- `authorization_redirect_with_claims_subject_resolver_and_auth_time`
  unfoldable pub redirect_with_subject_resolver_and_auth_time :
      AuthorizationRequest
      → (Client J → Result OauthError String)
      → Authentication
      → Exec W OauthError Response
  unfolding still_registered
  redirect_with_subject_resolver_and_auth_time req resolve_subject a = do
    client ← validate_authorization_request p s req
    sub ← lift (resolve_subject client)
    current ← get_client s req.client_id
    unchanged ← lift (still_registered client current)
    lift (
        fail_if (not unchanged) (
          with_state req.state
            (error unauthorized_client "client registration changed during subject resolution")))
    mint_authorization_response p s req sub a

  -- `authorization_redirect_with_claims_and_subject_resolver`
  abbrev pub redirect_with_claims_and_subject_resolver :
      AuthorizationRequest
      → (Client J → Result OauthError String)
      → Dict (List String)
      → Option String
      → Dict Json
      → Exec W OauthError Response
  redirect_with_claims_and_subject_resolver req resolve_subject external acr extra =
      redirect_with_subject_resolver_and_auth_time req resolve_subject
        (record { external_claims = external; acr = acr; extra_claims = extra; auth_time = none })

  abbrev pub redirect_with_subject_resolver :
      AuthorizationRequest
      → (Client J → Result OauthError String)
      → Dict (List String)
      → Option String
      → Exec W OauthError Response
  redirect_with_subject_resolver req resolve_subject external acr =
      redirect_with_claims_and_subject_resolver req resolve_subject external acr []

  -- `authorization_redirect_with_auth_time`
  unfoldable pub authorization_redirect_with_auth_time :
      AuthorizationRequest → String → Authentication → Exec W OauthError Response
  authorization_redirect_with_auth_time req sub a =
      redirect_with_subject_resolver_and_auth_time req (precomputed req sub) a

  unfoldable pub authorization_redirect_with_claims :
      AuthorizationRequest
      → String
      → Dict (List String)
      → Option String
      → Dict Json
      → Exec W OauthError Response
  authorization_redirect_with_claims req sub external acr extra =
      authorization_redirect_with_auth_time req sub
        (record { external_claims = external; acr = acr; extra_claims = extra; auth_time = none })

  unfoldable pub authorization_redirect :
      AuthorizationRequest
      → String
      → Dict (List String)
      → Option String
      → Exec W OauthError Response
  authorization_redirect req sub external acr =
      authorization_redirect_with_claims req sub external acr []
