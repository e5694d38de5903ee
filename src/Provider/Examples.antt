-- ===== src/Provider/Examples.antt =====
-- Runs on the example provider, and values of the components of src/provider.rs.
use grindvakt.Prelude.{not, ◌⊎◌}
use grindvakt.Prelude.{
  ◌≤◌, ◌<◌, ◌+◌, max, ◌≡◌, ◌↔◌, refl, true, false, ◌&&◌, ◌||◌, [], ◌∷◌, none, some, arith, has,
}
use grindvakt.Prelude.Text.{split_whitespace}
use grindvakt.Dict
use grindvakt.Dict.{Dict}
use grindvakt.Json.{Json}
use grindvakt.Http.{Response, redirect}
use grindvakt.Result.{ok}
use grindvakt.Exec.{Returns}
use grindvakt.Request.{
  AuthorizationRequest, use_fragment, wants_code, wants_id_token, wants_access_token,
  validate_response_type, is_oidc,
}
use grindvakt.Jwt.{default_claims, seconds, es256, supports_oidc_token_hash}
use grindvakt.Tokens.{AccessTokenPayload, open_access_token}
use grindvakt.Provider.Defs.{Provider, provider, default_lifetimes}
use grindvakt.Provider.Validate.{validate_authorization_request}
use grindvakt.Provider.Validate.Accepts.{IsAccepted, validate_authorization_request_iff}
use grindvakt.Provider.Validate.Advertised.{advertised_lem}
use grindvakt.Provider.Mint.{
  IdTokenInput, Authentication, build_id_token, mint_authorization_response,
}
use grindvakt.Provider.Mint.Reserved.{IsSigned, build_id_token-IsSigned}
use grindvakt.Provider.Mint.Response.{IsMinted, mint-IsMinted}
use grindvakt.Prelude.{if◌then◌else◌}
use grindvakt.Provider.Clients.{assertion_ttl}
use grindvakt.Provider.Clients.Assertion.{assertion_ttl-covers}
use grindvakt.Provider.Clients.Authenticated.{IsAuthenticated}
use grindvakt.Provider.Clients.Methods.{authenticate_client_map, method_count}
use grindvakt.Provider.Clients.Shown.{authenticate_client_map-IsAuthenticated}
use grindvakt.Provider.Userinfo.{userinfo}
use grindvakt.Provider.Userinfo.Released.{IsPresented, IsAnswer, userinfo_lem}
use grindvakt.Provider.Fixture.{document, op, client, services, request, code_form}

authenticate_client_map-IsAuthenticated_example :
    (method_count code_form none ≤ 1)
    × IsAuthenticated op services code_form none "https://op/token" client
unfolding authenticate_client_map grindvakt.Exec.◌>>=◌ Dict.get
    grindvakt.Provider.Clients.check_secret grindvakt.Pkce.constant_time_eq
    grindvakt.Prelude.Bytes.as_bytes
authenticate_client_map-IsAuthenticated_example =
    authenticate_client_map-IsAuthenticated op services code_form "https://op/token" none []
      {client = client} {w' = []} refl

validate_authorization_request_iff_example :
    Returns (validate_authorization_request op services request) [] client []
    ↔ ((services.client_get "c" [] ≡ (some client, [])) × IsAccepted op services request client)
validate_authorization_request_iff_example =
    validate_authorization_request_iff op services request [] {client = client} {w' = []}

abbrev id_token_input : IdTokenInput
id_token_input = record {
  client_id = "c";
  sub = "u";
  nonce = some "n";
  claims = ("sub", Json.string "other") ∷ ("email", Json.string "u@c") ∷ [];
  acr = none;
  auth_time = 90;
  code = some "code-1";
  access_token = none;
}

build_id_token-IsSigned_example : IsSigned op services id_token_input [] "id-1"
unfolding build_id_token grindvakt.Exec.◌>>=◌ grindvakt.Jwt.oidc_token_hash
    grindvakt.Provider.Defs.Services.drawn
build_id_token-IsSigned_example =
    build_id_token-IsSigned op services id_token_input [] {token = "id-1"} {w' = []}
      (refl, (refl, tt)) refl

abbrev authentication : Authentication
authentication = record { external_claims = []; acr = none; extra_claims = []; auth_time = none }

abbrev location : Response
location = redirect "https://c/cb?code=code-1&state=x&iss=https://op"

mint-IsMinted_example : IsMinted op services request "u" authentication [] location
unfolding mint_authorization_response grindvakt.Exec.◌>>=◌
    grindvakt.Provider.Redirect.check_iss_redirect_collision use_fragment grindvakt.Request.wants
    split_whitespace grindvakt.Prelude.Text.split_once grindvakt.OauthError.split_fragment
    grindvakt.Exec.when grindvakt.Provider.Defs.Services.server_failure
    grindvakt.Provider.Defs.Services.drawn grindvakt.Tokens.seal_code grindvakt.Tokens.seal
    grindvakt.Provider.Redirect.redirect_with grindvakt.Prelude.Text.any_char
    grindvakt.OauthError.encode_params grindvakt.Prelude.Text.join
mint-IsMinted_example =
    mint-IsMinted op services request "u" authentication [] {r = location} {w' = []} refl

userinfo_lem_example :
    (payload : AccessTokenPayload) × (open_access_token services.crypto op.codec 100 "access-1"
      ≡ ok payload)
    × (has "openid" (split_whitespace payload.scope) ≡ true)
    × IsPresented payload.cnf_jkt (some "key")
    × IsAnswer payload (("email", Json.string "u@c") ∷ ("sub", Json.string "u") ∷ [])
unfolding userinfo grindvakt.Exec.◌>>=◌ open_access_token grindvakt.Tokens.open_token
    split_whitespace Dict.insert
userinfo_lem_example =
    userinfo_lem op services "access-1" (some "key") []
      {answer = ("email", Json.string "u@c") ∷ ("sub", Json.string "u") ∷ []} {w' = []} refl

assertion_ttl-covers_example :
    (460
      < 200
        + assertion_ttl
            (record default_claims { exp = some (seconds 500); iat = some (seconds 100) })
            300
            60
            200)
    × (200
          + assertion_ttl
              (record default_claims { exp = some (seconds 500); iat = some (seconds 100) })
              300
              60
              200
        ≤ max (100 + 300 + 60 + 1) (200 + 1))
assertion_ttl-covers_example =
    assertion_ttl-covers
      (record default_claims { exp = some (seconds 500); iat = some (seconds 100) }) (seconds 500)
      (seconds 100) 300 60 200 460 refl refl (omega arith) (omega arith) (omega arith) (omega arith)
      (record { unexpired = omega arith; fresh = omega arith })

abbrev advertising : Provider
advertising = record op {
  emit_iss = false;
  lifetimes = default_lifetimes;
  metadata = record document {
    id_token_signing_alg_values_supported = "ES256" ∷ [];
    response_types_supported =
        "code" ∷ "id_token" ∷ "code token" ∷ "id_token token" ∷ "code id_token"
        ∷ "code id_token token" ∷ [];
    response_modes_supported = "query" ∷ "fragment" ∷ [];
    grant_types_supported =
        "authorization_code" ∷ "implicit" ∷ "client_credentials" ∷ "refresh_token" ∷ [];
    subject_types_supported = "public" ∷ [];
    token_endpoint_auth_methods_supported =
        "client_secret_basic" ∷ "client_secret_post" ∷ "private_key_jwt" ∷ "none" ∷ [];
    code_challenge_methods_supported = "S256" ∷ [];
  };
}

abbrev hybrid : AuthorizationRequest
hybrid = record request { response_type = "code id_token"; scope = "openid" }

advertised_lem_example :
    (validate_response_type hybrid ≡ ok tt)
    × ((wants_id_token hybrid
          && (wants_code hybrid || wants_access_token hybrid)
          && not (supports_oidc_token_hash es256))
        ≡ false)
unfolding provider is_oidc split_whitespace grindvakt.Jwt.is_symmetric_jws_algorithm
    supports_oidc_token_hash grindvakt.Jwt.alg_name
advertised_lem_example =
    advertised_lem document es256 op.codec default_lifetimes advertising hybrid refl refl
      (λ e. refl)
