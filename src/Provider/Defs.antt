-- ===== src/Provider/Defs.antt =====
-- src/provider.rs: the configuration of a provider, its constructors, and what it is given.
pub mod Services
use grindvakt.Prelude.{ℕ, String, Bool, true, false, List, [], ◌∷◌, ◌++◌, if◌then◌else◌}
use grindvakt.Dict
use grindvakt.Json.{bool}
use grindvakt.Error.{Error, config}
use grindvakt.Result.{Result, ok, ◌>>◌, fail_if}
use grindvakt.Tokens.{TokenCodec}
use grindvakt.Jwt.{JwsAlgorithm, alg_name, supports_oidc_token_hash, is_symmetric_jws_algorithm}
use grindvakt.Metadata.{ProviderMetadata}
use grindvakt.Client.{
  auth_none, auth_client_secret_basic, auth_client_secret_post, auth_private_key_jwt,
}

abbrev pub client_assertion_type : String
client_assertion_type = "urn:ietf:params:oauth:client-assertion-type:jwt-bearer"

-- `TokenLifetimes`, in seconds
pub record TokenLifetimes : Type 0 where
  pub code_ttl : ℕ
  pub access_token_ttl : ℕ
  pub id_token_ttl : ℕ
  pub refresh_token_ttl : ℕ

abbrev pub default_lifetimes : TokenLifetimes
default_lifetimes = record {
  code_ttl = 600;
  access_token_ttl = 3600;
  id_token_ttl = 3600;
  refresh_token_ttl = 2592000;
}

-- `Provider`, without the two stores, which are among the services. Of the signing key the
-- algorithm is kept.
pub record Provider : Type 0 where
  pub metadata : ProviderMetadata
  pub signing_alg : JwsAlgorithm
  pub codec : TokenCodec
  pub lifetimes : TokenLifetimes
  pub caller_managed_pairwise_subjects : Bool
  pub client_assertion_max_age : ℕ
  pub emit_iss : Bool

abbrev pub default_client_assertion_max_age : ℕ
default_client_assertion_max_age = 300

-- the response types that are advertised for an algorithm
unfoldable pub response_types : JwsAlgorithm → List String
response_types alg =
    "code"
    ∷ "id_token"
    ∷ "code token"
    ∷ (if supports_oidc_token_hash alg
        then "id_token token" ∷ "code id_token" ∷ "code id_token token" ∷ []
        else [])

-- `Provider::new`
unfoldable pub provider :
    ProviderMetadata → JwsAlgorithm → TokenCodec → TokenLifetimes → Result Error Provider
unfolding response_types
provider metadata alg codec lifetimes = do
  fail_if (is_symmetric_jws_algorithm alg) (
      config
        "provider ID-token signing requires an asymmetric key; HS* algorithms require each client's own client_secret")
  ok (record {
    metadata = record metadata {
      id_token_signing_alg_values_supported = alg_name alg ∷ [];
      response_types_supported = response_types alg;
      response_modes_supported = "query" ∷ "fragment" ∷ [];
      grant_types_supported =
          "authorization_code" ∷ "implicit" ∷ "client_credentials" ∷ "refresh_token" ∷ [];
      subject_types_supported = "public" ∷ [];
      token_endpoint_auth_methods_supported =
          auth_client_secret_basic ∷ auth_client_secret_post ∷ auth_private_key_jwt ∷ auth_none
          ∷ [];
      code_challenge_methods_supported = "S256" ∷ [];
      claims_parameter_supported = false;
      request_parameter_supported = false;
    };
    signing_alg = alg;
    codec = codec;
    lifetimes = lifetimes;
    caller_managed_pairwise_subjects = false;
    client_assertion_max_age = default_client_assertion_max_age;
    emit_iss = false;
  })

pub with_caller_managed_pairwise_subjects : Provider → Provider
with_caller_managed_pairwise_subjects p = record p {
  caller_managed_pairwise_subjects = true;
  metadata = record (p.metadata) { subject_types_supported = "public" ∷ "pairwise" ∷ [] };
}

abbrev pub with_client_assertion_max_age : ℕ → Provider → Provider
with_client_assertion_max_age secs p = record p { client_assertion_max_age = secs }

pub with_authorization_response_iss : Provider → Provider
with_authorization_response_iss p = record p {
  emit_iss = true;
  metadata = record (p.metadata) {
    extra =
        Dict.insert "authorization_response_iss_parameter_supported" (bool true) p.metadata.extra;
  };
}
