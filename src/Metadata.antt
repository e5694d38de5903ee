-- ===== src/Metadata.antt =====
-- src/metadata.rs: the discovery document.
use grindvakt.Prelude.{
  String, Bool, false, List, [], ◌∷◌, Option, none, some, if◌then◌else◌, nat_eq, ◌&&◌, ℕ,
}
use grindvakt.Prelude.Text.{◌<>◌, all_chars}
use Prim.Native.Char.{code}
use grindvakt.Dict.{Dict}
use grindvakt.Json.{Json}

-- `ProviderMetadata`
pub record ProviderMetadata : Type 0 where
  pub issuer : String
  pub authorization_endpoint : String
  pub token_endpoint : String
  pub userinfo_endpoint : Option String
  pub jwks_uri : String
  pub registration_endpoint : Option String
  pub scopes_supported : List String
  pub response_types_supported : List String
  pub response_modes_supported : List String
  pub grant_types_supported : List String
  pub subject_types_supported : List String
  pub id_token_signing_alg_values_supported : List String
  pub token_endpoint_auth_methods_supported : List String
  pub claims_supported : List String
  pub code_challenge_methods_supported : List String
  pub claims_parameter_supported : Bool
  pub request_parameter_supported : Bool
  pub dpop_signing_alg_values_supported : List String
  pub extra : Dict Json

-- `s.trim_end_matches(c)`
pub trim_end_matches : ℕ → String → String
trim_end_matches d String.[] = String.[]
trim_end_matches d (String.◌∷◌ c s) =
    let rest = trim_end_matches d s in
    if nat_eq (code c) d && all_chars (λ b. nat_eq b d) s then String.[] else String.◌∷◌ c rest

-- `ProviderMetadata::new`
pub metadata : String → String → ProviderMetadata
unfolding trim_end_matches
metadata issuer base =
    let b = trim_end_matches b'/' base in
    record {
      issuer = issuer;
      authorization_endpoint = b <> "/authorization";
      token_endpoint = b <> "/token";
      userinfo_endpoint = some (b <> "/userinfo");
      jwks_uri = b <> "/jwks";
      registration_endpoint = none;
      scopes_supported = "openid" ∷ "profile" ∷ "email" ∷ [];
      response_types_supported = "code" ∷ [];
      response_modes_supported = "query" ∷ "fragment" ∷ [];
      grant_types_supported = "authorization_code" ∷ "client_credentials" ∷ "refresh_token" ∷ [];
      subject_types_supported = "public" ∷ [];
      id_token_signing_alg_values_supported = "RS256" ∷ "ES256" ∷ [];
      token_endpoint_auth_methods_supported =
          "client_secret_basic" ∷ "client_secret_post" ∷ "private_key_jwt" ∷ [];
      claims_supported = "sub" ∷ "iss" ∷ "aud" ∷ "exp" ∷ [];
      code_challenge_methods_supported = "S256" ∷ [];
      claims_parameter_supported = false;
      request_parameter_supported = false;
      dpop_signing_alg_values_supported = [];
      extra = [];
    }
