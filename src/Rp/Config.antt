-- ===== src/Rp/Config.antt =====
-- src/rp.rs: the provider and the client as a relying party knows them.
use grindvakt.Prelude.{String, Option, none, some}
use grindvakt.Result.{Result, ok, ok_or, ◌>>◌}
use grindvakt.Error.{Error, config}
use grindvakt.Json.{Json}
use grindvakt.Metadata.{ProviderMetadata}
use grindvakt.Url.{UrlLibrary}
use grindvakt.Rp.Endpoints.{
  validate_issuer, validate_service_endpoint_for_issuer, validate_authorization_endpoint_query,
}

-- `ProviderInfo`
pub record ProviderInfo : Type 0 where
  pub issuer : String
  pub authorization_endpoint : String
  pub token_endpoint : String
  pub userinfo_endpoint : Option String
  pub jwks_uri : Option String

-- `From<ProviderMetadata>`
unfoldable pub provider_info : ProviderMetadata → ProviderInfo
provider_info m = record {
  issuer = m.issuer;
  authorization_endpoint = m.authorization_endpoint;
  token_endpoint = m.token_endpoint;
  userinfo_endpoint = m.userinfo_endpoint;
  jwks_uri = some m.jwks_uri;
}

pub require_userinfo_endpoint : ProviderInfo → Result Error String
require_userinfo_endpoint p =
    ok_or p.userinfo_endpoint (config "provider does not advertise a userinfo_endpoint")

pub require_jwks_uri : ProviderInfo → Result Error String
require_jwks_uri p = ok_or p.jwks_uri (config "provider does not advertise a jwks_uri")

-- An endpoint that is there.
abbrev validate_optional : UrlLibrary → String → Option String → String → Result Error (Unit {0})
validate_optional u name none issuer = ok tt
validate_optional u name (some endpoint) issuer =
    validate_service_endpoint_for_issuer u name endpoint issuer

-- `ProviderInfo::validate`
unfoldable pub validate : UrlLibrary → ProviderInfo → Result Error (Unit {0})
validate u p =
    validate_issuer u p.issuer
    >> (validate_service_endpoint_for_issuer u "authorization_endpoint" p.authorization_endpoint
          p.issuer
        >> (validate_authorization_endpoint_query u p.authorization_endpoint
            >> (validate_service_endpoint_for_issuer u "token_endpoint" p.token_endpoint p.issuer
                >> (validate_optional u "userinfo_endpoint" p.userinfo_endpoint p.issuer
                    >> validate_optional u "jwks_uri" p.jwks_uri p.issuer))))

pub data ClientAuth (S : Type 0) : Type 0 where
  no_auth : ClientAuth S
  client_secret_basic client_secret_post : String → ClientAuth S
  private_key_jwt : S → ClientAuth S

-- `RpClient`
pub record RpClient (S : Type 0) : Type 0 where
  pub client_id : String
  pub redirect_uri : String
  pub auth : ClientAuth S
  pub scope : String

-- `TokenSet`
pub record TokenSet : Type 0 where
  pub access_token : String
  pub id_token : String
  pub token_type : String
  pub raw : Json
