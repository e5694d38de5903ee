-- ===== src/Rp/Discover.antt =====
-- src/rp.rs: discovery of a provider and of its keys.
use grindvakt.Prelude.{ℕ, String, not, Option, nat_eq, ◌==◌}
use grindvakt.Prelude.Text.{◌<>◌, show}
use grindvakt.Prelude.Slices.{trim_end_matches}
use grindvakt.Result.{Result, ok_or, fail_if}
use grindvakt.Exec
use grindvakt.Exec.{Exec, lift, pure}
use grindvakt.Error.{Error, authn, json, jose}
use grindvakt.Error.Escape.{display_safe}
use grindvakt.Metadata.{ProviderMetadata}
use grindvakt.Http.Fetch.{HttpFetchResponse, header, cache_control, age}
use grindvakt.Http.Lifetime
use grindvakt.Http.Lifetime.{remaining, advertised_ttl}
use grindvakt.Prelude.{unwrap_or}
use grindvakt.Rp.Library.{RpLibrary}
use grindvakt.Rp.Upstream
use grindvakt.Rp.Upstream.{UpstreamKind, upstream_error}
use grindvakt.Rp.Config.{provider_info, validate}
use grindvakt.Rp.Endpoints.{validate_issuer, validate_service_endpoint_for_issuer}

-- `MAX_JWKS_CACHE_TTL_SECS`
abbrev pub max_jwks_cache_ttl_secs : ℕ
max_jwks_cache_ttl_secs = 86400

-- `DiscoveryResponse`
pub record DiscoveryResponse : Type 0 where
  pub metadata : ProviderMetadata
  pub response : HttpFetchResponse

-- its `cache_ttl_secs_max` and `cache_ttl_secs`
pub discovery_ttl_secs_max : DiscoveryResponse → ℕ → Option ℕ
discovery_ttl_secs_max r ceiling = Lifetime.cache_ttl_secs_max r.response ceiling

pub discovery_ttl_secs : DiscoveryResponse → Option ℕ
unfolding discovery_ttl_secs_max
discovery_ttl_secs r = discovery_ttl_secs_max r max_jwks_cache_ttl_secs

-- `JwksResponse`
pub record JwksResponse (K : Type 0) : Type 0 where
  pub jwks : K
  pub cache_control : Option String
  pub etag : Option String
  pub age : Option ℕ

-- its `cache_ttl_secs_max` and `cache_ttl_secs`
pub jwks_ttl_secs_max : {K : Type 0} → JwksResponse K → ℕ → Option ℕ
jwks_ttl_secs_max r ceiling = remaining ceiling (unwrap_or 0 r.age) (advertised_ttl r.cache_control)

pub jwks_ttl_secs : {K : Type 0} → JwksResponse K → Option ℕ
unfolding jwks_ttl_secs_max
jwks_ttl_secs r = jwks_ttl_secs_max r max_jwks_cache_ttl_secs

module _ {K S W : Type 0} (l : RpLibrary K S W) where
  -- A response of status 200, or the error for it.
  unfoldable pub expect_200 : UpstreamKind → String → HttpFetchResponse → Result Error (Unit {0})
  expect_200 kind message r =
      fail_if (not (nat_eq r.status 200)) (upstream_error l.utf8_lossy l.from_slice kind message r)

  unfoldable pub discover_response : String → Exec W Error DiscoveryResponse
  discover_response issuer =
      let url =
        trim_end_matches (λ c. nat_eq c b'/') issuer <> "/.well-known/openid-configuration" in
      Exec.◌>>=◌ (lift (validate_issuer l.urls issuer)) λ _. Exec.◌>>=◌ (l.http_get url) λ r.
        Exec.◌>>=◌
          (lift (
            expect_200 Upstream.metadata
              ("discovery failed (" <> show r.status <> ") for " <> display_safe url) r))
          λ _.
            Exec.◌>>=◌ (lift (ok_or (l.metadata_from_slice r.body) (json "metadata"))) λ metadata.
              Exec.◌>>=◌
                (lift (
                  fail_if (not (metadata.issuer == issuer)) (
                    authn (
                      "discovered issuer "
                      <> display_safe metadata.issuer
                      <> " does not match requested issuer "
                      <> display_safe issuer))))
                λ _.
                  Exec.◌>>=◌ (lift (validate l.urls (provider_info metadata)))
                    λ _. pure (record { metadata = metadata; response = r })

  unfoldable pub discover : String → Exec W Error ProviderMetadata
  discover issuer = Exec.◌>>=◌ (discover_response issuer) λ r. pure r.metadata

  unfoldable pub fetch_jwks_response : String → String → Exec W Error (JwksResponse K)
  fetch_jwks_response jwks_uri issuer = Exec.◌>>=◌ (lift (validate_issuer l.urls issuer)) λ _.
      Exec.◌>>=◌ (lift (validate_service_endpoint_for_issuer l.urls "jwks_uri" jwks_uri issuer))
        λ _. Exec.◌>>=◌ (l.http_get jwks_uri) λ r.
          Exec.◌>>=◌
            (lift (expect_200 Upstream.metadata ("jwks fetch failed (" <> show r.status <> ")") r))
            λ _.
              Exec.◌>>=◌ (lift (ok_or (l.jwks_from_json (l.utf8_lossy r.body)) (jose "jwks")))
                λ jwks. pure (record {
                  jwks = jwks;
                  cache_control = cache_control r;
                  etag = header r "etag";
                  age = age r;
                })

  unfoldable pub fetch_jwks : String → String → Exec W Error K
  fetch_jwks jwks_uri issuer = Exec.◌>>=◌ (fetch_jwks_response jwks_uri issuer) λ r. pure r.jwks
