-- ===== src/Rp/Examples.antt =====
-- Runs of src/rp.rs.
use grindvakt.Prelude.{String, ◌≡◌, refl, List, [], ◌∷◌, ◌++◌, true, some, IsDistinct}
use grindvakt.Jwt.{JwsAlgorithm, es256}
use grindvakt.Url.{Url}
use grindvakt.Rp.Fixture.{urls, library, info, client, id_claims, verifier, tokens}
use grindvakt.Rp.Exchange.Exchanged.{IsExchanged, exchange_code-IsExchanged}
use grindvakt.Rp.Authorize.{names_of, own_params, url_with}
use grindvakt.Rp.Authorize.Unambiguous.{IsProtected, asks_openid, authorization_url-IsDistinct}
use grindvakt.Rp.IdToken.Options.{IdTokenOptions, id_token_options}
use grindvakt.Rp.IdToken.Verified.{IsVerified, verify_id_token_with-IsVerified}

abbrev options : IdTokenOptions
options = record id_token_options {
  max_age = some 100;
  access_token = some "t";
  require_at_hash = true;
}

abbrev algorithms : List JwsAlgorithm
algorithms = es256 ∷ []

verify_id_token_with-IsVerified_example :
    IsVerified library tt "id" "https://op" "client"
      (some "n")
      algorithms
      ("api" ∷ [])
      options
      tt
      id_claims
unfolding grindvakt.Rp.IdToken.verify_id_token_with grindvakt.Exec.◌>>=◌
    grindvakt.Rp.IdToken.check_options grindvakt.Rp.IdToken.check_kid
    grindvakt.Rp.Kids.ensure_kid_names_key grindvakt.Rp.IdToken.check_claims
    grindvakt.Rp.IdToken.check_audience grindvakt.Rp.IdToken.check_audiences grindvakt.Dict.get
    grindvakt.Rp.IdToken.check_max_age grindvakt.Rp.IdToken.auth_time_secs
    grindvakt.Rp.IdToken.check_auth_time grindvakt.Prelude.Words.saturating_add
    grindvakt.Rp.IdToken.check_acr grindvakt.Rp.IdToken.Hash.check_token_hash
    grindvakt.Rp.IdToken.Hash.compare_hash grindvakt.Jwt.oidc_token_hash
    grindvakt.Pkce.constant_time_eq grindvakt.Prelude.Bytes.as_bytes
verify_id_token_with-IsVerified_example =
    verify_id_token_with-IsVerified library tt "id" "https://op" "client" (some "n") algorithms
      ("api" ∷ []) options tt {claims = id_claims} {w' = tt} refl

abbrev vendor : List (String × String)
vendor = ("resource", "r") ∷ ("resource", "s") ∷ ("hint", "h") ∷ []

abbrev own : List (String × String)
own = own_params library client "s" "n" (some "challenge")

authorization_url-IsDistinct_example :
    (parsed : Url) × (urls.parse info.authorization_endpoint ≡ grindvakt.Result.ok parsed)
    × IsDistinct (names_of (parsed.query_pairs ++ (own ++ vendor)))
    × (url_with library info.authorization_endpoint (own ++ vendor)
        ≡ url_with library info.authorization_endpoint (own ++ vendor))
    × (asks_openid library client ≡ true)
    × IsProtected library client (some "challenge")
unfolding grindvakt.Rp.Authorize.authorization_url grindvakt.Rp.Authorize.check_client
    grindvakt.Rp.Config.validate grindvakt.Rp.Endpoints.validate_issuer
    grindvakt.Rp.Endpoints.validate_endpoint grindvakt.Prelude.Text.any_char
    grindvakt.Prelude.Text.is_whitespace grindvakt.Prelude.Text.is_control
    grindvakt.Error.Escape.is_invisible_format grindvakt.Rp.Endpoints.scheme_ok
    grindvakt.Rp.Endpoints.validate_service_endpoint_for_issuer
    grindvakt.Rp.Endpoints.validate_authorization_endpoint_query
    grindvakt.Rp.Endpoints.validate_redirect_uri_syntax grindvakt.Prelude.Text.split_whitespace
    grindvakt.Pkce.is_valid_s256_challenge grindvakt.Rp.Endpoints.check_query
    grindvakt.Rp.Endpoints.check_parsed grindvakt.Rp.Endpoints.issuer_allows_loopback_http
    grindvakt.Rp.Authorize.validate_authorization_extras grindvakt.Rp.Authorize.check_extras
authorization_url-IsDistinct_example =
    authorization_url-IsDistinct library info client "s" "n" (some "challenge") vendor
      {url = url_with library info.authorization_endpoint (own ++ vendor)} refl

exchange_code-IsExchanged_example : IsExchanged library info client "code" (some verifier) tt tokens
unfolding grindvakt.Exec.◌>>=◌ grindvakt.Rp.Config.validate grindvakt.Rp.Endpoints.validate_issuer
    grindvakt.Rp.Endpoints.validate_endpoint grindvakt.Prelude.Text.any_char
    grindvakt.Prelude.Text.is_whitespace grindvakt.Prelude.Text.is_control
    grindvakt.Error.Escape.is_invisible_format grindvakt.Rp.Endpoints.scheme_ok
    grindvakt.Rp.Endpoints.validate_service_endpoint_for_issuer
    grindvakt.Rp.Endpoints.validate_authorization_endpoint_query
    grindvakt.Rp.Endpoints.validate_redirect_uri_syntax grindvakt.Rp.Endpoints.check_query
    grindvakt.Rp.Endpoints.check_parsed grindvakt.Rp.Endpoints.issuer_allows_loopback_http
    grindvakt.Rp.Exchange.exchange_code grindvakt.Rp.Exchange.check_exchange
    grindvakt.Rp.Exchange.apply_client_auth grindvakt.Rp.Exchange.read_tokens
    grindvakt.Rp.Exchange.token_set grindvakt.Rp.Discover.expect_200
    grindvakt.Pkce.is_valid_verifier grindvakt.Prelude.Bytes.as_bytes
    grindvakt.Prelude.Bytes.utf8_char grindvakt.Prelude.Text.eq_ignore_ascii_case
    grindvakt.Json.Access.get grindvakt.Dict.get grindvakt.Pkce.is_unreserved
exchange_code-IsExchanged_example =
    exchange_code-IsExchanged library info client "code" (some verifier) tt {tokens = tokens}
      {w' = tt} refl
