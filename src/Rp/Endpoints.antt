-- ===== src/Rp/Endpoints.antt =====
-- src/rp.rs: the policy on URLs that the program calls or sends.
use grindvakt.Prelude.{
  ℕ, String, List, [], ◌∷◌, Bool, true, false, not, ◌&&◌, ◌||◌, Option, none, some, is_some,
  unwrap_or, nat_eq, ◌==◌, has, if◌then◌else◌,
}
use grindvakt.Prelude.Text.{
  is_empty, any_char, is_whitespace, is_control, eq_ignore_ascii_case, ◌<>◌,
}
use grindvakt.Prelude.Slices.{trim_start_matches, trim_end_matches}
use grindvakt.Error.{Error, bad_request}
use grindvakt.Error.Escape.{is_invisible_format, display_safe}
use grindvakt.Result.{Result, ok, err, ◌>>=◌, ◌>>◌, fail_if, map_err}
use grindvakt.Url.{Url, UrlLibrary}

-- What a URL that is sent as it stands must not hold.
abbrev pub is_hidden_or_space : ℕ → Bool
is_hidden_or_space c = is_whitespace c || is_control c || is_invisible_format c

-- `RESERVED`
abbrev pub reserved : List String
reserved =
    "response_type" ∷ "client_id" ∷ "redirect_uri" ∷ "scope" ∷ "state" ∷ "nonce" ∷ "code_challenge"
    ∷ "code_challenge_method" ∷ []

-- The loop over the query parameters, with the names seen so far.
unfoldable pub check_query : List String → List (String × String) → Result Error (Unit {0})
check_query seen [] = ok tt
check_query seen ((name, value) ∷ pairs) =
    let rest = check_query (if name == "resource" then seen else name ∷ seen) pairs in
    if has name reserved
    then err (
        bad_request (
          "authorization_endpoint query parameter "
          <> display_safe name
          <> " is library-controlled"))
    else if not (name == "resource") && has name seen
    then err (bad_request "authorization_endpoint contains duplicate query parameters")
    else rest

module _ (u : UrlLibrary) where
  unfoldable pub is_loopback_host : String → Bool
  is_loopback_host host =
      eq_ignore_ascii_case host "localhost"
      || unwrap_or false (
          u.ip_is_loopback
            (trim_end_matches (λ c. nat_eq c b']') (trim_start_matches (λ c. nat_eq c b'[') host)))

  -- `host_str().is_some_and(is_loopback_host)`
  loopback_host : Option String → Bool
  unfolding is_loopback_host
  loopback_host none = false
  loopback_host (some host) = is_loopback_host host

  -- `scheme_ok`
  unfoldable pub scheme_ok : Bool → Url → Bool
  unfolding loopback_host
  scheme_ok allow_loopback_http url =
      url.scheme == "https"
      || (allow_loopback_http && url.scheme == "http" && loopback_host url.host_str)

  abbrev policy_text : Bool → String
  policy_text true = "an absolute https URL (http allowed only for loopback hosts)"
  policy_text false = "an absolute https URL"

  -- The checks on the parsed URL.
  unfoldable pub check_parsed : String → String → Bool → Url → Result Error (Unit {0})
  check_parsed name endpoint allow_loopback_http url =
      fail_if (not (scheme_ok allow_loopback_http url) || not (is_some url.host_str)) (
        bad_request
          (name <> " must be " <> policy_text allow_loopback_http <> ": " <> display_safe endpoint))
      >> (fail_if (not (is_empty url.username) || is_some url.password)
            (bad_request (name <> " must not contain userinfo: " <> display_safe endpoint))
          >> fail_if (is_some url.fragment)
              (bad_request (name <> " must not contain a fragment: " <> display_safe endpoint)))

  unfoldable pub validate_endpoint : String → String → Bool → Result Error (Unit {0})
  unfolding check_parsed
  validate_endpoint name endpoint allow_loopback_http =
      fail_if (any_char is_hidden_or_space endpoint) (
        bad_request (
          name <> " must not contain whitespace, control, bidi or invisible formatting characters"))
      >> (map_err
            (λ e. bad_request ("invalid " <> name <> " URL " <> display_safe endpoint <> ": " <> e))
            (u.parse endpoint)
          >>= λ url. check_parsed name endpoint allow_loopback_http url)

  unfoldable pub validate_service_endpoint : String → String → Result Error (Unit {0})
  validate_service_endpoint name endpoint = validate_endpoint name endpoint false

  is_loopback_issuer : Result String Url → Bool
  unfolding loopback_host
  is_loopback_issuer (err e) = false
  is_loopback_issuer (ok url) =
      url.scheme == "http"
      && loopback_host url.host_str
      && is_empty url.username
      && not (is_some url.password)
      && not (is_some url.query)
      && not (is_some url.fragment)

  unfoldable pub issuer_allows_loopback_http : String → Bool
  unfolding is_loopback_issuer
  issuer_allows_loopback_http issuer =
      not (any_char is_hidden_or_space issuer) && is_loopback_issuer (u.parse issuer)

  unfoldable pub validate_service_endpoint_for_issuer :
      String → String → String → Result Error (Unit {0})
  validate_service_endpoint_for_issuer name endpoint issuer =
      validate_endpoint name endpoint (issuer_allows_loopback_http issuer)

  unfoldable pub validate_issuer : String → Result Error (Unit {0})
  validate_issuer issuer =
      validate_endpoint "issuer" issuer true
      >> (map_err (λ e. bad_request ("invalid issuer URL " <> display_safe issuer <> ": " <> e))
            (u.parse issuer)
          >>= λ url.
              fail_if (is_some url.query || is_some url.fragment)
                (bad_request "issuer URL must not contain a query or fragment"))

  unfoldable pub validate_redirect_uri_syntax : String → Result Error (Unit {0})
  validate_redirect_uri_syntax redirect_uri =
      map_err (λ e. bad_request ("invalid redirect_uri " <> display_safe redirect_uri <> ": " <> e))
        (u.parse redirect_uri)
      >>= λ url.
          fail_if (is_some url.fragment) (bad_request "redirect_uri must not contain a fragment")

  unfoldable pub validate_authorization_endpoint_query : String → Result Error (Unit {0})
  unfolding check_query
  validate_authorization_endpoint_query endpoint =
      map_err (λ e. bad_request ("invalid authorization_endpoint: " <> e)) (u.parse endpoint)
      >>= λ url. check_query [] url.query_pairs
