-- ===== src/Rp/Authorize.antt =====
-- src/rp.rs: the authorization request, as a URL and as a signed object.
pub mod Unambiguous
use grindvakt.Prelude.{
  ℕ, String, List, [], ◌∷◌, ◌++◌, map, Bool, true, false, not, ◌&&◌, Option, none, some, is_some,
  any, has, nat_eq, ◌==◌, if◌then◌else◌,
}
use grindvakt.Prelude.Text.{split_whitespace, any_char, join, ◌<>◌}
use grindvakt.Prelude.Words.{add_u64}
use grindvakt.Dict
use grindvakt.Dict.{Dict}
use grindvakt.Json.{Json, string}
use grindvakt.Jwt.{Claims, default_claims, seconds, single}
use grindvakt.Pkce.{is_valid_s256_challenge}
use grindvakt.Result.{Result, ok, err, fail_if, map_err, ◌>>=◌, ◌>>◌}
use grindvakt.Exec
use grindvakt.Exec.{Exec, lift, run}
use grindvakt.Error.{Error, bad_request}
use grindvakt.Error.Escape.{display_safe}
use grindvakt.Url.{UrlLibrary}
use grindvakt.Rp.Library.{RpLibrary}
use grindvakt.Rp.Config.{ProviderInfo, RpClient, ClientAuth, no_auth, validate}
use grindvakt.Rp.Endpoints.{reserved, validate_redirect_uri_syntax}

-- The loop over the extra parameters, with the names seen so far.
unfoldable pub check_extras : List String → List (String × String) → Result Error (Unit {0})
check_extras seen [] = ok tt
check_extras seen ((name, value) ∷ extra) =
    let rest = check_extras (if name == "resource" then seen else name ∷ seen) extra in
    if has name reserved
    then err (
        bad_request
          ("authorization extra parameter " <> display_safe name <> " is library-controlled"))
    else if not (name == "resource") && has name seen
    then err (bad_request ("duplicate authorization extra parameter: " <> display_safe name))
    else rest

-- The names of the parameters but `resource`.
abbrev pub names_of : List (String × String) → List String
names_of [] = []
names_of ((name, value) ∷ pairs) =
    let rest = names_of pairs in if name == "resource" then rest else name ∷ rest

unfoldable pub validate_authorization_extras :
    UrlLibrary → String → List (String × String) → Result Error (Unit {0})
validate_authorization_extras u endpoint extra =
    map_err (λ e. bad_request ("invalid authorization_endpoint: " <> e)) (u.parse endpoint)
    >>= λ url. check_extras (names_of url.query_pairs) extra

abbrev pub is_public : {S : Type 0} → ClientAuth S → Bool
is_public no_auth = true
is_public _ = false

abbrev is_bad_challenge : (String → Bool) → Option String → Bool
is_bad_challenge valid none = false
is_bad_challenge valid (some challenge) = not (valid challenge)

module _ {K S W : Type 0} (l : RpLibrary K S W) where
  -- The checks that the URL and the signed object share.
  unfoldable pub check_client : ProviderInfo → RpClient S → Option String → Result Error (Unit {0})
  check_client provider client code_challenge =
      validate l.urls provider
      >> (validate_redirect_uri_syntax l.urls client.redirect_uri
          >> (fail_if (not (any (λ scope. scope == "openid") (split_whitespace client.scope)))
                (bad_request "OIDC authorization requests require the openid scope")
              >> (fail_if (is_public client.auth && not (is_some code_challenge))
                    (bad_request "public clients must use S256 PKCE")
                  >> fail_if (is_bad_challenge (is_valid_s256_challenge l.encoding) code_challenge)
                      (bad_request "invalid S256 code_challenge"))))

  -- the parameters for the challenge
  abbrev pub challenge_params : Option String → List (String × String)
  challenge_params none = []
  challenge_params (some challenge) =
      ("code_challenge", challenge) ∷ ("code_challenge_method", "S256") ∷ []

  -- the parameters that the library sets
  unfoldable pub own_params : RpClient S → String → String → Option String → List (String × String)
  own_params client state nonce code_challenge =
      ("response_type", "code")
      ∷ ("client_id", client.client_id)
      ∷ ("redirect_uri", client.redirect_uri)
      ∷ ("scope", client.scope)
      ∷ ("state", state)
      ∷ ("nonce", nonce)
      ∷ challenge_params code_challenge

  abbrev pub encoded : String × String → String
  encoded (k, v) = l.urls.byte_serialize k <> "=" <> l.urls.byte_serialize v

  abbrev separator : String → String
  separator url = if any_char (λ c. nat_eq c b'?') url then "&" else "?"

  unfoldable pub url_with : String → List (String × String) → String
  url_with endpoint params = endpoint <> separator endpoint <> join "&" (map encoded params)

  unfoldable pub authorization_url :
      ProviderInfo
      → RpClient S
      → String
      → String
      → Option String
      → List (String × String)
      → Result Error String
  authorization_url provider client state nonce code_challenge extra =
      check_client provider client code_challenge
      >> (validate_authorization_extras l.urls provider.authorization_endpoint extra
          >> ok (
              url_with provider.authorization_endpoint
                (own_params client state nonce code_challenge ++ extra)))

  -- `extra.insert` for each of the parameters
  abbrev insert_all : List (String × String) → Dict Json → Dict Json
  insert_all [] m = m
  insert_all ((k, v) ∷ pairs) m = insert_all pairs (Dict.insert k (string v) m)

  -- The claims of the request object. The addition is that of u64.
  unfoldable pub request_claims :
      ProviderInfo → RpClient S → String → String → Option String → ℕ → String → Claims
  request_claims provider client state nonce code_challenge now jti = record default_claims {
    iss = some client.client_id;
    aud = some (single provider.issuer);
    iat = some (seconds now);
    exp = some (seconds (add_u64 now 300));
    jti = some jti;
    extra =
        insert_all
          (("client_id", client.client_id)
            ∷ ("redirect_uri", client.redirect_uri)
            ∷ ("scope", client.scope)
            ∷ ("response_type", "code")
            ∷ ("state", state)
            ∷ ("nonce", nonce)
            ∷ challenge_params code_challenge)
          [];
  }

  unfoldable pub signed_request_object :
      ProviderInfo → RpClient S → S → String → String → Option String → Exec W Error String
  signed_request_object provider client key state nonce code_challenge =
      Exec.◌>>=◌ (lift (check_client provider client code_challenge)) λ _.
        Exec.◌>>=◌ (run l.clock) λ now.
          Exec.◌>>=◌ (run (l.random_token 16))
            λ jti. l.sign key (request_claims provider client state nonce code_challenge now jti)
