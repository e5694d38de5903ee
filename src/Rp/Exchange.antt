-- ===== src/Rp/Exchange.antt =====
-- src/rp.rs: exchange of a code for tokens.
pub mod Exchanged
use grindvakt.Prelude.{
  ℕ, String, List, [], ◌∷◌, ◌++◌, Bool, false, not, ◌&&◌, Option, none, some, is_some, ◌==◌,
}
use grindvakt.Prelude.Text.{is_empty, eq_ignore_ascii_case, ◌<>◌, show}
use grindvakt.Prelude.Bytes.{as_bytes}
use grindvakt.Prelude.Words.{add_u64}
use grindvakt.Dict.{filter_option}
use grindvakt.Json.{Json}
use grindvakt.Json.Access.{get, and_then, as_str}
use grindvakt.Jwt.{Claims, default_claims, seconds, single}
use grindvakt.Pkce.{is_valid_verifier}
use grindvakt.Result.{Result, ok, ok_or, fail_if, ◌>>=◌, ◌>>◌}
use grindvakt.Exec
use grindvakt.Exec.{Exec, lift, run, pure}
use grindvakt.Error.{Error, bad_request, authn, json}
use grindvakt.Error.Escape.{display_safe}
use grindvakt.Http.Fetch.{HttpFetchResponse}
use grindvakt.Provider.Defs.{client_assertion_type}
use grindvakt.Rp.Library.{RpLibrary}
use grindvakt.Rp.Upstream
use grindvakt.Rp.Upstream.{upstream_error}
use grindvakt.Rp.Config.{
  ProviderInfo, RpClient, ClientAuth, no_auth, client_secret_basic, client_secret_post,
  private_key_jwt, TokenSet, validate,
}
use grindvakt.Rp.Authorize.{is_public}
use grindvakt.Rp.Discover.{expect_200}
use grindvakt.Rp.Endpoints.{validate_redirect_uri_syntax}

-- Lists of names and values, as a form and as headers.
abbrev pub Pairs : Type 0
Pairs = List (String × String)

-- `get(name).and_then(as_str).filter(not empty)`
abbrev pub text_of : String → Json → Option String
text_of name raw = filter_option (λ s. not (is_empty s)) (and_then (get name raw) as_str)

-- whether an answer is the body of an error
abbrev pub is_error_body : Json → Bool
is_error_body raw =
    is_some (and_then (get "error" raw) as_str) && not (is_some (get "access_token" raw))

-- The tokens of an answer.
unfoldable pub token_set : Json → Result Error TokenSet
token_set raw =
    ok_or (text_of "access_token" raw) (authn "token response missing access_token")
    >>= λ access_token.
        ok_or (text_of "id_token" raw) (authn "token response missing id_token") >>= λ id_token.
        ok_or (text_of "token_type" raw) (authn "token response missing token_type")
        >>= λ token_type.
            fail_if (not (eq_ignore_ascii_case token_type "Bearer"))
              (authn ("unsupported token_type in token response: " <> display_safe token_type))
            >> ok (record {
              access_token = access_token;
              id_token = id_token;
              token_type = token_type;
              raw = raw;
            })

abbrev bad_verifier : Option String → Bool
bad_verifier none = false
bad_verifier (some verifier) = not (is_valid_verifier verifier)

abbrev verifier_params : Option String → Pairs
verifier_params none = []
verifier_params (some verifier) = ("code_verifier", verifier) ∷ []

module _ {K S W : Type 0} (l : RpLibrary K S W) where
  -- The claims of a client assertion. The addition is that of u64.
  abbrev assertion_claims : String → String → ℕ → String → Claims
  assertion_claims client_id audience now jti = record default_claims {
    iss = some client_id;
    sub = some client_id;
    aud = some (single audience);
    iat = some (seconds now);
    exp = some (seconds (add_u64 now 300));
    jti = some jti;
  }

  unfoldable pub build_client_assertion : S → String → String → Exec W Error String
  build_client_assertion key client_id audience = Exec.◌>>=◌ (run l.clock) λ now.
      Exec.◌>>=◌ (run (l.random_token 16))
        λ jti. l.sign key (assertion_claims client_id audience now jti)

  abbrev basic : String → String → String
  basic client_id secret =
      "Basic "
      <> l.base64
          (as_bytes (l.urls.byte_serialize client_id <> ":" <> l.urls.byte_serialize secret))

  -- The form and the headers after `apply_client_auth`.
  unfoldable pub apply_client_auth :
      ClientAuth S → String → String → Pairs → Pairs → Exec W Error (Pairs × Pairs)
  apply_client_auth no_auth client_id token_endpoint form headers = pure (form, headers)
  apply_client_auth (client_secret_post secret) client_id token_endpoint form headers =
      pure (form ++ ("client_secret", secret) ∷ [], headers)
  apply_client_auth (client_secret_basic secret) client_id token_endpoint form headers =
      pure (form, headers ++ ("authorization", basic client_id secret) ∷ [])
  apply_client_auth (private_key_jwt key) client_id token_endpoint form headers =
      Exec.◌>>=◌ (build_client_assertion key client_id token_endpoint) λ assertion. pure (
        form
            ++ ("client_assertion_type", client_assertion_type)
              ∷ ("client_assertion", assertion)
              ∷ [],
        headers,
      )

  -- The checks on what the caller gives.
  unfoldable pub check_exchange :
      ProviderInfo → RpClient S → Option String → Result Error (Unit {0})
  check_exchange provider client code_verifier =
      validate l.urls provider
      >> (validate_redirect_uri_syntax l.urls client.redirect_uri
          >> (fail_if (is_public client.auth && not (is_some code_verifier))
                (bad_request "public clients must supply a PKCE code_verifier")
              >> fail_if (bad_verifier code_verifier) (bad_request "invalid PKCE code_verifier")))

  abbrev pub exchange_form : RpClient S → String → Option String → Pairs
  exchange_form client code code_verifier =
      ("grant_type", "authorization_code")
      ∷ ("code", code)
      ∷ ("redirect_uri", client.redirect_uri)
      ∷ ("client_id", client.client_id)
      ∷ verifier_params code_verifier

  -- What follows the response of the token endpoint.
  unfoldable pub read_tokens : HttpFetchResponse → Result Error TokenSet
  read_tokens r =
      expect_200 l Upstream.auth ("token endpoint returned " <> show r.status) r
      >> (ok_or (l.from_slice r.body) (json "token response") >>= λ raw.
          fail_if (is_error_body raw) (
            upstream_error l.utf8_lossy l.from_slice Upstream.auth
              ("token endpoint returned an error with status " <> show r.status) r)
          >> token_set raw)

  unfoldable pub exchange_code :
      ProviderInfo → RpClient S → String → Option String → Exec W Error TokenSet
  exchange_code provider client code code_verifier =
      Exec.◌>>=◌ (lift (check_exchange provider client code_verifier)) λ _.
        Exec.◌>>=◌
          (apply_client_auth client.auth client.client_id provider.token_endpoint
            (exchange_form client code code_verifier) [])
          λ sent.
            Exec.◌>>=◌ (l.post_form provider.token_endpoint sent.0 sent.1) λ r. lift (read_tokens r)
