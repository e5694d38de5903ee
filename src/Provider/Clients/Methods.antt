-- ===== src/Provider/Clients/Methods.antt =====
-- src/provider.rs: which authentication method a request at the token endpoint uses.
use grindvakt.Prelude.{
  ℕ, ◌+◌, String, Bool, false, not, ◌||◌, List, Option, none, some, if◌then◌else◌, ◌==◌, is_some,
  ltb,
}
use grindvakt.Prelude.Text.{split_once, eq_ignore_ascii_case}
use grindvakt.Dict
use grindvakt.Dict.{Dict}
use grindvakt.Result.{fail_if, ok_or}
use grindvakt.Exec.{Exec, pure, lift, raise, ◌>>=◌, ◌>>◌}
use grindvakt.OauthError.{OauthError}
use grindvakt.Client.{Client, auth_none, auth_client_secret_basic, auth_client_secret_post}
use grindvakt.Provider.Defs.{Provider, client_assertion_type}
use grindvakt.Provider.Defs.Services.{Services, get_client}
use grindvakt.Provider.Form.{unique_parameters}
use grindvakt.Provider.Clients.{client_error, decode_basic, check_secret, verify_private_key_jwt}

abbrev pub assertion_present : Dict String → Bool
assertion_present form =
    is_some (Dict.get "client_assertion" form) || is_some (Dict.get "client_assertion_type" form)

abbrev pub secret_post_present : Dict String → Bool
secret_post_present form = is_some (Dict.get "client_secret" form)

-- `usize::from(b)`
abbrev pub count : Bool → ℕ
count b = if b then 1 else 0

unfoldable pub method_count : Dict String → Option String → ℕ
method_count form auth_header =
    count (assertion_present form) + count (secret_post_present form) + count (is_some auth_header)

-- `o == Some(v)`
unfoldable pub is_value : String → Option String → Bool
is_value v none = false
is_value v (some x) = x == v

module _ {J W : Type 0} (p : Provider) (s : Services J W) where
  unfoldable pub with_assertion : Dict String → String → Exec W OauthError (Client J)
  unfolding is_value
  with_assertion form token_url = do
    assertion ← lift (
        ok_or (Dict.get "client_assertion" form)
          (client_error "incomplete client assertion authentication"))
    lift (
        fail_if (not (is_value client_assertion_type (Dict.get "client_assertion_type" form)))
          (client_error "invalid client_assertion_type"))
    verify_private_key_jwt p s assertion form token_url

  unfoldable pub with_basic : String → Exec W OauthError (Client J)
  with_basic header = do
    parts ← lift (ok_or (split_once b' ' header) (client_error "malformed Authorization header"))
    lift (
        fail_if (not (eq_ignore_ascii_case parts.0 "Basic"))
          (client_error "unsupported Authorization scheme"))
    credentials ← lift (ok_or (decode_basic s parts.1) (client_error "malformed Basic auth"))
    check_secret s credentials.0 credentials.1 auth_client_secret_basic

  unfoldable pub with_post : Dict String → String → Exec W OauthError (Client J)
  with_post form secret = do
    id ← lift (ok_or (Dict.get "client_id" form) (client_error "client_secret missing client_id"))
    check_secret s id secret auth_client_secret_post

  -- a public client
  unfoldable pub as_public : Option String → Exec W OauthError (Client J)
  as_public none = raise (client_error "client authentication required")
  as_public (some id) = do
    found ← get_client s id
    client ← lift (ok_or found (client_error "unknown client"))
    lift (
        fail_if (not (client.token_endpoint_auth_method == auth_none))
          (client_error "client authentication required"))
    pure client

  -- what is tried once the assertion is out of the question
  unfoldable pub by_header :
      Dict String → Option String → Option String → Exec W OauthError (Client J)
  by_header form (some header) secret = with_basic header
  by_header form none (some secret) = with_post form secret
  by_header form none none = as_public (Dict.get "client_id" form)

  unfoldable pub authenticate_client_map :
      Dict String → Option String → String → Exec W OauthError (Client J)
  unfolding method_count with_assertion with_basic with_post as_public by_header
  authenticate_client_map form auth_header token_url = do
    lift (
        fail_if (ltb 1 (method_count form auth_header))
          (client_error "multiple client authentication methods"))
    (if assertion_present form
        then with_assertion form token_url
        else by_header form auth_header (Dict.get "client_secret" form))

  pub authenticate_client :
      List (String × String) → Option String → String → Exec W OauthError (Client J)
  authenticate_client params auth_header token_url = do
    form ← lift (unique_parameters params)
    authenticate_client_map form auth_header token_url
