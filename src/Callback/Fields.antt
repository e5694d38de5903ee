-- ===== src/Callback/Fields.antt =====
-- src/callback.rs: the checks on the parameters of a response.
use grindvakt.Prelude.{
  ℕ, String, List, [], ◌∷◌, Bool, false, not, ◌&&◌, ◌||◌, Option, none, some, is_some, all, ltb,
  nat_eq, ◌==◌, if◌then◌else◌,
}
use grindvakt.Prelude.Text.{is_empty, char_count, any_char, is_control, is_whitespace, within, ◌<>◌}
use grindvakt.Prelude.Bytes.{as_bytes}
use grindvakt.Result.{Result, ok, err, fail_if, ◌>>◌, in_order}
use grindvakt.Error.{Error}
use grindvakt.Error.Escape.{is_invisible_format, escape_upstream_text}
use grindvakt.Json.Access.{and_then}
use grindvakt.Url.{Url, UrlLibrary}
use grindvakt.Rp.Endpoints.{is_loopback_host}
use grindvakt.Callback.{
  AuthorizationResponse, query, bad, response_value_max, error_description_safe_max,
}

-- `Fields`
pub record Fields : Type 0 where
  pub code : Option String
  pub state : Option String
  pub error : Option String
  pub description : Option String
  pub uri : Option String
  pub iss : Option String

abbrev pub is_hostile : ℕ → Bool
is_hostile c = is_control c || nat_eq c b'\\' || is_invisible_format c

unfoldable pub check_value : String → String → Result Error (Unit {0})
check_value name v =
    fail_if (ltb response_value_max (char_count v))
      (bad (name <> " must be at most 2048 characters"))
    >> fail_if (any_char is_hostile v) (
        bad (
          name
          <> " must not contain control, bidi or invisible formatting characters or backslashes"))

-- `matches!(b, 0x20..=0x21 | 0x23..=0x5B | 0x5D..=0x7E)`
abbrev pub is_error_byte : ℕ → Bool
is_error_byte b = within 0x20 0x21 b || within 0x23 0x5b b || within 0x5d 0x7e b

-- whether an error code is refused
abbrev pub bad_code : String → Bool
bad_code v = ltb 64 (char_count v) || not (all is_error_byte (as_bytes v))

unfoldable pub check_error_code : String → Result Error (Unit {0})
check_error_code v =
    fail_if (bad_code v)
      (bad "error must be at most 64 characters from the RFC 6749 section 5.2 set")

-- A check on a value that is there.
abbrev pub check_some : (String → Result Error (Unit {0})) → Option String → Result Error (Unit {0})
check_some check none = ok tt
check_some check (some v) = check v

-- `v.as_deref() == Some("")`
abbrev pub is_blank : Option String → Bool
is_blank none = false
is_blank (some v) = is_empty v

abbrev pub check_blank : String → Option String → Result Error (Unit {0})
check_blank name v = fail_if (is_blank v) (bad (name <> " must not be empty"))

abbrev pub map_some : (String → String) → Option String → Option String
map_some f none = none
map_some f (some v) = some (f v)

module _ (u : UrlLibrary) where
  link : Result String Url → Option String
  link (err e) = none
  link (ok url) = elim url.host_str [
    | none ↦ none
    | some host ↦
        if (url.scheme == "https" || (url.scheme == "http" && is_loopback_host u host))
          && is_empty url.username
          && not (is_some url.password)
        then some url.as_str
        else none
  ]

  unfoldable pub safe_error_uri : String → Option String
  unfolding link
  safe_error_uri uri =
      if ltb response_value_max (char_count uri)
        || any_char (λ c. is_whitespace c || is_hostile c) uri
      then none
      else link (u.parse uri)

  -- The response that accepted fields make.
  unfoldable pub response_of : Fields → AuthorizationResponse
  response_of f = record {
    code = f.code;
    state = f.state;
    error = f.error;
    error_description_safe =
        map_some (λ d. escape_upstream_text d error_description_safe_max) f.description;
    error_uri = and_then f.uri safe_error_uri;
    iss = f.iss;
    jarm_response = none;
    jarm_verified = false;
    response_mode = query;
  }

-- The checks of `validate`, in their order.
abbrev pub checks : Fields → List (Result Error (Unit {0}))
checks f =
    fail_if (is_some f.code && is_some f.error) (bad "code and error must not both be present")
    ∷ fail_if (not (is_some f.code) && not (is_some f.error))
        (bad "response has neither code nor error")
    ∷ check_blank "code" f.code
    ∷ check_blank "state" f.state
    ∷ check_blank "error" f.error
    ∷ check_blank "iss" f.iss
    ∷ check_some (check_value "code") f.code
    ∷ check_some (check_value "state") f.state
    ∷ check_some (check_value "iss") f.iss
    ∷ check_some check_error_code f.error
    ∷ []

unfoldable pub check_fields : Fields → Result Error (Unit {0})
unfolding in_order
check_fields f = in_order (checks f)

unfoldable pub validate : UrlLibrary → Fields → Result Error AuthorizationResponse
validate u f = check_fields f >> ok (response_of u f)
