-- ===== src/Callback/Parse.antt =====
-- src/callback.rs: the ways in which a response arrives.
use grindvakt.Prelude.{
  String, List, [], ◌∷◌, ◌++◌, map, Bool, true, false, not, ◌&&◌, ◌||◌, Option, none, some, is_some,
  unwrap_or, any, has, ltb, if◌then◌else◌,
}
use grindvakt.Prelude.Text.{is_empty, char_count, eq_ignore_ascii_case, ◌<>◌}
use grindvakt.Prelude.Slices.{strip_char}
use grindvakt.Dict
use grindvakt.Dict.{Dict}
use grindvakt.Result.{Result, ok, err, fail_if, map_ok, ◌>>=◌, ◌>>◌}
use grindvakt.Error.{Error, config}
use grindvakt.Http.{HttpRequestData}
use grindvakt.Url.{UrlLibrary}
use grindvakt.Callback.{
  AuthorizationResponse, AuthorizationResponseOptions, ResponseMode, query, fragment, form_post,
  jwt, mode_eq, bad, response_params, response_jarm_max,
}
use grindvakt.Callback.Fields.{Fields, validate}

-- The loop over the pairs, with what it has found.
unfoldable pub collect_params : Dict String → List (String × String) → Result Error (Dict String)
collect_params found [] = ok found
collect_params found ((k, v) ∷ pairs) =
    let known = has k response_params in
    let rest = collect_params (if known then Dict.insert k v found else found) pairs in
    if known && is_some (Dict.get k found) then err (bad (k <> " must not be repeated")) else rest

unfoldable pub fields_of : Dict String → Fields
fields_of found = record {
  code = Dict.get "code" found;
  state = Dict.get "state" found;
  error = Dict.get "error" found;
  description = Dict.get "error_description" found;
  uri = Dict.get "error_uri" found;
  iss = Dict.get "iss" found;
}

abbrev pub any_field : Fields → Bool
any_field f =
    is_some f.code
    || is_some f.state
    || is_some f.error
    || is_some f.description
    || is_some f.uri
    || is_some f.iss

-- `opts.mode == Some(ResponseMode::Jwt)`
abbrev pub jarm_expected : AuthorizationResponseOptions → Bool
jarm_expected opts = elim opts.mode [ none ↦ false | some m ↦ mode_eq m jwt ]

-- An unverified JARM response.
abbrev pub jarm : String → AuthorizationResponse
jarm response = record {
  code = none;
  state = none;
  error = none;
  error_description_safe = none;
  error_uri = none;
  iss = none;
  jarm_response = some response;
  jarm_verified = false;
  response_mode = jwt;
}

unfoldable pub check_jarm : AuthorizationResponseOptions → Fields → String → Result Error (Unit {0})
check_jarm opts f response =
    fail_if (not (opts.accept_unverified_jarm || jarm_expected opts))
      (bad "JARM response parameter is not accepted: enable accept_unverified_jarm and verify it")
    >> (fail_if (any_field f) (
          bad
            "a JARM response carries every parameter inside the JWT: no other protocol parameter may appear alongside response")
        >> (fail_if (is_empty response) (bad "response must not be empty")
            >> fail_if (ltb response_jarm_max (char_count response))
                (bad "response must be at most 32768 characters")))

-- `out.response_mode = mode`
abbrev pub with_mode : ResponseMode → AuthorizationResponse → AuthorizationResponse
with_mode mode r = record r { response_mode = mode }

module _ (u : UrlLibrary) where
  -- What follows the loop, by whether there is a JARM response.
  unfoldable pub finish :
      AuthorizationResponseOptions
      → ResponseMode
      → Fields
      → Option String
      → Result Error AuthorizationResponse
  finish opts mode f (some response) = check_jarm opts f response >> ok (jarm response)
  finish opts mode f none =
      fail_if (jarm_expected opts) (bad "expected a JARM response parameter")
      >> map_ok (with_mode mode) (validate u f)

  unfoldable pub parse_pairs :
      List (String × String)
      → AuthorizationResponseOptions
      → ResponseMode
      → Result Error AuthorizationResponse
  parse_pairs pairs opts mode = collect_params [] pairs >>= λ found.
      finish opts mode (fields_of found) (Dict.get "response" found)

  -- `mode_for_response`
  abbrev pub mode_for_response : AuthorizationResponseOptions → ResponseMode → ResponseMode
  mode_for_response opts mode = unwrap_or mode opts.mode

  pub parse_authorization_response :
      List (String × String) → AuthorizationResponseOptions → Result Error AuthorizationResponse
  parse_authorization_response pairs opts = parse_pairs pairs opts (mode_for_response opts query)

  -- the text without its sign, and the mode that the sign stands for
  body_and_mode : String → String × ResponseMode
  body_and_mode encoded = elim (strip_char b'?' encoded) [
    | some body ↦ (body, query)
    | none ↦ elim (strip_char b'#' encoded) [
      | some body ↦ (body, fragment)
      | none ↦ (encoded, query)
    ]
  ]

  pub parse_authorization_response_str :
      String → AuthorizationResponseOptions → Result Error AuthorizationResponse
  unfolding body_and_mode
  parse_authorization_response_str encoded opts =
      let (body, default) = body_and_mode encoded in
      parse_pairs (u.form_parse body) opts (mode_for_response opts default)

  flatten : List (String × List String) → List (String × String)
  flatten [] = []
  flatten ((k, vs) ∷ entries) = map (λ v. (k, v)) vs ++ flatten entries

  pub parse_authorization_response_multi :
      List (String × List String)
      → AuthorizationResponseOptions
      → Result Error AuthorizationResponse
  unfolding flatten
  parse_authorization_response_multi entries opts =
      parse_pairs (flatten entries) opts (mode_for_response opts query)

  abbrev pub has_protocol : List (String × String) → Bool
  has_protocol = any (λ p. has p.0 response_params)

  abbrev is_nil : List (String × String) → Bool
  is_nil [] = true
  is_nil (p ∷ ps) = false

  abbrev mode_name : ResponseMode → String
  mode_name query = "Query"
  mode_name fragment = "Fragment"
  mode_name form_post = "FormPost"
  mode_name jwt = "Jwt"

  -- the pairs of a request and the mode that its method stands for
  unfoldable pub pairs_of : HttpRequestData → Result Error (List (String × String) × ResponseMode)
  pairs_of request =
      if eq_ignore_ascii_case request.method "GET"
      then fail_if (has_protocol request.form_pairs)
          (bad "authorization response parameters must not appear in the body of a query callback")
        >> ok (request.query_pairs, query)
      else if eq_ignore_ascii_case request.method "POST"
      then fail_if (has_protocol request.query_pairs) (
          bad
            "authorization response parameters must not appear in the query string of a form_post callback")
        >> (fail_if (is_nil request.form_pairs)
              (bad "a form_post callback needs a non-empty form body")
            >> ok (request.form_pairs, form_post))
      else err (bad "an authorization response arrives by GET or POST")

  -- A mode that the caller has named must be that of the request, or JARM.
  unfoldable pub check_mode : Option ResponseMode → ResponseMode → Result Error (Unit {0})
  check_mode none mode = ok tt
  check_mode (some m) mode = fail_if (not (mode_eq m mode) && not (mode_eq m jwt)) (
      config (
        "response mode "
        <> mode_name m
        <> " does not match the request method (expected "
        <> mode_name mode
        <> ")"))

  unfoldable pub parse_authorization_response_request :
      HttpRequestData → AuthorizationResponseOptions → Result Error AuthorizationResponse
  unfolding check_mode
  parse_authorization_response_request request opts =
      pairs_of request >>= λ (pairs, mode). check_mode opts.mode mode >> parse_pairs pairs opts mode
