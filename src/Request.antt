-- ===== src/Request.antt =====
-- src/request.rs: authorization requests, their parsing and their validation.
pub mod ResponseType
pub mod Parsing
pub mod Modes
mod Examples
use mathlib.Core.Option
use grindvakt.Prelude.{
  ℕ, ◌+◌, String, Bool, true, false, not, ◌&&◌, ◌||◌, List, [], ◌∷◌, ◌++◌, Option, none, some,
  if◌then◌else◌, nat_eq, ◌==◌, has, all, any, is_some, unwrap_or, keep,
}
use grindvakt.Prelude.Text.{is_empty, split, split_whitespace, ◌<>◌}
use grindvakt.Dict
use grindvakt.Dict.{Dict}
use grindvakt.Json.{Json}
use grindvakt.Result.{Result, ok, err, ◌>>=◌, ◌>>◌, fail_if, ok_or}
use grindvakt.OauthError.{
  OauthError, error, with_state, invalid_request, invalid_scope, unsupported_response_type,
  is_valid_state,
}

-- The loop of `values`: a `BTreeSet` is the list of its members.
unfoldable pub collect_values : List String → List String → Option (List String)
collect_values result [] = some result
collect_values result (value ∷ rest) =
    let more = collect_values (value ∷ result) rest in
    if is_empty value || has value result then none else more

unfoldable pub values : String → Option (List String)
unfolding collect_values
values input = collect_values [] (split (nat_eq b' ') input)

-- `==` on sets
abbrev pub set_eq : List String → List String → Bool
set_eq a b = all (λ x. has x b) a && all (λ x. has x a) b

unfoldable pub both_eq : Option (List String) → Option (List String) → Bool
both_eq (some a) (some b) = set_eq a b
both_eq _ _ = false

unfoldable pub response_type_eq : String → String → Bool
unfolding values both_eq
response_type_eq left right = both_eq (values left) (values right)

-- `AuthorizationRequest`
pub record AuthorizationRequest : Type 0 where
  pub client_id : String
  pub redirect_uri : String
  pub response_type : String
  pub scope : String
  pub state : Option String
  pub nonce : Option String
  pub code_challenge : Option String
  pub code_challenge_method : Option String
  pub response_mode : Option String
  pub prompt : Option String
  pub acr_values : Option String
  pub claims : Option Json
  pub request_object : Option String
  pub resources : List String
  pub extra : Dict String

abbrev pub request_error : String → OauthError
request_error = error invalid_request

abbrev pub known : List String
known =
    "client_id" ∷ "response_type" ∷ "redirect_uri" ∷ "scope" ∷ "state" ∷ "nonce" ∷ "code_challenge"
    ∷ "code_challenge_method" ∷ "response_mode" ∷ "prompt" ∷ "acr_values" ∷ "claims" ∷ "request"
    ∷ "resource" ∷ []

-- `o.is_some_and(|state| !is_valid_state(&state))`
unfoldable pub bad_state : Option String → Bool
bad_state none = false
bad_state (some s) = not (is_valid_state s)

-- The loop of `from_pairs`, over the map and the resources found so far.
collect_pairs :
    Dict String
    → List String
    → List (String × String)
    → Result OauthError (Dict String × List String)
collect_pairs unique resources [] = ok (unique, resources)
collect_pairs unique resources ((name, value) ∷ params) =
    let as_resource = collect_pairs unique (resources ++ value ∷ []) params in
    let as_field = collect_pairs (Dict.insert name value unique) resources params in
    if name == "resource"
    then as_resource
    else if is_some (Dict.get name unique)
    then err (request_error ("duplicate authorization parameter: " <> name))
    else as_field

-- `from_str` is `serde_json::from_str`
module _ (from_str : String → Option Json) where
  parse_claims : Option String → Result OauthError (Option Json)
  parse_claims none = ok none
  parse_claims (some s) = do
    v ← ok_or (from_str s) (request_error "invalid claims parameter")
    ok (some v)

  from_params : Dict String → Result OauthError AuthorizationRequest
  unfolding parse_claims
  from_params params = do
    client_id ← ok_or (Dict.get "client_id" params) (request_error "missing client_id")
    response_type ← ok_or (Dict.get "response_type" params) (request_error "missing response_type")
    redirect_uri ← ok_or (Dict.get "redirect_uri" params) (request_error "missing redirect_uri")
    fail_if (bad_state (Dict.get "state" params)) (request_error "invalid state parameter")
    claims ← parse_claims (Dict.get "claims" params)
    ok (record {
      client_id = client_id;
      redirect_uri = redirect_uri;
      response_type = response_type;
      scope = unwrap_or "" (Dict.get "scope" params);
      state = Dict.get "state" params;
      nonce = Dict.get "nonce" params;
      code_challenge = Dict.get "code_challenge" params;
      code_challenge_method = Dict.get "code_challenge_method" params;
      response_mode = Dict.get "response_mode" params;
      prompt = Dict.get "prompt" params;
      acr_values = Dict.get "acr_values" params;
      claims = claims;
      request_object = Dict.get "request" params;
      resources = [];
      extra = Dict.filter_keys (λ k. not (has k known)) params;
    })

  pub from_pairs : List (String × String) → Result OauthError AuthorizationRequest
  unfolding collect_pairs from_params
  from_pairs params = do
    found ← collect_pairs [] [] params
    request ← from_params found.0
    ok (record request { resources = found.1 })

abbrev pub supported_response_types : List String
supported_response_types =
    "code" ∷ "id_token" ∷ "id_token token" ∷ "code id_token" ∷ "code token" ∷ "code id_token token"
    ∷ []

module _ (r : AuthorizationRequest) where
  unfoldable pub scopes : List String
  scopes = split_whitespace r.scope

  unfoldable pub is_oidc : Bool
  unfolding scopes
  is_oidc = has "openid" scopes

  -- the non-empty entries of `prompt.split(' ')`
  unfoldable pub prompt_values : String → List String
  prompt_values prompt = keep (λ v. not (is_empty v)) (split (nat_eq b' ') prompt)

  prompt_has : String → Option String → Bool
  prompt_has expected none = false
  prompt_has expected (some prompt) = has expected (prompt_values prompt)

  pub has_prompt : String → Bool
  unfolding prompt_has prompt_values
  has_prompt expected = prompt_has expected r.prompt

  -- The loop of `validate_prompt`: the number of values, and whether one is `none`.
  count_prompt : ℕ → Bool → List String → ℕ × Bool
  count_prompt value_count has_none [] = (value_count, has_none)
  count_prompt value_count has_none (value ∷ rest) =
      count_prompt (value_count + 1) (has_none || value == "none") rest

  check_prompt : Option String → Result OauthError (Unit {0})
  check_prompt none = ok tt
  check_prompt (some prompt) =
      let (value_count, has_none) = count_prompt 0 false (prompt_values prompt) in
      fail_if (has_none && not (nat_eq value_count 1))
        (with_state r.state (request_error "prompt=none must be the sole prompt value"))

  unfoldable pub validate_prompt : Result OauthError (Unit {0})
  unfolding check_prompt count_prompt prompt_values
  validate_prompt = check_prompt r.prompt

  unfoldable pub wants : String → Bool
  wants t = has t (split_whitespace r.response_type)

  abbrev pub wants_code : Bool
  wants_code = wants "code"

  abbrev pub wants_id_token : Bool
  wants_id_token = wants "id_token"

  abbrev pub wants_access_token : Bool
  wants_access_token = wants "token"

  fragment_mode : Option String → Bool
  fragment_mode none = wants_id_token || wants_access_token
  fragment_mode (some mode) =
      if mode == "fragment"
      then true
      else if mode == "query"
      then false
      else wants_id_token || wants_access_token

  unfoldable pub use_fragment : Bool
  unfolding fragment_mode
  use_fragment = fragment_mode r.response_mode

  unfoldable pub validate_response_type : Result OauthError (Unit {0})
  validate_response_type = do
    fail_if (not (any (response_type_eq r.response_type) supported_response_types)) (
        with_state r.state
          (error unsupported_response_type ("unsupported response_type: " <> r.response_type)))
    fail_if (wants_id_token && not is_oidc) (
        with_state r.state
          (error invalid_scope "response_type containing id_token requires the openid scope"))

  check_mode : Option String → Result OauthError (Unit {0})
  check_mode none = ok tt
  check_mode (some mode) =
      if mode == "fragment"
      then ok tt
      else if mode == "query"
      then fail_if (wants_id_token || wants_access_token) (
          with_state r.state
            (request_error "response_mode=query is not allowed for token-bearing responses"))
      else err (with_state r.state (request_error ("unsupported response_mode: " <> mode)))

  unfoldable pub validate_response_mode : Result OauthError (Unit {0})
  unfolding check_mode
  validate_response_mode = check_mode r.response_mode
