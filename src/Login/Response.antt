-- ===== src/Login/Response.antt =====
-- src/provider.rs and src/callback.rs: the relying party reads the response that the provider made.
use grindvakt.Prelude.{
  ℕ, ◌≤◌, String, ◌≡◌, refl, ◌++◌, Bool, true, false, List, [], ◌∷◌, Option, none, some, arith,
  eq_refl, if◌then◌else◌,
}
use grindvakt.Prelude.Text.{is_empty, char_count, any_char}
use grindvakt.Prelude.Bytes.{as_bytes}
use grindvakt.Dict
use grindvakt.Dict.{Dict}
use grindvakt.Result.{ok, in_order}
use grindvakt.Url.{UrlLibrary}
use grindvakt.Request.{AuthorizationRequest}
use grindvakt.Provider.Defs.{Provider}
use grindvakt.Provider.Defs.Services.{Services}
use grindvakt.Provider.Mint.{push_some, token_params, response_params}
use grindvakt.Callback.{
  AuthorizationResponse, AuthorizationResponseOptions, ResponseMode, matches_state, matches_iss,
  response_value_max,
}
use grindvakt.Callback.Fields.{Fields, is_hostile, check_value, check_fields, validate, response_of}
use grindvakt.Callback.Parse.{
  collect_params, fields_of, jarm_expected, finish, with_mode, parse_pairs,
}

-- A value that may stand in a response: not empty, not too long, and without hostile characters.
pub record IsReadable (v : String) : Type 0 where
  pub filled : is_empty v ≡ false
  pub short : char_count v ≤ response_value_max
  pub clean : any_char is_hostile v ≡ false

check_value_lem : (name v : String) → IsReadable v → check_value name v ≡ ok tt
unfolding check_value
check_value_lem name v h = ground (arith, h.short, h.clean)

-- what is sent under `iss`
abbrev sent_iss : Bool → String → Option String
sent_iss emit issuer = if emit then some issuer else none

abbrev sent : Bool → (issuer code state : String) → Fields
sent emit issuer code state = record {
  code = some code;
  state = some state;
  error = none;
  description = none;
  uri = none;
  iss = sent_iss emit issuer;
}

check_fields_lem :
    (emit : Bool) (issuer code state : String)
    → IsReadable code
    → IsReadable state
    → IsReadable issuer
    → check_fields (sent emit issuer code state) ≡ ok tt
unfolding check_fields in_order
check_fields_lem true issuer code state c s i =
    rw (c.filled, s.filled, i.filled)
      (rw
        (
          check_value_lem "code" code c,
          check_value_lem "state" state s,
          check_value_lem "iss" issuer i,
        )
        refl)
check_fields_lem false issuer code state c s i =
    rw (c.filled, s.filled)
      (rw (check_value_lem "code" code c, check_value_lem "state" state s) refl)

module _ {J W : Type 0} (p : Provider) (s : Services J W) where
  collected_by :
      (id_token access_token : Option String) (emit : Bool) (issuer code state : String)
      → (m : Dict String) × (collect_params [] (
            push_some "id_token" id_token
            ++ push_some "code" (some code)
            ++ token_params p s access_token
            ++ push_some "state" (some state)
            ++ (if emit then ("iss", issuer) ∷ [] else []))
          ≡ ok m)
        × (fields_of m ≡ sent emit issuer code state)
        × (Dict.get "response" m ≡ none)
  unfolding collect_params push_some token_params Dict.get Dict.insert fields_of
  collected_by none none true issuer code state = (_, refl, refl, refl)
  collected_by none none false issuer code state = (_, refl, refl, refl)
  collected_by none (some token) true issuer code state = (_, refl, refl, refl)
  collected_by none (some token) false issuer code state = (_, refl, refl, refl)
  collected_by (some id) none true issuer code state = (_, refl, refl, refl)
  collected_by (some id) none false issuer code state = (_, refl, refl, refl)
  collected_by (some id) (some token) true issuer code state = (_, refl, refl, refl)
  collected_by (some id) (some token) false issuer code state = (_, refl, refl, refl)

  read_lem :
      (u : UrlLibrary) (equal : List ℕ → List ℕ → Bool)
      → ((bytes : List ℕ) → equal bytes bytes ≡ true)
      → (emit : Bool) (issuer code state : String) (mode : ResponseMode) → is_empty state ≡ false
      → is_empty issuer ≡ false
      → let r = with_mode mode (response_of u (sent emit issuer code state)) in
        (r.code ≡ some code)
        × (r.error ≡ none)
        × (matches_state equal r state true ≡ true)
        × (matches_iss r issuer emit ≡ true)
  unfolding response_of matches_state matches_iss
  read_lem u equal same true issuer code state mode a b =
      (refl, refl, rw a (same (as_bytes state)), rw b (eq_refl issuer))
  read_lem u equal same false issuer code state mode a b =
      (refl, refl, rw a (same (as_bytes state)), rw b refl)

  -- The parameters that the provider puts into a response with a code and a state, with an ID
  -- token, an access token and the issuer or without them, are read by the relying party as a
  -- response with that code and no error, whose state is the expected one and whose issuer,
  -- wherever the provider is to send it, is that of the provider. Code, state and issuer are
  -- not empty, not too long and without hostile characters, no JARM response is expected, and
  -- the comparison of states accepts equal bytes.
  pub parse_pairs-response_params :
      (u : UrlLibrary) (equal : List ℕ → List ℕ → Bool)
      → ((bytes : List ℕ) → equal bytes bytes ≡ true)
      → (req : AuthorizationRequest) (id_token access_token : Option String) (code state : String)
        (opts : AuthorizationResponseOptions) (mode : ResponseMode)
      → req.state ≡ some state
      → jarm_expected opts ≡ false
      → IsReadable code
      → IsReadable state
      → IsReadable p.metadata.issuer
      → (r : AuthorizationResponse) × (parse_pairs u
            (response_params p s req id_token (some code) access_token)
            opts
            mode
          ≡ ok r)
        × (r.code ≡ some code)
        × (r.error ≡ none)
        × (matches_state equal r state true ≡ true)
        × (matches_iss r p.metadata.issuer p.emit_iss ≡ true)
  unfolding parse_pairs response_params finish validate
  parse_pairs-response_params u equal same req id_token access_token code state opts mode h plain c
        t i =
      let issuer = p.metadata.issuer in
      let (m, collected, fields, none_) =
        collected_by id_token access_token p.emit_iss issuer code state in
      let checked = check_fields_lem p.emit_iss issuer code state c t i in
      let (has_code, no_error, state_matches, iss_matches) =
        read_lem u equal same p.emit_iss issuer code state mode t.filled i.filled in
      (
        with_mode mode (response_of u (sent p.emit_iss issuer code state)),
        rw h (rw collected (rw (fields, none_) (rw (plain, checked) refl))),
        has_code,
        no_error,
        state_matches,
        iss_matches,
      )
