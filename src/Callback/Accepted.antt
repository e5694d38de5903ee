-- ===== src/Callback/Accepted.antt =====
-- src/callback.rs: what an accepted response has come from.
use grindvakt.Prelude.{
  ◌≤◌, String, ◌≡◌, refl, sym, ap, subst, ◌∙◌, List, [], true, false, ◌||◌, Option, none, some, has,
  arith, ◌⊎◌, inl, inr,
}
use grindvakt.Prelude.Text.{is_empty, char_count}
use grindvakt.Dict
use grindvakt.Dict.{Dict}
use grindvakt.Result.{ok, >>=-eq-ok, step->>, fail_if->>, ok_injective, map_ok}
use grindvakt.Url.{UrlLibrary}
use grindvakt.Callback.{
  AuthorizationResponse, AuthorizationResponseOptions, ResponseMode, response_params,
  response_jarm_max,
}
use grindvakt.Callback.Fields.{response_of, validate}
use grindvakt.Callback.Parse.{
  collect_params, fields_of, jarm_expected, jarm, check_jarm, with_mode, finish, parse_pairs,
}
use grindvakt.Callback.Parsed.{count, IsPlain, validate-IsPlain, collect_params-IsFound}
use grindvakt.Result.{map_ok-eq-ok}

-- A JARM response stands alone, and the caller takes it.
pub record IsSigned (pairs : List (String × String)) (opts : AuthorizationResponseOptions)
    (r : AuthorizationResponse) : Type 0 where
  pub token : String
  pub sent : Dict.get "response" pairs ≡ some token
  pub made : jarm token ≡ r
  pub taken : (opts.accept_unverified_jarm || jarm_expected opts) ≡ true
  pub filled : is_empty token ≡ false
  pub short : char_count token ≤ response_jarm_max
  pub no_code : Dict.get "code" pairs ≡ none
  pub no_error : Dict.get "error" pairs ≡ none
  pub no_state : Dict.get "state" pairs ≡ none
  pub no_iss : Dict.get "iss" pairs ≡ none

-- A plain response has the values that were sent.
pub record IsSent (pairs : List (String × String)) (opts : AuthorizationResponseOptions)
    (mode : ResponseMode) (r : AuthorizationResponse) : Type 0 where
  pub plain : IsPlain r
  pub unexpected : jarm_expected opts ≡ false
  pub no_token : Dict.get "response" pairs ≡ none
  pub code : r.code ≡ Dict.get "code" pairs
  pub state : r.state ≡ Dict.get "state" pairs
  pub error : r.error ≡ Dict.get "error" pairs
  pub iss : r.iss ≡ Dict.get "iss" pairs
  pub in_mode : r.response_mode ≡ mode

module _ (pairs : List (String × String)) (opts : AuthorizationResponseOptions)
    (mode : ResponseMode) (m : Dict String) (collected : collect_params [] pairs ≡ ok m) where
  sent : (k : String) → has k response_params ≡ true → Dict.get k m ≡ Dict.get k pairs
  unfolding Dict.get
  sent k p = (collect_params-IsFound k [] pairs m p collected).1

  finish-IsSigned :
      (token : String) {r : AuthorizationResponse}
      → Dict.get "response" m ≡ some token
      → check_jarm opts (fields_of m) token ≡ ok tt
      → jarm token ≡ r
      → IsSigned pairs opts r
  unfolding check_jarm fields_of
  finish-IsSigned token t h made = record {
    token = token;
    sent = sym (sent "response" refl) ∙ t;
    made = made;
    taken = ground (arith, h);
    filled = ground (arith, h);
    short = ground (arith, h);
    no_code = sym (sent "code" refl) ∙ ground (arith, h);
    no_error = sym (sent "error" refl) ∙ ground (arith, h);
    no_state = sym (sent "state" refl) ∙ ground (arith, h);
    no_iss = sym (sent "iss" refl) ∙ ground (arith, h);
  }

  validated-IsSent :
      (u : UrlLibrary) (q : AuthorizationResponse)
      → jarm_expected opts ≡ false
      → Dict.get "response" m ≡ none
      → IsPlain q
      → response_of u (fields_of m) ≡ q
      → IsSent pairs opts mode (with_mode mode q)
  unfolding response_of fields_of
  validated-IsSent u q unexpected t plain same = record {
    plain = record {
      either = plain.either;
      code = plain.code;
      state = plain.state;
      iss = plain.iss;
      error = plain.error;
      unsigned = plain.unsigned;
    };
    unexpected = unexpected;
    no_token = sym (sent "response" refl) ∙ t;
    code = ap (λ (x : AuthorizationResponse). x.code) (sym same) ∙ sent "code" refl;
    state = ap (λ (x : AuthorizationResponse). x.state) (sym same) ∙ sent "state" refl;
    error = ap (λ (x : AuthorizationResponse). x.error) (sym same) ∙ sent "error" refl;
    iss = ap (λ (x : AuthorizationResponse). x.iss) (sym same) ∙ sent "iss" refl;
    in_mode = refl;
  }

  finish-IsParsed :
      (u : UrlLibrary) (o : Option String) {r : AuthorizationResponse}
      → Dict.get "response" m ≡ o
      → finish u opts mode (fields_of m) o ≡ ok r
      → IsSigned pairs opts r ⊎ IsSent pairs opts mode r
  unfolding finish
  finish-IsParsed u (some token) t h =
      let (passed, made) = (step->> (check_jarm opts (fields_of m) token) (ok (jarm token))).0 h in
      inl (finish-IsSigned token t passed (ok_injective made))
  finish-IsParsed u none t h =
      let (unexpected, rest) =
        (fail_if->> (jarm_expected opts) _ (map_ok (with_mode mode) (validate u (fields_of m)))).0
          h in
      let (q, checked, made) = map_ok-eq-ok (with_mode mode) (validate u (fields_of m)) rest in
      let (plain, same) = validate-IsPlain u (fields_of m) checked in
      inr (subst (IsSent pairs opts mode) made (validated-IsSent u q unexpected t plain same))

-- Where a list of pairs is accepted as an authorization response, no protocol parameter stands
-- in it twice, and it is either a JARM response that the caller takes, not empty and not too
-- long, beside which no code, state, error or iss was sent, or a plain response with exactly the
-- code, state, error and iss that were sent, which pass the checks on values.
pub parse_pairs-IsParsed :
    (u : UrlLibrary) (pairs : List (String × String)) (opts : AuthorizationResponseOptions)
    (mode : ResponseMode) (k : String) {r : AuthorizationResponse}
    → has k response_params ≡ true
    → parse_pairs u pairs opts mode ≡ ok r
    → (count k pairs ≤ 1) × (IsSigned pairs opts r ⊎ IsSent pairs opts mode r)
unfolding parse_pairs Dict.get
parse_pairs-IsParsed u pairs opts mode k p h =
    let (m, collected, rest) = >>=-eq-ok (collect_params [] pairs) _ h in
    (
      omega (arith, (collect_params-IsFound k [] pairs m p collected).0),
      finish-IsParsed pairs opts mode m collected u (Dict.get "response" m) refl rest,
    )
