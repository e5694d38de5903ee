-- ===== src/Request/Parsing.antt =====
-- src/request.rs: what `from_pairs` makes of an ordered parameter list.
use grindvakt.Prelude.{
  String, ◌≡◌, refl, subst, ap, sym, ◌∙◌, ◌⊎◌, inl, inr, Bool, true, false, not, List, [], ◌∷◌,
  ◌++◌, Option, none, some, arith, eq_iff, eq_refl, ◌==◌, has, IsDistinct, is_some, unwrap_or, keep,
  map, Bool-cases, eq_of_test, false≢true, if◌then◌else◌,
}
use mathlib.Core.List.{append_assoc, append-nil}
use grindvakt.Dict
use grindvakt.Dict.{Dict, get-insert, get-filter_keys}
use grindvakt.Json.{Json}
use grindvakt.Result.{ok, ok_injective, >>=-eq-ok}
use grindvakt.Request.{
  AuthorizationRequest, known, bad_state, from_params, collect_pairs, from_pairs,
}

abbrev is_resource : String × String → Bool
is_resource p = p.0 == "resource"

-- the values of the `resource` parameters, in their order
abbrev pub resource_values : List (String × String) → List String
resource_values ps = map (λ p. p.1) (keep is_resource ps)

-- the other parameters
abbrev pub fields : List (String × String) → List (String × String)
fields ps = keep (λ p. not (is_resource p)) ps

abbrev pub names : List (String × String) → List String
names ps = map (λ p. p.0) (fields ps)

collect_pairs-resources :
    (u : Dict String) (rs : List String) (ps : List (String × String)) {u' : Dict String}
    {rs' : List String}
    → collect_pairs u rs ps ≡ ok (u', rs')
    → rs' ≡ rs ++ resource_values ps
unfolding collect_pairs
collect_pairs-resources u rs [] h = ground (arith, append-nil rs)
collect_pairs-resources u rs ((n, v) ∷ ps) {u'} {rs'} h = ground (
  arith,
  collect_pairs-resources u (rs ++ v ∷ []) ps {u' = u'} {rs' = rs'},
  collect_pairs-resources (Dict.insert n v u) rs ps {u' = u'} {rs' = rs'},
  append_assoc rs (v ∷ []) (resource_values ps),
)

collect_pairs-get :
    (u : Dict String) (rs : List String) (ps : List (String × String)) {u' : Dict String}
    {rs' : List String} (k : String)
    → collect_pairs u rs ps ≡ ok (u', rs')
    → Dict.get k u' ≡ (if is_some (Dict.get k u) then Dict.get k u else Dict.get k (fields ps))
unfolding collect_pairs Dict.get
collect_pairs-get u rs [] k h = ground arith
collect_pairs-get u rs ((n, v) ∷ ps) {u'} {rs'} k h = ground (
  arith,
  collect_pairs-get u (rs ++ v ∷ []) ps {u' = u'} {rs' = rs'} k,
  collect_pairs-get (Dict.insert n v u) rs ps {u' = u'} {rs' = rs'} k,
  get-insert n k v u,
  eq_iff n k,
)

collect_pairs-avoids :
    (u : Dict String) (rs : List String) (ps : List (String × String)) {u' : Dict String}
    {rs' : List String} (k : String)
    → collect_pairs u rs ps ≡ ok (u', rs')
    → is_some (Dict.get k u) ≡ true
    → has k (names ps) ≡ false
unfolding collect_pairs
collect_pairs-avoids u rs [] k h p = refl
collect_pairs-avoids u rs ((n, v) ∷ ps) {u'} {rs'} k h p = ground (
  arith,
  collect_pairs-avoids u (rs ++ v ∷ []) ps {u' = u'} {rs' = rs'} k,
  collect_pairs-avoids (Dict.insert n v u) rs ps {u' = u'} {rs' = rs'} k,
  get-insert n k v u,
  eq_iff n k,
)

collect_pairs-IsDistinct :
    (u : Dict String) (rs : List String) (ps : List (String × String)) {u' : Dict String}
    {rs' : List String}
    → collect_pairs u rs ps ≡ ok (u', rs')
    → IsDistinct (names ps)
unfolding collect_pairs
collect_pairs-IsDistinct u rs [] h = tt
collect_pairs-IsDistinct u rs ((n, v) ∷ ps) {u'} {rs'} h = ground (
  arith,
  collect_pairs-IsDistinct u (rs ++ v ∷ []) ps {u' = u'} {rs' = rs'},
  collect_pairs-IsDistinct (Dict.insert n v u) rs ps {u' = u'} {rs' = rs'},
  collect_pairs-avoids (Dict.insert n v u) rs ps {u' = u'} {rs' = rs'} n,
  get-insert n n v u,
  eq_refl n,
)

get-fields :
    (k : String) (ps : List (String × String))
    → (k == "resource") ≡ false
    → Dict.get k (fields ps) ≡ Dict.get k ps
unfolding Dict.get
get-fields k [] h = refl
get-fields k ((n, v) ∷ ps) h =
    ground (arith, get-fields k ps h, eq_iff n k, eq_iff n "resource", eq_iff k "resource")

-- What an accepted request has to do with the parameters. `Dict.get k ps` is the value of the
-- first parameter called `k`.
pub record Represents (f : String → Option Json) (ps : List (String × String))
    (r : AuthorizationRequest) : Type 0 where
  pub distinct : IsDistinct (names ps)
  pub resources : r.resources ≡ resource_values ps
  pub client_id : Dict.get "client_id" ps ≡ some r.client_id
  pub response_type : Dict.get "response_type" ps ≡ some r.response_type
  pub redirect_uri : Dict.get "redirect_uri" ps ≡ some r.redirect_uri
  pub scope : r.scope ≡ unwrap_or "" (Dict.get "scope" ps)
  pub state : r.state ≡ Dict.get "state" ps
  pub valid_state : bad_state r.state ≡ false
  pub nonce : r.nonce ≡ Dict.get "nonce" ps
  pub code_challenge : r.code_challenge ≡ Dict.get "code_challenge" ps
  pub code_challenge_method : r.code_challenge_method ≡ Dict.get "code_challenge_method" ps
  pub response_mode : r.response_mode ≡ Dict.get "response_mode" ps
  pub prompt : r.prompt ≡ Dict.get "prompt" ps
  pub acr_values : r.acr_values ≡ Dict.get "acr_values" ps
  pub request_object : r.request_object ≡ Dict.get "request" ps
  pub claims :
      ((Dict.get "claims" ps ≡ none) × (r.claims ≡ none))
      ⊎ ((s : String) × (v : Json) × (Dict.get "claims" ps ≡ some s)
          × (f s ≡ some v)
          × (r.claims ≡ some v))
  pub extra : (k : String) → Dict.get k r.extra ≡ (if has k known then none else Dict.get k ps)

not_resource : (k : String) → has k known ≡ false → (k == "resource") ≡ false
not_resource k h = elim (Bool-cases (k == "resource")) [
  | inl e ↦ absurd (false≢true (sym h ∙ ap (λ n. has n known) (eq_of_test e)))
  | inr e ↦ e
]

unless_known :
    (b : Bool) {x y : Option String}
    → (b ≡ false → x ≡ y)
    → (if not b then x else none) ≡ (if b then none else y)
unless_known true h = refl
unless_known false h = h refl

module _ (f : String → Option Json) where
  from_params-fields :
      (u : Dict String) (r : AuthorizationRequest)
      → from_params f u ≡ ok r
      → (Dict.get "client_id" u ≡ some r.client_id)
        × (Dict.get "response_type" u ≡ some r.response_type)
        × (Dict.get "redirect_uri" u ≡ some r.redirect_uri)
        × (r.scope ≡ unwrap_or "" (Dict.get "scope" u))
        × (r.state ≡ Dict.get "state" u)
        × (bad_state r.state ≡ false)
        × (r.nonce ≡ Dict.get "nonce" u)
        × (r.code_challenge ≡ Dict.get "code_challenge" u)
        × (r.code_challenge_method ≡ Dict.get "code_challenge_method" u)
        × (r.response_mode ≡ Dict.get "response_mode" u)
        × (r.prompt ≡ Dict.get "prompt" u)
        × (r.acr_values ≡ Dict.get "acr_values" u)
        × (r.request_object ≡ Dict.get "request" u)
  unfolding from_params
  from_params-fields u r h = ground arith

  from_params-claims :
      (u : Dict String) (r : AuthorizationRequest)
      → from_params f u ≡ ok r
      → ((Dict.get "claims" u ≡ none) × (r.claims ≡ none))
        ⊎ ((s : String) × (v : Json) × (Dict.get "claims" u ≡ some s)
            × (f s ≡ some v)
            × (r.claims ≡ some v))
  unfolding from_params
  from_params-claims u r h = ground arith

  from_params-extra :
      (u : Dict String) (r : AuthorizationRequest)
      → from_params f u ≡ ok r
      → r.extra ≡ Dict.filter_keys (λ k. not (has k known)) u
  unfolding from_params
  from_params-extra u r h = ground arith

  value_of :
      (ps : List (String × String)) {u : Dict String} {rs : List String} (k : String)
      → collect_pairs [] [] ps ≡ ok (u, rs)
      → (k == "resource") ≡ false
      → Dict.get k u ≡ Dict.get k ps
  unfolding Dict.get
  value_of ps k h ne = collect_pairs-get [] [] ps k h ∙ get-fields k ps ne

  value_unless_known :
      (ps : List (String × String)) {u : Dict String} {rs : List String} (k : String)
      → collect_pairs [] [] ps ≡ ok (u, rs)
      → Dict.get k (Dict.filter_keys (λ n. not (has n known)) u)
        ≡ (if has k known then none else Dict.get k ps)
  value_unless_known ps {u} k h =
      get-filter_keys (λ n. not (has n known)) k u
      ∙ unless_known (has k known) (λ e. value_of ps k h (not_resource k e))

  collected-Represents :
      (ps : List (String × String)) (u : Dict String) (rs : List String) (q : AuthorizationRequest)
      → collect_pairs [] [] ps ≡ ok (u, rs)
      → from_params f u ≡ ok q
      → Represents f ps (record q { resources = rs })
  collected-Represents ps u rs q h parsed =
      let facts = from_params-fields u q parsed in
      let value : (k : String) → (k == "resource") ≡ false → Dict.get k ps ≡ Dict.get k u =
        λ k ne. sym (value_of ps k h ne) in
      record {
        distinct = collect_pairs-IsDistinct [] [] ps h;
        resources = collect_pairs-resources [] [] ps h;
        client_id = value "client_id" refl ∙ facts.0;
        response_type = value "response_type" refl ∙ facts.1;
        redirect_uri = value "redirect_uri" refl ∙ facts.2;
        scope = rw (value "scope" refl) facts.3;
        state = facts.4 ∙ value_of ps "state" h refl;
        valid_state = facts.5;
        nonce = facts.6 ∙ value_of ps "nonce" h refl;
        code_challenge = facts.7 ∙ value_of ps "code_challenge" h refl;
        code_challenge_method = facts.8 ∙ value_of ps "code_challenge_method" h refl;
        response_mode = facts.9 ∙ value_of ps "response_mode" h refl;
        prompt = facts.10 ∙ value_of ps "prompt" h refl;
        acr_values = facts.11 ∙ value_of ps "acr_values" h refl;
        request_object = facts.12 ∙ value_of ps "request" h refl;
        claims = rw (value "claims" refl) (from_params-claims u q parsed);
        extra = λ k. rw (from_params-extra u q parsed) (value_unless_known ps k h);
      }

  -- Every accepted parameter list repeats no parameter but resource, and the request that it
  -- gives has in each field the value of that parameter, the resources in their order, a state
  -- that may be echoed, and in extra exactly the parameters that the protocol does not name.
  pub from_pairs-Represents :
      (ps : List (String × String)) (r : AuthorizationRequest)
      → from_pairs f ps ≡ ok r
      → Represents f ps r
  unfolding from_pairs
  from_pairs-Represents ps r h =
      let (found, collected, rest) = >>=-eq-ok (collect_pairs [] [] ps) _ h in
      let (q, parsed, made) = >>=-eq-ok (from_params f found.0) _ rest in
      subst (Represents f ps) (ok_injective made)
        (collected-Represents ps found.0 found.1 q collected parsed)
