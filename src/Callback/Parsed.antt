-- ===== src/Callback/Parsed.antt =====
-- src/callback.rs: what the loop over the parameters finds, and what the checks ensure.
use grindvakt.Prelude.{
  ℕ, suc, ◌+◌, ◌≤◌, String, ◌≡◌, refl, sym, ap, subst, ◌∙◌, List, [], ◌∷◌, Bool, true, false, not,
  ◌&&◌, Option, none, some, is_some, has, arith, eq_of_test, eq_refl, Bool-cases, inl, inr,
  if◌then◌else◌, ◌==◌, has-congr, all,
}
use grindvakt.Prelude.Text.{any_char, is_empty, char_count}
use grindvakt.Prelude.Bytes.{as_bytes}
use grindvakt.Dict
use grindvakt.Dict.{Dict, get-insert}
use grindvakt.Result.{in_order-All, Result, ok, err, step->>, ok_injective}
use grindvakt.Url.{UrlLibrary}
use grindvakt.Callback.{AuthorizationResponse, response_params, response_value_max}
use grindvakt.Callback.Fields.{
  Fields, is_hostile, check_value, check_error_code, check_some, check_blank, check_fields, checks,
  is_error_byte, response_of, validate,
}
use grindvakt.Callback.Parse.{collect_params}

-- how often a name stands in a list of pairs
abbrev pub count : String → List (String × String) → ℕ
count k [] = 0
count k ((j, v) ∷ pairs) = if j == k then suc (count k pairs) else count k pairs

abbrev pub or_else : Option String → Option String → Option String
or_else none b = b
or_else (some a) b = some a

abbrev pub one_if : Bool → ℕ
one_if true = 1
one_if false = 0

-- A protocol parameter stands once at most, and is found where it stands.
abbrev pub IsFound : String → Dict String → List (String × String) → Dict String → Type 0
IsFound k found pairs m =
    (one_if (is_some (Dict.get k found)) + count k pairs ≤ 1)
    × (Dict.get k m ≡ or_else (Dict.get k found) (Dict.get k pairs))

guarded :
    {E A : Type 0} (b : Bool) (e : E) (r : Result E A) {a : A}
    → (if b then err e else r) ≡ ok a
    → (b ≡ false) × (r ≡ ok a)
guarded true e r h = cc
guarded false e r h = (refl, h)

-- The pair is of the name that is asked for.
found_here :
    (k v : String) (o : Option String) (n : ℕ) (found m : Dict String)
    → (true && is_some (Dict.get k found)) ≡ false
    → (one_if (is_some (Dict.get k (Dict.insert k v found))) + n ≤ 1)
      × (Dict.get k m ≡ or_else (Dict.get k (Dict.insert k v found)) o)
    → (one_if (is_some (Dict.get k found)) + suc n ≤ 1)
      × (Dict.get k m ≡ or_else (Dict.get k found) (some v))
found_here k v o n found m new h = ground (arith, h, new, get-insert k k v found, eq_refl k)

kept_found :
    (k j v : String) (b : Bool) (found : Dict String)
    → (j == k) ≡ false
    → Dict.get k (if b then Dict.insert j v found else found) ≡ Dict.get k found
kept_found k j v true found n = get-insert j k v found ∙ rw n
kept_found k j v false found n = refl

pub collect_params-IsFound :
    (k : String) (found : Dict String) (pairs : List (String × String)) (m : Dict String)
    → has k response_params ≡ true
    → collect_params found pairs ≡ ok m
    → IsFound k found pairs m
unfolding collect_params Dict.get
collect_params-IsFound k found [] m p h =
    let e : found ≡ m = ok_injective h in (ground arith, ground (arith, ap (Dict.get k) e))
collect_params-IsFound k found ((j, v) ∷ pairs) m p h =
    let known = has j response_params in
    let next = if known then Dict.insert j v found else found in
    let (new, rest) =
      guarded (known && is_some (Dict.get j found)) _ (collect_params next pairs) h in
    let ih = collect_params-IsFound k next pairs m p rest in
    elim (Bool-cases (j == k)) [
      | inl e ↦
          let same : j ≡ k = eq_of_test e in
          let is_param : known ≡ true = has-congr j k response_params same ∙ p in
          let inserted : next ≡ Dict.insert k v found =
            ap (λ b. if b then Dict.insert j v found else found) is_param
            ∙ ap (λ i. Dict.insert i v found) same in
          rw e (
            found_here k v (Dict.get k pairs) (count k pairs) found m
              (ap (λ i. true && is_some (Dict.get i found)) (sym same)
                ∙ ap (λ b. b && is_some (Dict.get j found)) (sym is_param)
                ∙ new)
              (subst
                (λ d.
                  (one_if (is_some (Dict.get k d)) + count k pairs ≤ 1)
                  × (Dict.get k m ≡ or_else (Dict.get k d) (Dict.get k pairs)))
                inserted ih))
      | inr n ↦ rw n (
          subst
            (λ o.
              (one_if (is_some o) + count k pairs ≤ 1)
              × (Dict.get k m ≡ or_else o (Dict.get k pairs)))
            (kept_found k j v known found n) ih)
    ]

-- A value that is neither empty nor long and has no character that could mislead.
abbrev pub IsClean : Option String → Type 0
IsClean none = Unit {0}
IsClean (some v) =
    (is_empty v ≡ false) × (char_count v ≤ response_value_max) × (any_char is_hostile v ≡ false)

-- An error code of the set of RFC 6749.
abbrev pub IsCode : Option String → Type 0
IsCode none = Unit {0}
IsCode (some v) =
    (is_empty v ≡ false) × (char_count v ≤ 64) × (all is_error_byte (as_bytes v) ≡ true)

value-IsClean :
    (name : String) (o : Option String)
    → check_blank name o ≡ ok tt
    → check_some (check_value name) o ≡ ok tt
    → IsClean o
unfolding check_value
value-IsClean name none b h = tt
value-IsClean name (some v) b h = ground (arith, b, h)

code-IsCode :
    (o : Option String)
    → check_blank "error" o ≡ ok tt
    → check_some check_error_code o ≡ ok tt
    → IsCode o
unfolding check_error_code
code-IsCode none b h = tt
code-IsCode (some v) b h = ground (arith, b, h)

-- Either a code or an error, and values that pass the checks.
pub record IsPlain (r : AuthorizationResponse) : Type 0 where
  pub either : is_some r.error ≡ not (is_some r.code)
  pub code : IsClean r.code
  pub state : IsClean r.state
  pub iss : IsClean r.iss
  pub error : IsCode r.error
  pub unsigned : r.jarm_response ≡ none

pub validate-IsPlain :
    (u : UrlLibrary) (f : Fields) {r : AuthorizationResponse}
    → validate u f ≡ ok r
    → IsPlain r × (response_of u f ≡ r)
unfolding validate check_fields response_of
validate-IsPlain u f h =
    let (passed, made) = (step->> (check_fields f) (ok (response_of u f))).0 h in
    let (
      both,
      (
        neither,
        (blank_code, (blank_state, (blank_error, (blank_iss, (code, (state, (iss, (error, _)))))))),
      ),
    ) =
      in_order-All (checks f) passed in
    let plain : IsPlain (response_of u f) = record {
      either = ground (arith, both, neither);
      code = value-IsClean "code" f.code blank_code code;
      state = value-IsClean "state" f.state blank_state state;
      iss = value-IsClean "iss" f.iss blank_iss iss;
      error = code-IsCode f.error blank_error error;
      unsigned = refl;
    } in
    (subst IsPlain (ok_injective made) plain, ok_injective made)
