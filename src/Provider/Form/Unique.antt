-- ===== src/Provider/Form/Unique.antt =====
-- src/provider.rs: which token forms are accepted.
use grindvakt.Prelude.{
  String, ◌≡◌, ◌↔◌, refl, ◌∙◌, true, false, List, [], ◌∷◌, Option, none, some, arith, has,
  IsDistinct, has-congr, eq_iff, eq_refl, ap, sym, ◌==◌,
}
use grindvakt.Dict
use grindvakt.Dict.{Dict, get-insert}
use grindvakt.Result.{ok}
use grindvakt.Provider.Form.{collect_unique, unique_parameters}

abbrev or_else : Option String → Option String → Option String
or_else none b = b
or_else (some a) b = some a

-- What has been collected answers as the list of the parameters does, and no name came twice.
collect_unique_sound :
    (unique : Dict String) (params : List (String × String)) (m : Dict String)
    → collect_unique unique params ≡ ok m
    → IsDistinct (Dict.keys params)
      × ((k : String) → has k (Dict.keys params) ≡ true → Dict.get k unique ≡ none)
      × ((k : String) → Dict.get k m ≡ or_else (Dict.get k params) (Dict.get k unique))
unfolding collect_unique Dict.get
collect_unique_sound unique [] m h = (tt, λ k e. cc, λ k. ground (arith, h))
collect_unique_sound unique ((name, value) ∷ params) m h =
    let (distinct, fresh, answers) =
      collect_unique_sound (Dict.insert name value unique) params m (ground (arith, h)) in
    let absent : has name (Dict.keys params) ≡ false =
      ground (arith, fresh name, get-insert name name value unique, eq_refl name) in
    let unseen = Dict.get-eq-none name params absent in
    (
      (absent, distinct),
      λ k e. ground (
        arith,
        e,
        h,
        fresh k,
        get-insert name k value unique,
        eq_iff name k,
        λ (q : (name == k) ≡ true). ap (λ x. Dict.get x unique) ((eq_iff name k).0 q),
      ),
      λ k. ground (
        arith,
        answers k,
        get-insert name k value unique,
        λ (q : (name == k) ≡ true).
            ap (λ x. Dict.get x params) (sym ((eq_iff name k).0 q)) ∙ unseen,
      ),
    )

pub unique_parameters_sound :
    (params : List (String × String)) (m : Dict String)
    → unique_parameters params ≡ ok m
    → IsDistinct (Dict.keys params) × ((k : String) → Dict.get k m ≡ Dict.get k params)
unfolding unique_parameters Dict.get
unique_parameters_sound params m h =
    let (distinct, _, answers) = collect_unique_sound [] params m h in
    (distinct, λ k. answers k ∙ ground arith)

collect_unique_complete :
    (unique : Dict String) (params : List (String × String))
    → IsDistinct (Dict.keys params)
    → ((k : String) → has k (Dict.keys params) ≡ true → Dict.get k unique ≡ none)
    → (m : Dict String) × (collect_unique unique params ≡ ok m)
unfolding collect_unique
collect_unique_complete unique [] d f = (unique, refl)
collect_unique_complete unique ((name, value) ∷ params) d f =
    let (m, e) = collect_unique_complete (Dict.insert name value unique) params d.1 (λ k q. ground (
      arith,
      d.0,
      q,
      f k,
      get-insert name k value unique,
      λ (t : (name == k) ≡ true). has-congr name k (Dict.keys params) ((eq_iff name k).0 t),
    )) in
    (m, ground (arith, e, f name, eq_refl name))

-- A token form is accepted, with a map that answers as the list of its parameters does, exactly
-- if no parameter stands twice in it.
pub unique_parameters_iff :
    (params : List (String × String))
    → ((m : Dict String) × (unique_parameters params ≡ ok m)
        × ((k : String) → Dict.get k m ≡ Dict.get k params))
      ↔ IsDistinct (Dict.keys params)
unfolding unique_parameters Dict.get
unique_parameters_iff params = (
  λ (m, h, _). (unique_parameters_sound params m h).0,
  λ d.
      let (m, h) = collect_unique_complete [] params d (λ k e. refl) in
      (m, h, (unique_parameters_sound params m h).1),
)
