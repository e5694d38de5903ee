-- ===== src/Federation/Constraints.antt =====
-- src/federation.rs: what holds of metadata once a policy has been applied.
use grindvakt.Prelude.{
  String, ◌≡◌, refl, sym, ap, subst, ◌∙◌, List, [], ◌∷◌, Bool, false, Option, none, some, All, has,
  arith, Option-cases, inl, inr, ◌==◌,
}
use grindvakt.Dict
use grindvakt.Dict.{Dict, get-insert, keys, IsMap}
use grindvakt.Error.{Error}
use grindvakt.Result.{fail_if, ◌>>◌, ok, ok_or-eq-ok, ok_injective}
use grindvakt.Exec.{Returns, after, after_lift}
use grindvakt.Json.{Json, array, nil}
use grindvakt.Json.Access.{as_object}
use grindvakt.Federation.Policy.{
  as_array, or_insert, add_to, force_value, set_default, add_values, change, lacks_essential,
  not_one_of, not_subset_of, not_superset_of, check_constraints, essential_error, one_of_error,
  subset_error, superset_error, apply_ops, apply_policy,
}

get-insert_other :
    (k j : String) (v : Json) (m : Dict Json)
    → (k == j) ≡ false
    → Dict.get j (Dict.insert k v m) ≡ Dict.get j m
get-insert_other k j v m n = get-insert k j v m ∙ rw n

or_insert-get_other :
    (k j : String) (v : Json) (m : Dict Json)
    → (k == j) ≡ false
    → Dict.get j (or_insert k v m) ≡ Dict.get j m
unfolding or_insert
or_insert-get_other k j v m n = elim (Option-cases (Dict.get k m)) [
  | inl e ↦ rw (e, or_insert) (get-insert_other k j v m n)
  | inr (w, e) ↦ rw (e, or_insert)
]

add_to-get_other :
    (k j : String) (vs : List Json) (o : Option Json) (m : Dict Json)
    → (k == j) ≡ false
    → Dict.get j (add_to k vs o m) ≡ Dict.get j m
unfolding add_to
add_to-get_other k j vs none m n = refl
add_to-get_other k j vs (some (array xs)) m n = get-insert_other k j (array _) m n
add_to-get_other k j vs (some v) m n = refl

force_value-get_other :
    (k j : String) (o : Option Json) (m : Dict Json)
    → (k == j) ≡ false
    → Dict.get j (force_value k o m) ≡ Dict.get j m
unfolding force_value
force_value-get_other k j none m n = refl
force_value-get_other k j (some v) m n = get-insert_other k j v m n

set_default-get_other :
    (k j : String) (o : Option Json) (m : Dict Json)
    → (k == j) ≡ false
    → Dict.get j (set_default k o m) ≡ Dict.get j m
unfolding set_default
set_default-get_other k j none m n = refl
set_default-get_other k j (some v) m n = or_insert-get_other k j v m n

add_values-get_other :
    (k j : String) (o : Option Json) (m : Dict Json)
    → (k == j) ≡ false
    → Dict.get j (add_values k o m) ≡ Dict.get j m
unfolding add_values
add_values-get_other k j none m n = refl
add_values-get_other k j (some vs) m n =
    let m' = or_insert k (array nil) m in
    add_to-get_other k j (as_array vs) (Dict.get k m') m' n
    ∙ or_insert-get_other k j (array nil) m n

-- A parameter's operators leave the other parameters alone.
change-get_other :
    (k j : String) (ops m : Dict Json)
    → (k == j) ≡ false
    → Dict.get j (change k ops m) ≡ Dict.get j m
unfolding change
change-get_other k j ops m n =
    add_values-get_other k j (Dict.get "add" ops) _ n
    ∙ set_default-get_other k j (Dict.get "default" ops) _ n
    ∙ force_value-get_other k j (Dict.get "value" ops) m n

-- The constraints of a policy hold of a value, which may be absent.
pub record IsMet (ops : Dict Json) (current : Option Json) : Type 0 where
  pub essential : lacks_essential (Dict.get "essential" ops) current ≡ false
  pub one_of : not_one_of (Dict.get "one_of" ops) current ≡ false
  pub subset_of : not_subset_of (Dict.get "subset_of" ops) current ≡ false
  pub superset_of : not_superset_of (Dict.get "superset_of" ops) current ≡ false

four_checks :
    (a b c d : Bool) (e f g i : Error)
    → (fail_if a e >> (fail_if b f >> (fail_if c g >> fail_if d i))) ≡ ok tt
    → (a ≡ false) × (b ≡ false) × (c ≡ false) × (d ≡ false)
four_checks a b c d e f g i h = ground (arith, h)

check_constraints-IsMet :
    (k : String) (ops : Dict Json) (current : Option Json)
    → check_constraints k ops current ≡ ok tt
    → IsMet ops current
unfolding check_constraints
check_constraints-IsMet k ops current h =
    let (a, b, c, d) =
      four_checks (lacks_essential (Dict.get "essential" ops) current)
        (not_one_of (Dict.get "one_of" ops) current)
        (not_subset_of (Dict.get "subset_of" ops) current)
        (not_superset_of (Dict.get "superset_of" ops) current) (essential_error k) (one_of_error k)
        (subset_error k) (superset_error k) h in
    record { essential = a; one_of = b; subset_of = c; superset_of = d }

-- A parameter's policy is met by the metadata.
abbrev pub IsApplied : Dict Json → String × Json → Type 0
IsApplied m (k, policy) =
    (ops : Dict Json) × (as_object policy ≡ some ops) × IsMet ops (Dict.get k m)

apply_ops-IsApplied :
    (k : String) (policy : Json) (m m' : Dict Json)
    → Returns (apply_ops k policy) m tt m'
    → IsApplied m' (k, policy) × ((j : String) → (k == j) ≡ false → Dict.get j m' ≡ Dict.get j m)
unfolding apply_ops
apply_ops-IsApplied k policy m m' h = after_lift _ _ _ h λ ops a h₁. after _ _ _ h₁ λ _ w₁ b h₂.
    after _ _ _ h₂ λ now w₂ c h₃.
      let changed : w₁ ≡ change k ops m = λ i. (sym b i).1 in
      let read : now ≡ w₁ = ok_injective (λ i. (sym c i).0) in
      let last : m' ≡ w₁ = (λ i. (sym h₃ i).1) ∙ (λ i. (sym c i).1) in
      let met : check_constraints k ops (Dict.get k m') ≡ ok tt =
        ap (λ n. check_constraints k ops (Dict.get k n)) (last ∙ sym read) ∙ (λ i. (h₃ i).0) in
      (
        (ops, ok_or-eq-ok _ _ a, check_constraints-IsMet k ops (Dict.get k m') met),
        λ j n. ap (Dict.get j) (last ∙ changed) ∙ change-get_other k j ops m n,
      )

apply_policy-frame :
    (policy m m' : Dict Json) (j : String)
    → has j (keys policy) ≡ false
    → Returns (apply_policy policy) m tt m'
    → Dict.get j m' ≡ Dict.get j m
unfolding apply_policy
apply_policy-frame [] m m' j n h = ap (Dict.get j) (λ i. (sym h i).1)
apply_policy-frame ((k, p) ∷ policy) m m' j n h = after _ _ _ h λ _ m₁ a h₁.
    apply_policy-frame policy m₁ m' j (ground (arith, n)) h₁
    ∙ (apply_ops-IsApplied k p m m₁ a).1 j (ground (arith, n))

-- Where a metadata policy without repeated parameters is applied, the resulting metadata still
-- meets every constraint of every parameter of the policy, also after the changes for later
-- parameters, and all other parameters are as they were.
pub apply_policy-IsApplied :
    (policy m : Dict Json) {m' : Dict Json}
    → IsMap policy
    → Returns (apply_policy policy) m tt m'
    → All (IsApplied m') policy
      × ((j : String) → has j (keys policy) ≡ false → Dict.get j m' ≡ Dict.get j m)
unfolding apply_policy
apply_policy-IsApplied [] m distinct h = (tt, λ j n. apply_policy-frame [] m _ j n h)
apply_policy-IsApplied ((k, p) ∷ policy) m {m' = m'} distinct h = after _ _ _ h λ _ m₁ a h₁.
    let (ops, o, met) = (apply_ops-IsApplied k p m m₁ a).0 in
    let rest = apply_policy-IsApplied policy m₁ {m' = m'} distinct.1 h₁ in
    (
      (
        (ops, o, subst (IsMet ops) (sym (apply_policy-frame policy m₁ m' k distinct.0 h₁)) met),
        rest.0,
      ),
      λ j n. apply_policy-frame ((k, p) ∷ policy) m m' j n h,
    )
