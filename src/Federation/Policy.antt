-- ===== src/Federation/Policy.antt =====
-- src/federation.rs: metadata policies.
use grindvakt.Prelude.{
  String, List, [], ◌∷◌, ◌++◌, Bool, true, false, not, ◌&&◌, Option, none, some, is_some, any,
  if◌then◌else◌,
}
use grindvakt.Prelude.Text.{◌<>◌}
use grindvakt.Dict
use grindvakt.Dict.{Dict}
use grindvakt.Result.{Result, ok_or, fail_if, ◌>>◌}
use grindvakt.Exec
use grindvakt.Exec.{Exec, lift, run, pure}
use grindvakt.Error.{Error, authn, bad_request}
use grindvakt.Error.Escape.{display_safe}
use grindvakt.Json.{Json, array, nil}
use grindvakt.Json.Access.{as_object, as_bool, and_then, contains, elements, items}

-- `as_array`
abbrev pub as_array : Json → List Json
as_array (array xs) = elements xs
as_array v = v ∷ []

-- `metadata.entry(k).or_insert_with(|| v)`
unfoldable pub or_insert : String → Json → Dict Json → Dict Json
or_insert k v m = elim (Dict.get k m) [ some w ↦ m | none ↦ Dict.insert k v m ]

-- `if !arr.contains(&item) { arr.push(item) }` for each item
unfoldable pub push_missing : List Json → List Json → List Json
push_missing xs [] = xs
push_missing xs (v ∷ vs) = push_missing (if contains xs v then xs else xs ++ v ∷ []) vs

-- The items go into the parameter where it is an array.
unfoldable pub add_to : String → List Json → Option Json → Dict Json → Dict Json
add_to k vs (some (array xs)) m = Dict.insert k (array (items (push_missing (elements xs) vs))) m
add_to k vs _ m = m

-- The operators that change the metadata, for one parameter.
unfoldable pub force_value : String → Option Json → Dict Json → Dict Json
force_value k none m = m
force_value k (some v) m = Dict.insert k v m

unfoldable pub set_default : String → Option Json → Dict Json → Dict Json
set_default k none m = m
set_default k (some v) m = or_insert k v m

unfoldable pub add_values : String → Option Json → Dict Json → Dict Json
add_values k none m = m
add_values k (some vs) m =
    let m' = or_insert k (array nil) m in add_to k (as_array vs) (Dict.get k m') m'

unfoldable pub change : String → Dict Json → Dict Json → Dict Json
change k ops m =
    add_values k (Dict.get "add" ops)
      (set_default k (Dict.get "default" ops) (force_value k (Dict.get "value" ops) m))

abbrev is_true : Option Bool → Bool
is_true (some true) = true
is_true _ = false

-- The operators that check it, on the value that the parameter has then.
abbrev pub lacks_essential : Option Json → Option Json → Bool
lacks_essential essential current = is_true (and_then essential as_bool) && not (is_some current)

abbrev pub not_one_of : Option Json → Option Json → Bool
not_one_of (some allowed) (some v) = not (contains (as_array allowed) v)
not_one_of _ _ = false

abbrev pub not_subset_of : Option Json → Option Json → Bool
not_subset_of (some allowed) (some v) = any (λ x. not (contains (as_array allowed) x)) (as_array v)
not_subset_of _ _ = false

-- `unwrap_or_default()`
abbrev pub values_of : Option Json → List Json
values_of none = []
values_of (some v) = as_array v

abbrev pub not_superset_of : Option Json → Option Json → Bool
not_superset_of none current = false
not_superset_of (some required) current =
    any (λ x. not (contains (values_of current) x)) (as_array required)

-- the errors of the four checks
abbrev pub essential_error : String → Error
essential_error k = authn ("metadata policy requires essential parameter " <> display_safe k)

abbrev pub one_of_error : String → Error
one_of_error k = authn ("metadata " <> display_safe k <> " not in one_of constraint")

abbrev pub subset_error : String → Error
subset_error k = authn ("metadata " <> display_safe k <> " violates subset_of constraint")

abbrev pub superset_error : String → Error
superset_error k = authn ("metadata " <> display_safe k <> " violates superset_of constraint")

unfoldable pub check_constraints : String → Dict Json → Option Json → Result Error (Unit {0})
check_constraints k ops current =
    fail_if (lacks_essential (Dict.get "essential" ops) current) (essential_error k)
    >> (fail_if (not_one_of (Dict.get "one_of" ops) current) (one_of_error k)
        >> (fail_if (not_subset_of (Dict.get "subset_of" ops) current) (subset_error k)
            >> fail_if (not_superset_of (Dict.get "superset_of" ops) current) (superset_error k)))

-- One round of the loop. The metadata is what the operation changes.
unfoldable pub apply_ops : String → Json → Exec (Dict Json) Error (Unit {0})
apply_ops k policy =
    Exec.◌>>=◌
      (lift (
        ok_or (as_object policy)
          (bad_request ("policy for " <> display_safe k <> " is not an object"))))
      λ ops.
        Exec.◌>>=◌ (run (λ m. (m, change k ops m)))
          λ _. Exec.◌>>=◌ (run (λ m. (m, m))) λ m. lift (check_constraints k ops (Dict.get k m))

unfoldable pub apply_policy : Dict Json → Exec (Dict Json) Error (Unit {0})
apply_policy [] = pure tt
apply_policy ((k, policy) ∷ policies) = Exec.◌>>=◌ (apply_ops k policy) λ _. apply_policy policies
