-- ===== src/Rp/Userinfo/Attributes.antt =====
-- src/rp.rs: claims as attributes with lists of values.
use grindvakt.Prelude.{◌+◌, String, List, [], ◌∷◌, Bool, true, false, none, some}
use grindvakt.Prelude.Text.{◌<>◌, show}
use grindvakt.Dict
use grindvakt.Dict.{Dict}
use grindvakt.Json.{Json, null, bool, number, negative, float, string, array, object}
use grindvakt.Json.Access.{as_object, as_str, elements}

-- `filter_map(as_str)`
abbrev pub texts : List Json → List String
texts [] = []
texts (v ∷ vs) = let rest = texts vs in elim (as_str v) [ some s ↦ s ∷ rest | none ↦ rest ]

abbrev bool_text : Bool → String
bool_text true = "true"
bool_text false = "false"

-- The values of a claim; none for an object or null.
unfoldable pub values_of : Json → List String
values_of (string s) = s ∷ []
values_of (array xs) = texts (elements xs)
values_of (number n) = show n ∷ []
values_of (negative n) = ("-" <> show (n + 1)) ∷ []
values_of (float x) = x ∷ []
values_of (bool b) = bool_text b ∷ []
values_of null = []
values_of (object fs) = []

add_attribute : String → List String → Dict (List String) → Dict (List String)
add_attribute k [] out = out
add_attribute k (v ∷ vs) out = Dict.insert k (v ∷ vs) out

-- The loop over the claims.
unfoldable pub attributes_from : Dict (List String) → Dict Json → Dict (List String)
unfolding add_attribute
attributes_from out [] = out
attributes_from out ((k, v) ∷ claims) = attributes_from (add_attribute k (values_of v) out) claims

unfoldable pub claims_to_attributes : Json → Dict (List String)
claims_to_attributes claims = elim (as_object claims) [
  | none ↦ []
  | some obj ↦ attributes_from [] obj
]
