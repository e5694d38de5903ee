-- ===== src/Json/Access.antt =====
-- `serde_json::Value`: access and equality. The fields of an object are those of a map, in its order.
use grindvakt.Prelude.{
  String, Bool, true, false, ◌&&◌, List, [], ◌∷◌, Option, none, some, any, ◌==◌, nat_eq,
}
use grindvakt.Dict
use grindvakt.Dict.{Dict}
use grindvakt.Json.{
  Json, Items, Fields, null, bool, number, negative, float, string, array, object, nil, cons, end,
  field,
}

abbrev bool_eq : Bool → Bool → Bool
bool_eq true b = b
bool_eq false true = false
bool_eq false false = true

-- `a == b`
unfoldable mutual
  pub json_eq : Json → Json → Bool
  json_eq null null = true
  json_eq (bool a) (bool b) = bool_eq a b
  json_eq (number a) (number b) = nat_eq a b
  json_eq (negative a) (negative b) = nat_eq a b
  json_eq (float a) (float b) = a == b
  json_eq (string a) (string b) = a == b
  json_eq (array xs) (array ys) = items_eq xs ys
  json_eq (object fs) (object gs) = fields_eq fs gs
  json_eq _ _ = false

  pub items_eq : Items → Items → Bool
  items_eq nil nil = true
  items_eq (cons x xs) (cons y ys) = json_eq x y && items_eq xs ys
  items_eq _ _ = false

  pub fields_eq : Fields → Fields → Bool
  fields_eq end end = true
  fields_eq (field k x fs) (field j y gs) = k == j && json_eq x y && fields_eq fs gs
  fields_eq _ _ = false

-- `xs.contains(v)`
abbrev pub contains : List Json → Json → Bool
contains xs v = any (λ x. json_eq x v) xs

abbrev pub elements : Items → List Json
elements nil = []
elements (cons x xs) = x ∷ elements xs

abbrev pub items : List Json → Items
items [] = nil
items (x ∷ xs) = cons x (items xs)

abbrev pub entries : Fields → Dict Json
entries end = []
entries (field k v fs) = (k, v) ∷ entries fs

abbrev pub as_str : Json → Option String
as_str (string s) = some s
as_str _ = none

abbrev pub as_bool : Json → Option Bool
as_bool (bool b) = some b
as_bool _ = none

-- `as_array`
abbrev pub as_list : Json → Option (List Json)
as_list (array xs) = some (elements xs)
as_list _ = none

abbrev pub as_object : Json → Option (Dict Json)
as_object (object fs) = some (entries fs)
as_object _ = none

-- `v.get(k)`
unfoldable pub get : String → Json → Option Json
get k (object fs) = Dict.get k (entries fs)
get k _ = none

-- `o.and_then(f)`
abbrev pub and_then {ℓ κ} : {A : Type ℓ} {B : Type κ} → Option A → (A → Option B) → Option B
and_then none f = none
and_then (some a) f = f a

-- `v.get(k).and_then(|v| v.as_str())`
abbrev pub get_str : String → Json → Option String
get_str k v = and_then (get k v) as_str
