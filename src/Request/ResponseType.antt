-- ===== src/Request/ResponseType.antt =====
-- src/request.rs: `response_type_eq` compares sets of values.
use grindvakt.Prelude.{
  String, ◌≡◌, refl, sym, ◌∙◌, ◌↔◌, Bool, true, false, ◌||◌, List, [], ◌∷◌, Option, none, some,
  arith, eq_iff, eq_refl, has, has-congr, all, All, IsDistinct, nat_eq, and-eq-true,
}
use grindvakt.Prelude.Text.{is_empty, split}
use grindvakt.Request.{collect_values, values, set_eq, both_eq, response_type_eq}

collect_values-avoids :
    (res ws : List String) {s : List String} (x : String)
    → collect_values res ws ≡ some s
    → has x res ≡ true
    → has x ws ≡ false
unfolding collect_values
collect_values-avoids res [] x h m = refl
collect_values-avoids res (w ∷ ws) {s} x h m =
    ground (arith, eq_iff w x, has-congr w x res, collect_values-avoids (w ∷ res) ws {s = s} x)

collect_values-IsDistinct :
    (res ws : List String) {s : List String} → collect_values res ws ≡ some s → IsDistinct ws
unfolding collect_values
collect_values-IsDistinct res [] h = tt
collect_values-IsDistinct res (w ∷ ws) {s} h =
    let later : collect_values (w ∷ res) ws ≡ some s = ground arith in
    (
      collect_values-avoids (w ∷ res) ws w later (rw eq_refl refl),
      collect_values-IsDistinct (w ∷ res) ws later,
    )

collect_values-filled :
    (res ws : List String) {s : List String}
    → collect_values res ws ≡ some s
    → All (λ w. is_empty w ≡ false) ws
unfolding collect_values
collect_values-filled res [] h = tt
collect_values-filled res (w ∷ ws) {s} h =
    ground (arith, collect_values-filled (w ∷ res) ws {s = s})

collect_values-has :
    (res ws : List String) {s : List String} (x : String)
    → collect_values res ws ≡ some s
    → has x s ≡ (has x res || has x ws)
unfolding collect_values
collect_values-has res [] x h = ground arith
collect_values-has res (w ∷ ws) {s} x h = ground (arith, collect_values-has (w ∷ res) ws {s = s} x)

-- No value stands in the list that is searched already.
abbrev Avoids : List String → List String → Type 0
Avoids res ws = All (λ w. has w res ≡ false) ws

Avoids-cons :
    (w : String) (res ws : List String) → has w ws ≡ false → Avoids res ws → Avoids (w ∷ res) ws
Avoids-cons w res [] d a = tt
Avoids-cons w res (v ∷ ws) d a = ground (arith, eq_iff w v, eq_iff v w, Avoids-cons w res ws)

collect_values-total :
    (res ws : List String)
    → All (λ w. is_empty w ≡ false) ws
    → IsDistinct ws
    → Avoids res ws
    → (s : List String) × (collect_values res ws ≡ some s)
unfolding collect_values
collect_values-total res [] f d a = (res, refl)
collect_values-total res (w ∷ ws) f d a =
    let (s, h) = collect_values-total (w ∷ res) ws f.1 d.1 (Avoids-cons w res ws d.0 a.1) in
    (s, ground arith)

set_eq-has :
    (a b : List String) (x : String) → all (λ y. has y b) a ≡ true → has x a ≡ true → has x b ≡ true
set_eq-has (y ∷ ys) b x h m = ground (arith, eq_iff y x, has-congr y x b, set_eq-has ys b x)
set_eq-has [] b x h m = cc

all-has :
    (a b : List String)
    → ((x : String) → has x a ≡ true → has x b ≡ true)
    → all (λ y. has y b) a ≡ true
all-has [] b h = refl
all-has (y ∷ ys) b h =
    ground (arith, h y (rw eq_refl refl), all-has ys b (λ x m. h x (ground arith)))

Bool-eq : (a b : Bool) → (a ≡ true → b ≡ true) → (b ≡ true → a ≡ true) → a ≡ b
Bool-eq true b f g = sym (f refl)
Bool-eq false true f g = g refl
Bool-eq false false f g = refl

set_eq_iff : (a b : List String) → (set_eq a b ≡ true) ↔ ((x : String) → has x a ≡ has x b)
set_eq_iff a b = (
  λ h x.
      let (p, q) = and-eq-true _ _ h in
      Bool-eq (has x a) (has x b) (set_eq-has a b x p) (set_eq-has b a x q),
  λ h. rw (all-has a b (λ x m. sym (h x) ∙ m)) (all-has b a (λ x m. h x ∙ m)),
)

-- the pieces between single spaces
abbrev pub members : String → List String
members input = split (nat_eq b' ') input

-- No piece is empty, and none is repeated.
pub record IsWellFormed (input : String) : Type 0 where
  pub filled : All (λ w. is_empty w ≡ false) (members input)
  pub distinct : IsDistinct (members input)

values_sound :
    (input : String) {s : List String}
    → values input ≡ some s
    → IsWellFormed input × ((x : String) → has x s ≡ has x (members input))
unfolding values
values_sound input h = (
  record {
    filled = collect_values-filled [] (members input) h;
    distinct = collect_values-IsDistinct [] (members input) h;
  },
  λ x. collect_values-has [] (members input) x h,
)

Avoids-nil : (ws : List String) → Avoids [] ws
Avoids-nil [] = tt
Avoids-nil (w ∷ ws) = (refl, Avoids-nil ws)

values-total : (input : String) → IsWellFormed input → (s : List String) × (values input ≡ some s)
unfolding values
values-total input w =
    collect_values-total [] (members input) w.filled w.distinct (Avoids-nil (members input))

both_eq-cases :
    (a b : Option (List String))
    → both_eq a b ≡ true
    → (s : List String) × (t : List String) × (a ≡ some s) × (b ≡ some t) × (set_eq s t ≡ true)
unfolding both_eq
both_eq-cases (some s) (some t) h = (s, t, refl, refl, h)
both_eq-cases (some s) none h = cc
both_eq-cases none b h = cc

-- Two response types are equal exactly if neither has an empty or a repeated value and every
-- text is a value of both or of none.
pub response_type_eq_iff :
    (left right : String)
    → (response_type_eq left right ≡ true) ↔ (
        IsWellFormed left
        × IsWellFormed right
        × ((x : String) → has x (members left) ≡ has x (members right)))
unfolding response_type_eq
response_type_eq_iff left right = (
  λ h.
      let (s, t, p, q, e) = both_eq-cases (values left) (values right) h in
      let (wl, hl) = values_sound left p in
      let (wr, hr) = values_sound right q in
      (wl, wr, λ x. sym (hl x) ∙ (set_eq_iff s t).0 e x ∙ hr x),
  λ (wl, wr, same).
      let (s, p) = values-total left wl in
      let (t, q) = values-total right wr in
      rw (p, q)
        ((set_eq_iff s t).1
          λ x. (values_sound left p).1 x ∙ same x ∙ sym ((values_sound right q).1 x)),
)
