-- ===== src/Prelude/Lists.antt =====
-- Lists: the loops `iter().any`, `iter().all`, membership of texts, lengths.
use Prim.Native.Nat.{ℕ, suc, ◌+◌}
use Prim.Native.String.{String}
use mathlib.Core.Path.{◌≡◌, ap, sym, subst}
use mathlib.Core.Logic.{inl, inr}
use mathlib.Core.Bool.{Bool, true, false, not, ◌&&◌, ◌||◌}
use mathlib.Core.List.{List, [], ◌∷◌, ◌++◌}
use native.Mathlib.Omega.{arith}
use text.Mathlib.Text.{◌==◌}
use text.Mathlib.TextEquality.{eq_iff}
use grindvakt.Prelude.Tests.{Bool-cases}

module _ {ℓ} {A : Type ℓ} where
  abbrev pub length : List A → ℕ
  length [] = 0
  length (x ∷ xs) = suc (length xs)

  abbrev pub any : (A → Bool) → List A → Bool
  any p [] = false
  any p (x ∷ xs) = p x || any p xs

  abbrev pub all : (A → Bool) → List A → Bool
  all p [] = true
  all p (x ∷ xs) = p x && all p xs

  -- `iter().filter(p)`
  abbrev pub keep : (A → Bool) → List A → List A
  keep p [] = []
  keep p (x ∷ xs) = let rest = keep p xs in elim (p x) [ true ↦ x ∷ rest | false ↦ rest ]

  pub length-append : (xs ys : List A) → length (xs ++ ys) ≡ length xs + length ys
  length-append [] ys = omega arith
  length-append (x ∷ xs) ys = omega (arith, length-append xs ys)

abbrev pub All {ℓ κ} : {A : Type ℓ} → (A → Type κ) → List A → Type κ
All P [] = Unit
All P (x ∷ xs) = P x × All P xs

-- `contains(&x)` on a list of texts
abbrev pub has : String → List String → Bool
has x = any (λ y. y == x)

pub has-congr : (x y : String) (ys : List String) → x ≡ y → has x ys ≡ has y ys
has-congr x y ys e = ap (λ z. has z ys) e

-- No text stands twice.
abbrev pub IsDistinct : List String → Type 0
IsDistinct [] = Unit
IsDistinct (x ∷ xs) = (has x xs ≡ false) × IsDistinct xs

-- A member of what is kept is a member, and passes the test.
pub has-keep :
    (p : String → Bool) (x : String) (xs : List String)
    → has x (keep p xs) ≡ true
    → (p x ≡ true) × (has x xs ≡ true)
has-keep p x [] h = cc
has-keep p x (y ∷ ys) h =
    ground (arith, has-keep p x ys, λ (e : (y == x) ≡ true). ap p ((eq_iff y x).0 e))

-- What no member fails, each member passes.
pub any-has :
    (q : String → Bool) (x : String) (xs : List String)
    → any (λ y. not (q y)) xs ≡ false
    → has x xs ≡ true
    → q x ≡ true
any-has q x [] a h = cc
any-has q x (y ∷ ys) a h = elim (Bool-cases (y == x)) [
  | inl e ↦ rw (sym ((eq_iff y x).0 e)) (ground (arith, a))
  | inr n ↦ any-has q x ys (ground (arith, a)) (ground (arith, h, n))
]

-- What all of a list fulfil, a member fulfils.
pub All-has :
    (P : String → Type 0) (x : String) (xs : List String) → All P xs → has x xs ≡ true → P x
All-has P x [] a h = cc
All-has P x (y ∷ ys) a h = elim (Bool-cases (y == x)) [
  | inl e ↦ subst P ((eq_iff y x).0 e) (a.0)
  | inr n ↦ All-has P x ys (a.1) (ground (arith, h, n))
]
