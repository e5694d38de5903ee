-- ===== src/Prelude/Distinct.antt =====
-- Lists of distinct texts, and of texts that another list does not have.
use Prim.Native.String.{String}
use mathlib.Core.Path.{◌≡◌, refl}
use mathlib.Core.Logic.{inl, inr}
use mathlib.Core.Bool.{Bool, false, not, ◌||◌}
use mathlib.Core.List.{List, [], ◌∷◌, ◌++◌}
use native.Mathlib.Omega.{arith}
use text.Mathlib.TextEquality.{eq_iff}
use grindvakt.Prelude.Tests.{Bool-cases}
use grindvakt.Prelude.Lists.{All, All-has, has, IsDistinct}

-- None of the texts is among the seen ones.
abbrev pub IsUnseen : List String → List String → Type 0
IsUnseen seen xs = All (λ x. has x seen ≡ false) xs

pub IsUnseen-cons :
    (a : String) (seen xs : List String)
    → IsUnseen (a ∷ seen) xs
    → (has a xs ≡ false) × IsUnseen seen xs
IsUnseen-cons a seen [] h = (refl, tt)
IsUnseen-cons a seen (b ∷ xs) (n, h) =
    let (m, rest) = IsUnseen-cons a seen xs h in
    (ground (arith, n, m, eq_iff a b, eq_iff b a), (ground (arith, n), rest))

pub has-append : (x : String) (xs ys : List String) → has x (xs ++ ys) ≡ (has x xs || has x ys)
has-append x [] ys = refl
has-append x (y ∷ xs) ys = ground (arith, has-append x xs ys)

pub IsDistinct-append :
    (xs ys : List String) → IsDistinct xs → IsDistinct ys → IsUnseen xs ys → IsDistinct (xs ++ ys)
IsDistinct-append [] ys d e n = e
IsDistinct-append (x ∷ xs) ys (a, d) e n =
    let (b, rest) = IsUnseen-cons x xs ys n in
    (ground (arith, has-append x xs ys, a, b), IsDistinct-append xs ys d e rest)

pub All-append :
    (P : String → Type 0) (xs ys : List String) → All P xs → All P ys → All P (xs ++ ys)
All-append P [] ys h k = k
All-append P (x ∷ xs) ys (p, h) k = (p, All-append P xs ys h k)

-- Texts on which a test answers differently are apart.
pub IsUnseen-test :
    (p : String → Bool) (b : Bool) (xs ys : List String)
    → All (λ x. p x ≡ not b) xs
    → All (λ y. p y ≡ b) ys
    → IsUnseen xs ys
IsUnseen-test p b xs [] h k = tt
IsUnseen-test p b xs (y ∷ ys) h (n, k) = (
  elim (Bool-cases (has y xs)) [
    | inl e ↦ let q = All-has (λ x. p x ≡ not b) y xs h e in ground (arith, q, n)
    | inr m ↦ m
  ],
  IsUnseen-test p b xs ys h k,
)
