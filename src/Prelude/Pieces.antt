-- ===== src/Prelude/Pieces.antt =====
-- Text: the words of `split_whitespace`, and joining them again.
use Prim.Native.Char.{Char, code}
use Prim.Native.String
use Prim.Native.String.{String}
use grindvakt.Prelude.Tests.{Bool-cases}
use grindvakt.Prelude.Lists.{All, keep}
use grindvakt.Prelude.Text.{
  any_char, is_empty, is_whitespace, push_front, split, split_whitespace, join,
}
use mathlib.Core.Path.{◌≡◌, refl, ap, ◌∙◌}
use mathlib.Core.Logic.{inl, inr}
use mathlib.Core.Bool.{Bool, true, false, not}
use mathlib.Core.List.{List}
use text.Mathlib.TextLemmas.{nil-append, cons-append}
use native.Mathlib.Omega.{arith}
use Prim.Native.Nat.{ℕ}

split-head :
    (p : ℕ → Bool) (c : Char) (s : String)
    → p (code c) ≡ true
    → split p (String.◌∷◌ c s) ≡ List.◌∷◌ String.[] (split p s)
unfolding split
split-head p c s h = ground (arith, h)

split-inside :
    (p : ℕ → Bool) (c : Char) (s w : String) (ws : List String)
    → p (code c) ≡ false
    → split p s ≡ List.◌∷◌ w ws
    → split p (String.◌∷◌ c s) ≡ List.◌∷◌ (String.◌∷◌ c w) ws
unfolding split push_front
split-inside p c s w ws n h = ground (arith, n, h)

split-append :
    (p : ℕ → Bool) (w : String) (c : Char) (s : String)
    → any_char p w ≡ false
    → p (code c) ≡ true
    → split p (String.◌++◌ w (String.◌∷◌ c s)) ≡ List.◌∷◌ w (split p s)
unfolding split any_char push_front
split-append p String.[] c s n h = ap (split p) (nil-append (String.◌∷◌ c s)) ∙ split-head p c s h
split-append p (String.◌∷◌ d w) c s n h =
    ap (split p) (cons-append d w (String.◌∷◌ c s))
    ∙ split-inside p d (String.◌++◌ w (String.◌∷◌ c s)) w (split p s) (ground (arith, n))
        (split-append p w c s (ground (arith, n)) h)

split-word : (p : ℕ → Bool) (w : String) → any_char p w ≡ false → split p w ≡ List.◌∷◌ w List.[]
unfolding split any_char push_front
split-word p String.[] n = refl
split-word p (String.◌∷◌ d w) n = ground (arith, split-word p w)

push_front-All :
    (p : ℕ → Bool) (c : Char) (ws : List String)
    → p (code c) ≡ false
    → All (λ w. any_char p w ≡ false) ws
    → All (λ w. any_char p w ≡ false) (push_front c ws)
unfolding push_front any_char
push_front-All p c List.[] n h = (ground arith, tt)
push_front-All p c (List.◌∷◌ w ws) n h = (ground (arith, h.0), h.1)

split-All : (p : ℕ → Bool) (s : String) → All (λ w. any_char p w ≡ false) (split p s)
unfolding split any_char
split-All p String.[] = (refl, tt)
split-All p (String.◌∷◌ c s) = elim (Bool-cases (p (code c))) [
  | inl e ↦ rw e (refl, split-All p s)
  | inr n ↦ rw n (push_front-All p c (split p s) n (split-All p s))
]

-- a word: not empty, and without whitespace
abbrev pub IsWord : String → Type 0
IsWord w = (any_char is_whitespace w ≡ false) × (is_empty w ≡ false)

keep-IsWord :
    (ws : List String)
    → All (λ w. any_char is_whitespace w ≡ false) ws
    → All IsWord (keep (λ w. not (is_empty w)) ws)
keep-IsWord List.[] h = tt
keep-IsWord (List.◌∷◌ w ws) h = ground (arith, keep-IsWord ws h.1)

pub split_whitespace-IsWord : (s : String) → All IsWord (split_whitespace s)
unfolding split_whitespace
split_whitespace-IsWord s = keep-IsWord (split is_whitespace s) (split-All is_whitespace s)

pub keep-All :
    (P : String → Type 0) (p : String → Bool) (ws : List String) → All P ws → All P (keep p ws)
keep-All P p List.[] h = tt
keep-All P p (List.◌∷◌ w ws) h = elim (Bool-cases (p w)) [
  | inl e ↦ rw (e, All) (h.0, keep-All P p ws h.1)
  | inr n ↦ rw (n, All) (keep-All P p ws h.1)
]

kept_word :
    (w : String) (ws : List String)
    → is_empty w ≡ false
    → keep (λ v. not (is_empty v)) (List.◌∷◌ w ws) ≡ List.◌∷◌ w (keep (λ v. not (is_empty v)) ws)
kept_word w ws h = ground (arith, h)

split_whitespace-append :
    (w : String) (c : Char) (s : String)
    → IsWord w
    → is_whitespace (code c) ≡ true
    → split_whitespace (String.◌++◌ w (String.◌∷◌ c s)) ≡ List.◌∷◌ w (split_whitespace s)
unfolding split_whitespace
split_whitespace-append w c s h e =
    ap (keep (λ v. not (is_empty v))) (split-append is_whitespace w c s h.0 e)
    ∙ kept_word w (split is_whitespace s) h.1

split_whitespace-word : (w : String) → IsWord w → split_whitespace w ≡ List.◌∷◌ w List.[]
unfolding split_whitespace
split_whitespace-word w h =
    ap (keep (λ v. not (is_empty v))) (split-word is_whitespace w h.0) ∙ kept_word w List.[] h.1

split_whitespace-empty : split_whitespace String.[] ≡ List.[]
unfolding split_whitespace split
split_whitespace-empty = refl

is_whitespace-space : is_whitespace (code " ") ≡ true
unfolding is_whitespace
is_whitespace-space = refl

-- Words that are joined by a space and split again are the words.
pub split_whitespace-join : (ws : List String) → All IsWord ws → split_whitespace (join " " ws) ≡ ws
unfolding join
split_whitespace-join List.[] h = split_whitespace-empty
split_whitespace-join (List.◌∷◌ w List.[]) h = split_whitespace-word w h.0
split_whitespace-join (List.◌∷◌ w (List.◌∷◌ v ws)) h =
    ap (λ t. split_whitespace (String.◌++◌ w t))
      (cons-append " " String.[] (join " " (List.◌∷◌ v ws))
        ∙ ap (String.◌∷◌ " ") (nil-append (join " " (List.◌∷◌ v ws))))
    ∙ split_whitespace-append w " " (join " " (List.◌∷◌ v ws)) h.0 is_whitespace-space
    ∙ ap (List.◌∷◌ w) (split_whitespace-join (List.◌∷◌ v ws) h.1)
