-- ===== src/Prelude/Text.antt =====
-- Text: what the program uses of Rust's `str`. Characters are Unicode scalar values.
use Prim.Native.Nat.{ℕ, zero, suc, ◌+◌, ◌/◌, ◌%◌}
use Prim.Native.Char.{Char, code}
use Prim.Native.String
use Prim.Native.String.{String, [], ◌∷◌}
use mathlib.Core.Bool.{Bool, true, false, not, ◌&&◌, ◌||◌}
use mathlib.Core.List.{List}
use mathlib.Core.Option.{Option, none, some}
use grindvakt.Prelude.Tests.{leb, nat_eq, if◌then◌else◌}
use grindvakt.Prelude.Lists.{keep}

-- `s.chars().count()`
abbrev pub char_count : String → ℕ
char_count [] = 0
char_count (c ∷ s) = suc (char_count s)

-- `s.chars().all(p)`
unfoldable pub all_chars : (ℕ → Bool) → String → Bool
all_chars p [] = true
all_chars p (c ∷ s) = p (code c) && all_chars p s

-- `s.chars().any(p)`, `s.contains(c)`
unfoldable pub any_char : (ℕ → Bool) → String → Bool
any_char p [] = false
any_char p (c ∷ s) = p (code c) || any_char p s

abbrev pub is_empty : String → Bool
is_empty [] = true
is_empty (c ∷ s) = false

abbrev pub within : ℕ → ℕ → ℕ → Bool
within lo hi c = leb lo c && leb c hi

-- `char::is_whitespace`: the property White_Space
unfoldable pub is_whitespace : ℕ → Bool
is_whitespace c =
    within 0x9 0xd c
    || nat_eq c 0x20
    || nat_eq c 0x85
    || nat_eq c 0xa0
    || nat_eq c 0x1680
    || within 0x2000 0x200a c
    || within 0x2028 0x2029 c
    || nat_eq c 0x202f
    || nat_eq c 0x205f
    || nat_eq c 0x3000

-- `char::is_control`: the category Cc
unfoldable pub is_control : ℕ → Bool
is_control c = leb c 0x1f || within 0x7f 0x9f c

-- A character in front of the first piece.
unfoldable pub push_front : Char → List String → List String
push_front c List.[] = List.◌∷◌ (c ∷ []) List.[]
push_front c (List.◌∷◌ w ws) = List.◌∷◌ (c ∷ w) ws

-- `s.split(p)`: there is one piece more than characters that match
unfoldable pub split : (ℕ → Bool) → String → List String
unfolding push_front
split p [] = List.◌∷◌ [] List.[]
split p (c ∷ s) = let rest = split p s in if p (code c) then List.◌∷◌ [] rest else push_front c rest

-- `s.split_whitespace()`
unfoldable pub split_whitespace : String → List String
unfolding split is_whitespace
split_whitespace s = keep (λ w. not (is_empty w)) (split is_whitespace s)

-- `s.split_once(c)`: the texts before and behind the first `c`
unfoldable pub split_once : ℕ → String → Option (String × String)
split_once d [] = none
split_once d (c ∷ s) =
    let rest = split_once d s in
    if nat_eq (code c) d
    then some ([], s)
    else elim rest [ none ↦ none | some (a, b) ↦ some (c ∷ a, b) ]

-- `ws.join(sep)`
unfoldable pub join : String → List String → String
join sep List.[] = []
join sep (List.◌∷◌ w List.[]) = w
join sep (List.◌∷◌ w (List.◌∷◌ v ws)) = String.◌++◌ w (String.◌++◌ sep (join sep (List.◌∷◌ v ws)))

-- `c.to_ascii_lowercase()` on a code point
abbrev pub lower : ℕ → ℕ
lower c = if within b'A' b'Z' c then c + 32 else c

-- `a.eq_ignore_ascii_case(b)`
unfoldable pub eq_ignore_ascii_case : String → String → Bool
eq_ignore_ascii_case [] [] = true
eq_ignore_ascii_case (c ∷ s) (d ∷ t) =
    nat_eq (lower (code c)) (lower (code d)) && eq_ignore_ascii_case s t
eq_ignore_ascii_case _ _ = false

infixr 65 ◌<>◌
-- concatenation, the pieces of `format!`
abbrev pub ◌<>◌ : String → String → String
s <> t = String.◌++◌ s t

-- a decimal digit
abbrev digit : ℕ → String
digit zero = "0"
digit (suc zero) = "1"
digit (suc (suc zero)) = "2"
digit (suc (suc (suc zero))) = "3"
digit (suc (suc (suc (suc zero)))) = "4"
digit (suc (suc (suc (suc (suc zero))))) = "5"
digit (suc (suc (suc (suc (suc (suc zero)))))) = "6"
digit (suc (suc (suc (suc (suc (suc (suc zero))))))) = "7"
digit (suc (suc (suc (suc (suc (suc (suc (suc zero)))))))) = "8"
digit _ = "9"

-- The digits of `n` in front of `s`; there are at most as many as `fuel`.
show_from : ℕ → ℕ → String → String
show_from zero n s = s
show_from (suc fuel) n s =
    let more = show_from fuel (n / 10) (digit (n % 10) <> s) in
    if leb n 9 then digit n <> s else more

-- `n.to_string()`
unfoldable pub show : ℕ → String
unfolding show_from
show n = show_from (suc n) n ""
