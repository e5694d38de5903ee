-- ===== src/Prelude/Slices.antt =====
-- More of Rust's `str`: trimming, prefixes, and the text before and from a character on.
use Prim.Native.Nat.{ℕ, ◌+◌, ◌*◌, ◌-◌}
use Prim.Native.Char.{Char, code}
use Prim.Native.String.{String, [], ◌∷◌, char_at}
use mathlib.Core.Bool.{Bool, false, ◌&&◌, ◌||◌}
use mathlib.Core.Option.{Option, none, some}
use grindvakt.Prelude.Tests.{nat_eq, if◌then◌else◌}
use grindvakt.Prelude.Text.{is_empty, is_whitespace, within}

-- `s.trim_start_matches(p)`
unfoldable pub trim_start_matches : (ℕ → Bool) → String → String
trim_start_matches p [] = []
trim_start_matches p (c ∷ s) =
    let rest = trim_start_matches p s in if p (code c) then rest else c ∷ s

-- `s.trim_end_matches(p)`
unfoldable pub trim_end_matches : (ℕ → Bool) → String → String
trim_end_matches p [] = []
trim_end_matches p (c ∷ s) =
    let rest = trim_end_matches p s in if is_empty rest && p (code c) then [] else c ∷ rest

-- `s.trim_start()`, `s.trim()`
unfoldable pub trim_start : String → String
unfolding trim_start_matches is_whitespace
trim_start = trim_start_matches is_whitespace

unfoldable pub trim : String → String
unfolding trim_start trim_end_matches is_whitespace
trim s = trim_end_matches is_whitespace (trim_start s)

-- `char::is_ascii_whitespace`
abbrev pub is_ascii_whitespace : ℕ → Bool
is_ascii_whitespace c =
    nat_eq c 0x20 || nat_eq c 0x9 || nat_eq c 0xa || nat_eq c 0xc || nat_eq c 0xd

-- the text before the first character that matches, and the text from it on: `s.find(p)`
unfoldable pub break_at : (ℕ → Bool) → String → String × String
break_at p [] = ([], [])
break_at p (c ∷ s) =
    let rest = break_at p s in if p (code c) then ([], c ∷ s) else (c ∷ rest.0, rest.1)

-- `s.strip_prefix(c)` at one character
abbrev pub strip_char : ℕ → String → Option String
strip_char d [] = none
strip_char d (c ∷ s) = if nat_eq (code c) d then some s else none

-- `s.starts_with(c)` at one character
abbrev pub starts_with_char : ℕ → String → Bool
starts_with_char d [] = false
starts_with_char d (c ∷ s) = nat_eq (code c) d

-- `s.strip_prefix(t)`
unfoldable pub strip_prefix : String → String → Option String
strip_prefix [] s = some s
strip_prefix (d ∷ t) [] = none
strip_prefix (d ∷ t) (c ∷ s) =
    let rest = strip_prefix t s in if nat_eq (code c) (code d) then rest else none

-- `c.to_ascii_lowercase()`
unfoldable pub lower_char : Char → Char
lower_char c =
    if within b'A' b'Z' (code c) then char_at "abcdefghijklmnopqrstuvwxyz" (code c - b'A') else c

-- `s.to_ascii_lowercase()`
unfoldable pub to_ascii_lowercase : String → String
unfolding lower_char
to_ascii_lowercase [] = []
to_ascii_lowercase (c ∷ s) = lower_char c ∷ to_ascii_lowercase s

abbrev pub is_digit : ℕ → Bool
is_digit = within b'0' b'9'

-- the number that a text of digits stands for, after `acc`
unfoldable pub decimal_from : ℕ → String → ℕ
decimal_from acc [] = acc
decimal_from acc (c ∷ s) = decimal_from (acc * 10 + (code c - b'0')) s
