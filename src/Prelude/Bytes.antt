-- ===== src/Prelude/Bytes.antt =====
-- The bytes of a text, `s.as_bytes()`: its UTF-8.
use Prim.Native.Nat.{ℕ, ◌+◌, ◌/◌, ◌%◌}
use Prim.Native.Char.{code}
use Prim.Native.String.{String}
use mathlib.Core.Path.{◌≡◌, refl, ap₂}
use mathlib.Core.List.{List, [], ◌∷◌}
use native.Mathlib.Omega.{arith}
use text.Mathlib.TextEquality.{Char-path}
use grindvakt.Prelude.Tests.{ltb, if◌then◌else◌}

-- a continuation byte
abbrev tail_byte : ℕ → ℕ
tail_byte c = 0x80 + c % 64

-- the bytes of a code point, in front of others
unfoldable pub utf8_char : ℕ → List ℕ → List ℕ
utf8_char c r =
    if ltb c 0x80
    then c ∷ r
    else if ltb c 0x800
    then (0xc0 + c / 64) ∷ tail_byte c ∷ r
    else if ltb c 0x10000
    then (0xe0 + c / 4096) ∷ tail_byte (c / 64) ∷ tail_byte c ∷ r
    else (0xf0 + c / 262144) ∷ tail_byte (c / 4096) ∷ tail_byte (c / 64) ∷ tail_byte c ∷ r

unfoldable pub as_bytes : String → List ℕ
unfolding utf8_char
as_bytes String.[] = []
as_bytes (String.◌∷◌ c s) = utf8_char (code c) (as_bytes s)

utf8_char_injective : (c d : ℕ) (r q : List ℕ) → utf8_char c r ≡ utf8_char d q → (c ≡ d) × (r ≡ q)
unfolding utf8_char
utf8_char_injective c d r q h = ground arith

utf8_char-ne-nil : (c : ℕ) (r : List ℕ) → utf8_char c r ≡ [] → ⊥
unfolding utf8_char
utf8_char-ne-nil c r h = ground arith

pub as_bytes_injective : (s t : String) → as_bytes s ≡ as_bytes t → s ≡ t
unfolding as_bytes
as_bytes_injective String.[] String.[] h = refl
as_bytes_injective String.[] (String.◌∷◌ d t) h = ground arith
as_bytes_injective (String.◌∷◌ c s) String.[] h = ground arith
as_bytes_injective (String.◌∷◌ c s) (String.◌∷◌ d t) h =
    let (p, q) = utf8_char_injective (code c) (code d) (as_bytes s) (as_bytes t) h in
    ap₂ String.◌∷◌ (Char-path c d p) (as_bytes_injective s t q)
