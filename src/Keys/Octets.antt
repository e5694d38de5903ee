-- ===== src/Keys/Octets.antt =====
-- src/keys.rs: octet strings that are read back.
use grindvakt.Prelude.{
  ℕ, ◌/◌, ◌%◌, ◌<◌, ◌≡◌, refl, List, ◌∷◌, Option, none, some, length, ltb, arith, if◌then◌else◌,
}
use grindvakt.Result.{ok}
use grindvakt.Keys.Der.{contents, unwrap_der_octet_string, parse_ec_point, ed25519_bytes}

-- The DER of an octet string: the tag, the length in its shortest form, the bytes.
abbrev pub with_length : ℕ → List ℕ → List ℕ
with_length n xs =
    if ltb n 0x80
    then n ∷ xs
    else if ltb n 0x100
    then 0x81 ∷ n ∷ xs
    else 0x82 ∷ n / 256 ∷ n % 256 ∷ xs

abbrev pub wrapped : List ℕ → List ℕ
wrapped xs = 0x04 ∷ with_length (length xs) xs

unwrap-wrapped : (xs : List ℕ) → length xs < 65536 → unwrap_der_octet_string (wrapped xs) ≡ some xs
unfolding unwrap_der_octet_string contents
unwrap-wrapped xs h = ground (arith, h)

-- Fewer than 65536 bytes that a parser takes for a point are read as that point as they stand,
-- and also as a DER octet string where the parser does not take that string itself, since
-- unwrapping gives the bytes back.
pub parse_ec_point-wrapped :
    {T : Type 0} (xs : List ℕ) (parse : List ℕ → Option T) (v : T)
    → length xs < 65536
    → parse xs ≡ some v
    → parse (wrapped xs) ≡ none
    → (parse_ec_point xs parse ≡ ok v)
      × (parse_ec_point (wrapped xs) parse ≡ ok v)
      × (unwrap_der_octet_string (wrapped xs) ≡ some xs)
unfolding parse_ec_point
parse_ec_point-wrapped xs parse v h here there =
    let inner = unwrap-wrapped xs h in
    (rw (here, parse_ec_point) refl, rw (there, inner, here, parse_ec_point) refl, inner)

-- Both forms of an Ed25519 key are the same 32 bytes.
pub ed25519_bytes-wrapped :
    (xs : List ℕ)
    → length xs ≡ 32
    → (ed25519_bytes xs ≡ some xs) × (ed25519_bytes (wrapped xs) ≡ some xs)
unfolding ed25519_bytes
ed25519_bytes-wrapped xs h =
    let inner = unwrap-wrapped xs (omega (arith, h)) in
    (ground (arith, h), ground (arith, h, inner))
