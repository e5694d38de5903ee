-- ===== src/Keys/Der.antt =====
-- src/keys.rs: points and keys that may be wrapped in a DER OCTET STRING.
use grindvakt.Prelude.{
  ℕ, ◌+◌, ◌*◌, List, [], ◌∷◌, not, Option, none, some, length, ltb, nat_eq, if◌then◌else◌,
}
use grindvakt.Result.{Result, ok, err}
use grindvakt.Error.{Error, crypto}
use grindvakt.Json.Access.{and_then}

-- The bytes, if there are as many as stated.
abbrev pub exactly : ℕ → List ℕ → Option (List ℕ)
exactly n inner = if nat_eq (length inner) n then some inner else none

abbrev pub short_length : List ℕ → Option (List ℕ)
short_length [] = none
short_length (a ∷ inner) = exactly a inner

-- `((a as usize) << 8) | b`
abbrev pub long_length : List ℕ → Option (List ℕ)
long_length [] = none
long_length (a ∷ []) = none
long_length (a ∷ b ∷ inner) = exactly (a * 256 + b) inner

-- What follows the tag, by its first byte.
unfoldable pub contents : ℕ → List ℕ → Option (List ℕ)
contents n rest =
    if ltb n 0x80
    then exactly n rest
    else if nat_eq n 0x81
    then short_length rest
    else if nat_eq n 0x82
    then long_length rest
    else none

unfoldable pub unwrap_der_octet_string : List ℕ → Option (List ℕ)
unfolding contents
unwrap_der_octet_string [] = none
unwrap_der_octet_string (tag ∷ []) = none
unwrap_der_octet_string (tag ∷ n ∷ rest) = if not (nat_eq tag 0x04) then none else contents n rest

-- `Result::ok`, and the point that the bytes or what they wrap are
unfoldable pub parse_ec_point : {T : Type 0} → List ℕ → (List ℕ → Option T) → Result Error T
parse_ec_point raw parse = elim (parse raw) [
  | some vk ↦ ok vk
  | none ↦ elim (and_then (unwrap_der_octet_string raw) parse) [
    | some vk ↦ ok vk
    | none ↦ err (crypto "not a valid SEC1 EC point")
  ]
]

-- `<[u8; 32]>::try_from`
abbrev pub bytes_32 : List ℕ → Option (List ℕ)
bytes_32 = exactly 32

-- the 32 bytes of an Ed25519 key, raw or wrapped
unfoldable pub ed25519_bytes : List ℕ → Option (List ℕ)
ed25519_bytes raw = elim (bytes_32 raw) [
  | some bytes ↦ some bytes
  | none ↦ and_then (unwrap_der_octet_string raw) bytes_32
]
