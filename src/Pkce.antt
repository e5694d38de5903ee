-- ===== src/Pkce.antt =====
-- src/pkce.rs: Proof Key for Code Exchange (RFC 7636).
pub mod Verify
mod Examples
use Prim.Native.Nat.{bit_or, bit_xor}
use grindvakt.Prelude.{
  ℕ, String, Bool, false, ◌&&◌, ◌||◌, List, ◌∷◌, Option, none, some, nat_eq, ◌==◌, if◌then◌else◌,
  length, all, unwrap_or,
}
use grindvakt.Prelude.Text.{within}
use grindvakt.Prelude.Bytes.{as_bytes}

-- What `base64` (URL-safe, no padding) and `sha2` do; bytes are numbers.
pub record Encoding : Type 0 where
  pub encode : List ℕ → String
  pub decode : String → Option (List ℕ)
  pub sha256 : List ℕ → List ℕ

abbrev is_ascii_alphanumeric : ℕ → Bool
is_ascii_alphanumeric b = within b'a' b'z' b || within b'A' b'Z' b || within b'0' b'9' b

-- a byte of the unreserved set
unfoldable pub is_unreserved : ℕ → Bool
is_unreserved b =
    is_ascii_alphanumeric b || nat_eq b b'-' || nat_eq b b'.' || nat_eq b b'_' || nat_eq b b'~'

unfoldable pub is_valid_verifier : String → Bool
is_valid_verifier value =
    within 43 128 (length (as_bytes value)) && all is_unreserved (as_bytes value)

-- The loop of `constant_time_eq` over `a.iter().zip(b.iter())`.
fold_diff : ℕ → List ℕ → List ℕ → ℕ
fold_diff diff (x ∷ xs) (y ∷ ys) = fold_diff (bit_or diff (bit_xor x y)) xs ys
fold_diff diff _ _ = diff

unfoldable pub constant_time_eq : List ℕ → List ℕ → Bool
unfolding fold_diff
constant_time_eq a b = if nat_eq (length a) (length b) then nat_eq (fold_diff 0 a b) 0 else false

module _ (e : Encoding) where
  open e use {encode, decode, sha256}

  abbrev canonical : String → Option (List ℕ) → Bool
  canonical value none = false
  canonical value (some decoded) = nat_eq (length decoded) 32 && encode decoded == value

  unfoldable pub is_valid_s256_challenge : String → Bool
  is_valid_s256_challenge value = canonical value (decode value)

  unfoldable pub s256_challenge : String → String
  s256_challenge verifier = encode (sha256 (as_bytes verifier))

  unfoldable pub verify : String → String → Option String → Bool
  verify verifier challenge method =
      let m = unwrap_or "plain" method in
      if is_valid_verifier verifier
      then if m == "S256" && is_valid_s256_challenge challenge
        then constant_time_eq (as_bytes (s256_challenge verifier)) (as_bytes challenge)
        else if m == "plain"
        then constant_time_eq (as_bytes verifier) (as_bytes challenge)
        else false
      else false
