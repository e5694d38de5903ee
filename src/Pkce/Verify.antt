-- ===== src/Pkce/Verify.antt =====
-- src/pkce.rs: what `constant_time_eq` and `verify` accept.
use Prim.Native.Nat.{bit_or, bit_xor}
use grindvakt.Prelude.{
  ℕ, String, ◌≡◌, refl, ap, ap₂, ◌↔◌, ◌⊎◌, true, List, [], ◌∷◌, Option, arith, eq_iff, length,
  unwrap_or,
}
use grindvakt.Prelude.Bits.{eq_of_bit_xor, bit_xor_self, zero_of_bit_or}
use grindvakt.Prelude.Bytes.{as_bytes, as_bytes_injective}
use grindvakt.Pkce.{
  Encoding, is_valid_verifier, fold_diff, constant_time_eq, is_valid_s256_challenge, s256_challenge,
  verify,
}

fold_diff-zero :
    (d : ℕ) (a b : List ℕ) → length a ≡ length b → fold_diff d a b ≡ 0 → (d ≡ 0) × (a ≡ b)
unfolding fold_diff
fold_diff-zero d [] [] l h = (h, refl)
fold_diff-zero d [] (y ∷ ys) l h = absurd (omega arith)
fold_diff-zero d (x ∷ xs) [] l h = absurd (omega arith)
fold_diff-zero d (x ∷ xs) (y ∷ ys) l h =
    let (p, q) = fold_diff-zero (bit_or d (bit_xor x y)) xs ys (omega arith) h in
    let (d₀, same) = zero_of_bit_or d (bit_xor x y) p in (d₀, ap₂ ◌∷◌ (eq_of_bit_xor x y same) q)

fold_diff_self : (a : List ℕ) → fold_diff 0 a a ≡ 0
unfolding fold_diff
fold_diff_self [] = refl
fold_diff_self (x ∷ xs) = rw (bit_xor_self x) (fold_diff_self xs)

-- The comparison without early return answers true exactly on equal byte sequences.
pub constant_time_eq_iff : (a b : List ℕ) → (constant_time_eq a b ≡ true) ↔ (a ≡ b)
unfolding constant_time_eq
constant_time_eq_iff a b = (
  λ h. (fold_diff-zero 0 a b (ground arith) (ground arith)).1,
  λ e. rw (← e) (ground (arith, fold_diff_self a)),
)

pub text_eq_iff : (s t : String) → (constant_time_eq (as_bytes s) (as_bytes t) ≡ true) ↔ (s ≡ t)
text_eq_iff s t = (
  λ h. as_bytes_injective s t ((constant_time_eq_iff (as_bytes s) (as_bytes t)).0 h),
  λ e. (constant_time_eq_iff (as_bytes s) (as_bytes t)).1 (ap as_bytes e),
)

module _ (e : Encoding) where
  -- A verifier is accepted exactly if it has the syntax of RFC 7636 and either the method is
  -- S256, the challenge is canonical and is the S256 challenge of the verifier, or the method
  -- is plain or absent and the challenge is the verifier.
  pub verify_iff :
      (verifier challenge : String) (method : Option String)
      → (verify e verifier challenge method ≡ true) ↔ (
          (is_valid_verifier verifier ≡ true)
          × (((unwrap_or "plain" method ≡ "S256")
                × (is_valid_s256_challenge e challenge ≡ true)
                × (s256_challenge e verifier ≡ challenge))
              ⊎ ((unwrap_or "plain" method ≡ "plain") × (verifier ≡ challenge))))
  unfolding verify
  verify_iff verifier challenge method = ground (
    arith,
    text_eq_iff (s256_challenge e verifier) challenge,
    text_eq_iff verifier challenge,
    eq_iff (unwrap_or "plain" method) "S256",
    eq_iff (unwrap_or "plain" method) "plain",
    eq_iff "S256" "plain",
  )
