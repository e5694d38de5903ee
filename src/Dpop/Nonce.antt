-- ===== src/Dpop/Nonce.antt =====
-- src/dpop.rs: a nonce is valid for its lifetime.
use grindvakt.Prelude.{
  ℕ, ◌-◌, ◌^◌, ◌≤◌, ◌<◌, ◌≡◌, refl, sym, ap, ◌∙◌, true, ◌&&◌, List, [], ◌∷◌, ◌++◌, some, arith, leb,
  length, zero, suc,
}
use grindvakt.Prelude.Bytes.{as_bytes}
use grindvakt.Prelude.Words.{sub_i64, le_i64}
use grindvakt.Jwt.{take}
use grindvakt.Dpop.{
  DpopConfig, Backend, to_be_bytes, from_be_bytes, nonce_mac, issue_nonce, nonce_age_ok, check_raw,
  validate_nonce,
}

-- The behaviour of the libraries that a nonce relies on.
pub record IsSound {V K W : Type 0} (b : Backend V K W) : Type 0 where
  pub decodes : (bs : List ℕ) → b.decode (b.encode bs) ≡ some bs
  pub mac_length : (key bs : List ℕ) → length (b.hmac_sha256 key bs) ≡ 32
  pub equal : (bs : List ℕ) → b.constant_time_eq bs bs ≡ true

from_be_bytes-to_be_bytes : (v : ℕ) → v < 2 ^ 64 → from_be_bytes 0 (to_be_bytes v) ≡ v
unfolding from_be_bytes to_be_bytes
from_be_bytes-to_be_bytes v h = omega (arith, h)

length-take : (n : ℕ) (xs : List ℕ) → n ≤ length xs → length (take n xs) ≡ n
length-take zero xs h = refl
length-take (suc n) [] h = omega (arith, h)
length-take (suc n) (x ∷ xs) h = omega (arith, length-take n xs (omega (arith, h)))

nonce_age_ok-eq :
    {V K W : Type 0} (b : Backend V K W) (c : DpopConfig) (now ts : ℕ)
    → now < 2 ^ 63
    → ts < 2 ^ 63
    → c.nonce_lifetime_secs < 2 ^ 63
    → nonce_age_ok b c now ts ≡ (leb ts now && leb (now - ts) c.nonce_lifetime_secs)
unfolding nonce_age_ok sub_i64 le_i64
nonce_age_ok-eq b c now ts h k l = ground arith

module _ {V K W : Type 0} (b : Backend V K W) (c : DpopConfig) (sound : IsSound b) where
  length-nonce_mac : (bs : List ℕ) → length (nonce_mac b c bs) ≡ 16
  unfolding nonce_mac
  length-nonce_mac bs =
      length-take 16 _ (ground (arith, sound.mac_length (as_bytes c.nonce_secret) bs))

  check_raw-issued :
      (now ts : ℕ) (mac : List ℕ)
      → mac ≡ nonce_mac b c (to_be_bytes ts)
      → ts < 2 ^ 64
      → check_raw b c now (some (to_be_bytes ts ++ mac)) ≡ nonce_age_ok b c now ts
  unfolding check_raw to_be_bytes
  check_raw-issued now ts mac e h =
      let n : length mac ≡ 16 = ap length e ∙ length-nonce_mac (to_be_bytes ts) in
      let q : b.constant_time_eq mac (nonce_mac b c (to_be_bytes ts)) ≡ true =
        ap (b.constant_time_eq mac) (sym e) ∙ sound.equal mac in
      rw (from_be_bytes-to_be_bytes ts h) (rw q (rw n refl))

  -- With a decoder that reads back, a MAC of 32 bytes and a comparison that accepts equal
  -- bytes, an issued nonce is valid exactly from its time on until its lifetime is over, for
  -- times and a lifetime below 2^63.
  pub validate_nonce-issue_nonce :
      (issued now : ℕ)
      → issued < 2 ^ 63
      → now < 2 ^ 63
      → c.nonce_lifetime_secs < 2 ^ 63
      → validate_nonce b c now (issue_nonce b c issued)
        ≡ (leb issued now && leb (now - issued) c.nonce_lifetime_secs)
  unfolding validate_nonce issue_nonce
  validate_nonce-issue_nonce issued now h k l =
      ap (check_raw b c now) (sound.decodes _)
      ∙ check_raw-issued now issued _ refl (omega (arith, h))
      ∙ nonce_age_ok-eq b c now issued k h l
