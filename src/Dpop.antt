-- ===== src/Dpop.antt =====
-- src/dpop.rs: proofs of possession (RFC 9449), their replay protection and their nonces.
pub mod Nonce
pub mod Proof
pub mod Freshness
pub mod Replay
mod Examples
use grindvakt.Prelude.{
  ℕ, zero, suc, ◌+◌, ◌*◌, ◌-◌, ◌/◌, ◌%◌, ◌^◌, String, Bool, false, not, ◌&&◌, ◌||◌, List, [], ◌∷◌,
  ◌++◌, Option, none, some, if◌then◌else◌, ◌==◌, nat_eq, length,
}
use grindvakt.Prelude.Bytes.{as_bytes}
use grindvakt.Prelude.Words.{sub_i64, le_i64}
use grindvakt.Jwt.{take}

-- `DpopConfig`; an `i64` is its bit pattern
pub record DpopConfig : Type 0 where
  pub proof_max_age_secs : ℕ
  pub require_nonce : Bool
  pub nonce_lifetime_secs : ℕ
  pub nonce_secret : String

abbrev pub default_config : DpopConfig
default_config = record {
  proof_max_age_secs = 300;
  require_nonce = false;
  nonce_lifetime_secs = 300;
  nonce_secret = "";
}

-- `DpopProof`
pub record DpopProof : Type 0 where
  pub jkt : String

pub data DpopError : Type 0 where
  invalid : String → DpopError
  replay nonce_required : DpopError
  server : String → DpopError

-- What is read of the protected header; `V` is the type of JSON values there.
pub record Header (V : Type 0) : Type 0 where
  pub typ : Option String
  pub alg : String
  pub jwk : Option V

-- `DpopClaims`
pub record DpopClaims : Type 0 where
  pub jti : String
  pub htm : String
  pub htu : String
  pub iat : ℕ
  pub nonce : Option String
  pub ath : Option String

-- What `kryptering`, `base64`, `jose_rs` and `serde_json` do, the replay store, and the clock. `K` is
-- the type of keys, `W` all that the store and the clock read and change.
pub record Backend (V K W : Type 0) : Type 0 where
  pub hmac_sha256 : (key text : List ℕ) → List ℕ
  pub sha256 : List ℕ → List ℕ
  pub constant_time_eq : List ℕ → List ℕ → Bool
  pub encode : List ℕ → String
  pub decode : String → Option (List ℕ)
  pub decode_header : String → Option (Header V)
  pub jwk_from_json : V → Option K
  pub has_private : K → Bool
  pub verify_with_jwk : K → String → Option (List ℕ)
  pub claims_from_slice : List ℕ → Option DpopClaims
  pub thumbprint_sha256 : K → Option String
  pub record_jti : String → ℕ → W → Option Bool × W
  pub clock : W → ℕ × W

abbrev pub iat_future_skew_secs : ℕ
iat_future_skew_secs = 30

abbrev pub nonce_mac_len : ℕ
nonce_mac_len = 16

-- `raw.split_at(n).1`
abbrev pub drop : ℕ → List ℕ → List ℕ
drop zero xs = xs
drop (suc n) [] = []
drop (suc n) (x ∷ xs) = drop n xs

-- The lowest `n` bytes of a number, the highest first.
be_bytes : ℕ → ℕ → List ℕ
be_bytes zero v = []
be_bytes (suc n) v = (v / 256 ^ n) % 256 ∷ be_bytes n v

-- `ts.to_be_bytes()` and `i64::from_be_bytes`
unfoldable pub to_be_bytes : ℕ → List ℕ
unfolding be_bytes
to_be_bytes v = be_bytes 8 v

unfoldable pub from_be_bytes : ℕ → List ℕ → ℕ
from_be_bytes acc [] = acc
from_be_bytes acc (b ∷ bs) = from_be_bytes (acc * 256 + b) bs

module _ {V K W : Type 0} (b : Backend V K W) (c : DpopConfig) where
  open b use {hmac_sha256, constant_time_eq, encode, decode}

  nonce_mac : List ℕ → List ℕ
  nonce_mac ts_bytes = take nonce_mac_len (hmac_sha256 (as_bytes c.nonce_secret) ts_bytes)

  -- `issue_nonce`, at the time `now`
  unfoldable pub issue_nonce : ℕ → String
  unfolding nonce_mac
  issue_nonce now = encode (to_be_bytes now ++ nonce_mac (to_be_bytes now))

  -- the age of a nonce is within its lifetime
  unfoldable pub nonce_age_ok : ℕ → ℕ → Bool
  nonce_age_ok now ts = let age = sub_i64 now ts in le_i64 0 age && le_i64 age c.nonce_lifetime_secs

  unfoldable pub check_raw : ℕ → Option (List ℕ) → Bool
  unfolding nonce_mac
  check_raw now none = false
  check_raw now (some raw) =
      if not (nat_eq (length raw) (8 + nonce_mac_len))
      then false
      else if not (constant_time_eq (drop 8 raw) (nonce_mac (take 8 raw)))
      then false
      else nonce_age_ok now (from_be_bytes 0 (take 8 raw))

  -- `validate_nonce`, at the time `now`
  unfoldable pub validate_nonce : ℕ → String → Bool
  validate_nonce now nonce = check_raw now (decode nonce)
