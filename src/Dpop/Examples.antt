-- ===== src/Dpop/Examples.antt =====
-- Values of src/dpop.rs.
use Prim.Native.Char.{code}
use grindvakt.Prelude.{
  ℕ, zero, suc, ◌+◌, ◌-◌, ◌≤◌, ◌<◌, ◌^◌, String, ◌≡◌, ◌↔◌, refl, true, false, ◌&&◌, ◌||◌, List, [],
  ◌∷◌, none, some, arith, leb, nat_eq, if◌then◌else◌, ◌∙◌, ap,
}
use grindvakt.Exec.{Returns}
use grindvakt.Dpop.Replay.{replay_iff}
use grindvakt.Dpop.{DpopProof, DpopClaims, default_config, Backend, issue_nonce, validate_nonce}
use grindvakt.Dpop.Nonce.{IsSound, validate_nonce-issue_nonce}
use grindvakt.Dpop.Proof.{Validated, in_future, too_old, validate_and_record, replay_ttl}
use grindvakt.Dpop.Freshness.{IsProof, fresh_at_minimum, validated-IsProof}

fresh_at_minimum_example : (in_future 1000 (2 ^ 63) ≡ false) × (too_old 300 1000 (2 ^ 63) ≡ false)
fresh_at_minimum_example = fresh_at_minimum 300 1000 (omega arith) (omega arith) (omega arith)

-- claims that were issued 20 seconds ahead of the time 1000
abbrev early : DpopClaims
early = record {
  jti = "j";
  htm = "POST";
  htu = "https://op/token?x";
  iat = 1020;
  nonce = none;
  ath = none;
}

-- a backend over texts and numbers, with one proof
abbrev backend : Backend (Unit {0}) (Unit {0}) (List String)
backend = record {
  hmac_sha256 = λ key text. [];
  sha256 = λ bs. bs;
  constant_time_eq = λ a b. true;
  encode = λ bs. "";
  decode = λ t. none;
  decode_header = λ t. some (record { typ = some "dpop+jwt"; alg = "ES256"; jwk = some tt });
  jwk_from_json = λ v. some tt;
  has_private = λ k. false;
  verify_with_jwk = λ k t. some [];
  claims_from_slice = λ bs. some (record {
    jti = "j";
    htm = "POST";
    htu = "https://op/token?x";
    iat = 990;
    nonce = none;
    ath = none;
  });
  thumbprint_sha256 = λ k. some "thumb";
  record_jti = λ jti ttl w. (some true, jti ∷ w);
  clock = λ w. (1000, w);
}

validated-IsProof_example :
    (v : Validated) × (v.jkt ≡ "thumb")
    × IsProof backend default_config 1000 "proof" "post" "https://op/token" none v
    × (backend.record_jti v.jti (replay_ttl backend default_config) [] ≡ (some true, "j" ∷ []))
unfolding validate_and_record grindvakt.Exec.◌>>=◌ grindvakt.Dpop.Proof.validate_proof_inner
    grindvakt.Result.and_then grindvakt.Dpop.Proof.proof_key grindvakt.Dpop.Proof.check_claims
    grindvakt.Prelude.Text.eq_ignore_ascii_case grindvakt.Dpop.Proof.normalize_htu
    grindvakt.Prelude.Text.split_once grindvakt.Dpop.Proof.ath_matches in_future
    grindvakt.Prelude.Words.lt_i64 grindvakt.Prelude.Words.add_i64 too_old
    grindvakt.Prelude.Words.sub_i64
validated-IsProof_example =
    validated-IsProof backend default_config "proof" "post" "https://op/token" none []
      {r = record { jkt = "thumb" }} {w' = "j" ∷ []} refl

-- The world is the time; the store forgets what was recorded at 1000 after the seconds asked for.
abbrev timed : Backend (Unit {0}) (Unit {0}) ℕ
timed = record {
  hmac_sha256 = backend.hmac_sha256;
  sha256 = backend.sha256;
  constant_time_eq = backend.constant_time_eq;
  encode = backend.encode;
  decode = backend.decode;
  decode_header = backend.decode_header;
  jwk_from_json = backend.jwk_from_json;
  has_private = backend.has_private;
  verify_with_jwk = backend.verify_with_jwk;
  claims_from_slice = λ bs. some early;
  thumbprint_sha256 = backend.thumbprint_sha256;
  record_jti = λ jti ttl now. (some (nat_eq now 1000 || leb (1000 + ttl) now), now);
  clock = λ now. (now, now);
}

abbrev timed-IsProof :
    IsProof timed default_config 1000 "proof" "post" "https://op/token" none
      (record { jkt = "thumb"; jti = "j" })
unfolding grindvakt.Prelude.Text.eq_ignore_ascii_case grindvakt.Dpop.Proof.normalize_htu
    grindvakt.Prelude.Text.split_once grindvakt.Dpop.Proof.ath_matches in_future
    grindvakt.Prelude.Words.lt_i64 grindvakt.Prelude.Words.add_i64 too_old
    grindvakt.Prelude.Words.sub_i64
timed-IsProof = record {
  header = record { typ = some "dpop+jwt"; alg = "ES256"; jwk = some tt };
  jwk = tt;
  payload = [];
  claims = early;
  decoded = refl;
  key = record {
    value = tt;
    typ = refl;
    alg = refl;
    carried = refl;
    parsed = refl;
    public_key = refl;
  };
  signed = refl;
  read = refl;
  claimed = record {
    method = refl;
    uri = refl;
    ath = refl;
    not_future = refl;
    not_old = refl;
    nonce = refl;
  };
  thumbprint = refl;
  jti = refl;
}

replay_iff_example :
    ((r : DpopProof) × (u : ℕ) × Returns
        (validate_and_record timed default_config "proof" "post" "https://op/token" none)
        1310
        r
        u)
    ↔ ((1000 + 300 ≤ 1310) × (1310 ≤ 1020 + 300))
unfolding grindvakt.Prelude.Text.eq_ignore_ascii_case grindvakt.Dpop.Proof.normalize_htu
    grindvakt.Prelude.Text.split_once grindvakt.Dpop.Proof.ath_matches in_future
    grindvakt.Prelude.Words.lt_i64 grindvakt.Prelude.Words.add_i64 too_old
    grindvakt.Prelude.Words.sub_i64
replay_iff_example =
    replay_iff timed default_config "proof" "post" "https://op/token" none 1000 1310
      (record { jkt = "thumb"; jti = "j" }) timed-IsProof refl
      (record { answers = λ jti ttl taken. refl }) refl (omega arith) (omega arith) (omega arith)
      (omega arith)

-- Bytes in unary: as many `a` as the byte says, then a `b`.
unary : ℕ → String → String
unary zero t = String.◌∷◌ "b" t
unary (suc n) t = String.◌∷◌ "a" (unary n t)

encode_unary : List ℕ → String
unfolding unary
encode_unary [] = ""
encode_unary (n ∷ bs) = unary n (encode_unary bs)

decode_unary : ℕ → String → List ℕ
decode_unary n String.[] = []
decode_unary n (String.◌∷◌ c t) =
    let more = decode_unary (suc n) t in
    let next = decode_unary 0 t in if nat_eq (code c) b'a' then more else n ∷ next

decode_unary-unary :
    (m n : ℕ) (t : String) → decode_unary m (unary n t) ≡ ((m + n) ∷ decode_unary 0 t)
unfolding decode_unary unary
decode_unary-unary m zero t = ground arith
decode_unary-unary m (suc n) t = ground (arith, decode_unary-unary (suc m) n t)

decode_unary-encode_unary : (bs : List ℕ) → decode_unary 0 (encode_unary bs) ≡ bs
unfolding decode_unary encode_unary
decode_unary-encode_unary [] = refl
decode_unary-encode_unary (n ∷ bs) =
    decode_unary-unary 0 n (encode_unary bs) ∙ ground (arith, decode_unary-encode_unary bs)

abbrev zeros : ℕ → List ℕ
zeros zero = []
zeros (suc n) = 0 ∷ zeros n

abbrev nonce_backend : Backend (Unit {0}) (Unit {0}) (List String)
nonce_backend = record backend {
  hmac_sha256 = λ key text. zeros 32;
  encode = encode_unary;
  decode = λ t. some (decode_unary 0 t);
}

nonce_backend-IsSound : IsSound nonce_backend
nonce_backend-IsSound = record {
  decodes = λ bs. ap some (decode_unary-encode_unary bs);
  mac_length = λ key bs. refl;
  equal = λ bs. refl;
}

validate_nonce-issue_nonce_example :
    validate_nonce nonce_backend default_config 1200 (issue_nonce nonce_backend default_config 1000)
    ≡ (leb 1000 1200 && leb (1200 - 1000) 300)
validate_nonce-issue_nonce_example =
    validate_nonce-issue_nonce nonce_backend default_config nonce_backend-IsSound 1000 1200
      (omega arith) (omega arith) (omega arith)
