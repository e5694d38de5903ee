-- ===== src/Dpop/Freshness.antt =====
-- src/dpop.rs: what a validated proof has shown, and when it is fresh.
use grindvakt.Prelude.{not, ◌&&◌}
use grindvakt.Prelude.{
  ℕ, ◌+◌, ◌^◌, ◌≤◌, ◌<◌, String, ◌≡◌, ◌↔◌, refl, sym, ap, subst, ◌∙◌, Bool, true, false, Option,
  none, some, List, arith, eq_iff, opt_str_eq,
}
use grindvakt.Prelude.Text.{eq_ignore_ascii_case}
use grindvakt.Prelude.Words.{add_i64, sub_i64, lt_i64}
use grindvakt.Result.{ok, after_ok, ok_or-eq-ok, ok_injective}
use grindvakt.Exec.{Returns, after, after_lift}
use grindvakt.Dpop.{DpopConfig, DpopProof, Header, DpopClaims, Backend}
use grindvakt.Dpop.Proof.{
  normalize_htu, Validated, ath_matches, in_future, too_old, nonce_ok, check_claims, proof_key,
  validate_proof_inner, replay_ttl, recorded, validate_and_record,
}

-- For times that are not negative and a clock at least 30 seconds below 2^63, the two time
-- checks pass exactly if the issuing time is at most 30 seconds ahead and at most the configured
-- age behind.
pub fresh_iff :
    (max_age now iat : ℕ)
    → now + 30 < 2 ^ 63
    → iat < 2 ^ 63
    → max_age < 2 ^ 63
    → ((in_future now iat ≡ false) × (too_old max_age now iat ≡ false))
      ↔ ((iat ≤ now + 30) × (now ≤ iat + max_age))
unfolding in_future too_old lt_i64 add_i64 sub_i64
fresh_iff max_age now iat h k l = ground arith

-- In a build without overflow checks, the lowest i64 as issuing time passes both time checks at
-- every clock that is positive and at least 30 seconds below 2^63, for every configured age
-- below 2^63.
pub fresh_at_minimum :
    (max_age now : ℕ)
    → 0 < now
    → now + 30 < 2 ^ 63
    → max_age < 2 ^ 63
    → (in_future now (2 ^ 63) ≡ false) × (too_old max_age now (2 ^ 63) ≡ false)
unfolding in_future too_old lt_i64 add_i64 sub_i64
fresh_at_minimum max_age now h k l = ground arith

typ_lem : (o : Option String) → opt_str_eq o (some "dpop+jwt") ≡ true → o ≡ some "dpop+jwt"
typ_lem none h = cc
typ_lem (some x) h = ap some ((eq_iff x "dpop+jwt").0 h)

module _ {V K W : Type 0} (b : Backend V K W) (c : DpopConfig) where
  -- What the claims of a proof fulfil.
  pub record IsClaimed (now : ℕ) (htm htu : String) (expected_ath : Option String)
      (claims : DpopClaims) : Type 0 where
    pub method : eq_ignore_ascii_case claims.htm htm ≡ true
    pub uri : normalize_htu claims.htu ≡ normalize_htu htu
    pub ath : ath_matches b expected_ath claims.ath ≡ true
    pub not_future : in_future now claims.iat ≡ false
    pub not_old : too_old c.proof_max_age_secs now claims.iat ≡ false
    pub nonce : (c.require_nonce && not (nonce_ok b c now claims.nonce)) ≡ false

  pub check_claims-IsClaimed :
      (now : ℕ) (htm htu : String) (expected_ath : Option String) (claims : DpopClaims)
      → check_claims b c now htm htu expected_ath claims ≡ ok tt
      → IsClaimed now htm htu expected_ath claims
  unfolding check_claims
  check_claims-IsClaimed now htm htu expected_ath claims h = record {
    method = ground (arith, h);
    uri = ground (arith, h, eq_iff (normalize_htu claims.htu) (normalize_htu htu));
    ath = ground (arith, h);
    not_future = ground (arith, h);
    not_old = ground (arith, h);
    nonce = ground (arith, h);
  }

  -- The header names the algorithm and carries a public key.
  pub record IsHeader (header : Header V) (jwk : K) : Type 0 where
    pub value : V
    pub typ : header.typ ≡ some "dpop+jwt"
    pub alg : header.alg ≡ "ES256"
    pub carried : header.jwk ≡ some value
    pub parsed : b.jwk_from_json value ≡ some jwk
    pub public_key : b.has_private jwk ≡ false

  -- What a proof has shown.
  pub record IsProof (now : ℕ) (proof htm htu : String) (expected_ath : Option String)
      (v : Validated) : Type 0 where
    pub header : Header V
    pub jwk : K
    pub payload : List ℕ
    pub claims : DpopClaims
    pub decoded : b.decode_header proof ≡ some header
    pub key : IsHeader header jwk
    pub signed : b.verify_with_jwk jwk proof ≡ some payload
    pub read : b.claims_from_slice payload ≡ some claims
    pub claimed : IsClaimed now htm htu expected_ath claims
    pub thumbprint : b.thumbprint_sha256 jwk ≡ some v.jkt
    pub jti : claims.jti ≡ v.jti

  pub recorded-eq : (o : Option Bool) {u : Unit {0}} → recorded b c o ≡ ok u → o ≡ some true
  unfolding recorded
  recorded-eq none h = cc
  recorded-eq (some true) h = refl
  recorded-eq (some false) h = cc

  proof_key-IsHeader :
      (header : Header V) (jwk : K) → proof_key b c header ≡ ok jwk → IsHeader header jwk
  unfolding proof_key
  proof_key-IsHeader header jwk h = after_ok _ _ h λ _ a h₁. after_ok _ _ h₁ λ _ d h₂.
      after_ok _ _ h₂ λ value e h₃. after_ok _ _ h₃ λ k f h₄. after_ok _ _ h₄ λ _ g h₅.
        let same = ok_injective h₅ in
        record {
          value = value;
          typ = typ_lem header.typ (ground (arith, a));
          alg = ground (arith, d, eq_iff header.alg "ES256");
          carried = ok_or-eq-ok _ _ e;
          parsed = ok_or-eq-ok _ _ f ∙ ap some same;
          public_key = ap b.has_private (sym same) ∙ ground (arith, g);
        }

  validate_proof_inner-IsProof :
      (now : ℕ) (proof htm htu : String) (expected_ath : Option String) {v : Validated}
      → validate_proof_inner b c now proof htm htu expected_ath ≡ ok v
      → IsProof now proof htm htu expected_ath v
  unfolding validate_proof_inner
  validate_proof_inner-IsProof now proof htm htu expected_ath h = after_ok _ _ h λ header d h₁.
      after_ok _ _ h₁ λ jwk k h₂. after_ok _ _ h₂ λ payload s h₃. after_ok _ _ h₃ λ claims r h₄.
        after_ok _ _ h₄ λ _ m h₅. after_ok _ _ h₅ λ jkt t h₆.
          let same = ok_injective h₆ in
          record {
            header = header;
            jwk = jwk;
            payload = payload;
            claims = claims;
            decoded = ok_or-eq-ok _ _ d;
            key = proof_key-IsHeader header jwk k;
            signed = ok_or-eq-ok _ _ s;
            read = ok_or-eq-ok _ _ r;
            claimed = check_claims-IsClaimed now htm htu expected_ath claims m;
            thumbprint = ok_or-eq-ok _ _ t ∙ ap (λ (x : Validated). some x.jkt) same;
            jti = ap (λ (x : Validated). x.jti) same;
          }

  -- Where a proof of possession is accepted, its header is a dpop+jwt under ES256 with a
  -- public key that verifies the signature, the method and URI are those of the request, the
  -- token hash matches where one is expected, the issuing time passes the two time checks, a
  -- required nonce is valid, the answer is the thumbprint of that key, and the replay store
  -- has newly recorded its identifier.
  pub validated-IsProof :
      (proof htm htu : String) (expected_ath : Option String) (w : W) {r : DpopProof} {w' : W}
      → Returns (validate_and_record b c proof htm htu expected_ath) w r w'
      → (v : Validated) × (v.jkt ≡ r.jkt)
        × IsProof (b.clock w).0 proof htm htu expected_ath v
        × (b.record_jti v.jti (replay_ttl b c) (b.clock w).1 ≡ (some true, w'))
  unfolding validate_and_record
  validated-IsProof proof htm htu expected_ath w h = after _ _ _ h λ now w₁ n h₁.
      after_lift _ _ _ h₁ λ v e h₂. after _ _ _ h₂ λ answer w₂ a h₃. after_lift _ _ _ h₃ λ _ q h₄.
        let taken = ok_injective (λ x. (a x).0) ∙ recorded-eq answer q in
        let left = (λ x. (a x).1) ∙ (λ x. (h₄ x).1) in
        (
          v,
          ap (λ (x : DpopProof). x.jkt) (ok_injective (λ x. (h₄ x).0)),
          subst (λ t. IsProof t proof htm htu expected_ath v) (sym (ok_injective (λ x. (n x).0)))
              (validate_proof_inner-IsProof now proof htm htu expected_ath e),
          ap (b.record_jti v.jti (replay_ttl b c)) (λ x. (n x).1) ∙ (λ x. (taken x, left x)),
        )
