-- ===== src/Dpop/Replay.antt =====
-- src/dpop.rs: when a proof that was accepted once is accepted again.
use grindvakt.Prelude.{
  ℕ, ◌+◌, ◌^◌, ◌≤◌, ◌<◌, String, ◌≡◌, ◌↔◌, refl, sym, subst, ◌∙◌, true, false, Option, some, arith,
  leb, eq_iff,
}
use grindvakt.Prelude.Words.{lt_i64}
use grindvakt.Result.{ok, and_then, after_ok, ok_injective}
use grindvakt.Exec.{Returns, run, after, after_lift, onward, onward_lift}
use mathlib.Core.Option.{some-injective}
use grindvakt.Dpop.{DpopConfig, DpopProof, Header, Backend}
use grindvakt.Dpop.Proof.{
  normalize_htu, Validated, in_future, too_old, check_claims, proof_key, validate_proof_inner,
  replay_ttl, recorded, validate_and_record,
}
use grindvakt.Dpop.Freshness.{
  fresh_iff, IsClaimed, IsHeader, IsProof, check_claims-IsClaimed, recorded-eq,
}

module _ {V K W : Type 0} (b : Backend V K W) (c : DpopConfig) where
  -- The replay store answers at `u` as one that has kept each identifier that it newly recorded at
  -- `w` for the seconds it was asked to, and no longer.
  pub record IsRemembering (w u : W) : Type 0 where
    pub answers :
        (jti : String) (ttl : ℕ)
        → (b.record_jti jti ttl (b.clock w).1).0 ≡ some true
        → (b.record_jti jti ttl (b.clock u).1).0 ≡ some (leb ((b.clock w).0 + ttl) (b.clock u).0)

  key_lem : {header : Header V} {jwk : K} → IsHeader b c header jwk → proof_key b c header ≡ ok jwk
  unfolding proof_key and_then
  key_lem {header} k = rw (k.typ, k.alg, k.carried) (rw k.parsed (rw k.public_key refl))

  -- What depends on the time in a proof that was validated at another time.
  inner_lem :
      (now later : ℕ) (proof htm htu : String) (ath : Option String) {v : Validated}
      (p : IsProof b c now proof htm htu ath v)
      → validate_proof_inner b c later proof htm htu ath
        ≡ and_then (check_claims b c later htm htu ath p.claims) (λ _. ok v)
  unfolding validate_proof_inner and_then
  inner_lem now later proof htm htu ath p =
      rw p.decoded (rw (key_lem p.key) (rw p.signed (rw p.read (rw p.thumbprint (rw p.jti refl)))))

  claimed_lem :
      (now later : ℕ) (htm htu : String) (ath : Option String) (claims : _)
      → IsClaimed b c now htm htu ath claims
      → c.require_nonce ≡ false
      → in_future later claims.iat ≡ false
      → too_old c.proof_max_age_secs later claims.iat ≡ false
      → check_claims b c later htm htu ath claims ≡ ok tt
  unfolding check_claims
  claimed_lem now later htm htu ath claims p no_nonce ahead old = ground (
    arith,
    p.method,
    p.uri,
    p.ath,
    ahead,
    old,
    no_nonce,
    eq_iff (normalize_htu claims.htu) (normalize_htu htu),
  )

  ttl_lem : c.proof_max_age_secs < 2 ^ 63 → replay_ttl b c ≡ c.proof_max_age_secs
  unfolding replay_ttl lt_i64
  ttl_lem h = ground arith

  -- An identifier that is recorded at `u` is so because its time is over.
  over_lem :
      (w u : W) (jti : String) (later : IsRemembering w u)
      → (b.record_jti jti (replay_ttl b c) (b.clock w).1).0 ≡ some true
      → c.proof_max_age_secs < 2 ^ 63
      → ((b.record_jti jti (replay_ttl b c) (b.clock u).1).0 ≡ some true)
        ↔ ((b.clock w).0 + c.proof_max_age_secs ≤ (b.clock u).0)
  over_lem w u jti later taken bound =
      let answered = later.answers jti (replay_ttl b c) taken in
      let ttl = ttl_lem bound in
      (
        λ again. ground (arith, some-injective _ _ (sym answered ∙ again), ttl),
        λ over. answered ∙ ground (arith, over, ttl),
      )

  -- A run at `u` that accepts the proof has checked its claims at that time and recorded its
  -- identifier.
  accepted_lem :
      (proof htm htu : String) (ath : Option String) (w u : W) (v : Validated)
      (p : IsProof b c (b.clock w).0 proof htm htu ath v) {r : DpopProof} {u' : W}
      → Returns (validate_and_record b c proof htm htu ath) u r u'
      → (check_claims b c (b.clock u).0 htm htu ath p.claims ≡ ok tt)
        × ((b.record_jti v.jti (replay_ttl b c) (b.clock u).1).0 ≡ some true)
  unfolding validate_and_record
  accepted_lem proof htm htu ath w u v p h = after _ _ _ h λ now u₁ n h₁.
      after_lift _ _ _ h₁ λ v' e h₂. after _ _ _ h₂ λ answer u₂ a h₃. after_lift _ _ _ h₃ λ _ q _.
        let same_now = ok_injective (λ x. (n x).0) in
        let valid =
          subst (λ t. validate_proof_inner b c t proof htm htu ath ≡ ok v') (sym same_now) e in
        after_ok _ _ (sym (inner_lem (b.clock w).0 (b.clock u).0 proof htm htu ath p) ∙ valid)
          λ _ checked last.
            let same = ok_injective last in
            (
              checked,
              (λ i. (b.record_jti (same i).jti (replay_ttl b c) (n i).1).0)
                  ∙ ok_injective (λ i. (a i).0)
                  ∙ recorded-eq b c answer q,
            )

  -- A proof that was validated and newly recorded at one time is accepted at a later time
  -- exactly if that lies at or after the first time with the configured age and at or before
  -- the issuing time with the configured age. The store has kept the identifier for the
  -- seconds it was asked to and no longer, no nonce is required, and the issuing time, the
  -- age, and the clock with 30 seconds are below 2^63.
  pub replay_iff :
      (proof htm htu : String) (ath : Option String) (w u : W) (v : Validated)
      (p : IsProof b c (b.clock w).0 proof htm htu ath v)
      → (b.record_jti v.jti (replay_ttl b c) (b.clock w).1).0 ≡ some true
      → IsRemembering w u
      → c.require_nonce ≡ false
      → p.claims.iat < 2 ^ 63
      → c.proof_max_age_secs < 2 ^ 63
      → (b.clock w).0 ≤ (b.clock u).0
      → (b.clock u).0 + 30 < 2 ^ 63
      → ((r : DpopProof) × (u' : W) × Returns (validate_and_record b c proof htm htu ath) u r u')
        ↔ (((b.clock w).0 + c.proof_max_age_secs ≤ (b.clock u).0)
            × ((b.clock u).0 ≤ p.claims.iat + c.proof_max_age_secs))
  unfolding validate_and_record recorded and_then
  replay_iff proof htm htu ath w u v p taken later no_nonce iat_bound age_bound order now_bound =
      let now = (b.clock u).0 in
      let u₁ = (b.clock u).1 in
      let answer = b.record_jti v.jti (replay_ttl b c) u₁ in
      let inner = inner_lem (b.clock w).0 now proof htm htu ath p in
      let first =
        (fresh_iff c.proof_max_age_secs (b.clock w).0 p.claims.iat (omega (arith, order, now_bound))
            iat_bound age_bound).0
          (p.claimed.not_future, p.claimed.not_old) in
      let again = fresh_iff c.proof_max_age_secs now p.claims.iat now_bound iat_bound age_bound in
      let over = over_lem w u v.jti later taken age_bound in
      (
        λ h.
            let (checked, newly) = accepted_lem proof htm htu ath w u v p h.2 in
            let claimed = check_claims-IsClaimed b c now htm htu ath p.claims checked in
            (over.0 newly, (again.0 (claimed.not_future, claimed.not_old)).1),
        λ h.
            let fresh = again.1 (omega (arith, first.0, order), h.1) in
            let checked =
              claimed_lem (b.clock w).0 now htm htu ath p.claims p.claimed no_nonce fresh.0
                fresh.1 in
            let valid : validate_proof_inner b c now proof htm htu ath ≡ ok v =
              inner ∙ rw checked refl in
            (
              record { jkt = v.jkt },
              answer.1,
              onward (run b.clock) _ u refl
                  ∙ onward_lift _ _ u₁ {a = v} valid
                  ∙ onward (run (b.record_jti v.jti (replay_ttl b c))) _ u₁ {a = some true}
                      {w₁ = answer.1} (λ i. (ok (over.1 h.0 i), answer.1))
                  ∙ onward_lift _ _ answer.1 {a = tt} refl,
            ),
      )
