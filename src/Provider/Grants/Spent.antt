-- ===== src/Provider/Grants/Spent.antt =====
-- src/provider.rs: what an in-memory store holds of the uses of codes and refresh tokens.
use grindvakt.Prelude.{
  ℕ, ◌+◌, ◌≤◌, ◌<◌, max, String, ◌≡◌, sym, ap, subst, ◌∙◌, true, List, ◌⊎◌, inl, inr, All, arith,
  leb, Bool-cases,
}
use grindvakt.Prelude.Words.{u64_mod}
use grindvakt.Dict.{IsMap}
use grindvakt.Result.{ok, ok_injective}
use grindvakt.Exec.{Returns}
use grindvakt.TokenUse.{InMemoryTokenUseStore}
use grindvakt.TokenUse.Once
use grindvakt.TokenUse.Once.{
  Call, step, IsHeld, step-IsHeld, after-IsHeld, consumed-IsHeld, consume-answer, held-is_live,
  held_until,
}
use grindvakt.Provider.Defs.Services.{Services, Validation}
use grindvakt.Provider.Form.{token_use_hash}
use grindvakt.Provider.Clients.Frame.{IsKept}
use grindvakt.Provider.Grants.{use_ttl, consume_token_once, consume_token_once-consumed}

-- The services use an in-memory store, which `view` shows. It reads the clock as `time`, and no
-- service sets the clock back.
pub record IsInMemory {J W : Type 0} (s : Services J W) (view : W → InMemoryTokenUseStore)
    (time : W → ℕ) : Type 0 where
  pub answered :
      (h : String) (ttl : ℕ) (w : W)
      → (s.token_consume h ttl w).0
        ≡ ok (step (record { now = time w; token_hash = h; ttl_secs = ttl }) (view w)).0
  pub changed :
      (h : String) (ttl : ℕ) (w : W)
      → view (s.token_consume h ttl w).1
        ≡ (step (record { now = time w; token_hash = h; ttl_secs = ttl }) (view w)).1
  pub consumed_at : (h : String) (ttl : ℕ) (w : W) → time w ≤ time (s.token_consume h ttl w).1
  pub got : (id : String) (w : W) → view (s.client_get id w).1 ≡ view w
  pub got_at : (id : String) (w : W) → time w ≤ time (s.client_get id w).1
  pub read : (w : W) → view (s.clock w).1 ≡ view w
  pub read_at : (w : W) → time w ≤ time (s.clock w).1
  pub read_before : (w : W) → (s.clock w).0 ≤ time (s.clock w).1
  pub drew : (w : W) → view (s.draw w).1 ≡ view w
  pub drew_at : (w : W) → time w ≤ time (s.draw w).1
  pub verified :
      (jwks : J) (token : String) (v : Validation) (w : W)
      → view (s.verify_with_jwks jwks token v w).1 ≡ view w
  pub verified_at :
      (jwks : J) (token : String) (v : Validation) (w : W)
      → time w ≤ time (s.verify_with_jwks jwks token v w).1

module _ {J W : Type 0} (s : Services J W) (view : W → InMemoryTokenUseStore) (time : W → ℕ)
    (law : IsInMemory s view time) where
  -- The use is held until `d`, unless that is over.
  abbrev pub IsSpent : String → ℕ → W → Type 0
  IsSpent h d w = (d ≤ time w) ⊎ IsHeld h d (view w)

  stays :
      (h : String) (d : ℕ) (w w' : W)
      → view w' ≡ view w
      → time w ≤ time w'
      → IsSpent h d w
      → IsSpent h d w'
  stays h d w w' same le (inl over) = inl (omega (arith, over, le))
  stays h d w w' same le (inr held) = inr (subst (IsHeld h d) (sym same) held)

  consume-IsSpent :
      (h : String) (d : ℕ) (k : String) (ttl : ℕ) (w : W)
      → IsSpent h d w
      → IsSpent h d (s.token_consume k ttl w).1
  consume-IsSpent h d k ttl w (inl over) = inl (omega (arith, over, law.consumed_at k ttl w))
  consume-IsSpent h d k ttl w (inr held) = elim (Bool-cases (leb d (time w))) [
    | inl over ↦ inl (ground (arith, over, law.consumed_at k ttl w))
    | inr before ↦ inr (
        subst (IsHeld h d) (sym (law.changed k ttl w))
          (step-IsHeld _ held (ground (arith, before))))
  ]

  pub IsSpent-IsKept : (h : String) (d : ℕ) → IsKept s (IsSpent h d)
  IsSpent-IsKept h d = record {
    by_get = λ id w. stays h d w _ (law.got id w) (law.got_at id w);
    by_consume = λ k ttl w. consume-IsSpent h d k ttl w;
    by_clock = λ w. stays h d w _ (law.read w) (law.read_at w);
    by_draw = λ w. stays h d w _ (law.drew w) (law.drew_at w);
    by_verify = λ jwks t v w. stays h d w _ (law.verified jwks t v w) (law.verified_at jwks t v w);
  }

  -- A spent use is let through only once its time is over.
  spent-over :
      (h : String) (d ttl : ℕ) (w : W) {w' : W}
      → IsSpent h d w
      → s.token_consume h ttl w ≡ (ok true, w')
      → d ≤ time w
  spent-over h d ttl w (inl over) taken = over
  spent-over h d ttl w (inr held) taken = elim (Bool-cases (leb d (time w))) [
    | inl over ↦ ground (arith, over)
    | inr before ↦
        let live = held-is_live (time w) held (ground (arith, before)) in
        let refused =
          consume-answer (record { now = time w; token_hash = h; ttl_secs = ttl }) (view w)
            held.is_map in
        let let_through = ok_injective (sym (law.answered h ttl w) ∙ (λ i. (taken i).0)) in
        ground (arith, live, refused, let_through)
  ]

  -- After its use a token is spent until its expiry.
  pub used-IsSpent :
      (kind token : String) (exp : ℕ) (before : W) {after_use : W}
      → IsMap (view (s.clock before).1).entries
      → time (s.clock before).1 + max (use_ttl exp (s.clock before).0) 1 < u64_mod
      → (s.token_consume
          (token_use_hash s.encoding kind token)
          (use_ttl exp (s.clock before).0)
          (s.clock before).1)
        ≡ (ok true, after_use)
      → (between : List Call) → All (λ (c : Call). c.now < exp) between
      → (v : W) → view v ≡ Once.after between (view after_use)
      → IsSpent (token_use_hash s.encoding kind token) exp v
  used-IsSpent kind token exp before m fits used between early v shown =
      let b = (s.clock before).1 in
      let h = token_use_hash s.encoding kind token in
      let ttl = use_ttl exp (s.clock before).0 in
      let c : Call = record { now = time b; token_hash = h; ttl_secs = ttl } in
      let let_through = ok_injective (sym (law.answered h ttl b) ∙ (λ i. (used i).0)) in
      let held = consumed-IsHeld c (view b) m fits let_through in
      let stored = ap view (λ i. (sym used i).1) ∙ law.changed h ttl b in
      let long : exp ≤ held_until c = omega (arith, law.read_before before) in
      let kept : IsHeld h exp (step c (view b)).1 = record {
        is_map = held.is_map;
        exp = held.exp;
        entry = held.entry;
        long = omega (arith, held.long, long);
      } in
      inr (
        subst (IsHeld h exp) (sym shown)
          (after-IsHeld between (subst (IsHeld h exp) (sym stored) kept) early))

  -- A spent use that is let through is over when it ends.
  pub used_again :
      (kind token : String) (d exp : ℕ) (message : String) (w : W) {w' : W}
      → IsSpent (token_use_hash s.encoding kind token) d w
      → Returns (consume_token_once s kind token exp message) w tt w'
      → d ≤ time w'
  used_again kind token d exp message w spent h =
      let hash = token_use_hash s.encoding kind token in
      let ttl = use_ttl exp (s.clock w).0 in
      let b = (s.clock w).1 in
      let taken = consume_token_once-consumed s kind token exp message w h in
      let over = spent-over hash d ttl b ((IsSpent-IsKept hash d).by_clock w spent) taken in
      let ends : time (s.token_consume hash ttl b).1 ≡ time _ = ap time (λ i. (taken i).1) in
      omega (arith, over, law.consumed_at hash ttl b, ends)

  -- No service sets the clock back.
  pub over-IsKept : (d : ℕ) → IsKept s (λ w. d ≤ time w)
  over-IsKept d = record {
    by_get = λ id w h. omega (arith, h, law.got_at id w);
    by_consume = λ k ttl w h. omega (arith, h, law.consumed_at k ttl w);
    by_clock = λ w h. omega (arith, h, law.read_at w);
    by_draw = λ w h. omega (arith, h, law.drew_at w);
    by_verify = λ jwks t v w h. omega (arith, h, law.verified_at jwks t v w);
  }
