-- ===== src/Tokens/Rotation.antt =====
-- src/tokens.rs: keys that are no longer sealed with.
use grindvakt.Prelude.{
  ℕ, String, ◌≡◌, refl, ap, ◌∙◌, true, false, List, [], ◌∷◌, ◌++◌, has, arith, leb, if◌then◌else◌,
  ◌==◌, eq_iff, Bool-cases, inl, inr, eq_refl,
}
use grindvakt.Prelude.Text.{is_empty}
use grindvakt.Error.{authn}
use grindvakt.Result.{ok, err}
use grindvakt.Tokens.{
  AuthCodePayload, TokenCrypto, TokenCodec, derive_key, with_previous_secrets, seal_code, open_code,
}
use grindvakt.Tokens
use grindvakt.Tokens.Sealing.{IsAuthentic, ReadsBack, open_code-seal_code}

has-extended : (k j : String) (ks : List String) → has k ks ≡ true → has k (ks ++ j ∷ []) ≡ true
has-extended k j [] h = cc
has-extended k j (x ∷ ks) h = ground (arith, h, has-extended k j ks)

has-last : (j : String) (ks : List String) → has j (ks ++ j ∷ []) ≡ true
has-last j [] = ground (arith, eq_refl j)
has-last j (x ∷ ks) = ground (arith, has-last j ks)

module _ (x : TokenCrypto) where
  primary-with_previous_secrets :
      (ss : List String) (c : TokenCodec) → (with_previous_secrets x ss c).primary ≡ c.primary
  unfolding with_previous_secrets
  primary-with_previous_secrets [] c = refl
  primary-with_previous_secrets (s ∷ ss) c = elim (Bool-cases (is_empty s)) [
    | inl e ↦ rw (e, with_previous_secrets) (primary-with_previous_secrets ss c)
    | inr n ↦ rw (n, with_previous_secrets) (primary-with_previous_secrets ss _)
  ]

  kept :
      (k : String) (ss : List String) (c : TokenCodec)
      → has k c.previous ≡ true
      → has k (with_previous_secrets x ss c).previous ≡ true
  unfolding with_previous_secrets
  kept k [] c h = h
  kept k (s ∷ ss) c h = elim (Bool-cases (is_empty s)) [
    | inl e ↦ rw (e, with_previous_secrets) (kept k ss c h)
    | inr n ↦ rw (n, with_previous_secrets) (kept k ss _ (has-extended k _ c.previous h))
  ]

  added :
      (old : String) (ss : List String) (c : TokenCodec)
      → is_empty old ≡ false
      → has old ss ≡ true
      → has (derive_key x old) (with_previous_secrets x ss c).previous ≡ true
  unfolding with_previous_secrets
  added old [] c n h = cc
  added old (s ∷ ss) c n h = elim (Bool-cases (s == old)) [
    | inl e ↦
        let same : s ≡ old = (eq_iff s old).0 e in
        rw (ap is_empty same ∙ n, with_previous_secrets)
          (kept (derive_key x old) ss _ (rw same (has-last (derive_key x old) c.previous)))
    | inr d ↦
        let later : has old ss ≡ true = ground (arith, h, d) in
        elim (Bool-cases (is_empty s)) [
          | inl e ↦ rw (e, with_previous_secrets) (added old ss c n later)
          | inr m ↦ rw (m, with_previous_secrets) (added old ss _ n later)
        ]
  ]

  -- Under authenticated encryption and a format that reads back what it wrote, a code that was
  -- sealed under a non-empty secret still opens, to its payload or to the error of an expired
  -- code, once that secret is among the previous ones of a codec with a new secret, and such a
  -- codec seals under the key of the new secret.
  pub open_code-with_previous_secrets :
      (sound : IsAuthentic x) (old new : String) (ss : List String) (r now : ℕ)
      (v : AuthCodePayload) {t : String}
      → ReadsBack x.code_serde
      → is_empty old ≡ false
      → has old ss ≡ true
      → seal_code x (Tokens.codec x old) r v ≡ ok t
      → (open_code x (with_previous_secrets x ss (Tokens.codec x new)) now t
          ≡ (if leb v.exp now then err (authn "authorization code expired") else ok v))
        × ((with_previous_secrets x ss (Tokens.codec x new)).primary ≡ derive_key x new)
  unfolding Tokens.codec
  open_code-with_previous_secrets sound old new ss r now v back n h sealed =
      let d = with_previous_secrets x ss (Tokens.codec x new) in
      let member : has (derive_key x old) d.previous ≡ true = added old ss _ n h in
      (
        open_code-seal_code x sound (Tokens.codec x old) d r now v back (ground (arith, member))
            sealed,
        primary-with_previous_secrets ss (Tokens.codec x new),
      )
