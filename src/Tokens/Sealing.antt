-- ===== src/Tokens/Sealing.antt =====
-- src/tokens.rs: what was sealed opens as what it was, under any codec that still has the key.
use grindvakt.Prelude.{
  ℕ, String, ◌≡◌, ◌≢◌, refl, ap, sym, ◌∙◌, true, List, [], ◌∷◌, Option, none, some, arith, eq_iff,
  eq_refl, eq_of_test, ◌==◌, leb, has, if◌then◌else◌, Bool-cases, inl, inr, Option-cases,
}
use grindvakt.Error.{authn, crypto, json}
use grindvakt.Prelude.Text.{◌<>◌}
use grindvakt.Result.{
  Result-cases, ok_or, ok, err, >>=-eq-ok, ok_or-eq-ok, map_err-eq-ok, ok_injective,
}
use grindvakt.Tokens.{
  AuthCodePayload, AccessTokenPayload, RefreshTokenPayload, typ_code, typ_access, typ_refresh,
  Envelope, Serde, TokenCrypto, TokenCodec, all_keys, seal, checked, try_keys, open_token,
  seal_code, open_code, seal_access_token, open_access_token, seal_refresh_token,
  open_refresh_token,
}

-- Text that one payload type wrote and another one reads keeps its tag.
abbrev pub KeepsTag : {T U : Type 0} → Serde T → Serde U → Type 0
KeepsTag {T} {U} s q =
    (e : Envelope T) (b : String) (e' : Envelope U)
    → s.to_vec e ≡ some b
    → q.from_slice b ≡ some e'
    → e'.typ ≡ e.typ

-- Text that a payload type wrote is read back.
abbrev pub ReadsBack : {T : Type 0} → Serde T → Type 0
ReadsBack {T} s = (e : Envelope T) (b : String) → s.to_vec e ≡ some b → s.from_slice b ≡ some e

-- The behaviour of authenticated encryption that the program relies on.
pub record IsAuthentic (x : TokenCrypto) : Type 0 where
  pub decrypts : (r : ℕ) (k m t : String) → x.encrypt r k m ≡ ok t → x.decrypt k t ≡ ok m
  pub refuses :
      (r : ℕ) (k m t k' m' : String) → x.encrypt r k m ≡ ok t → x.decrypt k' t ≡ ok m' → k' ≡ k

module _ (x : TokenCrypto) (sound : IsAuthentic x) where
  try_keys-encrypt :
      {T : Type 0} (s : Serde T) (typ : String) (last : Option String) (keys : List String) (r : ℕ)
      (k m t : String)
      → x.encrypt r k m ≡ ok t
      → has k keys ≡ true
      → try_keys x s typ t last keys ≡ checked x typ (s.from_slice m)
  unfolding try_keys
  try_keys-encrypt s typ last [] r k m t sealed h = cc
  try_keys-encrypt s typ last (key ∷ keys) r k m t sealed h =
      elim (Result-cases (x.decrypt key t)) [
        | inl (m', e) ↦
            let same = sound.refuses r k m t key m' sealed e in
            let d : ok m' ≡ ok m =
              sym e ∙ ap (λ q. x.decrypt q t) same ∙ sound.decrypts r k m t sealed in
            rw (e, try_keys) (ap (λ q. checked x typ (s.from_slice q)) (ok_injective d))
        | inr (e', e) ↦
            rw (e, try_keys)
              (try_keys-encrypt s typ (some e') keys r k m t sealed (elim (Bool-cases (key == k)) [
                | inl same ↦
                    let d : err e' ≡ ok m =
                      sym e
                      ∙ ap (λ q. x.decrypt q t) (eq_of_test same)
                      ∙ sound.decrypts r k m t sealed in
                    cc d
                | inr differs ↦ rw differs at h
              ]))
      ]

  checked-typ :
      {T : Type 0} (typ : String) (env : Envelope T) (v : T)
      → checked x typ (some env) ≡ ok v
      → env.typ ≡ typ
  unfolding checked
  checked-typ typ env v h = ground (arith, eq_iff env.typ typ)

  seal-eq-ok :
      {T : Type 0} (s : Serde T) (c : TokenCodec) (typ : String) (r : ℕ) (v : T) {t : String}
      → seal x s c typ r v ≡ ok t
      → (m : String) × (s.to_vec (record { typ = typ; p = v }) ≡ some m)
        × (x.encrypt r c.primary m ≡ ok t)
  unfolding seal
  seal-eq-ok s c typ r v h =
      let (m, written, rest) =
        >>=-eq-ok (ok_or (s.to_vec (record { typ = typ; p = v })) (json "to_vec")) _ h in
      (
        m,
        ok_or-eq-ok _ _ written,
        map_err-eq-ok (λ e. crypto ("token seal: " <> e)) (x.encrypt r c.primary m) rest,
      )

  open-seal :
      {T : Type 0} (s : Serde T) (c d : TokenCodec) (typ : String) (r : ℕ) (v : T) {t : String}
      → ReadsBack s
      → seal x s c typ r v ≡ ok t
      → has c.primary (all_keys d) ≡ true
      → open_token x s d typ t ≡ ok v
  unfolding open_token checked
  open-seal s c d typ r v {t} back h k =
      let (m, written, sealed) = seal-eq-ok s c typ r v h in
      try_keys-encrypt s typ none (all_keys d) r c.primary m t sealed k
      ∙ rw (back _ m written) (rw (eq_refl typ) refl)

  pub open-seal_other :
      {T U : Type 0} (s : Serde T) (q : Serde U) (c d : TokenCodec) (typ typ' : String) (r : ℕ)
      (v : T) {t : String} (u : U)
      → KeepsTag s q
      → typ ≢ typ'
      → seal x s c typ r v ≡ ok t
      → has c.primary (all_keys d) ≡ true
      → open_token x q d typ' t ≢ ok u
  unfolding open_token checked
  open-seal_other s q c d typ typ' r v {t} u tag ne h k opened =
      let (m, written, sealed) = seal-eq-ok s c typ r v h in
      let e : checked x typ' (q.from_slice m) ≡ ok u =
        sym (try_keys-encrypt q typ' none (all_keys d) r c.primary m t sealed k) ∙ opened in
      elim (Option-cases (q.from_slice m)) [
        | inl unread ↦ cc (rw unread at e)
        | inr (env, read) ↦
            let f : checked x typ' (some env) ≡ ok u = rw read at e in
            ne (sym (tag _ m env written read) ∙ checked-typ typ' env u f)
      ]

  -- Under authenticated encryption and a format that reads back what it wrote, a sealed code
  -- opens under every codec that has its key, current or former, to the payload if its end
  -- lies after now, and else to the error of an expired code.
  pub open_code-seal_code :
      (c d : TokenCodec) (r now : ℕ) (v : AuthCodePayload) {t : String}
      → ReadsBack x.code_serde
      → has c.primary (all_keys d) ≡ true
      → seal_code x c r v ≡ ok t
      → open_code x d now t
        ≡ (if leb v.exp now then err (authn "authorization code expired") else ok v)
  unfolding seal_code open_code
  open_code-seal_code c d r now v back k h =
      rw (open-seal x.code_serde c d typ_code r v back h k) refl

  -- The same for access tokens.
  pub open_access_token-seal_access_token :
      (c d : TokenCodec) (r now : ℕ) (v : AccessTokenPayload) {t : String}
      → ReadsBack x.access_serde
      → has c.primary (all_keys d) ≡ true
      → seal_access_token x c r v ≡ ok t
      → open_access_token x d now t
        ≡ (if leb v.exp now then err (authn "access token expired") else ok v)
  unfolding seal_access_token open_access_token
  open_access_token-seal_access_token c d r now v back k h =
      rw (open-seal x.access_serde c d typ_access r v back h k) refl

  -- The same for refresh tokens.
  pub open_refresh_token-seal_refresh_token :
      (c d : TokenCodec) (r now : ℕ) (v : RefreshTokenPayload) {t : String}
      → ReadsBack x.refresh_serde
      → has c.primary (all_keys d) ≡ true
      → seal_refresh_token x c r v ≡ ok t
      → open_refresh_token x d now t
        ≡ (if leb v.exp now then err (authn "refresh token expired") else ok v)
  unfolding seal_refresh_token open_refresh_token
  open_refresh_token-seal_refresh_token c d r now v back k h =
      rw (open-seal x.refresh_serde c d typ_refresh r v back h k) refl
