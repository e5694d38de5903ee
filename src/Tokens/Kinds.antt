-- ===== src/Tokens/Kinds.antt =====
-- src/tokens.rs: a token never opens as one of another kind.
use grindvakt.Prelude.{ℕ, String, ◌≡◌, refl, true, ne_of_test, has}
use grindvakt.Result.{ok, >>=-eq-ok}
use grindvakt.Tokens.{
  AuthCodePayload, AccessTokenPayload, RefreshTokenPayload, typ_code, typ_access, typ_refresh,
  TokenCrypto, TokenCodec, all_keys, open_token, seal_code, open_code, seal_access_token,
  open_access_token, seal_refresh_token, open_refresh_token,
}
use grindvakt.Tokens.Sealing.{IsAuthentic, KeepsTag, open-seal_other}

-- The three kinds of token.
pub data Kind : Type 0 where
  code access refresh : Kind

module _ (x : TokenCrypto) where
  -- `t` was sealed as a token of that kind.
  abbrev pub IsSealed : TokenCodec → Kind → String → Type 0
  IsSealed c code t = (r : ℕ) × (v : AuthCodePayload) × (seal_code x c r v ≡ ok t)
  IsSealed c access t = (r : ℕ) × (v : AccessTokenPayload) × (seal_access_token x c r v ≡ ok t)
  IsSealed c refresh t = (r : ℕ) × (v : RefreshTokenPayload) × (seal_refresh_token x c r v ≡ ok t)

  -- `t` opens as a token of that kind.
  abbrev pub Opens : TokenCodec → ℕ → Kind → String → Type 0
  Opens d now code t = (v : AuthCodePayload) × (open_code x d now t ≡ ok v)
  Opens d now access t = (v : AccessTokenPayload) × (open_access_token x d now t ≡ ok v)
  Opens d now refresh t = (v : RefreshTokenPayload) × (open_refresh_token x d now t ≡ ok v)

  -- The payload formats write and read one tag.
  pub record KeepsTags : Type 0 where
    pub code_access : KeepsTag x.code_serde x.access_serde
    pub code_refresh : KeepsTag x.code_serde x.refresh_serde
    pub access_code : KeepsTag x.access_serde x.code_serde
    pub access_refresh : KeepsTag x.access_serde x.refresh_serde
    pub refresh_code : KeepsTag x.refresh_serde x.code_serde
    pub refresh_access : KeepsTag x.refresh_serde x.access_serde

  -- An opened token is one that `open` has let through.
  opened_code :
      (d : TokenCodec) (now : ℕ) (t : String) {v : AuthCodePayload}
      → open_code x d now t ≡ ok v
      → (u : AuthCodePayload) × (open_token x x.code_serde d typ_code t ≡ ok u)
  unfolding open_code
  opened_code d now t h =
      let (u, e, _) = >>=-eq-ok (open_token x x.code_serde d typ_code t) _ h in (u, e)

  opened_access :
      (d : TokenCodec) (now : ℕ) (t : String) {v : AccessTokenPayload}
      → open_access_token x d now t ≡ ok v
      → (u : AccessTokenPayload) × (open_token x x.access_serde d typ_access t ≡ ok u)
  unfolding open_access_token
  opened_access d now t h =
      let (u, e, _) = >>=-eq-ok (open_token x x.access_serde d typ_access t) _ h in (u, e)

  opened_refresh :
      (d : TokenCodec) (now : ℕ) (t : String) {v : RefreshTokenPayload}
      → open_refresh_token x d now t ≡ ok v
      → (u : RefreshTokenPayload) × (open_token x x.refresh_serde d typ_refresh t ≡ ok u)
  unfolding open_refresh_token
  opened_refresh d now t h =
      let (u, e, _) = >>=-eq-ok (open_token x x.refresh_serde d typ_refresh t) _ h in (u, e)

  -- Under authenticated encryption and formats that write and read one tag, a token that was
  -- sealed as one of the three kinds and opens as one opens as its own kind, where the sealing
  -- key is among the keys of the opener.
  pub kind_of_opened :
      (sound : IsAuthentic x) (tags : KeepsTags) (c d : TokenCodec) (now : ℕ) (k k' : Kind)
      (t : String)
      → has c.primary (all_keys d) ≡ true
      → IsSealed c k t
      → Opens d now k' t
      → k ≡ k'
  unfolding seal_code seal_access_token seal_refresh_token
  kind_of_opened sound tags c d now code code t h s o = refl
  kind_of_opened sound tags c d now access access t h s o = refl
  kind_of_opened sound tags c d now refresh refresh t h s o = refl
  kind_of_opened sound tags c d now code access t h (r, v, s) (w, o) =
      let (u, e) = opened_access d now t o in
      absurd
        (open-seal_other x sound _ _ c d _ _ r v u tags.code_access (ne_of_test _ _ refl) s h e)
  kind_of_opened sound tags c d now code refresh t h (r, v, s) (w, o) =
      let (u, e) = opened_refresh d now t o in
      absurd
        (open-seal_other x sound _ _ c d _ _ r v u tags.code_refresh (ne_of_test _ _ refl) s h e)
  kind_of_opened sound tags c d now access code t h (r, v, s) (w, o) =
      let (u, e) = opened_code d now t o in
      absurd
        (open-seal_other x sound _ _ c d _ _ r v u tags.access_code (ne_of_test _ _ refl) s h e)
  kind_of_opened sound tags c d now access refresh t h (r, v, s) (w, o) =
      let (u, e) = opened_refresh d now t o in
      absurd
        (open-seal_other x sound _ _ c d _ _ r v u tags.access_refresh (ne_of_test _ _ refl) s h e)
  kind_of_opened sound tags c d now refresh code t h (r, v, s) (w, o) =
      let (u, e) = opened_code d now t o in
      absurd
        (open-seal_other x sound _ _ c d _ _ r v u tags.refresh_code (ne_of_test _ _ refl) s h e)
  kind_of_opened sound tags c d now refresh access t h (r, v, s) (w, o) =
      let (u, e) = opened_access d now t o in
      absurd
        (open-seal_other x sound _ _ c d _ _ r v u tags.refresh_access (ne_of_test _ _ refl) s h e)
