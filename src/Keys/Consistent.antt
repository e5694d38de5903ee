-- ===== src/Keys/Consistent.antt =====
-- src/keys.rs: the parts of a signing key agree.
use grindvakt.Prelude.{ℕ, String, ◌≡◌, refl, sym, ap, subst, ◌∙◌, List, Option, some, ◌⊎◌, inl, inr}
use grindvakt.Jwt.{JwsAlgorithm, alg_name}
use grindvakt.Result.{ok, ok_or, ok_injective, >>=-eq-ok, ok_or-eq-ok}
use grindvakt.Exec.{Returns, after, after_lift}
use grindvakt.Keys.{
  SigningKey, public_jwk_from_private, effective, effective_alg, built_key, finalize_signing_key,
  signing_key_from_jwk_json, parse_private_key, signing_key_from_pem,
}
use grindvakt.Keys.Library.{Jwk, KeyLibrary, TokenLibrary}
use grindvakt.Error.{Error}
use grindvakt.Keys.Token.{
  need, public_from_token, Pkcs11KeyConfig, public_jwk_from_token, signing_key_from_pkcs11,
}

-- The published key states the algorithm and the identifier that the key signs under.
pub record IsConsistent {M G : Type 0} (k : SigningKey M G) : Type 0 where
  pub stated_alg : k.public_jwk.alg ≡ some (alg_name k.alg)
  pub stated_kid : k.public_jwk.kid ≡ k.kid
  pub stated_use : k.public_jwk.use_ ≡ some "sig"

module _ {M D A N G : Type 0} (l : KeyLibrary M D A N G) where
  -- The signer is one for the algorithm of the key, over the software key of the published one.
  abbrev pub HasSigner : SigningKey M G → Type 0
  HasSigner k =
      (sig_alg : A) × (sw : D) × (jwk : Jwk M) × (l.to_crypto k.alg ≡ some sig_alg)
      × (l.jwk_to_software_key jwk ≡ some sw)
      × (l.software_signer sig_alg sw ≡ some k.signer)
      × (k.public_jwk.material ≡ (l.to_public_jwk jwk).material)

  built_key-IsConsistent :
      (jwk : Jwk M) (alg : JwsAlgorithm) {k : SigningKey M G}
      → built_key l jwk alg ≡ ok k
      → IsConsistent k × HasSigner k × (k.alg ≡ alg) × (k.kid ≡ jwk.kid)
  unfolding built_key public_jwk_from_private
  built_key-IsConsistent jwk alg {k = k} h =
      let (sw, a, h₁) = >>=-eq-ok (ok_or (l.jwk_to_software_key jwk) _) _ h in
      let (sig_alg, b, h₂) = >>=-eq-ok (ok_or (l.to_crypto alg) _) _ h₁ in
      let (signer, c, h₃) = >>=-eq-ok (ok_or (l.software_signer sig_alg sw) _) _ h₂ in
      let same = ok_injective h₃ in
      subst
        (λ (j : SigningKey M G). IsConsistent j × HasSigner j × (j.alg ≡ alg) × (j.kid ≡ jwk.kid))
        same
        (
          record { stated_alg = refl; stated_kid = refl; stated_use = refl },
          (sig_alg, sw, jwk, ok_or-eq-ok _ _ b, ok_or-eq-ok _ _ a, ok_or-eq-ok _ _ c, refl),
          refl,
          refl,
        )

  -- A key that was finalized publishes a key that is consistent with it.
  pub finalize_signing_key-IsConsistent :
      (jwk : Jwk M) (alg_override kid_override : Option String) {k : SigningKey M G}
      → finalize_signing_key l jwk alg_override kid_override ≡ ok k
      → IsConsistent k
        × HasSigner k
        × (effective_alg l alg_override jwk ≡ ok k.alg)
        × (k.kid ≡ effective kid_override jwk.kid)
  unfolding finalize_signing_key
  finalize_signing_key-IsConsistent jwk alg_override kid_override h =
      let (alg, a, h₁) = >>=-eq-ok (effective_alg l alg_override jwk) _ h in
      let (consistent, signer, same, kid) = built_key-IsConsistent _ alg h₁ in
      (consistent, signer, a ∙ ap ok (sym same), kid)

  module _ {V H O W : Type 0} (t : TokenLibrary V H O A G W) where
    -- The ways to load a key.
    pub data Loaded : SigningKey M G → Type 0 where
      from_json :
          (text : String) (alg_override kid_override : Option String) {k : SigningKey M G}
          → signing_key_from_jwk_json l text alg_override kid_override ≡ ok k
          → Loaded k
      from_pem :
          (bytes : List ℕ) (alg_override kid_override : Option String) {k : SigningKey M G}
          → signing_key_from_pem l bytes alg_override kid_override ≡ ok k
          → Loaded k
      from_token :
          (cfg : Pkcs11KeyConfig) (w w' : W) {k : SigningKey M G}
          → Returns (signing_key_from_pkcs11 l t cfg) w k w'
          → Loaded k

    -- The signer is a token's, for the algorithm of the key, and the published key is that of the
    -- same label.
    abbrev pub IsOnToken : SigningKey M G → Type 0
    IsOnToken k =
        (sig_alg : A) × (session : H) × (label : String) × (handle : O) × (sw : D) × (jwk : Jwk M)
        × (l.to_crypto k.alg ≡ some sig_alg)
        × ((w : W) × ((t.token_signer session label sig_alg w).0 ≡ some k.signer))
        × ((w : W) × ((t.find_public_key session label w).0 ≡ some handle))
        × ((w : W) × (w' : W) × Returns (public_from_token l t session handle k.alg) w sw w')
        × (l.software_key_to_jwk sw ≡ some jwk)
        × (k.public_jwk.material ≡ (l.to_public_jwk jwk).material)

    need-eq-some :
        {B : Type 0} (m : W → Option B × W) (e : Error) (w w' : W) {b : B}
        → Returns (need l t m e) w b w'
        → (m w).0 ≡ some b
    need-eq-some m e w w' h =
        after _ _ _ h λ o w₁ f g. ok_injective (λ i. (f i).0) ∙ ok_or-eq-ok o e (λ i. (g i).0)

    token_key-IsConsistent :
        (cfg : Pkcs11KeyConfig) (w w' : W) {k : SigningKey M G}
        → Returns (signing_key_from_pkcs11 l t cfg) w k w'
        → IsConsistent k × IsOnToken k
    unfolding signing_key_from_pkcs11 public_jwk_from_token public_jwk_from_private
    token_key-IsConsistent cfg w w' h = after _ _ _ h λ provider w₁ a h₁.
        after _ _ _ h₁ λ session w₂ b h₂. after_lift _ _ _ h₂ λ sig_alg c h₃.
          after _ _ _ h₃ λ signer w₃ d h₄. after _ _ _ h₄ λ public_jwk w₄ e h₅.
            after _ _ _ e λ handle w₅ f e₁. after _ _ _ e₁ λ sw w₆ g e₂.
              after_lift _ _ _ e₂ λ jwk i e₃.
                let published = ok_injective (λ x. (e₃ x).0) in
                let same = ok_injective (λ x. (h₅ x).0) in
                subst (λ (j : SigningKey M G). IsConsistent j × IsOnToken j) same
                  (
                    record {
                      stated_alg = ap (λ (j : Jwk M). j.alg) (sym published);
                      stated_kid = ap (λ (j : Jwk M). j.kid) (sym published);
                      stated_use = ap (λ (j : Jwk M). j.use_) (sym published);
                    },
                    (
                      sig_alg,
                      session,
                      cfg.key_label,
                      handle,
                      sw,
                      jwk,
                      ok_or-eq-ok _ _ c,
                      (w₂, need-eq-some _ _ w₂ w₃ d),
                      (w₃, need-eq-some _ _ w₃ w₅ f),
                      (w₅, w₆, g),
                      ok_or-eq-ok _ _ i,
                      ap (λ (j : Jwk M). j.material) (sym published),
                    ),
                  )

    -- A signing key that was loaded from a JWK, from a PEM or DER file or from a PKCS#11
    -- token publishes a key that states the key's algorithm and identifier and the use sig.
    -- Its signer was built for that algorithm, either over the software key of a JWK, whose
    -- public part is the published material, or by a token session for a label, where the
    -- published material comes from the public key of that label, read for that algorithm.
    pub Loaded-IsConsistent :
        {k : SigningKey M G} → Loaded k → IsConsistent k × (HasSigner k ⊎ IsOnToken k)
    unfolding signing_key_from_jwk_json signing_key_from_pem
    Loaded-IsConsistent (from_json text alg_override kid_override h) =
        let (jwk, a, h₁) = >>=-eq-ok (ok_or (l.jwk_from_json text) _) _ h in
        let (consistent, signer, _, _) =
          finalize_signing_key-IsConsistent jwk alg_override kid_override h₁ in
        (consistent, inl signer)
    Loaded-IsConsistent (from_pem bytes alg_override kid_override h) =
        let (sw, a, h₁) = >>=-eq-ok (parse_private_key l bytes) _ h in
        let (jwk, b, h₂) = >>=-eq-ok (ok_or (l.software_key_to_jwk sw) _) _ h₁ in
        let (consistent, signer, _, _) =
          finalize_signing_key-IsConsistent jwk alg_override kid_override h₂ in
        (consistent, inl signer)
    Loaded-IsConsistent (from_token cfg w w' h) =
        let (consistent, signer) = token_key-IsConsistent cfg w w' h in (consistent, inr signer)
