-- ===== src/Jwt/Hashes.antt =====
-- src/jwt.rs: for which algorithms there is a token hash.
use grindvakt.Prelude.{◌/◌, String, ◌≡◌, refl, ◌↔◌, ◌⊎◌, inl, inr, true, List, ℕ, length}
use grindvakt.Prelude.Bytes.{as_bytes}
use grindvakt.Result.{ok}
use grindvakt.Jwt.{JwsAlgorithm, hs256, Hashing, take, oidc_token_hash, supports_oidc_token_hash}

-- An algorithm is one that supports token hashes exactly if the hash of a value is computed, as
-- the encoded left half of its SHA-256, SHA-384 or SHA-512 digest.
pub supports_iff :
    (h : Hashing) (alg : JwsAlgorithm) (value : String)
    → (supports_oidc_token_hash alg ≡ true) ↔ (
        (d : List ℕ) × ((d ≡ h.sha256 (as_bytes value))
          ⊎ ((d ≡ h.sha384 (as_bytes value)) ⊎ (d ≡ h.sha512 (as_bytes value))))
        × (oidc_token_hash h alg value ≡ ok (h.encode (take (length d / 2) d))))
unfolding supports_oidc_token_hash oidc_token_hash
supports_iff h hs256 value = (λ e. (_, inl refl, refl), λ e. refl)
supports_iff h JwsAlgorithm.hs384 value = (λ e. (_, inr (inl refl), refl), λ e. refl)
supports_iff h JwsAlgorithm.hs512 value = (λ e. (_, inr (inr refl), refl), λ e. refl)
supports_iff h JwsAlgorithm.rs256 value = (λ e. (_, inl refl, refl), λ e. refl)
supports_iff h JwsAlgorithm.rs384 value = (λ e. (_, inr (inl refl), refl), λ e. refl)
supports_iff h JwsAlgorithm.rs512 value = (λ e. (_, inr (inr refl), refl), λ e. refl)
supports_iff h JwsAlgorithm.ps256 value = (λ e. (_, inl refl, refl), λ e. refl)
supports_iff h JwsAlgorithm.ps384 value = (λ e. (_, inr (inl refl), refl), λ e. refl)
supports_iff h JwsAlgorithm.ps512 value = (λ e. (_, inr (inr refl), refl), λ e. refl)
supports_iff h JwsAlgorithm.es256 value = (λ e. (_, inl refl, refl), λ e. refl)
supports_iff h JwsAlgorithm.es384 value = (λ e. (_, inr (inl refl), refl), λ e. refl)
supports_iff h JwsAlgorithm.es512 value = (λ e. (_, inr (inr refl), refl), λ e. refl)
supports_iff h JwsAlgorithm.es256k value = (λ e. (_, inl refl, refl), λ e. refl)
supports_iff h JwsAlgorithm.eddsa value = (λ e. cc, λ e. cc (e.2))
supports_iff h JwsAlgorithm.unnamed value = (λ e. cc, λ e. cc (e.2))
