-- ===== src/Dpop/Proof.antt =====
-- src/dpop.rs: the validation of a proof.
use grindvakt.Prelude.{
  ℕ, String, Bool, true, false, not, ◌&&◌, Option, none, some, if◌then◌else◌, ◌==◌, opt_str_eq,
}
use grindvakt.Prelude.Text.{◌<>◌, eq_ignore_ascii_case, split_once}
use grindvakt.Prelude.Bytes.{as_bytes}
use grindvakt.Prelude.Words.{add_i64, sub_i64, lt_i64}
use grindvakt.Error.Escape.{display_safe}
use grindvakt.Result.{Result, ok, err, fail_if, ok_or, and_then, ◌>>◌}
use grindvakt.Exec
use grindvakt.Exec.{Exec}
use grindvakt.Dpop.{
  DpopConfig, DpopProof, DpopError, invalid, replay, nonce_required, server, Header, DpopClaims,
  Backend, iat_future_skew_secs, validate_nonce,
}

-- `s.split(c).next()`
before : ℕ → String → String
before c s = elim (split_once c s) [ none ↦ s | some (a, b) ↦ a ]

unfoldable pub normalize_htu : String → String
unfolding before
normalize_htu uri = before b'?' (before b'#' uri)

-- what a proof has been validated to
pub record Validated : Type 0 where
  pub jkt : String
  pub jti : String

unfoldable pub ath_matches : {V K W : Type 0} → Backend V K W → Option String → Option String → Bool
ath_matches b none got = true
ath_matches b (some expected) none = false
ath_matches b (some expected) (some got) = b.constant_time_eq (as_bytes got) (as_bytes expected)

-- `claims.iat > now + IAT_FUTURE_SKEW_SECS`
unfoldable pub in_future : ℕ → ℕ → Bool
in_future now iat = lt_i64 (add_i64 now iat_future_skew_secs) iat

-- `now - claims.iat > max_age`
unfoldable pub too_old : ℕ → ℕ → ℕ → Bool
too_old max_age now iat = lt_i64 max_age (sub_i64 now iat)

module _ {V K W : Type 0} (b : Backend V K W) (c : DpopConfig) where
  unfoldable pub nonce_ok : ℕ → Option String → Bool
  nonce_ok now none = false
  nonce_ok now (some n) = validate_nonce b c now n

  -- the checks on the claims of a proof whose signature is right
  unfoldable pub check_claims :
      ℕ → (htm htu : String) → Option String → DpopClaims → Result DpopError (Unit {0})
  check_claims now htm htu expected_ath claims = do
    fail_if (not (eq_ignore_ascii_case claims.htm htm)) (
        invalid
          ("htm mismatch: proof=" <> display_safe claims.htm <> ", request=" <> display_safe htm))
    fail_if (not (normalize_htu claims.htu == normalize_htu htu)) (
        invalid
          ("htu mismatch: proof=" <> display_safe claims.htu <> ", request=" <> display_safe htu))
    fail_if (not (ath_matches b expected_ath claims.ath)) (invalid "ath missing or mismatched")
    fail_if (in_future now claims.iat) (invalid "iat is in the future")
    fail_if (too_old c.proof_max_age_secs now claims.iat) (invalid "proof is too old")
    fail_if (c.require_nonce && not (nonce_ok now claims.nonce)) nonce_required

  -- the checks on the header, and the key in it
  unfoldable pub proof_key : Header V → Result DpopError K
  proof_key header =
      and_then
        (fail_if (not (opt_str_eq header.typ (some "dpop+jwt"))) (invalid "typ must be dpop+jwt"))
        λ _.
          and_then
            (fail_if (not (header.alg == "ES256"))
              (invalid ("alg must be ES256, got " <> display_safe header.alg)))
            λ _. and_then (ok_or header.jwk (invalid "header is missing jwk")) λ value.
              and_then (ok_or (b.jwk_from_json value) (invalid "bad jwk")) λ jwk.
                and_then (fail_if (b.has_private jwk) (invalid "jwk must not contain private key"))
                  λ _. ok jwk

  -- `validate_proof_inner`, at the time `now`
  unfoldable pub validate_proof_inner :
      ℕ → (proof htm htu : String) → Option String → Result DpopError Validated
  validate_proof_inner now proof htm htu expected_ath =
      and_then (ok_or (b.decode_header proof) (invalid "undecodable header")) λ header.
        and_then (proof_key header) λ jwk.
          and_then (ok_or (b.verify_with_jwk jwk proof) (invalid "signature verification failed"))
            λ payload.
              and_then (ok_or (b.claims_from_slice payload) (invalid "undecodable claims"))
                λ claims. and_then (check_claims now htm htu expected_ath claims) λ _.
                  and_then (ok_or (b.thumbprint_sha256 jwk) (server "thumbprint failed"))
                    λ jkt. ok (record { jkt = jkt; jti = claims.jti })

  -- `max_age.max(0) as u64`
  unfoldable pub replay_ttl : ℕ
  replay_ttl = if lt_i64 c.proof_max_age_secs 0 then 0 else c.proof_max_age_secs

  unfoldable pub recorded : Option Bool → Result DpopError (Unit {0})
  recorded none = err (server "replay store")
  recorded (some true) = ok tt
  recorded (some false) = err replay

  unfoldable pub validate_and_record :
      (proof htm htu : String) → Option String → Exec W DpopError DpopProof
  unfolding recorded
  validate_and_record proof htm htu expected_ath = Exec.◌>>=◌ (Exec.run b.clock) λ now.
      Exec.◌>>=◌ (Exec.lift (validate_proof_inner now proof htm htu expected_ath)) λ v.
        Exec.◌>>=◌ (Exec.run (b.record_jti v.jti replay_ttl))
          λ answer. Exec.◌>>=◌ (Exec.lift (recorded answer)) λ _. Exec.pure (record { jkt = v.jkt })

  unfoldable pub validate_proof : (proof htm htu : String) → Exec W DpopError DpopProof
  validate_proof proof htm htu = validate_and_record proof htm htu none

  ath_of : String → String
  ath_of access_token = b.encode (b.sha256 (as_bytes access_token))

  unfoldable pub validate_resource_proof :
      (proof htm htu access_token : String) → Exec W DpopError DpopProof
  unfolding ath_of
  validate_resource_proof proof htm htu access_token =
      validate_and_record proof htm htu (some (ath_of access_token))
