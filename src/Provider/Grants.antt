-- ===== src/Provider/Grants.antt =====
-- src/provider.rs: what the grants of the token endpoint share.
pub mod Code
pub mod Credentials
pub mod Refresh
pub mod Endpoint
pub mod Redeem
pub mod Errors
pub mod Kept
pub mod Spent
pub mod Replay
pub mod Narrow
pub mod Service
pub mod Scopes
pub mod Answers
mod Examples
mod ReplayExamples
use grindvakt.Prelude.{
  ℕ, ◌-◌, max, String, Bool, true, ◌∷◌, Option, none, some, if◌then◌else◌, ◌==◌, is_some, has, ◌≡◌,
  ap₂, ◌∙◌,
}
use grindvakt.Result.{ok, ok_injective}
use grindvakt.Exec.{Exec, lift, run, ◌>>=◌, ◌>>◌, Returns, after}
use grindvakt.OauthError.{OauthError, error, invalid_grant}
use grindvakt.Client.{Client}
use grindvakt.Provider.Defs.Services.{Services, now_secs}
use grindvakt.Provider.Form.{token_use_hash}
use grindvakt.Provider.Clients.{consumed, consumed-eq-ok}

-- `TokenResponse`
pub record TokenResponse : Type 0 where
  pub access_token : String
  pub token_type : String
  pub expires_in : ℕ
  pub id_token : Option String
  pub scope : Option String
  pub refresh_token : Option String

abbrev pub grant_error : String → OauthError
grant_error = error invalid_grant

-- A validated DPoP proof is the thumbprint of its key.
abbrev pub Dpop : Type 0
Dpop = Option String

unfoldable pub token_type : Dpop → String
token_type dpop = if is_some dpop then "DPoP" else "Bearer"

unfoldable pub client_allows_refresh : {J : Type 0} → Client J → Bool
client_allows_refresh client = has "refresh_token" client.grant_types

-- `b.then_some(v)`
abbrev pub then_some : {A : Type 0} → Bool → A → Option A
then_some b v = if b then some v else none

-- `exp.saturating_sub(now_secs()).max(1)`
abbrev pub use_ttl : ℕ → ℕ → ℕ
use_ttl exp now = max (exp - now) 1

module _ {J W : Type 0} (s : Services J W) where
  unfoldable pub consume_token_once : String → String → ℕ → String → Exec W OauthError (Unit {0})
  consume_token_once kind token exp replay_message = do
    now ← now_secs s
    answer ← run (s.token_consume (token_use_hash s.encoding kind token) (use_ttl exp now))
    lift (consumed (grant_error replay_message) answer)

  -- A use that is let through has been taken by the store.
  pub consume_token_once-consumed :
      (kind token : String) (exp : ℕ) (message : String) (w : W) {w' : W}
      → Returns (consume_token_once kind token exp message) w tt w'
      → (s.token_consume
          (token_use_hash s.encoding kind token)
          (use_ttl exp (s.clock w).0)
          (s.clock w).1)
        ≡ (ok true, w')
  unfolding consume_token_once
  consume_token_once-consumed kind token exp message w h = after _ _ _ h λ now w₁ a h₁.
      after _ _ _ h₁ λ answer w₂ b h₂.
        let taken = consumed-eq-ok (grant_error message) answer (λ i. (h₂ i).0) in
        let first = ok_injective (λ i. (b i).0) ∙ taken in
        let second = (λ i. (b i).1) ∙ (λ i. (h₂ i).1) in
        ap₂ (λ n x. s.token_consume (token_use_hash s.encoding kind token) (use_ttl exp n) x)
          (ok_injective (λ i. (a i).0)) (λ i. (a i).1)
        ∙ (λ i. (first i, second i))
