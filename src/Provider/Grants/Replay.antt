-- ===== src/Provider/Grants/Replay.antt =====
-- src/provider.rs: how often codes and refresh tokens are answered.
use mathlib.Core.Option.{some-injective}
use grindvakt.Prelude.{ℕ, ◌+◌, ◌≤◌, ◌<◌, max, String, ◌≡◌, sym, subst, ◌∙◌, List, Option, some, All}
use grindvakt.Prelude.Words.{u64_mod}
use grindvakt.Dict
use grindvakt.Dict.{Dict, IsMap}
use grindvakt.Result.{ok_or-eq-ok}
use grindvakt.Exec.{Returns, after, after_lift}
use grindvakt.TokenUse.{InMemoryTokenUseStore}
use grindvakt.TokenUse.Once
use grindvakt.TokenUse.Once.{Call}
use grindvakt.Provider.Defs.{Provider}
use grindvakt.Provider.Defs.Services.{Services, now_secs}
use grindvakt.Provider.Clients.Methods.{authenticate_client_map}
use grindvakt.Provider.Form.{token_use_hash}
use grindvakt.Exec.Keeps.{Keeps-Returns}
use grindvakt.Provider.Clients.Frame.{authenticate_client_map-Keeps}
use grindvakt.Provider.Grants.Kept.{issue_for_code-Keeps, reissue-Keeps}
use grindvakt.Provider.Grants.Spent.{
  IsInMemory, IsSpent, IsSpent-IsKept, used-IsSpent, used_again, over-IsKept,
}
use grindvakt.Provider.Grants.{Dpop, TokenResponse, use_ttl}
use grindvakt.Provider.Grants.Code.{issue_for_code, handle_authorization_code}
use grindvakt.Provider.Grants.Refresh.{reissue, handle_refresh_token}
use grindvakt.Provider.Grants.Redeem.{IsRedeemed}
use grindvakt.Provider.Grants.Narrow.{IsRefreshed}

module _ {J W : Type 0} (s : Services J W) (view : W → InMemoryTokenUseStore) (time : W → ℕ)
    (law : IsInMemory s view time) (p : Provider) where
  -- After a code was redeemed, every run that redeems that code again over the same in-memory
  -- store ends at or after the expiry of the code. The clock must not be set back by any
  -- service, the first use must end before 2^64, and between the two the store must be changed
  -- only by calls before the expiry.
  pub code_used_once :
      {form : Dict String} {auth : Option String} {url : String} {dpop : Dpop} {w : W}
      {r : TokenResponse} (first : IsRedeemed p s form auth url dpop w r)
      → IsMap (view (s.clock first.before).1).entries
      → time (s.clock first.before).1 + max (use_ttl first.payload.exp (s.clock first.before).0) 1
        < u64_mod
      → (between : List Call) → All (λ (c : Call). c.now < first.payload.exp) between
      → (v : W) → view v ≡ Once.after between (view first.after_use)
      → (form' : Dict String) (auth' : Option String) (url' : String) (dpop' : Dpop)
        {r' : TokenResponse} {v' : W}
      → Dict.get "code" form' ≡ some first.code
      → Returns (handle_authorization_code p s form' auth' url' dpop') v r' v'
      → first.payload.exp ≤ time v'
  unfolding handle_authorization_code
  code_used_once first m fits between early v shown form' auth' url' dpop' same h =
      let d = first.payload.exp in
      let hash = token_use_hash s.encoding "code" first.code in
      let spent =
        used-IsSpent s view time law "code" first.code d first.before m fits first.used between
          early v shown in
      let is_spent = IsSpent s view time law hash d in
      let kept = IsSpent-IsKept s view time law hash d in
      after _ _ _ h λ client w₁ a h₁. after_lift _ _ _ h₁ λ _ b h₂. after_lift _ _ _ h₂ λ code c h₃.
        after _ _ _ h₃ λ now w₂ e h₄. after_lift _ _ _ h₄ λ payload f h₅.
          after_lift _ _ _ h₅ λ _ g h₆. after _ _ _ h₆ λ _ w₄ l h₇.
            let at₁ =
              Keeps-Returns is_spent (authenticate_client_map p s form' auth' url') v a
                (authenticate_client_map-Keeps p s is_spent kept form' auth' url') spent in
            let at₂ = Keeps-Returns is_spent (now_secs s) w₁ e kept.by_clock at₁ in
            let same_code : first.code ≡ code = some-injective _ _ (sym same ∙ ok_or-eq-ok _ _ c) in
            let over =
              used_again s view time law "code" code d payload.exp _ w₂
                (subst (λ x. IsSpent s view time law (token_use_hash s.encoding "code" x) d w₂)
                  same_code at₂)
                l in
            Keeps-Returns (λ w. d ≤ time w) (issue_for_code p s client payload dpop') w₄ h₇
              (issue_for_code-Keeps p s (λ w. d ≤ time w) (over-IsKept s view time law d) client
                payload dpop')
              over

  -- After a refresh token was answered, every run that answers that token again over the same
  -- in-memory store ends at or after the expiry of the token. The clock must not be set back
  -- by any service, the first use must end before 2^64, and between the two the store must be
  -- changed only by calls before the expiry.
  pub refresh_used_once :
      {form : Dict String} {auth : Option String} {url : String} {dpop : Dpop} {w : W}
      {r : TokenResponse} (first : IsRefreshed p s form auth url dpop w r)
      → IsMap (view (s.clock first.before).1).entries
      → time (s.clock first.before).1 + max (use_ttl first.rt.exp (s.clock first.before).0) 1
        < u64_mod
      → (between : List Call) → All (λ (c : Call). c.now < first.rt.exp) between
      → (v : W) → view v ≡ Once.after between (view first.after_use)
      → (form' : Dict String) (auth' : Option String) (url' : String) (dpop' : Dpop)
        {r' : TokenResponse} {v' : W}
      → Dict.get "refresh_token" form' ≡ some first.token
      → Returns (handle_refresh_token p s form' auth' url' dpop') v r' v'
      → first.rt.exp ≤ time v'
  unfolding handle_refresh_token
  refresh_used_once first m fits between early v shown form' auth' url' dpop' same h =
      let d = first.rt.exp in
      let hash = token_use_hash s.encoding "refresh" first.token in
      let spent =
        used-IsSpent s view time law "refresh" first.token d first.before m fits first.used between
          early v shown in
      let is_spent = IsSpent s view time law hash d in
      let kept = IsSpent-IsKept s view time law hash d in
      after _ _ _ h λ client w₁ a h₁. after_lift _ _ _ h₁ λ _ b h₂.
        after_lift _ _ _ h₂ λ token c h₃. after _ _ _ h₃ λ opened_at w₂ e h₄.
          after_lift _ _ _ h₄ λ rt f h₅. after_lift _ _ _ h₅ λ _ g h₆.
            after_lift _ _ _ h₆ λ binding i h₇. after_lift _ _ _ h₇ λ scope j h₈.
              after _ _ _ h₈ λ now w₃ k h₉. after _ _ _ h₉ λ _ w₄ l h₁₀.
                let at₁ =
                  Keeps-Returns is_spent (authenticate_client_map p s form' auth' url') v a
                    (authenticate_client_map-Keeps p s is_spent kept form' auth' url') spent in
                let at₂ = Keeps-Returns is_spent (now_secs s) w₁ e kept.by_clock at₁ in
                let at₃ = Keeps-Returns is_spent (now_secs s) w₂ k kept.by_clock at₂ in
                let same_token : first.token ≡ token =
                  some-injective _ _ (sym same ∙ ok_or-eq-ok _ _ c) in
                let over =
                  used_again s view time law "refresh" token d rt.exp _ w₃
                    (subst
                      (λ x. IsSpent s view time law (token_use_hash s.encoding "refresh" x) d w₃)
                      same_token at₃)
                    l in
                Keeps-Returns (λ w. d ≤ time w) (reissue p s client rt binding scope now dpop') w₄
                  h₁₀
                  (reissue-Keeps p s (λ w. d ≤ time w) (over-IsKept s view time law d) client rt
                    binding scope now dpop')
                  over
