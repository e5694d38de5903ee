-- ===== src/Provider/Grants/Kept.antt =====
-- src/provider.rs: what issuing the tokens of a grant keeps of the world.
use grindvakt.Prelude.{ℕ, String, Option}
use grindvakt.Result.{Result}
use grindvakt.Error.{Error}
use grindvakt.Exec.Keeps.{Keeps, bind-Keeps, lift-Keeps, when-Keeps}
use grindvakt.Client.{Client}
use grindvakt.Tokens.{AuthCodePayload, RefreshTokenPayload}
use grindvakt.Provider.Defs.{Provider}
use grindvakt.Provider.Defs.Services.{Services, drawn, server_failure}
use grindvakt.Provider.Clients.Frame.{IsKept}
use grindvakt.Provider.Mint.{IdTokenInput, build_id_token}
use grindvakt.Provider.Grants.{Dpop}
use grindvakt.Provider.Grants.Code.{issue_for_code}
use grindvakt.Provider.Grants.Refresh.{reissue}

module _ {J W : Type 0} (p : Provider) (s : Services J W) (P : W → Type 0) (kept : IsKept s P) where
  drawn-Keeps : {A : Type 0} (f : ℕ → Result Error A) → Keeps P (server_failure (drawn s f))
  unfolding server_failure drawn
  drawn-Keeps f = kept.by_draw

  build_id_token-Keeps : (i : IdTokenInput) → Keeps P (server_failure (build_id_token p s i))
  unfolding server_failure build_id_token drawn
  build_id_token-Keeps i =
      bind-Keeps P _ _ kept.by_clock λ now. lift-Keeps P _ _ λ c. lift-Keeps P _ _ λ a. kept.by_draw

  pub issue_for_code-Keeps :
      (client : Client J) (payload : AuthCodePayload) (dpop : Dpop)
      → Keeps P (issue_for_code p s client payload dpop)
  unfolding issue_for_code
  issue_for_code-Keeps client payload dpop = bind-Keeps P _ _ kept.by_clock λ now.
      bind-Keeps P _ _ (drawn-Keeps _) λ access.
        bind-Keeps P _ _ (when-Keeps P _ _ (build_id_token-Keeps _)) λ id_token.
          bind-Keeps P _ _
            (when-Keeps P _ _ (bind-Keeps P _ _ kept.by_clock λ later. drawn-Keeps _))
            λ refresh w h. h

  pub reissue-Keeps :
      (client : Client J) (rt : RefreshTokenPayload) (binding : Option String) (scope : String)
      (now : ℕ) (dpop : Dpop)
      → Keeps P (reissue p s client rt binding scope now dpop)
  unfolding reissue
  reissue-Keeps client rt binding scope now dpop = bind-Keeps P _ _ (drawn-Keeps _) λ access.
      bind-Keeps P _ _ (when-Keeps P _ _ (build_id_token-Keeps _))
        λ id_token. bind-Keeps P _ _ (drawn-Keeps _) λ refresh w h. h
