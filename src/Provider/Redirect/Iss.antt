-- ===== src/Provider/Redirect/Iss.antt =====
-- src/provider.rs: the `iss` parameter of an error redirect.
use grindvakt.Prelude.{◌&&◌, not}
use grindvakt.Prelude.{◌≡◌, ◌↔◌, false, arith}
use grindvakt.Result.{ok}
use grindvakt.Http.{Response}
use grindvakt.OauthError.{OauthError, to_redirect_with_params}
use grindvakt.Request.{AuthorizationRequest, use_fragment}
use grindvakt.Provider.Defs.{Provider}
use grindvakt.Provider.Defs.Services.{Services}
use grindvakt.Provider.Redirect.{
  carries_iss, query_of, check_iss_redirect_collision, iss_params, authorization_error_redirect,
}

module _ {J W : Type 0} (p : Provider) (s : Services J W) where
  -- No second `iss` parameter comes about.
  abbrev pub IsAlone : AuthorizationRequest → Type 0
  IsAlone req =
      (p.emit_iss && not (use_fragment req) && carries_iss s.form_parse (query_of req.redirect_uri))
      ≡ false

  pub check_iss_redirect_collision_iff :
      (req : AuthorizationRequest) → (check_iss_redirect_collision p s req ≡ ok tt) ↔ IsAlone req
  unfolding check_iss_redirect_collision
  check_iss_redirect_collision_iff req = ground arith

  -- An error redirect is made exactly if, where the provider emits iss into a query, the
  -- redirect URI's query has no iss of its own, and it is the redirect with the issuer added
  -- where iss is emitted.
  pub error_redirect_iff :
      (req : AuthorizationRequest) (e : OauthError) (r : Response)
      → (authorization_error_redirect p s req e ≡ ok r) ↔ (
          IsAlone req
          × (to_redirect_with_params s.urlencode e req.redirect_uri
                (use_fragment req)
                (iss_params p s)
              ≡ r))
  unfolding authorization_error_redirect
  error_redirect_iff req e r = ground (arith, check_iss_redirect_collision_iff req)
