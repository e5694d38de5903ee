-- ===== src/Provider/Clients/Frame.antt =====
-- src/provider.rs: what client authentication keeps of the world.
use grindvakt.Prelude.{ℕ, String, Option, none, some}
use grindvakt.Dict
use grindvakt.Dict.{Dict}
use grindvakt.Exec.Keeps.{Keeps, bind-Keeps, lift-Keeps, if-Keeps}
use grindvakt.Jwt.{Claims}
use grindvakt.Client.{auth_client_secret_basic, auth_client_secret_post}
use grindvakt.Provider.Defs.{Provider}
use grindvakt.Provider.Defs.Services.{Services, Validation}
use grindvakt.Provider.Clients.{check_secret, use_assertion, verify_private_key_jwt}
use grindvakt.Provider.Clients.Methods.{
  assertion_present, with_assertion, with_basic, with_post, as_public, by_header,
  authenticate_client_map,
}

-- What every call of the services keeps.
pub record IsKept {J W : Type 0} (s : Services J W) (P : W → Type 0) : Type 0 where
  pub by_get : (id : String) (w : W) → P w → P (s.client_get id w).1
  pub by_consume : (h : String) (ttl : ℕ) (w : W) → P w → P (s.token_consume h ttl w).1
  pub by_clock : (w : W) → P w → P (s.clock w).1
  pub by_draw : (w : W) → P w → P (s.draw w).1
  pub by_verify :
      (jwks : J) (token : String) (v : Validation) (w : W)
      → P w
      → P (s.verify_with_jwks jwks token v w).1

module _ {J W : Type 0} (p : Provider) (s : Services J W) (P : W → Type 0) (kept : IsKept s P) where
  check_secret-Keeps : (id secret method : String) → Keeps P (check_secret s id secret method)
  unfolding check_secret
  check_secret-Keeps id secret method =
      bind-Keeps P _ _ (kept.by_get id)
        λ found. lift-Keeps P _ _ λ client. lift-Keeps P _ _ λ _. lift-Keeps P _ _ λ _ w h. h

  use_assertion-Keeps : (id url : String) (c : Claims) → Keeps P (use_assertion p s id url c)
  unfolding use_assertion
  use_assertion-Keeps id url c = lift-Keeps P _ _ λ _. lift-Keeps P _ _ λ jti.
      bind-Keeps P _ _ kept.by_clock λ now. bind-Keeps P _ _ (kept.by_consume _ _) λ answer w h. h

  verify_private_key_jwt-Keeps :
      (assertion : String) (form : Dict String) (url : String)
      → Keeps P (verify_private_key_jwt p s assertion form url)
  unfolding verify_private_key_jwt
  verify_private_key_jwt-Keeps assertion form url = lift-Keeps P _ _ λ id.
      bind-Keeps P _ _ (kept.by_get id) λ found. lift-Keeps P _ _ λ client. lift-Keeps P _ _ λ _.
        lift-Keeps P _ _ λ jwks. bind-Keeps P _ _ (kept.by_verify jwks assertion _) λ verified.
          lift-Keeps P _ _ λ claims. bind-Keeps P _ _ (use_assertion-Keeps id url claims) λ _ w h. h

  with_assertion-Keeps : (form : Dict String) (url : String) → Keeps P (with_assertion p s form url)
  unfolding with_assertion
  with_assertion-Keeps form url =
      lift-Keeps P _ _
        λ assertion. lift-Keeps P _ _ λ _. verify_private_key_jwt-Keeps assertion form url

  as_public-Keeps : (id : Option String) → Keeps P (as_public p s id)
  unfolding as_public
  as_public-Keeps none = λ w h. h
  as_public-Keeps (some id) =
      bind-Keeps P _ _ (kept.by_get id)
        λ found. lift-Keeps P _ _ λ client. lift-Keeps P _ _ λ _ w h. h

  by_header-Keeps :
      (form : Dict String) (header secret : Option String)
      → Keeps P (by_header p s form header secret)
  unfolding by_header with_basic with_post
  by_header-Keeps form (some header) secret = lift-Keeps P _ _ λ parts. lift-Keeps P _ _ λ _.
      lift-Keeps P _ _
        λ credentials. check_secret-Keeps credentials.0 credentials.1 auth_client_secret_basic
  by_header-Keeps form none (some secret) =
      lift-Keeps P _ _ λ id. check_secret-Keeps id secret auth_client_secret_post
  by_header-Keeps form none none = as_public-Keeps (Dict.get "client_id" form)

  pub authenticate_client_map-Keeps :
      (form : Dict String) (header : Option String) (url : String)
      → Keeps P (authenticate_client_map p s form header url)
  unfolding authenticate_client_map
  authenticate_client_map-Keeps form header url = lift-Keeps P _ _ λ _.
      if-Keeps P (assertion_present form) _ _ (with_assertion-Keeps form url)
        (by_header-Keeps form header (Dict.get "client_secret" form))
