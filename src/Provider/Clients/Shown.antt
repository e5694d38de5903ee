-- ===== src/Provider/Clients/Shown.antt =====
-- src/provider.rs: an authenticated client has shown one proof of who it is.
use grindvakt.Prelude.{
  ◌≤◌, String, ◌≡◌, refl, ap, ◌∙◌, true, Option, none, some, arith, eq_iff, Bool-cases, inl, inr,
  sym,
}
use grindvakt.Dict
use grindvakt.Dict.{Dict}
use grindvakt.Result.{ok_injective, ok_or-eq-ok}
use grindvakt.Exec.{Returns, after, after_lift}
use grindvakt.Client.{Client, auth_none, auth_client_secret_basic, auth_client_secret_post}
use grindvakt.Provider.Defs.{Provider, client_assertion_type}
use grindvakt.Provider.Defs.Services.{Services}
use grindvakt.Provider.Clients.Methods.{
  assertion_present, method_count, is_value, with_assertion, with_basic, with_post, as_public,
  by_header, authenticate_client_map,
}
use grindvakt.Provider.Clients.Authenticated.{
  IsAuthenticated, by_assertion, by_basic, by_post, public, check_secret-HasSecret,
  verify_private_key_jwt-HasAsserted,
}

is_value-eq : (v : String) (o : Option String) → is_value v o ≡ true → o ≡ some v
unfolding is_value
is_value-eq v none h = cc
is_value-eq v (some x) h = ap some ((eq_iff x v).0 h)

module _ {J W : Type 0} (p : Provider) (s : Services J W) (form : Dict String)
    (token_url : String) where
  with_assertion-IsAuthenticated :
      (auth_header : Option String) (w : W) {client : Client J} {w' : W}
      → Returns (with_assertion p s form token_url) w client w'
      → IsAuthenticated p s form auth_header token_url client
  unfolding with_assertion
  with_assertion-IsAuthenticated auth_header w h = after_lift _ _ _ h λ assertion a h₁.
      after_lift _ _ _ h₁ λ _ b h₂.
        by_assertion assertion (ok_or-eq-ok (Dict.get "client_assertion" form) _ a)
          (is_value-eq client_assertion_type (Dict.get "client_assertion_type" form)
            (ground (arith, b)))
          (verify_private_key_jwt-HasAsserted p s assertion form token_url w h₂)

  as_public-IsAuthenticated :
      (id : Option String) (w : W) {client : Client J} {w' : W}
      → Dict.get "client_id" form ≡ id
      → Returns (as_public p s id) w client w'
      → IsAuthenticated p s form none token_url client
  unfolding as_public
  as_public-IsAuthenticated none w e h = cc
  as_public-IsAuthenticated (some id) w e h = after _ _ _ h λ found w₁ a h₁.
      after_lift _ _ _ h₁ λ c b h₂. after_lift _ _ _ h₂ λ _ d h₃. public id e (
        ap (λ (x : Client J). x.token_endpoint_auth_method) (sym (ok_injective (λ x. (h₃ x).0)))
        ∙ ground (arith, d, eq_iff c.token_endpoint_auth_method auth_none))

  by_header-IsAuthenticated :
      (auth_header secret : Option String) (w : W) {client : Client J} {w' : W}
      → Dict.get "client_secret" form ≡ secret
      → Returns (by_header p s form auth_header secret) w client w'
      → IsAuthenticated p s form auth_header token_url client
  unfolding by_header with_basic with_post as_public
  by_header-IsAuthenticated (some header) secret w e h = after_lift _ _ _ h λ parts a h₁.
      after_lift _ _ _ h₁ λ _ b h₂. after_lift _ _ _ h₂ λ credentials c h₃.
        by_basic header parts credentials refl (ok_or-eq-ok _ _ a) (ok_or-eq-ok _ _ c)
          (check_secret-HasSecret p s credentials.0 credentials.1 auth_client_secret_basic w h₃)
  by_header-IsAuthenticated none (some secret) w e h = after_lift _ _ _ h λ id a h₁.
      by_post secret e (check_secret-HasSecret p s id secret auth_client_secret_post w h₁)
  by_header-IsAuthenticated none none w e h =
      as_public-IsAuthenticated (Dict.get "client_id" form) w refl h

  -- A client that is authenticated at the token endpoint has presented at most one method, and
  -- is registered for it: a signed assertion of the right type and audience whose identifier
  -- the store has taken, its own secret in the header or in the form, or none at all where it
  -- is a public client.
  pub authenticate_client_map-IsAuthenticated :
      (auth_header : Option String) (w : W) {client : Client J} {w' : W}
      → Returns (authenticate_client_map p s form auth_header token_url) w client w'
      → (method_count form auth_header ≤ 1) × IsAuthenticated p s form auth_header token_url client
  unfolding authenticate_client_map
  authenticate_client_map-IsAuthenticated auth_header w {client = client} {w' = w'} h =
      after_lift _ _ _ h λ _ a h₁. (
        ground (arith, a),
        elim (Bool-cases (assertion_present form)) [
          | inl e ↦ with_assertion-IsAuthenticated auth_header w (rw e at h₁)
          | inr n ↦
              by_header-IsAuthenticated auth_header (Dict.get "client_secret" form) w refl
                (rw n at h₁)
        ],
      )
