-- ===== src/Provider/Clients/Authenticated.antt =====
-- src/provider.rs: how an authenticated client has authenticated.
use grindvakt.Prelude.{ℕ, String, ◌≡◌, sym, ap, ◌∙◌, true, Option, none, some, arith, eq_iff}
use grindvakt.Prelude.Text.{split_once}
use grindvakt.Dict
use grindvakt.Dict.{Dict}
use grindvakt.Result.{ok, ok_injective, ok_or-eq-ok}
use grindvakt.Exec.{Returns, after, after_lift}
use grindvakt.Pkce.Verify.{text_eq_iff}
use grindvakt.Jwt.{Claims}
use grindvakt.Client.{
  Client, auth_none, auth_client_secret_basic, auth_client_secret_post, auth_private_key_jwt,
}
use grindvakt.Provider.Defs.{Provider, client_assertion_type}
use grindvakt.Provider.Defs.Services.{Services}
use grindvakt.Provider.Form.{assertion_use_hash}
use grindvakt.Provider.Clients.{
  secret_matches, check_secret, decode_basic, verify_private_key_jwt, use_assertion, validation,
  assertion_ttl, consumed-eq-ok, aud_ok,
}

secret_matches-eq :
    (o : Option String) (secret : String) → secret_matches o secret ≡ true → o ≡ some secret
unfolding secret_matches
secret_matches-eq none secret h = cc
secret_matches-eq (some expected) secret h = ap some ((text_eq_iff expected secret).0 h)

module _ {J W : Type 0} (p : Provider) (s : Services J W) where
  -- The client holds the secret, and is registered for the method.
  pub record HasSecret (method secret : String) (client : Client J) : Type 0 where
    pub registered : client.token_endpoint_auth_method ≡ method
    pub secret_held : client.client_secret ≡ some secret

  pub check_secret-HasSecret :
      (id secret method : String) (w : W) {client : Client J} {w' : W}
      → Returns (check_secret s id secret method) w client w'
      → HasSecret method secret client
  unfolding check_secret
  check_secret-HasSecret id secret method w {client = client} h = after _ _ _ h λ found w₁ a h₁.
      after_lift _ _ _ h₁ λ c b h₂. after_lift _ _ _ h₂ λ _ d h₃. after_lift _ _ _ h₃ λ _ e h₄.
        let same : c ≡ client = ok_injective (λ x. (h₄ x).0) in
        record {
          registered =
              sym (ap (λ (x : Client J). x.token_endpoint_auth_method) same)
              ∙ ground (arith, d, eq_iff c.token_endpoint_auth_method method);
          secret_held =
              sym (ap (λ (x : Client J). x.client_secret) same)
              ∙ secret_matches-eq c.client_secret secret (ground (arith, e));
        }

  -- An assertion that is signed with a key of the client, meant for the provider, and not used
  -- before.
  pub record HasAsserted (assertion token_url : String) (client : Client J) : Type 0 where
    pub client_id : String
    pub jwks : J
    pub claims : Claims
    pub jti : String
    pub v : W
    pub v' : W
    pub now : ℕ
    pub registered : client.token_endpoint_auth_method ≡ auth_private_key_jwt
    pub keys : client.jwks ≡ some jwks
    pub verified : (s.verify_with_jwks jwks assertion (validation p s client_id) v).0 ≡ some claims
    pub aud : aud_ok claims.aud token_url p.metadata.issuer ≡ true
    pub identified : claims.jti ≡ some jti
    pub used :
        (s.token_consume
          (assertion_use_hash s.encoding client_id jti)
          (assertion_ttl claims p.client_assertion_max_age s.default_leeway now)
          v').0
        ≡ ok true

  pub verify_private_key_jwt-HasAsserted :
      (assertion : String) (form : Dict String) (token_url : String) (w : W) {client : Client J}
      {w' : W}
      → Returns (verify_private_key_jwt p s assertion form token_url) w client w'
      → HasAsserted assertion token_url client
  unfolding verify_private_key_jwt use_assertion
  verify_private_key_jwt-HasAsserted assertion form token_url w {client = client} h =
      after_lift _ _ _ h λ client_id a h₁. after _ _ _ h₁ λ found w₁ b h₂.
        after_lift _ _ _ h₂ λ c d h₃. after_lift _ _ _ h₃ λ _ e h₄. after_lift _ _ _ h₄ λ jwks f h₅.
          after _ _ _ h₅ λ verified w₂ g h₆. after_lift _ _ _ h₆ λ claims i h₇.
            after _ _ _ h₇ λ _ w₃ j h₈. after_lift _ _ _ j λ _ k j₁. after_lift _ _ _ j₁ λ jti l j₂.
              after _ _ _ j₂ λ now w₄ m j₃. after _ _ _ j₃ λ answer w₅ n j₄.
                let same : c ≡ client = ok_injective (λ x. (h₈ x).0) in
                record {
                  client_id = client_id;
                  jwks = jwks;
                  claims = claims;
                  jti = jti;
                  v = w₁;
                  v' = w₄;
                  now = now;
                  registered =
                      sym (ap (λ (x : Client J). x.token_endpoint_auth_method) same)
                      ∙ ground (arith, e, eq_iff c.token_endpoint_auth_method auth_private_key_jwt);
                  keys = sym (ap (λ (x : Client J). x.jwks) same) ∙ ok_or-eq-ok c.jwks _ f;
                  verified = ok_injective (λ x. (g x).0) ∙ ok_or-eq-ok verified _ i;
                  aud = ground (arith, k);
                  identified = ok_or-eq-ok claims.jti _ l;
                  used = ok_injective (λ x. (n x).0) ∙ consumed-eq-ok _ answer (λ x. (j₄ x).0);
                }

  -- What a client that is authenticated for a request has shown.
  pub data IsAuthenticated (form : Dict String) (auth_header : Option String) (token_url : String)
      (client : Client J) : Type 0 where
    by_assertion :
        (assertion : String)
        → Dict.get "client_assertion" form ≡ some assertion
        → Dict.get "client_assertion_type" form ≡ some client_assertion_type
        → HasAsserted assertion token_url client
        → IsAuthenticated form auth_header token_url client
    by_basic :
        (header : String) (parts credentials : String × String)
        → auth_header ≡ some header
        → split_once b' ' header ≡ some parts
        → decode_basic s parts.1 ≡ some credentials
        → HasSecret auth_client_secret_basic credentials.1 client
        → IsAuthenticated form auth_header token_url client
    by_post :
        (secret : String)
        → Dict.get "client_secret" form ≡ some secret
        → HasSecret auth_client_secret_post secret client
        → IsAuthenticated form auth_header token_url client
    public :
        (id : String)
        → Dict.get "client_id" form ≡ some id
        → client.token_endpoint_auth_method ≡ auth_none
        → IsAuthenticated form auth_header token_url client
