-- ===== src/Provider/Grants/Service.antt =====
-- src/provider.rs: what the `client_credentials` grant gives.
use grindvakt.Prelude.{
  ℕ, String, ◌≡◌, ◌≢◌, sym, ap, ◌∙◌, true, false, List, [], Option, none, some, ◌==◌, has, arith,
  has-keep,
}
use grindvakt.Prelude.Text.{join, split_whitespace}
use grindvakt.Prelude.Words.{add_u64}
use grindvakt.Dict
use grindvakt.Dict.{Dict}
use grindvakt.Result.{ok, ok_injective}
use grindvakt.Exec.{Returns, after, after_lift}
use grindvakt.Provider.Defs.{Provider}
use grindvakt.Provider.Defs.Services.{Services, drawn-Returns}
use grindvakt.Provider.Clients.Methods.{authenticate_client_map}
use grindvakt.Client.{Client, auth_none}
use grindvakt.Tokens.{seal_access_token}
use grindvakt.Provider.Grants.{Dpop, TokenResponse}
use grindvakt.Provider.Grants.Credentials.{
  allowed_scopes, granted_scopes, check_credentials, handle_client_credentials,
}

-- a requested scope list is respected
abbrev pub IsRequested : Option String → String → Type 0
IsRequested none x = Unit {0}
IsRequested (some requested) x = has x (split_whitespace requested) ≡ true

granted_scopes-within :
    (allowed : List String) (requested : Option String) (x : String)
    → has x (granted_scopes allowed requested) ≡ true
    → (has x allowed ≡ true) × IsRequested requested x
unfolding granted_scopes
granted_scopes-within allowed none x h = (h, tt)
granted_scopes-within allowed (some requested) x h =
    let (a, b) = has-keep (λ s. has s allowed) x (split_whitespace requested) h in (a, b)

-- What a client is granted on its own behalf.
pub record IsGranted {J : Type 0} (client : Client J) (requested : Option String)
    (granted : List String) : Type 0 where
  pub exact : granted_scopes (allowed_scopes client.scope) requested ≡ granted
  pub confidential : (client.token_endpoint_auth_method == auth_none) ≡ false
  pub registered : has "client_credentials" client.grant_types ≡ true
  pub within :
      (x : String)
      → has x granted ≡ true
      → (has x (allowed_scopes client.scope) ≡ true) × IsRequested requested x
  pub no_user : has "openid" granted ≡ false
  pub some_scope : granted ≢ []

check_credentials-IsGranted :
    {J : Type 0} (client : Client J) (requested : Option String) (granted : List String)
    → check_credentials client requested ≡ ok granted
    → IsGranted client requested granted
unfolding check_credentials
check_credentials-IsGranted client requested granted h =
    let e : granted_scopes (allowed_scopes client.scope) requested ≡ granted = ground (arith, h) in
    record {
      exact = e;
      confidential = ground (arith, h);
      registered = ground (arith, h);
      within =
          λ x m. granted_scopes-within (allowed_scopes client.scope) requested x (ap (has x) e ∙ m);
      no_user = ground (arith, h, e);
      some_scope = λ n. ground (arith, h, e, n);
    }

module _ {J W : Type 0} (p : Provider) (s : Services J W) where
  -- What the response of the grant rests on.
  pub record IsServed (form : Dict String) (auth_header : Option String) (token_url : String)
      (dpop : Dpop) (w : W) (r : TokenResponse) : Type 0 where
    pub client : Client J
    pub granted : List String
    pub w₁ : W
    pub random : ℕ
    pub authenticated : Returns (authenticate_client_map p s form auth_header token_url) w client w₁
    pub within : IsGranted client (Dict.get "scope" form) granted
    pub scope : r.scope ≡ some (join " " granted)
    pub no_id_token : r.id_token ≡ none
    pub no_refresh_token : r.refresh_token ≡ none
    pub access :
        seal_access_token s.crypto p.codec random (record {
          client_id = client.client_id;
          sub = client.client_id;
          scope = join " " granted;
          claims = [];
          exp = add_u64 (s.clock w₁).0 p.lifetimes.access_token_ttl;
          cnf_jkt = dpop;
        })
        ≡ ok r.access_token

  pub credentials-IsServed :
      (form : Dict String) (auth_header : Option String) (token_url : String) (dpop : Dpop) (w : W)
      {r : TokenResponse} {w' : W}
      → Returns (handle_client_credentials p s form auth_header token_url dpop) w r w'
      → IsServed form auth_header token_url dpop w r
  unfolding handle_client_credentials
  credentials-IsServed form auth_header token_url dpop w {r = r} {w' = w'} h =
      after _ _ _ h λ client w₁ a h₁. after_lift _ _ _ h₁ λ granted b h₂.
        after _ _ _ h₂ λ now w₂ c h₃. after _ _ _ h₃ λ token w₃ d h₄.
          let e : _ ≡ r = ok_injective (λ x. (h₄ x).0) in
          record {
            client = client;
            granted = granted;
            w₁ = w₁;
            random = (s.draw w₂).0;
            authenticated = a;
            within = check_credentials-IsGranted client (Dict.get "scope" form) granted b;
            scope = ap (λ (x : TokenResponse). x.scope) (sym e);
            no_id_token = ap (λ (x : TokenResponse). x.id_token) (sym e);
            no_refresh_token = ap (λ (x : TokenResponse). x.refresh_token) (sym e);
            access =
                rw (ok_injective (λ x. (c x).0))
                  (drawn-Returns s _ w₂ d ∙ ap (λ (x : TokenResponse). ok x.access_token) e);
          }
