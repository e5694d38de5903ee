-- ===== src/Provider/Grants/Narrow.antt =====
-- src/provider.rs: what a refresh token has been exchanged for.
use grindvakt.Prelude.{ℕ, String, ◌≡◌, sym, ap, ◌∙◌, true, Option, some, arith, eq_iff}
use grindvakt.Prelude.Words.{add_u64}
use grindvakt.Dict
use grindvakt.Dict.{Dict}
use grindvakt.Result.{ok, ok_injective, map_err-eq-ok, ok_or-eq-ok}
use grindvakt.Exec.{Returns, after, after_lift}
use grindvakt.Provider.Defs.{Provider}
use grindvakt.Provider.Defs.Services.{Services, drawn-Returns}
use grindvakt.Provider.Claims.{filter_claims}
use grindvakt.Provider.Form.{token_use_hash}
use grindvakt.Provider.Clients.Methods.{authenticate_client_map}
use grindvakt.Client.{Client}
use grindvakt.Tokens.{
  RefreshTokenPayload, open_refresh_token, seal_access_token, seal_refresh_token,
}
use grindvakt.Provider.Grants.{
  Dpop, TokenResponse, client_allows_refresh, use_ttl, consume_token_once-consumed,
}
use grindvakt.Provider.Grants.Refresh.{
  handle_refresh_token, reissue, refreshed_binding, narrowed_scope,
}

module _ {J W : Type 0} (p : Provider) (s : Services J W) where
  -- The tokens that `reissue` answers are sealed from what it is given.
  pub record IsReissued (client_id : String) (rt : RefreshTokenPayload) (binding : Option String)
      (scope : String) (now : ℕ) (r : TokenResponse) : Type 0 where
    pub random : ℕ
    pub random' : ℕ
    pub rotated : String
    pub granted : r.scope ≡ some scope
    pub answered : r.refresh_token ≡ some rotated
    pub access :
        seal_access_token s.crypto p.codec random (record {
          client_id = client_id;
          sub = rt.sub;
          scope = scope;
          claims = filter_claims scope rt.claims;
          exp = add_u64 now p.lifetimes.access_token_ttl;
          cnf_jkt = binding;
        })
        ≡ ok r.access_token
    pub refresh :
        seal_refresh_token s.crypto p.codec random' (record {
          client_id = client_id;
          sub = rt.sub;
          scope = scope;
          nonce = rt.nonce;
          claims = filter_claims scope rt.claims;
          auth_time = rt.auth_time;
          exp = add_u64 now p.lifetimes.refresh_token_ttl;
          acr = rt.acr;
          cnf_jkt = binding;
        })
        ≡ ok rotated

  reissue-IsReissued :
      (client : Client J) (rt : RefreshTokenPayload) (binding : Option String) (scope : String)
      (now : ℕ) (dpop : Dpop) (w : W) (r : TokenResponse) (w' : W)
      → Returns (reissue p s client rt binding scope now dpop) w r w'
      → IsReissued client.client_id rt binding scope now r
  unfolding reissue
  reissue-IsReissued client rt binding scope now dpop w r w' h = after _ _ _ h λ access w₁ a h₁.
      after _ _ _ h₁ λ id_token w₂ i h₂. after _ _ _ h₂ λ rotated w₃ b h₃.
        let e : _ ≡ r = ok_injective (λ i. (h₃ i).0) in
        record {
          random = (s.draw w).0;
          random' = (s.draw w₂).0;
          rotated = rotated;
          granted = ap (λ (x : TokenResponse). x.scope) (sym e);
          answered = ap (λ (x : TokenResponse). x.refresh_token) (sym e);
          access = drawn-Returns s _ w a ∙ ap (λ (x : TokenResponse). ok x.access_token) e;
          refresh = drawn-Returns s _ w₂ b;
        }

  -- What a refreshed response rests on.
  pub record IsRefreshed (form : Dict String) (auth_header : Option String) (token_url : String)
      (dpop : Dpop) (w : W) (r : TokenResponse) : Type 0 where
    pub client : Client J
    pub token : String
    pub rt : RefreshTokenPayload
    pub binding : Option String
    pub scope : String
    pub now : ℕ
    pub w₁ : W
    pub before : W
    pub after_use : W
    pub authenticated : Returns (authenticate_client_map p s form auth_header token_url) w client w₁
    pub allowed : client_allows_refresh client ≡ true
    pub presented : Dict.get "refresh_token" form ≡ some token
    pub opened : open_refresh_token s.crypto p.codec (s.clock w₁).0 token ≡ ok rt
    pub own : rt.client_id ≡ client.client_id
    pub bound : refreshed_binding rt.cnf_jkt dpop ≡ ok binding
    pub narrowed : narrowed_scope rt.scope (Dict.get "scope" form) ≡ ok scope
    pub used :
        s.token_consume
          (token_use_hash s.encoding "refresh" token)
          (use_ttl rt.exp (s.clock before).0)
          (s.clock before).1
        ≡ (ok true, after_use)
    pub reissued : IsReissued client.client_id rt binding scope now r

  pub refresh-IsRefreshed :
      (form : Dict String) (auth_header : Option String) (token_url : String) (dpop : Dpop) (w : W)
      {r : TokenResponse} {w' : W}
      → Returns (handle_refresh_token p s form auth_header token_url dpop) w r w'
      → IsRefreshed form auth_header token_url dpop w r
  unfolding handle_refresh_token
  refresh-IsRefreshed form auth_header token_url dpop w {r = r} {w' = w'} h =
      after _ _ _ h λ client w₁ a h₁. after_lift _ _ _ h₁ λ _ b h₂.
        after_lift _ _ _ h₂ λ token c h₃. after _ _ _ h₃ λ opened_at w₂ e h₄.
          after_lift _ _ _ h₄ λ rt f h₅. after_lift _ _ _ h₅ λ _ g h₆.
            after_lift _ _ _ h₆ λ binding i h₇. after_lift _ _ _ h₇ λ scope j h₈.
              after _ _ _ h₈ λ now w₃ k h₉. after _ _ _ h₉ λ _ w₄ l h₁₀.
                let clock = ok_injective (λ x. (e x).0) in
                record {
                  client = client;
                  token = token;
                  rt = rt;
                  binding = binding;
                  scope = scope;
                  now = now;
                  w₁ = w₁;
                  before = w₃;
                  after_use = w₄;
                  authenticated = a;
                  allowed = ground (arith, b);
                  presented = ok_or-eq-ok _ _ c;
                  opened =
                      ap (λ n. open_refresh_token s.crypto p.codec n token) clock
                      ∙ map_err-eq-ok _ _ f;
                  own = ground (arith, g, eq_iff rt.client_id client.client_id);
                  bound = i;
                  narrowed = j;
                  used = consume_token_once-consumed s "refresh" token rt.exp _ w₃ l;
                  reissued = reissue-IsReissued client rt binding scope now dpop w₄ r w' h₁₀;
                }
