-- ===== src/Login/Issue.antt =====
-- src/provider.rs: the tokens for a code are issued, where sealing and signing succeed.
use grindvakt.Prelude.{
  ℕ, String, ◌≡◌, refl, ap, ◌∙◌, Bool, true, Option, none, some, has, Bool-cases, inl, inr,
}
use grindvakt.Prelude.Text.{split_whitespace}
use grindvakt.Prelude.Words.{add_u64}
use grindvakt.Result
use grindvakt.Result.{Result, ok}
use grindvakt.Exec.{Exec, Returns, run, map_err-Returns, when_lem, onward, onward_lift}
use grindvakt.OauthError.{error, server_error}
use grindvakt.Error.{Error, to_string}
use grindvakt.Jwt.{oidc_token_hash, supports_oidc_token_hash}
use grindvakt.Jwt.Hashes.{supports_iff}
use grindvakt.Client.{Client}
use grindvakt.Tokens.{
  AuthCodePayload, AccessTokenPayload, RefreshTokenPayload, seal_access_token, seal_refresh_token,
}
use grindvakt.Provider.Defs.{Provider}
use grindvakt.Provider.Defs.Services.{Services, now_secs, drawn, server_failure}
use grindvakt.Provider.Mint.{IdTokenInput, token_hash, id_token_claims, build_id_token}
use grindvakt.Provider.Grants.{Dpop, TokenResponse, token_type, then_some, client_allows_refresh}
use grindvakt.Provider.Grants.Code.{issue_for_code}

module _ {J W : Type 0} (p : Provider) (s : Services J W) where
  -- What an ID token at the token endpoint is built from.
  abbrev pub id_token_input : AuthCodePayload → String → String → IdTokenInput
  id_token_input payload client_id access_token = record {
    client_id = client_id;
    sub = payload.sub;
    nonce = payload.nonce;
    claims = payload.claims;
    acr = payload.acr;
    auth_time = payload.auth_time;
    code = none;
    access_token = then_some (supports_oidc_token_hash p.signing_alg) access_token;
  }

  -- Tokens can be sealed, and the ID token for the code can be signed.
  pub record IsWorking (payload : AuthCodePayload) (client_id : String) : Type 0 where
    pub access :
        (random : ℕ) (q : AccessTokenPayload)
        → (t : String) × (seal_access_token s.crypto p.codec random q ≡ ok t)
    pub refresh :
        (random : ℕ) (q : RefreshTokenPayload)
        → (t : String) × (seal_refresh_token s.crypto p.codec random q ≡ ok t)
    pub signs :
        (random : ℕ) (w : W) (access_token : String) (h : Option String)
        → token_hash p s (then_some (supports_oidc_token_hash p.signing_alg) access_token) ≡ ok h
        → (t : String) × (s.sign random (
              id_token_claims p s
                (id_token_input payload client_id access_token)
                (s.clock w).0
                none
                h)
            ≡ ok t)

  -- What is answered for a code: its scope, and for openid an ID token that is built for its
  -- subject.
  pub record IsAnswered (client_id : String) (payload : AuthCodePayload) (r : TokenResponse)
      : Type 0 where
    pub scope : r.scope ≡ some payload.scope
    pub id_token :
        has "openid" (split_whitespace payload.scope) ≡ true
        → (t : String) × (v : W) × (v' : W) × (r.id_token ≡ some t)
          × Returns (build_id_token p s (id_token_input payload client_id r.access_token)) v t v'

  map_err_lem :
      {A : Type 0} (m : Exec W Error A) (w : W) {a : A} {w' : W}
      → Returns m w a w'
      → Returns (server_failure m) w a w'
  unfolding server_failure
  map_err_lem m w e i = (Result.map_err (λ x. error server_error (to_string x)) (e i).0, (e i).1)

  unmap_err :
      {A : Type 0} (m : Exec W Error A) (w : W) {a : A} {w' : W}
      → Returns (server_failure m) w a w'
      → Returns m w a w'
  unfolding server_failure
  unmap_err m w h = map_err-Returns (λ x. error server_error (to_string x)) m w h

  drawn_lem :
      {A : Type 0} (f : ℕ → Result Error A) (w : W) {a : A}
      → f (s.draw w).0 ≡ ok a
      → Returns (server_failure (drawn s f)) w a (s.draw w).1
  unfolding server_failure drawn
  drawn_lem f w e = map_err_lem (drawn s f) w (λ i. (e i, (s.draw w).1))

  hash_some :
      (value : String) {x : String}
      → oidc_token_hash s.hashing p.signing_alg value ≡ ok x
      → token_hash p s (some value) ≡ ok (some x)
  unfolding token_hash
  hash_some value e = ap (Result.map_ok some) e

  hash_lem :
      (value : String)
      → (h : Option String) × (token_hash p s
            (then_some (supports_oidc_token_hash p.signing_alg) value)
          ≡ ok h)
  unfolding token_hash
  hash_lem value =
      let given = λ (b : Bool). token_hash p s (then_some b value) in
      elim (Bool-cases (supports_oidc_token_hash p.signing_alg)) [
        | inl e ↦
            let (d, _, h) = (supports_iff s.hashing p.signing_alg value).0 e in
            (some _, ap given e ∙ hash_some value h)
        | inr n ↦ (none, ap given n)
      ]

module _ {J W : Type 0} (p : Provider) (s : Services J W) (client : Client J)
    (payload : AuthCodePayload) (works : IsWorking p s payload client.client_id) where
  abbrev input : String → IdTokenInput
  input = id_token_input p s payload client.client_id

  build_lem :
      (access_token : String) (w : W)
      → (t : String) × (w' : W) × Returns
          (server_failure (build_id_token p s (input access_token)))
          w
          t
          w'
  unfolding build_id_token drawn token_hash
  build_lem access_token w =
      let v = (s.clock w).1 in
      let (h, hashed) = hash_lem p s access_token in
      let (t, signed) = works.signs (s.draw v).0 w access_token h hashed in
      let built : Returns (build_id_token p s (input access_token)) w t (s.draw v).1 =
        onward (run s.clock) _ w refl
        ∙ onward_lift _ _ v {a = none} refl
        ∙ onward_lift _ _ v hashed
        ∙ (λ j. (signed j, (s.draw v).1)) in
      (t, (s.draw v).1, map_err_lem p s (build_id_token p s (input access_token)) w built)

  pub issue_lem :
      (dpop : Dpop) (w : W)
      → (r : TokenResponse) × (w' : W) × Returns (issue_for_code p s client payload dpop) w r w'
        × IsAnswered p s client.client_id payload r
  unfolding issue_for_code
  issue_lem dpop w =
      let now = (s.clock w).0 in
      let w₁ = (s.clock w).1 in
      let (access_token, sealed) = works.access (s.draw w₁).0 (record {
        client_id = client.client_id;
        sub = payload.sub;
        scope = payload.scope;
        claims = payload.claims;
        exp = add_u64 now p.lifetimes.access_token_ttl;
        cnf_jkt = dpop;
      }) in
      let w₂ = (s.draw w₁).1 in
      let (t, v, built) = build_lem access_token w₂ in
      let (id_token, w₃, minted, has_id) =
        when_lem (has "openid" (split_whitespace payload.scope)) _ w₂ (t, v, built) in
      let w₄ = (s.clock w₃).1 in
      let (rt, rt_sealed) = works.refresh (s.draw w₄).0 (record {
        client_id = client.client_id;
        sub = payload.sub;
        scope = payload.scope;
        nonce = payload.nonce;
        claims = payload.claims;
        auth_time = payload.auth_time;
        exp = add_u64 (s.clock w₃).0 p.lifetimes.refresh_token_ttl;
        acr = payload.acr;
        cnf_jkt = dpop;
      }) in
      let (refresh_token, w₅, refreshed, _) =
        when_lem (client_allows_refresh client) _ w₃
          (rt, (s.draw w₄).1, onward (now_secs s) _ w₃ refl ∙ drawn_lem p s _ w₄ rt_sealed) in
      (
        record {
          access_token = access_token;
          token_type = token_type dpop;
          expires_in = p.lifetimes.access_token_ttl;
          id_token = id_token;
          scope = some payload.scope;
          refresh_token = refresh_token;
        },
        w₅,
        onward (now_secs s) _ w refl
            ∙ onward _ _ w₁ (drawn_lem p s _ w₁ sealed)
            ∙ onward _ _ w₂ minted
            ∙ onward _ _ w₃ refreshed,
        record {
          scope = refl;
          id_token = λ e.
              let (a, same, ran) = has_id e in
              (a, w₂, w₃, same, unmap_err p s (build_id_token p s (input access_token)) w₂ ran);
        },
      )
