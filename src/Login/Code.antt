-- ===== src/Login/Code.antt =====
-- src/provider.rs: a code that was issued is answered at the token endpoint.
use grindvakt.Prelude.{
  ℕ, ◌<◌, String, ◌≡◌, refl, ◌∙◌, true, false, not, ◌&&◌, Option, some, has, arith, ◌==◌, eq_refl,
  inl, inr, unwrap_or, leb,
}
use grindvakt.Prelude.Words.{add_u64}
use grindvakt.Dict
use grindvakt.Dict.{Dict}
use grindvakt.Result.{ok, fail_if->>}
use grindvakt.Exec.{Returns, run, onward, onward_lift}
use grindvakt.Client.{Client, auth_none}
use grindvakt.Pkce.{Encoding}
use grindvakt.Tokens.{AuthCodePayload, open_code}
use grindvakt.Tokens.Sealing.{IsAuthentic, ReadsBack, open_code-seal_code}
use grindvakt.Provider.Defs.{Provider}
use grindvakt.Provider.Defs.Services.{Services, now_secs}
use grindvakt.Provider.Form.{token_use_hash}
use grindvakt.Http
use grindvakt.Request.{AuthorizationRequest}
use grindvakt.Provider.Clients.Methods.{authenticate_client_map}
use grindvakt.Provider.Mint.Response.{IsMinted}
use grindvakt.Provider.Mint.{Authentication, code_payload, released_claims}
use grindvakt.Provider.Grants.{Dpop, TokenResponse, use_ttl, consume_token_once, grant_error}
use grindvakt.Provider.Clients.{consumed}
use grindvakt.Provider.Grants.Code.{
  redirect_matches, has_s256, check_verifier, check_code, handle_authorization_code,
}
use grindvakt.Provider.Grants.Redeem.{IsProven}
use grindvakt.Login.Issue.{IsWorking, IsAnswered, issue_lem}

proven_lem :
    (e : Encoding) (challenge method verifier : Option String)
    → IsProven e challenge method verifier
    → check_verifier e challenge method verifier ≡ ok tt
unfolding check_verifier
proven_lem e challenge method verifier (inl none_) = rw none_ refl
proven_lem e challenge method verifier (inr (c, v, sent, shown, matches)) =
    rw sent (rw shown (rw matches refl))

module _ {J W : Type 0} (p : Provider) (s : Services J W) where
  consume_lem :
      (kind token : String) (exp : ℕ) (message : String) (w : W)
      → (s.token_consume
          (token_use_hash s.encoding kind token)
          (use_ttl exp (s.clock w).0)
          (s.clock w).1).0
        ≡ ok true
      → (w' : W) × Returns (consume_token_once s kind token exp message) w tt w'
  unfolding consume_token_once consumed
  consume_lem kind token exp message w fresh =
      let v = (s.clock w).1 in
      let answer =
        s.token_consume (token_use_hash s.encoding kind token) (use_ttl exp (s.clock w).0) v in
      (
        answer.1,
        onward (now_secs s) _ w refl
            ∙ onward (run (s.token_consume _ _)) _ v refl
            ∙ (λ i. (consumed (grant_error message) (fresh i), answer.1)),
      )

  check_lem :
      (client : Client J) (form : Dict String) (payload : AuthCodePayload)
      → payload.client_id ≡ client.client_id
      → Dict.get "redirect_uri" form ≡ some payload.redirect_uri
      → (client.token_endpoint_auth_method == auth_none
          && not (has_s256 payload.code_challenge payload.code_challenge_method))
        ≡ false
      → IsProven s.encoding payload.code_challenge payload.code_challenge_method
          (Dict.get "code_verifier" form)
      → check_code p s client form payload ≡ ok tt
  unfolding check_code redirect_matches
  check_lem client form payload own redirect public proven =
      let same : not (payload.client_id == client.client_id) ≡ false =
        rw own (rw (eq_refl client.client_id) refl) in
      let meets : not (redirect_matches payload.redirect_uri (Dict.get "redirect_uri" form))
          ≡ false =
        rw redirect (ground (arith, eq_refl payload.redirect_uri)) in
      let last =
        proven_lem s.encoding payload.code_challenge payload.code_challenge_method
          (Dict.get "code_verifier" form) proven in
      (fail_if->> _ _ _).1 (same, (fail_if->> _ _ _).1 (meets, (fail_if->> _ _ _).1 (public, last)))

  -- The code is presented by its client in time and for the first time, with the redirect URI
  -- of the request and an answer to its challenge.
  pub record IsPresented (req : AuthorizationRequest) (v : W) (code : String) (form : Dict String)
      (auth : Option String) (url : String) (w : W) : Type 0 where
    pub client : Client J
    pub w₁ : W
    pub authenticated : Returns (authenticate_client_map p s form auth url) w client w₁
    pub allowed : has "authorization_code" client.grant_types ≡ true
    pub own : req.client_id ≡ client.client_id
    pub presented : Dict.get "code" form ≡ some code
    pub redirect : Dict.get "redirect_uri" form ≡ some req.redirect_uri
    pub public_proof :
        (client.token_endpoint_auth_method == auth_none
          && not (has_s256 req.code_challenge req.code_challenge_method))
        ≡ false
    pub proven :
        IsProven s.encoding req.code_challenge req.code_challenge_method
          (Dict.get "code_verifier" form)
    pub early : (s.clock w₁).0 < add_u64 (s.clock v).0 p.lifetimes.code_ttl
    pub fresh :
        (let b = (s.clock w₁).1 in
          (s.token_consume
            (token_use_hash s.encoding "code" code)
            (use_ttl (add_u64 (s.clock v).0 p.lifetimes.code_ttl) (s.clock b).0)
            (s.clock b).1).0)
        ≡ ok true

  -- what a code that was minted at `v` has sealed
  abbrev pub sealed_in : AuthorizationRequest → String → Authentication → W → AuthCodePayload
  sealed_in req sub a v =
      code_payload p s req sub (released_claims p s req a) a.acr
        (unwrap_or (s.clock v).0 a.auth_time) (s.clock v).0

  -- A code that was minted and is presented by its client in time and for the first time is
  -- answered with what it has sealed, where sealing is authenticated and reads back and where
  -- sealing and signing succeed.
  pub code-IsAnswered :
      IsAuthentic s.crypto
      → ReadsBack s.crypto.code_serde
      → (req : AuthorizationRequest) (sub : String) (a : Authentication) (v : W) {r : Http.Response}
        (minted : IsMinted p s req sub a v r) (code : String)
      → minted.code ≡ some code
      → (form : Dict String) (auth : Option String) (url : String) (dpop : Dpop) (w : W)
        (ready : IsPresented req v code form auth url w)
      → IsWorking p s (sealed_in req sub a v) ready.client.client_id
      → (t : TokenResponse) × (w' : W) × Returns
          (handle_authorization_code p s form auth url dpop)
          w
          t
          w'
        × IsAnswered p s ready.client.client_id (sealed_in req sub a v) t
  unfolding handle_authorization_code
  code-IsAnswered authentic back req sub a v minted code has_code form auth url dpop w ready works =
      let client = ready.client in
      let w₁ = ready.w₁ in
      let w₂ = (s.clock w₁).1 in
      let payload = sealed_in req sub a v in
      let unexpired : leb payload.exp (s.clock w₁).0 ≡ false = ground (arith, ready.early) in
      let opened : open_code s.crypto p.codec (s.clock w₁).0 code ≡ ok payload =
        open_code-seal_code s.crypto authentic p.codec p.codec minted.random (s.clock w₁).0 payload
          back (ground (arith, eq_refl p.codec.primary)) (minted.sealed code has_code)
        ∙ rw unexpired refl in
      let checked =
        check_lem client form payload ready.own ready.redirect ready.public_proof ready.proven in
      let (w₃, used) =
        consume_lem "code" code payload.exp "authorization code already used" w₂ ready.fresh in
      let (t, w', issued, answered) = issue_lem p s client payload works dpop w₃ in
      (
        t,
        w',
        onward _ _ w ready.authenticated
            ∙ onward_lift _ _ w₁ {a = tt} (rw ready.allowed refl)
            ∙ onward_lift _ _ w₁ {a = code} (rw ready.presented refl)
            ∙ onward (now_secs s) _ w₁ refl
            ∙ onward_lift _ _ w₂ {a = payload} (rw opened refl)
            ∙ onward_lift _ _ w₂ checked
            ∙ onward _ _ w₂ used
            ∙ issued,
        answered,
      )
