-- ===== src/Provider/Grants/Redeem.antt =====
-- src/provider.rs: what an authorization code has been exchanged for.
use grindvakt.Prelude.{Bool-cases, ◌⊎◌, inl, inr, ◌&&◌, not, ◌==◌, false}
use grindvakt.Prelude.{
  ℕ, String, ◌≡◌, refl, sym, ap, ◌∙◌, true, false, Option, none, some, has, arith, eq_iff, is_some,
}
use grindvakt.Prelude.Text.{is_empty, split_whitespace}
use grindvakt.Prelude.Words.{add_u64}
use grindvakt.Dict
use grindvakt.Dict.{Dict}
use grindvakt.Result.{ok, ok_injective, map_err-eq-ok, ok_or-eq-ok}
use grindvakt.Exec.{Returns, after, after_lift, when-is_some}
use grindvakt.Pkce.{Encoding, verify}
use grindvakt.Provider.Defs.{Provider}
use grindvakt.Provider.Defs.Services.{Services, drawn-Returns}
use grindvakt.Provider.Form.{token_use_hash}
use grindvakt.Provider.Clients.Methods.{authenticate_client_map}
use grindvakt.Client.{Client, auth_none}
use grindvakt.Tokens.{AuthCodePayload, open_code, seal_access_token}
use grindvakt.Provider.Grants.{Dpop, TokenResponse, use_ttl, consume_token_once-consumed}
use grindvakt.Provider.Grants.Code.{
  redirect_matches, has_s256, check_verifier, check_code, issue_for_code, handle_authorization_code,
}

redirect_matches-eq :
    (expected : String) (o : Option String)
    → redirect_matches expected o ≡ true
    → (is_empty expected ≡ true) ⊎ (o ≡ some expected)
unfolding redirect_matches
redirect_matches-eq expected none h = inl h
redirect_matches-eq expected (some uri) h = elim (Bool-cases (is_empty expected)) [
  | inl e ↦ inl e
  | inr n ↦ inr (ground (arith, h, n, eq_iff uri expected))
]

-- a challenge is answered by a verifier that matches it
abbrev pub IsProven : Encoding → Option String → Option String → Option String → Type 0
IsProven e challenge method verifier =
    (challenge ≡ none)
    ⊎ ((c : String) × (v : String) × (challenge ≡ some c)
        × (verifier ≡ some v)
        × (verify e v c method ≡ true))

check_verifier-IsProven :
    (e : Encoding) (challenge method verifier : Option String)
    → check_verifier e challenge method verifier ≡ ok tt
    → IsProven e challenge method verifier
unfolding check_verifier
check_verifier-IsProven e none method verifier h = inl refl
check_verifier-IsProven e (some c) method none h = cc
check_verifier-IsProven e (some c) method (some v) h = inr (c, v, refl, refl, ground (arith, h))

module _ {J : Type 0} (e : Encoding) (client : Client J) (form : Dict String) where
  -- What the code, the client and the form have in common.
  pub record IsMatching (payload : AuthCodePayload) : Type 0 where
    pub own : payload.client_id ≡ client.client_id
    pub redirect :
        (is_empty payload.redirect_uri ≡ true)
        ⊎ (Dict.get "redirect_uri" form ≡ some payload.redirect_uri)
    pub public_proof :
        (client.token_endpoint_auth_method == auth_none
          && not (has_s256 payload.code_challenge payload.code_challenge_method))
        ≡ false
    pub proven :
        IsProven e payload.code_challenge payload.code_challenge_method
          (Dict.get "code_verifier" form)

module _ {J W : Type 0} (p : Provider) (s : Services J W) where
  check_code-IsMatching :
      (client : Client J) (form : Dict String) (payload : AuthCodePayload)
      → check_code p s client form payload ≡ ok tt
      → IsMatching s.encoding client form payload
  unfolding check_code
  check_code-IsMatching client form payload h = record {
    own = ground (arith, h, eq_iff payload.client_id client.client_id);
    redirect =
        redirect_matches-eq payload.redirect_uri (Dict.get "redirect_uri" form) (ground (arith, h));
    public_proof = ground (arith, h);
    proven =
        check_verifier-IsProven s.encoding payload.code_challenge payload.code_challenge_method
          (Dict.get "code_verifier" form) (ground (arith, h));
  }

  -- The access token of the response is sealed for the client and the subject of the code.
  pub record IsIssued (client_id : String) (payload : AuthCodePayload) (dpop : Dpop) (v : W)
      (r : TokenResponse) : Type 0 where
    pub random : ℕ
    pub granted : r.scope ≡ some payload.scope
    pub oidc : is_some r.id_token ≡ has "openid" (split_whitespace payload.scope)
    pub access :
        seal_access_token s.crypto p.codec random (record {
          client_id = client_id;
          sub = payload.sub;
          scope = payload.scope;
          claims = payload.claims;
          exp = add_u64 (s.clock v).0 p.lifetimes.access_token_ttl;
          cnf_jkt = dpop;
        })
        ≡ ok r.access_token

  issue_for_code-IsIssued :
      (client : Client J) (payload : AuthCodePayload) (dpop : Dpop) (w : W) (r : TokenResponse)
      (w' : W)
      → Returns (issue_for_code p s client payload dpop) w r w'
      → IsIssued client.client_id payload dpop w r
  unfolding issue_for_code
  issue_for_code-IsIssued client payload dpop w r w' h = after _ _ _ h λ now w₁ n h₁.
      after _ _ _ h₁ λ access w₂ a h₂. after _ _ _ h₂ λ id_token w₃ i h₃.
        after _ _ _ h₃ λ refresh w₄ b h₄.
          let e : _ ≡ r = ok_injective (λ x. (h₄ x).0) in
          let clock = ok_injective (λ x. (n x).0) in
          record {
            random = (s.draw w₁).0;
            granted = ap (λ (x : TokenResponse). x.scope) (sym e);
            oidc = ap (λ (x : TokenResponse). is_some x.id_token) (sym e) ∙ when-is_some _ _ w₂ i;
            access =
                rw clock (drawn-Returns s _ w₁ a ∙ ap (λ (x : TokenResponse). ok x.access_token) e);
          }

  -- What the response to a code rests on.
  pub record IsRedeemed (form : Dict String) (auth_header : Option String) (token_url : String)
      (dpop : Dpop) (w : W) (r : TokenResponse) : Type 0 where
    pub client : Client J
    pub code : String
    pub payload : AuthCodePayload
    pub w₁ : W
    pub before : W
    pub after_use : W
    pub authenticated : Returns (authenticate_client_map p s form auth_header token_url) w client w₁
    pub allowed : has "authorization_code" client.grant_types ≡ true
    pub presented : Dict.get "code" form ≡ some code
    pub opened : open_code s.crypto p.codec (s.clock w₁).0 code ≡ ok payload
    pub matching : IsMatching s.encoding client form payload
    pub used :
        s.token_consume
          (token_use_hash s.encoding "code" code)
          (use_ttl payload.exp (s.clock before).0)
          (s.clock before).1
        ≡ (ok true, after_use)
    pub issued : IsIssued client.client_id payload dpop after_use r

  -- Where the token endpoint answers a code, the client has authenticated and may use the
  -- grant, the code of the form opens and was issued to that client, its redirect URI if any
  -- is the one of the form, a public client's code carries an S256 challenge, any challenge is
  -- answered by a verifier that matches it, the store has taken the code's use, and the access
  -- token is sealed for the code's subject and scope and the proven key, with an ID token
  -- exactly for openid.
  pub code-IsRedeemed :
      (form : Dict String) (auth_header : Option String) (token_url : String) (dpop : Dpop) (w : W)
      {r : TokenResponse} {w' : W}
      → Returns (handle_authorization_code p s form auth_header token_url dpop) w r w'
      → IsRedeemed form auth_header token_url dpop w r
  unfolding handle_authorization_code
  code-IsRedeemed form auth_header token_url dpop w {r = r} {w' = w'} h =
      after _ _ _ h λ client w₁ a h₁. after_lift _ _ _ h₁ λ _ b h₂. after_lift _ _ _ h₂ λ code c h₃.
        after _ _ _ h₃ λ opened_at w₂ e h₄. after_lift _ _ _ h₄ λ payload f h₅.
          after_lift _ _ _ h₅ λ _ g h₆. after _ _ _ h₆ λ _ w₄ l h₇.
            let clock = ok_injective (λ x. (e x).0) in
            record {
              client = client;
              code = code;
              payload = payload;
              w₁ = w₁;
              before = w₂;
              after_use = w₄;
              authenticated = a;
              allowed = ground (arith, b);
              presented = ok_or-eq-ok _ _ c;
              opened = ap (λ n. open_code s.crypto p.codec n code) clock ∙ map_err-eq-ok _ _ f;
              matching = check_code-IsMatching client form payload g;
              used = consume_token_once-consumed s "code" code payload.exp _ w₂ l;
              issued = issue_for_code-IsIssued client payload dpop w₄ r w' h₇;
            }
