-- ===== src/Rp/Exchange/Exchanged.antt =====
-- src/rp.rs: what a successful exchange rests on.
use mathlib.Core.List.{append-nil}
use grindvakt.Prelude.{
  String, ◌≡◌, sym, ap, ◌∙◌, [], ◌∷◌, ◌++◌, true, false, not, ◌&&◌, Option, none, some, is_some,
  arith, nat_eq, IsDistinct, refl,
}
use grindvakt.Prelude.Text.{eq_ignore_ascii_case}
use grindvakt.Dict
use grindvakt.Json.{Json}
use grindvakt.Pkce.{is_valid_verifier}
use grindvakt.Result.{
  ok, ok_injective, ok_or, ok_or-eq-ok, >>=-eq-ok, step->>, fail_if->>, fail_if-eq-ok,
}
use grindvakt.Exec.{Returns, after, after_lift}
use grindvakt.Http.Fetch.{HttpFetchResponse}
use grindvakt.Rp.Library.{RpLibrary}
use grindvakt.Rp.Upstream
use grindvakt.Rp.Discover.{expect_200}
use grindvakt.Rp.Endpoints.{validate_redirect_uri_syntax}
use grindvakt.Rp.Authorize.{is_public}
use grindvakt.Rp.Config.{
  ProviderInfo, RpClient, ClientAuth, no_auth, client_secret_basic, client_secret_post,
  private_key_jwt, TokenSet, validate,
}
use grindvakt.Rp.Exchange.{
  Pairs, text_of, is_error_body, token_set, bad_verifier, apply_client_auth, check_exchange,
  exchange_form, read_tokens, exchange_code,
}

-- The tokens are the texts of an answer, none of them empty.
pub record IsRead (raw : Json) (t : TokenSet) : Type 0 where
  pub kept : t.raw ≡ raw
  pub access_token : text_of "access_token" raw ≡ some t.access_token
  pub id_token : text_of "id_token" raw ≡ some t.id_token
  pub token_type : text_of "token_type" raw ≡ some t.token_type
  pub bearer : eq_ignore_ascii_case t.token_type "Bearer" ≡ true

token_set-IsRead : (raw : Json) {t : TokenSet} → token_set raw ≡ ok t → IsRead raw t
unfolding token_set
token_set-IsRead raw {t = t} h =
    let (access, a, h₁) = >>=-eq-ok (ok_or (text_of "access_token" raw) _) _ h in
    let (id, b, h₂) = >>=-eq-ok (ok_or (text_of "id_token" raw) _) _ h₁ in
    let (kind, c, h₃) = >>=-eq-ok (ok_or (text_of "token_type" raw) _) _ h₂ in
    let (bearer, same) = (fail_if->> (not (eq_ignore_ascii_case kind "Bearer")) _ _).0 h₃ in
    let made = ok_injective same in
    record {
      kept = sym (ap (λ (s : TokenSet). s.raw) made);
      access_token = ok_or-eq-ok _ _ a ∙ ap (λ (s : TokenSet). some s.access_token) made;
      id_token = ok_or-eq-ok _ _ b ∙ ap (λ (s : TokenSet). some s.id_token) made;
      token_type = ok_or-eq-ok _ _ c ∙ ap (λ (s : TokenSet). some s.token_type) made;
      bearer =
          ap (λ (s : TokenSet). eq_ignore_ascii_case s.token_type "Bearer") (sym made)
          ∙ ground (arith, bearer);
    }

-- A verifier that is there is valid, and a public client has one.
abbrev pub IsProven : {S : Type 0} → ClientAuth S → Option String → Type 0
IsProven auth none = is_public auth ≡ false
IsProven auth (some verifier) = is_valid_verifier verifier ≡ true

proven_lem :
    {S : Type 0} (auth : ClientAuth S) (verifier : Option String)
    → (is_public auth && not (is_some verifier)) ≡ false
    → bad_verifier verifier ≡ false
    → IsProven auth verifier
proven_lem auth none a b = ground (arith, a)
proven_lem auth (some verifier) a b = ground (arith, b)

-- The form asks for the tokens of the code and holds no name twice.
pub record IsGrant {S : Type 0} (client : RpClient S) (code : String)
    (code_verifier : Option String) (form : Pairs) : Type 0 where
  pub distinct : IsDistinct (Dict.keys form)
  pub grant_type : Dict.get "grant_type" form ≡ some "authorization_code"
  pub for_code : Dict.get "code" form ≡ some code
  pub redirect_uri : Dict.get "redirect_uri" form ≡ some client.redirect_uri
  pub client_id : Dict.get "client_id" form ≡ some client.client_id
  pub for_verifier : Dict.get "code_verifier" form ≡ code_verifier

module _ {K S W : Type 0} (l : RpLibrary K S W) where
  exchange_form-IsGrant :
      (client : RpClient S) (code : String) (code_verifier : Option String)
      → IsGrant client code code_verifier (exchange_form l client code code_verifier)
  unfolding Dict.get
  exchange_form-IsGrant client code none = record {
    distinct = (refl, (refl, (refl, (refl, tt))));
    grant_type = refl;
    for_code = refl;
    redirect_uri = refl;
    client_id = refl;
    for_verifier = refl;
  }
  exchange_form-IsGrant client code (some verifier) = record {
    distinct = (refl, (refl, (refl, (refl, (refl, tt)))));
    grant_type = refl;
    for_code = refl;
    redirect_uri = refl;
    client_id = refl;
    for_verifier = refl;
  }

  pub record IsExchanged (provider : ProviderInfo) (client : RpClient S) (code : String)
      (code_verifier : Option String) (w : W) (tokens : TokenSet) : Type 0 where
    pub form : Pairs
    pub added : Pairs
    pub headers : Pairs
    pub response : HttpFetchResponse
    pub w₁ : W
    pub w₂ : W
    pub raw : Json
    pub valid : validate l.urls provider ≡ ok tt
    pub proven : IsProven client.auth code_verifier
    pub grant : IsGrant client code code_verifier form
    pub authenticated :
        Returns
          (apply_client_auth l client.auth client.client_id provider.token_endpoint form [])
          w
          (form ++ added, headers)
          w₁
    pub posted :
        Returns (l.post_form provider.token_endpoint (form ++ added) headers) w₁ response w₂
    pub success : nat_eq response.status 200 ≡ true
    pub parsed : l.from_slice response.body ≡ some raw
    pub no_error : is_error_body raw ≡ false
    pub read : IsRead raw tokens

  -- Authentication only adds to the form.
  apply_client_auth-append :
      (auth : ClientAuth S) (client_id endpoint : String) (form headers : Pairs) (w w' : W)
      {sent : Pairs × Pairs}
      → Returns (apply_client_auth l auth client_id endpoint form headers) w sent w'
      → (added : Pairs) × (form ++ added ≡ sent.0)
  unfolding apply_client_auth
  apply_client_auth-append no_auth client_id endpoint form headers w w' h =
      ([], append-nil form ∙ ap (λ (p : Pairs × Pairs). p.0) (ok_injective (λ i. (h i).0)))
  apply_client_auth-append (client_secret_post secret) client_id endpoint form headers w w' h = (
    ("client_secret", secret) ∷ [],
    ap (λ (p : Pairs × Pairs). p.0) (ok_injective (λ i. (h i).0)),
  )
  apply_client_auth-append (client_secret_basic secret) client_id endpoint form headers w w' h =
      ([], append-nil form ∙ ap (λ (p : Pairs × Pairs). p.0) (ok_injective (λ i. (h i).0)))
  apply_client_auth-append (private_key_jwt key) client_id endpoint form headers w w' h =
      after _ _ _ h
        λ assertion w₁ a rest. (_, ap (λ (p : Pairs × Pairs). p.0) (ok_injective (λ i. (rest i).0)))

  check_exchange_lem :
      (provider : ProviderInfo) (client : RpClient S) (code_verifier : Option String)
      → check_exchange l provider client code_verifier ≡ ok tt
      → (validate l.urls provider ≡ ok tt) × IsProven client.auth code_verifier
  unfolding check_exchange
  check_exchange_lem provider client code_verifier h =
      let (a, h₁) = (step->> (validate l.urls provider) _).0 h in
      let (_, h₂) = (step->> (validate_redirect_uri_syntax l.urls client.redirect_uri) _).0 h₁ in
      let (b, c) = (fail_if->> (is_public client.auth && not (is_some code_verifier)) _ _).0 h₂ in
      (a, proven_lem client.auth code_verifier b (fail_if-eq-ok (bad_verifier code_verifier) _ c))

  read_tokens_lem :
      (r : HttpFetchResponse) {t : TokenSet}
      → read_tokens l r ≡ ok t
      → (raw : Json) × (nat_eq r.status 200 ≡ true)
        × (l.from_slice r.body ≡ some raw)
        × (is_error_body raw ≡ false)
        × IsRead raw t
  unfolding read_tokens expect_200
  read_tokens_lem r h =
      let (a, h₁) = (step->> (expect_200 l Upstream.auth _ r) _).0 h in
      let (raw, b, h₂) = >>=-eq-ok (ok_or (l.from_slice r.body) _) _ h₁ in
      let (c, h₃) = (fail_if->> (is_error_body raw) _ _).0 h₂ in
      (
        raw,
        ground (arith, fail_if-eq-ok (not (nat_eq r.status 200)) _ a),
        ok_or-eq-ok _ _ b,
        c,
        token_set-IsRead raw h₃,
      )

  -- Where a code is exchanged for tokens, the provider's endpoints are valid, a public client
  -- has a verifier and any verifier is valid, the form of the grant has distinct names and in
  -- it the grant type authorization_code, the code, the redirect URI, the client and the
  -- verifier exactly where there is one, what was posted to the token endpoint is that form,
  -- to which client authentication has only added, the answer has status 200 and is not the
  -- body of an error, and the tokens are its texts, none empty, of the type Bearer in any
  -- case.
  pub exchange_code-IsExchanged :
      (provider : ProviderInfo) (client : RpClient S) (code : String)
      (code_verifier : Option String) (w : W) {tokens : TokenSet} {w' : W}
      → Returns (exchange_code l provider client code code_verifier) w tokens w'
      → IsExchanged provider client code code_verifier w tokens
  unfolding exchange_code
  exchange_code-IsExchanged provider client code code_verifier w h = after_lift _ _ _ h λ _ a h₁.
      after _ _ _ h₁ λ sent w₁ b h₂. after _ _ _ h₂ λ r w₂ c h₃.
        let (valid, proven) = check_exchange_lem provider client code_verifier a in
        let form = exchange_form l client code code_verifier in
        let (added, same) =
          apply_client_auth-append client.auth client.client_id provider.token_endpoint form [] w w₁
            b in
        let (raw, success, parsed, no_error, read) = read_tokens_lem r (λ x. (h₃ x).0) in
        record {
          form = form;
          grant = exchange_form-IsGrant client code code_verifier;
          added = added;
          headers = sent.1;
          response = r;
          w₁ = w₁;
          w₂ = w₂;
          raw = raw;
          valid = valid;
          proven = proven;
          authenticated = b ∙ (λ i. (ok (sym same i, sent.1), w₁));
          posted = ap (λ f. l.post_form provider.token_endpoint f sent.1 w₁) same ∙ c;
          success = success;
          parsed = parsed;
          no_error = no_error;
          read = read;
        }
