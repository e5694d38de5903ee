-- ===== src/Provider/Validate/Accepts.antt =====
-- src/provider.rs: which authorization requests are accepted.
use grindvakt.Prelude.{not}
use mathlib.Core.Option.{some-injective}
use grindvakt.Prelude.{◌≡◌, ap, ◌↔◌, true, false, ◌&&◌, ◌||◌, Option, none, some, is_some, arith}
use grindvakt.Prelude.Text.{any_char}
use grindvakt.Result.{Result, ok, ◌>>◌, ◌>>=◌, ok_or, step->>, ok_injective}
use grindvakt.Exec.{Returns}
use grindvakt.OauthError.{OauthError}
use grindvakt.Request.{
  AuthorizationRequest, request_error, bad_state, scopes, wants_code, wants_id_token,
  wants_access_token, validate_response_type, validate_prompt, validate_response_mode,
}
use grindvakt.Client.{Client, allows_redirect, allows_response_type}
use grindvakt.Jwt.{supports_oidc_token_hash}
use grindvakt.Provider.Defs.{Provider}
use grindvakt.Provider.Defs.Services.{Services}
use grindvakt.Provider.Validate.{
  is_forbidden, bad_pkce, subject_type_supported, exceeds, check_request,
  validate_authorization_request,
}

module _ {J W : Type 0} (p : Provider) (s : Services J W) where
  -- What an accepted request fulfils.
  pub record IsAccepted (req : AuthorizationRequest) (client : Client J) : Type 0 where
    pub registered : allows_redirect client req.redirect_uri ≡ true
    pub state : bad_state req.state ≡ false
    pub clean : any_char is_forbidden req.redirect_uri ≡ false
    pub absolute : s.url_parse req.redirect_uri ≡ some none
    pub subject_type :
        subject_type_supported p.caller_managed_pairwise_subjects client.subject_type ≡ true
    pub response_type : validate_response_type req ≡ ok tt
    pub prompt : validate_prompt req ≡ ok tt
    pub response_mode : validate_response_mode req ≡ ok tt
    pub hashes :
        (wants_id_token req
          && (wants_code req || wants_access_token req)
          && not (supports_oidc_token_hash p.signing_alg))
        ≡ false
    pub allowed : allows_response_type client req.response_type ≡ true
    pub nonce : (wants_id_token req && not (is_some req.nonce)) ≡ false
    pub pkce : (wants_code req && bad_pkce s.encoding req client.token_endpoint_auth_method) ≡ false
    pub scope : exceeds client.scope (scopes req) ≡ false

  check_request_sound :
      (req : AuthorizationRequest) (client : Client J)
      → check_request p s req client ≡ ok tt
      → IsAccepted req client
  unfolding check_request
  check_request_sound req client h = record {
    registered = ground (arith, h);
    state = ground (arith, h);
    clean = ground (arith, h);
    absolute = ground (arith, h);
    subject_type = ground (arith, h);
    response_type = ground (arith, h);
    prompt = ground (arith, h);
    response_mode = ground (arith, h);
    hashes = ground (arith, h);
    allowed = ground (arith, h);
    nonce = ground (arith, h);
    pkce = ground (arith, h);
    scope = ground (arith, h);
  }

  check_request_complete :
      (req : AuthorizationRequest) (client : Client J)
      → IsAccepted req client
      → check_request p s req client ≡ ok tt
  unfolding check_request
  check_request_complete req client a = ground (
    arith, a.registered, a.state, a.clean, a.absolute, a.subject_type, a.response_type, a.prompt,
    a.response_mode, a.hashes, a.allowed, a.nonce, a.pkce, a.scope,
  )

  found_iff :
      (req : AuthorizationRequest) (o : Option (Client J)) {client : Client J}
      → ((ok_or o (request_error "unknown client_id") >>= λ c. check_request p s req c >> ok c)
          ≡ ok client)
        ↔ ((o ≡ some client) × (check_request p s req client ≡ ok tt))
  found_iff req none {client} = (λ h. ground (arith, h), λ h. ground (arith, h.0))
  found_iff req (some c) {client} =
      let passed = step->> (check_request p s req c) (ok c) {v = client} in
      (
        λ h. let (k, e) = passed.0 h in let q = ok_injective e in (cc q, cc (q, k)),
        λ (e, k). let q = some-injective c client e in passed.1 (cc (q, k), cc q),
      )

  -- A client is returned for an authorization request exactly if it is the one that the store
  -- holds under the request's client id and the request fulfils all of the conditions: the
  -- registered redirect URI that is absolute, clean and without a fragment, the state, the
  -- subject type, the response type, the prompt, the response mode, the token hashes, the
  -- nonce, PKCE, and the scope.
  pub validate_authorization_request_iff :
      (req : AuthorizationRequest) (w : W) {client : Client J} {w' : W}
      → Returns (validate_authorization_request p s req) w client w'
        ↔ ((s.client_get req.client_id w ≡ (some client, w')) × IsAccepted req client)
  unfolding validate_authorization_request grindvakt.Exec.◌>>=◌
  validate_authorization_request_iff req w {client = client} {w' = w'} =
      let f = found_iff req (s.client_get req.client_id w).0 {client = client} in
      (
        λ h.
            let e = ap (λ (x : Result OauthError (Client J) × W). x.0) h in
            let e' = ap (λ (x : Result OauthError (Client J) × W). x.1) h in
            let (k, c) = f.0 e in ((λ i. (k i, e' i)), check_request_sound req client c),
        λ (e, a).
            let k = ap (λ (x : Option (Client J) × W). x.0) e in
            let k' = ap (λ (x : Option (Client J) × W). x.1) e in
            let r = f.1 (k, check_request_complete req client a) in λ i. (r i, k' i),
      )
