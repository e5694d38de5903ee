-- ===== src/Provider/Mint.antt =====
-- src/provider.rs: ID tokens, and the response of the authorization endpoint.
pub mod Reserved
pub mod Response
use grindvakt.Prelude.{
  ℕ, String, not, ◌&&◌, ◌||◌, List, [], ◌∷◌, ◌++◌, Option, none, some, if◌then◌else◌, unwrap_or,
}
use grindvakt.Prelude.Text.{is_empty, show}
use grindvakt.Prelude.Words.{add_u64}
use grindvakt.Dict
use grindvakt.Dict.{Dict}
use grindvakt.Json
use grindvakt.Json.{Json}
use grindvakt.Error.{Error}
use grindvakt.Result
use grindvakt.Result.{Result, ok, fail_if}
use grindvakt.Exec.{Exec, pure, lift, when, ◌>>=◌, ◌>>◌}
use grindvakt.Http
use grindvakt.OauthError.{OauthError, error, server_error}
use grindvakt.Request.{
  AuthorizationRequest, wants_code, wants_id_token, wants_access_token, use_fragment,
}
use grindvakt.Tokens.{AuthCodePayload, AccessTokenPayload, seal_code, seal_access_token}
use grindvakt.Jwt.{Claims, default_claims, oidc_token_hash, single, seconds}
use grindvakt.Provider.Defs.{Provider}
use grindvakt.Provider.Defs.Services.{Services, now_secs, drawn, server_failure}
use grindvakt.Provider.Claims.{
  is_reserved_id_token_claim, claim_allowed_by_scope, filter_claims, flatten_claims,
}
use grindvakt.Provider.Redirect.{check_iss_redirect_collision, redirect_with}

-- What `build_id_token` is called with.
pub record IdTokenInput : Type 0 where
  pub client_id : String
  pub sub : String
  pub nonce : Option String
  pub claims : Dict Json
  pub acr : Option String
  pub auth_time : ℕ
  pub code : Option String
  pub access_token : Option String

-- `if let Some(v) = o { c.extra.insert(k, Value::String(v)) }`
unfoldable pub insert_some : String → Option String → Dict Json → Dict Json
insert_some k none m = m
insert_some k (some v) m = Dict.insert k (Json.string v) m

-- The loop over the released claims.
unfoldable pub insert_unreserved : Dict Json → Dict Json → Dict Json
insert_unreserved [] m = m
insert_unreserved ((k, v) ∷ claims) m =
    insert_unreserved claims (if is_reserved_id_token_claim k then m else Dict.insert k v m)

-- The loop over `extra_claims`.
unfoldable pub insert_extra : String → Dict Json → Dict Json → Dict Json
insert_extra scope [] m = m
insert_extra scope ((k, v) ∷ extra) m = insert_extra scope extra (
    if is_reserved_id_token_claim k
    then m
    else if claim_allowed_by_scope scope k
    then Dict.insert k v m
    else m)

module _ {J W : Type 0} (p : Provider) (s : Services J W) where
  unfoldable pub token_hash : Option String → Result Error (Option String)
  token_hash none = ok none
  token_hash (some v) = Result.map_ok some (oidc_token_hash s.hashing p.signing_alg v)

  -- the entries of `c.extra`
  unfoldable pub extra_of : IdTokenInput → Option String → Option String → Dict Json
  unfolding insert_some insert_unreserved
  extra_of i c_hash at_hash = insert_unreserved i.claims (
      insert_some "at_hash" at_hash (
        insert_some "c_hash" c_hash (
          Dict.insert "auth_time" (Json.number i.auth_time)
            (insert_some "acr" i.acr (insert_some "nonce" i.nonce [])))))

  -- the claims that are signed
  unfoldable pub id_token_claims : IdTokenInput → ℕ → Option String → Option String → Claims
  unfolding extra_of
  id_token_claims i now c_hash at_hash = record default_claims {
    iss = some p.metadata.issuer;
    sub = some i.sub;
    aud = some (single i.client_id);
    iat = some (seconds now);
    exp = some (seconds (add_u64 now p.lifetimes.id_token_ttl));
    extra = extra_of i c_hash at_hash;
  }

  unfoldable pub build_id_token : IdTokenInput → Exec W Error String
  unfolding token_hash id_token_claims
  build_id_token i = do
    now ← now_secs s
    c_hash ← lift (token_hash i.code)
    at_hash ← lift (token_hash i.access_token)
    drawn s (λ random. s.sign random (id_token_claims i now c_hash at_hash))

-- What the response is built from.
pub record Authentication : Type 0 where
  pub external_claims : Dict (List String)
  pub acr : Option String
  pub extra_claims : Dict Json
  pub auth_time : Option ℕ

-- `if let Some(v) = o { out.push((k, v)) }`
unfoldable pub push_some : String → Option String → List (String × String)
push_some k none = []
push_some k (some v) = (k, v) ∷ []

module _ {J W : Type 0} (p : Provider) (s : Services J W) where
  unfoldable pub token_params : Option String → List (String × String)
  token_params none = []
  token_params (some token) =
      ("access_token", token)
      ∷ ("token_type", "Bearer")
      ∷ ("expires_in", show p.lifetimes.access_token_ttl)
      ∷ []

  -- the parameters of the response, in the order of the code
  unfoldable pub response_params :
      AuthorizationRequest → (id_token code access_token : Option String) → List (String × String)
  unfolding push_some token_params
  response_params req id_token code access_token =
      push_some "id_token" id_token
      ++ push_some "code" code
      ++ token_params access_token
      ++ push_some "state" req.state
      ++ (if p.emit_iss then ("iss", p.metadata.issuer) ∷ [] else [])

  unfoldable pub released_claims : AuthorizationRequest → Authentication → Dict Json
  unfolding insert_extra
  released_claims req a =
      insert_extra req.scope a.extra_claims
        (filter_claims req.scope (flatten_claims a.external_claims))

  abbrev pub access_payload : AuthorizationRequest → String → Dict Json → ℕ → AccessTokenPayload
  access_payload req sub claims now = record {
    client_id = req.client_id;
    sub = sub;
    scope = req.scope;
    claims = claims;
    exp = add_u64 now p.lifetimes.access_token_ttl;
    cnf_jkt = none;
  }

  abbrev pub code_payload :
      AuthorizationRequest → String → Dict Json → Option String → ℕ → ℕ → AuthCodePayload
  code_payload req sub claims acr auth_time now = record {
    client_id = req.client_id;
    redirect_uri = req.redirect_uri;
    scope = req.scope;
    sub = sub;
    nonce = req.nonce;
    code_challenge = req.code_challenge;
    code_challenge_method = req.code_challenge_method;
    claims = claims;
    auth_time = auth_time;
    exp = add_u64 now p.lifetimes.code_ttl;
    acr = acr;
  }

  unfoldable pub mint_authorization_response :
      AuthorizationRequest → String → Authentication → Exec W OauthError Http.Response
  unfolding build_id_token response_params released_claims
  mint_authorization_response req sub a = do
    lift (check_iss_redirect_collision p s req)
    lift (fail_if (is_empty sub) (error server_error "subject identifier must not be empty"))
    let claims = released_claims req a
    now ← now_secs s
    let auth_time = unwrap_or now a.auth_time
    access_token ← when (wants_access_token req) (
        server_failure
          (drawn s (λ r. seal_access_token s.crypto p.codec r (access_payload req sub claims now))))
    code ← when (wants_code req) (
        server_failure (
          drawn s
            (λ r. seal_code s.crypto p.codec r (code_payload req sub claims a.acr auth_time now))))
    id_token ← when (wants_id_token req) (
        server_failure (
          build_id_token p s (record {
            client_id = req.client_id;
            sub = sub;
            nonce = req.nonce;
            claims = claims;
            acr = a.acr;
            auth_time = auth_time;
            code = code;
            access_token = access_token;
          })))
    pure (
        redirect_with s.urlencode req.redirect_uri (response_params req id_token code access_token)
          (use_fragment req))
