-- ===== src/Provider/Mint/Response.antt =====
-- src/provider.rs: what the response of the authorization endpoint carries.
use grindvakt.Prelude.{ℕ, ◌≡◌, ap, ◌∙◌, false, Option, some, arith, is_some, unwrap_or}
use grindvakt.Prelude.Text.{is_empty}
use grindvakt.Prelude.{String, List, none, if◌then◌else◌, IsDistinct}
use grindvakt.Prelude.Text.{show}
use grindvakt.Prelude.Words.{add_u64}
use grindvakt.Dict
use grindvakt.Http
use grindvakt.Result.{ok, ok_injective}
use grindvakt.Exec.{Returns, after, after_lift, when-is_some, when-eq-some}
use grindvakt.Request.{
  AuthorizationRequest, wants_code, wants_id_token, wants_access_token, use_fragment,
}
use grindvakt.Tokens.{seal_code}
use grindvakt.Provider.Defs.{Provider}
use grindvakt.Provider.Defs.Services.{Services, drawn-Returns}
use grindvakt.Provider.Redirect.{check_iss_redirect_collision, redirect_with}
use grindvakt.Provider.Mint.{
  Authentication, code_payload, released_claims, response_params, push_some, token_params,
  mint_authorization_response,
}

-- The value `v` exactly where there is a token.
abbrev beside : String → Option String → Option String
beside v none = none
beside v (some token) = some v

module _ {J W : Type 0} (p : Provider) (s : Services J W) where
  -- What the parameters of a response say under each name that they have.
  pub record IsAnswer (req : AuthorizationRequest) (id_token code access_token : Option String)
      (params : List (String × String)) : Type 0 where
    pub for_id_token : Dict.get "id_token" params ≡ id_token
    pub for_code : Dict.get "code" params ≡ code
    pub for_access_token : Dict.get "access_token" params ≡ access_token
    pub token_type : Dict.get "token_type" params ≡ beside "Bearer" access_token
    pub expires_in :
        Dict.get "expires_in" params ≡ beside (show p.lifetimes.access_token_ttl) access_token
    pub state : Dict.get "state" params ≡ req.state
    pub iss : Dict.get "iss" params ≡ (if p.emit_iss then some p.metadata.issuer else none)
    pub distinct : IsDistinct (Dict.keys params)

  -- What is redirected to, and what a code in it has sealed.
  pub record IsMinted (req : AuthorizationRequest) (sub : String) (a : Authentication) (w : W)
      (r : Http.Response) : Type 0 where
    pub id_token : Option String
    pub code : Option String
    pub access_token : Option String
    pub random : ℕ
    pub subject : is_empty sub ≡ false
    pub no_collision : check_iss_redirect_collision p s req ≡ ok tt
    pub has_id_token : is_some id_token ≡ wants_id_token req
    pub has_code : is_some code ≡ wants_code req
    pub has_access_token : is_some access_token ≡ wants_access_token req
    pub params : List (String × String)
    pub answer : IsAnswer req id_token code access_token params
    pub location : redirect_with s.urlencode req.redirect_uri params (use_fragment req) ≡ r
    pub sealed :
        (c : String)
        → code ≡ some c
        → seal_code s.crypto p.codec random (record {
          client_id = req.client_id;
          redirect_uri = req.redirect_uri;
          scope = req.scope;
          sub = sub;
          nonce = req.nonce;
          code_challenge = req.code_challenge;
          code_challenge_method = req.code_challenge_method;
          claims = released_claims p s req a;
          acr = a.acr;
          auth_time = unwrap_or (s.clock w).0 a.auth_time;
          exp = add_u64 (s.clock w).0 p.lifetimes.code_ttl;
        })
          ≡ ok c

  answer_of :
      (req : AuthorizationRequest) (id_token code access_token : Option String)
      → IsAnswer req id_token code access_token (response_params p s req id_token code access_token)
  unfolding response_params push_some token_params Dict.get
  answer_of req id_token code access_token = record {
    for_id_token = ground arith;
    for_code = ground arith;
    for_access_token = ground arith;
    token_type = ground arith;
    expires_in = ground arith;
    state = ground arith;
    iss = ground arith;
    distinct = ground arith;
  }

  -- A minted response redirects to the request's URI with parameters of distinct names, among
  -- them an ID token, a code and an access token exactly where the request asks for each, the
  -- token's type and lifetime exactly with an access token, the request's state, and the
  -- issuer exactly where it is to be sent. The subject is not empty and there is no iss
  -- collision. A code is the seal of the request's own client, redirect URI, scope, nonce,
  -- challenge and challenge method, of the subject, the released claims and the acr, of the
  -- given time of authentication or else the current one, and of the end of the code's
  -- lifetime.
  pub mint-IsMinted :
      (req : AuthorizationRequest) (sub : String) (a : Authentication) (w : W) {r : Http.Response}
      {w' : W}
      → Returns (mint_authorization_response p s req sub a) w r w'
      → IsMinted req sub a w r
  unfolding mint_authorization_response
  mint-IsMinted req sub a w h = after_lift _ _ _ h λ _ b h₁. after_lift _ _ _ h₁ λ _ c h₂.
      after _ _ _ h₂ λ now w₁ d h₃. after _ _ _ h₃ λ access_token w₂ e h₄.
        after _ _ _ h₄ λ code w₃ f h₅. after _ _ _ h₅ λ id_token w₄ g h₆. record {
          id_token = id_token;
          code = code;
          access_token = access_token;
          random = (s.draw w₂).0;
          subject = ground (arith, c);
          no_collision = b;
          has_id_token = when-is_some _ _ w₃ g;
          has_code = when-is_some _ _ w₂ f;
          has_access_token = when-is_some _ _ w₁ e;
          params = response_params p s req id_token code access_token;
          answer = answer_of req id_token code access_token;
          location = ok_injective (λ x. (h₆ x).0);
          sealed = λ x q.
              ap
                (λ t. seal_code s.crypto p.codec (s.draw w₂).0 (
                  code_payload p s req sub (released_claims p s req a) a.acr
                    (unwrap_or t a.auth_time) t))
                (ok_injective (λ x. (d x).0))
              ∙ drawn-Returns s _ w₂ (when-eq-some _ _ w₂ q f);
        }
