-- ===== src/Provider/Issue/Pairwise.antt =====
-- src/provider.rs: for which subject, and under which registration, a response is issued.
use grindvakt.Prelude.{
  String, ◌≡◌, refl, sym, subst, ap, ◌∙◌, true, Option, none, some, arith, eq_iff,
}
use grindvakt.Http.{Response}
use grindvakt.Result.{Result, ok, ok_injective, ok_or-eq-ok, >>=-eq-ok}
use grindvakt.Json.{Json}
use mathlib.Core.Option
use mathlib.Core.Option.{some-injective}
use grindvakt.OauthError.{OauthError}
use grindvakt.Exec.{Returns, after, after_lift}
use grindvakt.Request.{AuthorizationRequest}
use grindvakt.Client.{Client}
use grindvakt.Provider.Defs.{Provider}
use grindvakt.Provider.Defs.Services.{Services, Registration}
use grindvakt.Provider.Validate.Accepts.{IsAccepted, validate_authorization_request_iff}
use grindvakt.Provider.Mint.{Authentication}
use grindvakt.Provider.Mint.Response.{IsMinted, mint-IsMinted}
use grindvakt.Provider.Issue.{
  precomputed, registration_value, still_registered, redirect_with_subject_resolver_and_auth_time,
  authorization_redirect_with_auth_time,
}

module _ {J W : Type 0} (p : Provider) (s : Services J W) where
  -- Serialization loses nothing: values that are equal come from equal registrations with equal
  -- extensions, and a key set is known from its extensions and what it is without them.
  pub record IsLossless : Type 0 where
    pub read :
        (a b : Registration J) (x y : Json)
        → s.to_value a ≡ some x
        → s.to_value b ≡ some y
        → s.value_eq x y ≡ true
        → a ≡ b
    pub rebuilt :
        (j k : J)
        → s.without_extras j ≡ s.without_extras k
        → s.key_extras j ≡ s.key_extras k
        → j ≡ k

  same_keys :
      IsLossless
      → (a b : Option J) → Option.map s.without_extras a ≡ Option.map s.without_extras b
      → Option.map s.key_extras a ≡ Option.map s.key_extras b
      → a ≡ b
  same_keys lossless none none h k = refl
  same_keys lossless none (some b) h k = cc
  same_keys lossless (some a) none h k = cc
  same_keys lossless (some a) (some b) h k =
      ap some (lossless.rebuilt a b (some-injective _ _ h) (some-injective _ _ k))

  same_client :
      IsLossless
      → (a b : Client J) (x y : Json) → registration_value p s a ≡ ok x
      → registration_value p s b ≡ ok y
      → s.value_eq x y ≡ true
      → a ≡ b
  unfolding registration_value
  same_client lossless a b x y h k e =
      let same = lossless.read _ _ x y (ok_or-eq-ok _ _ h) (ok_or-eq-ok _ _ k) e in
      let keys = same_keys lossless a.jwks b.jwks (λ i. (same i).0.jwks) (λ i. (same i).1) in
      λ i. record (same i).0 { jwks = keys i }

  still_registered-eq :
      IsLossless
      → (client : Client J) (o : Option (Client J)) → still_registered p s client o ≡ ok true
      → o ≡ some client
  unfolding still_registered
  still_registered-eq lossless client none h = cc
  still_registered-eq lossless client (some c) h =
      let (x, a, h₁) = >>=-eq-ok (registration_value p s client) _ h in
      let (y, b, h₂) = >>=-eq-ok (registration_value p s c) _ h₁ in
      ap some (sym (same_client lossless client c x y a b (ok_injective h₂)))

  -- What an issued response rests on.
  pub record IsResolved (req : AuthorizationRequest) (resolve : Client J → Result OauthError String)
      (a : Authentication) (w : W) (r : Response) : Type 0 where
    pub client : Client J
    pub sub : String
    pub w₁ : W
    pub found : s.client_get req.client_id w ≡ (some client, w₁)
    pub accepted : IsAccepted p s req client
    pub resolved : resolve client ≡ ok sub
    pub found_again : (s.client_get req.client_id w₁).0 ≡ some client
    pub minted : IsMinted p s req sub a (s.client_get req.client_id w₁).1 r

  pub redirect-IsResolved :
      IsLossless
      → (req : AuthorizationRequest) (resolve : Client J → Result OauthError String)
        (a : Authentication) (w : W) {r : Response} {w' : W}
      → Returns (redirect_with_subject_resolver_and_auth_time p s req resolve a) w r w'
      → IsResolved req resolve a w r
  unfolding redirect_with_subject_resolver_and_auth_time
  redirect-IsResolved lossless req resolve a w {r = r} h = after _ _ _ h λ client w₁ b h₁.
      after_lift _ _ _ h₁ λ sub c h₂. after _ _ _ h₂ λ found w₂ d h₃.
        after_lift _ _ _ h₃ λ unchanged e h₄. after_lift _ _ _ h₄ λ _ f h₅.
          let (known, accepted) = (validate_authorization_request_iff p s req w).0 b in
          let g = still_registered-eq lossless client found (e ∙ ap ok (ground (arith, f))) in
          record {
            client = client;
            sub = sub;
            w₁ = w₁;
            found = known;
            accepted = accepted;
            resolved = c;
            found_again = ok_injective (λ x. (d x).0) ∙ g;
            minted =
                subst (λ v. IsMinted p s req sub a v r) (sym (λ i. (d i).1))
                  (mint-IsMinted p s req sub a w₂ h₅);
          }

  -- A response with a precomputed subject is only ever issued to a client that is registered
  -- for public subjects, and for that subject.
  pub precomputed-public :
      IsLossless
      → (req : AuthorizationRequest) (sub : String) (a : Authentication) (w : W) {r : Response}
        {w' : W}
      → Returns (authorization_redirect_with_auth_time p s req sub a) w r w'
      → (f : IsResolved req (precomputed req sub) a w r) × (f.client.subject_type ≡ "public")
        × (f.sub ≡ sub)
  unfolding authorization_redirect_with_auth_time precomputed
  precomputed-public lossless req sub a w h =
      let f = redirect-IsResolved lossless req (precomputed req sub) a w h in
      let e = f.resolved in
      (f, ground (arith, e, eq_iff f.client.subject_type "public"), ground (arith, e))
