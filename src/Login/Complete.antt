-- ===== src/Login/Complete.antt =====
-- src/provider.rs and src/rp.rs: a login that was granted completes at the relying party.
use grindvakt.Prelude.{
  ℕ, ◌+◌, ◌≤◌, ◌<◌, String, ◌≡◌, List, [], ◌∷◌, true, Option, none, some, has, arith,
}
use grindvakt.Prelude.Text.{split_whitespace}
use grindvakt.Prelude.Words.{u64_mod, add_u64-eq}
use grindvakt.Dict
use grindvakt.Dict.{Dict}
use grindvakt.Http
use grindvakt.Exec.{Returns}
use grindvakt.Jwt.{Claims}
use grindvakt.Request.{AuthorizationRequest}
use grindvakt.Tokens.Sealing.{IsAuthentic, ReadsBack}
use grindvakt.Provider.Defs.{Provider}
use grindvakt.Provider.Defs.Services.{Services}
use grindvakt.Provider.Mint.{Authentication, released_claims}
use grindvakt.Provider.Mint.Response.{IsMinted}
use grindvakt.Provider.Grants.{Dpop, TokenResponse}
use grindvakt.Provider.Grants.Code.{handle_authorization_code}
use grindvakt.Rp.Library.{RpLibrary}
use grindvakt.Rp.IdToken.{verify_id_token_with}
use grindvakt.Login.{IsPeer}
use grindvakt.Login.IdToken.{strict, verify-build}
use grindvakt.Login.Issue.{IsWorking, id_token_input}
use grindvakt.Login.Code.{IsPresented, sealed_in, code-IsAnswered}

module _ {J V K S W : Type 0} (p : Provider) (s : Services J V) (authentic : IsAuthentic s.crypto)
    (back : ReadsBack s.crypto.code_serde) (l : RpLibrary K S W) (keys : K)
    (peer : IsPeer p s l keys) where
  -- A code that was minted for a request with the openid scope and is presented by its client
  -- in time, for the first time, with the redirect URI and an answer to the challenge, is
  -- answered by the token endpoint with an ID token that the relying party verifies for the
  -- request's nonce and finds the subject in, under options that require the token hash.
  -- Sealing is authenticated and reads back, sealing and signing succeed, the relying party's
  -- libraries know the provider's signatures, the released claims have distinct names, the
  -- provider's clock stays between two times whose last with the lifetime is below 2^64, and
  -- the relying party verifies at or after the last of these and before the first of them with
  -- the lifetime.
  pub login_completes :
      (req : AuthorizationRequest) (sub : String) (a : Authentication) (v : V) {r : Http.Response}
      (minted : IsMinted p s req sub a v r) (code : String)
      → minted.code ≡ some code
      → has "openid" (split_whitespace req.scope) ≡ true
      → Dict.IsMap (released_claims p s req a)
      → (form : Dict String) (auth : Option String) (url : String) (dpop : Dpop) (w : V)
        (ready : IsPresented p s req v code form auth url w)
      → IsWorking p s (sealed_in p s req sub a v) ready.client.client_id
      → (first last : ℕ) → ((x : V) → (first ≤ (s.clock x).0) × ((s.clock x).0 ≤ last))
      → (trusted : List String) (u : W) → last ≤ (l.clock u).0
      → (l.clock u).0 < first + p.lifetimes.id_token_ttl
      → last + p.lifetimes.id_token_ttl < u64_mod
      → (t : TokenResponse) × (w' : V) × (id_token : String) × (claims : Claims) × (u' : W)
        × Returns (handle_authorization_code p s form auth url dpop) w t w'
        × (t.id_token ≡ some id_token)
        × Returns
            (verify_id_token_with l keys id_token p.metadata.issuer ready.client.client_id req.nonce
              (p.signing_alg ∷ [])
              trusted
              (strict
                (id_token_input p s
                  (sealed_in p s req sub a v)
                  ready.client.client_id
                  t.access_token)
                none))
            u
            claims
            u'
        × (claims.sub ≡ some sub)
  login_completes req sub a v minted code has_code openid m form auth url dpop w ready works first
        last steady trusted u after_it before fits =
      let (t, w', answered, is) =
        code-IsAnswered p s authentic back req sub a v minted code has_code form auth url dpop w
          ready works in
      let (id_token, x, x', same, built) = is.id_token openid in
      let i =
        id_token_input p s (sealed_in p s req sub a v) ready.client.client_id t.access_token in
      let (low, high) = steady x in
      let ends = add_u64-eq (s.clock x).0 p.lifetimes.id_token_ttl (omega (arith, high, fits)) in
      let (claims, u', verified, subject) =
        verify-build p s l keys peer i none trusted x u m minted.subject built
          (omega (arith, high, after_it)) (omega (arith, ends, low, before)) tt in
      (t, w', id_token, claims, u', answered, same, verified, subject)
