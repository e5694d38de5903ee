-- ===== src/Rp/IdToken/Verified.antt =====
-- src/rp.rs: what a verified ID token rests on.
use grindvakt.Prelude.{
  ℕ, ◌≤◌, String, ◌≡◌, refl, sym, subst, List, true, false, not, ◌&&◌, Option, none, some, is_some,
  arith, has, opt_str_eq-eq, unwrap_or,
}
use grindvakt.Prelude.Text.{is_empty}
use grindvakt.Prelude.Words.{saturating_add}
use grindvakt.Dict
use grindvakt.Dict.{filter_option}
use grindvakt.Json.{Json}
use grindvakt.Json.Access.{as_str}
use grindvakt.Jwt.{JwsAlgorithm, Claims}
use grindvakt.Result.{ok, ok_injective, >>=-eq-ok, ok_or-eq-ok, step->>, fail_if->>, fail_if-eq-ok}
use grindvakt.Exec.{Returns, after, after_lift, map_err-Returns}
use grindvakt.Error.{jose}
use grindvakt.Rp.Library.{RpLibrary, Header}
use grindvakt.Rp.Kids.{several, IsNamed, kid-IsNamed}
use grindvakt.Rp.IdToken.{
  check_options, check_audience, claim_text, wrong_azp, wrong_nonce, wrong_acr, check_claims,
  check_acr, check_auth_time, auth_time_secs, check_max_age, check_kid, validation,
  verify_id_token_with,
}
use grindvakt.Rp.IdToken.Options.{IdTokenOptions, default_leeway}
use grindvakt.Rp.IdToken.Hash.{check_token_hash}
use grindvakt.Rp.IdToken.Bound.{IsBound, check_token_hash-IsBound}
use grindvakt.Rp.IdToken.Addressed.{IsFor, check_audience-IsFor}

-- The subject is a text that is not empty.
abbrev pub HasSubject : Option String → Type 0
HasSubject o = (s : String) × (o ≡ some s) × (is_empty s ≡ false)

subject_lem :
    (o : Option String) → is_some (filter_option (λ s. not (is_empty s)) o) ≡ true → HasSubject o
subject_lem none h = cc
subject_lem (some s) h = (s, refl, ground (arith, h))

-- An authorized party is the client.
abbrev pub IsAzp : String → Option Json → Type 0
IsAzp client_id none = Unit {0}
IsAzp client_id (some azp) = as_str azp ≡ some client_id

azp_lem : (client_id : String) (o : Option Json) → wrong_azp client_id o ≡ false → IsAzp client_id o
azp_lem client_id none h = tt
azp_lem client_id (some azp) h = opt_str_eq-eq _ _ (ground (arith, h))

-- A nonce that is expected is there.
abbrev pub IsNonce : Option String → Option String → Type 0
IsNonce none got = Unit {0}
IsNonce (some nonce) got = got ≡ some nonce

nonce_lem : (expected got : Option String) → wrong_nonce expected got ≡ false → IsNonce expected got
nonce_lem none got h = tt
nonce_lem (some nonce) got h = opt_str_eq-eq _ _ (ground (arith, h))

-- A class that is asked for is among those allowed.
abbrev pub IsAcr : Option (List String) → Option String → Type 0
IsAcr none acr = Unit {0}
IsAcr (some allowed) none = ⊥
IsAcr (some allowed) (some acr) = has acr allowed ≡ true

acr_lem :
    (allowed : Option (List String)) (acr : Option String)
    → wrong_acr allowed acr ≡ false
    → IsAcr allowed acr
acr_lem none acr h = tt
acr_lem (some allowed) none h = cc
acr_lem (some allowed) (some acr) h = ground (arith, h)

check_claims_lem :
    (client_id : String) (expected_nonce : Option String) (trusted : List String) (c : Claims)
    → check_claims client_id expected_nonce trusted c ≡ ok tt
    → HasSubject c.sub
      × IsFor client_id trusted c c.aud
      × IsAzp client_id (Dict.get "azp" c.extra)
      × IsNonce expected_nonce (claim_text "nonce" c)
unfolding check_claims
check_claims_lem client_id expected_nonce trusted c h =
    let subject = is_some (filter_option (λ s. not (is_empty s)) c.sub) in
    let (a, h₁) = (fail_if->> (not subject) _ _).0 h in
    let (b, h₂) = (step->> (check_audience client_id trusted c c.aud) _).0 h₁ in
    let (d, h₃) = (fail_if->> (wrong_azp client_id (Dict.get "azp" c.extra)) _ _).0 h₂ in
    (
      subject_lem c.sub (ground (arith, a)),
      check_audience-IsFor client_id trusted c c.aud b,
      azp_lem client_id (Dict.get "azp" c.extra) d,
      nonce_lem expected_nonce (claim_text "nonce" c)
          (fail_if-eq-ok (wrong_nonce expected_nonce (claim_text "nonce" c)) _ h₃),
    )

module _ {K S W : Type 0} (l : RpLibrary K S W) where
  -- Where an age is asked for, the time of authentication is no older, and not in the future but
  -- for the leeway, at some reading of the clock.
  abbrev pub IsRecent : IdTokenOptions → Claims → Option ℕ → Type 0
  IsRecent o c none = Unit {0}
  IsRecent o c (some max_age) =
      (value : Json) × (auth_time : ℕ) × (w : W) × (Dict.get "auth_time" c.extra ≡ some value)
      × (auth_time_secs l value ≡ ok auth_time)
      × ((l.clock w).0 ≤ saturating_add auth_time max_age)
      × (auth_time ≤ saturating_add (l.clock w).0 (unwrap_or default_leeway o.leeway))

  check_auth_time_lem :
      (auth_time max_age leeway now : ℕ)
      → check_auth_time auth_time max_age leeway now ≡ ok tt
      → (now ≤ saturating_add auth_time max_age) × (auth_time ≤ saturating_add now leeway)
  unfolding check_auth_time
  check_auth_time_lem auth_time max_age leeway now h = (ground (arith, h), ground (arith, h))

  check_max_age-IsRecent :
      (o : IdTokenOptions) (c : Claims) (max_age : Option ℕ) (w w' : W)
      → Returns (check_max_age l o c max_age) w tt w'
      → IsRecent o c max_age
  unfolding check_max_age
  check_max_age-IsRecent o c none w w' h = tt
  check_max_age-IsRecent o c (some max_age) w w' h = after_lift _ _ _ h λ auth_time a h₁.
      after _ _ _ h₁ λ now w₁ b h₂.
        let (value, found, read) = >>=-eq-ok _ (auth_time_secs l) a in
        let clock : (l.clock w).0 ≡ now = ok_injective (λ x. (b x).0) in
        let (old, new) =
          check_auth_time_lem auth_time max_age (unwrap_or default_leeway o.leeway) now
            (λ x. (h₂ x).0) in
        (
          value,
          auth_time,
          w,
          ok_or-eq-ok _ _ found,
          read,
          subst (λ t. t ≤ saturating_add auth_time max_age) (sym clock) old,
          subst (λ t. auth_time ≤ saturating_add t (unwrap_or default_leeway o.leeway)) (sym clock)
              new,
        )

  -- What a verified ID token rests on.
  pub record IsVerified (keys : K) (id_token issuer client_id : String)
      (expected_nonce : Option String) (algorithms : List JwsAlgorithm) (trusted : List String)
      (o : IdTokenOptions) (w : W) (claims : Claims) : Type 0 where
    pub header : Header
    pub w' : W
    pub options : check_options algorithms o ≡ ok tt
    pub decoded : l.decode_header id_token ≡ some header
    pub named : IsNamed (l.kids keys) header.kid
    pub signed :
        l.decode_with_jwkset keys id_token (validation l keys issuer client_id algorithms o) w
        ≡ (ok claims, w')
    pub subject : HasSubject claims.sub
    pub audience : IsFor client_id trusted claims claims.aud
    pub azp : IsAzp client_id (Dict.get "azp" claims.extra)
    pub nonce : IsNonce expected_nonce (claim_text "nonce" claims)
    pub recent : IsRecent o claims o.max_age
    pub acr : IsAcr o.acr_values (claim_text "acr" claims)
    pub at_hash :
        IsBound l id_token o.access_token o.require_at_hash o.allow_unchecked_hashes
          (Dict.get "at_hash" claims.extra)
    pub c_hash :
        IsBound l id_token o.authorization_code o.require_c_hash o.allow_unchecked_hashes
          (Dict.get "c_hash" claims.extra)

  check_kid-IsNamed :
      (keys : K) (header : Header)
      → check_kid l keys header ≡ ok tt
      → IsNamed (l.kids keys) header.kid
  unfolding check_kid
  check_kid-IsNamed keys header h =
      let (n, rest) = (fail_if->> (several (l.kids keys) && not (is_some header.kid)) _ _).0 h in
      kid-IsNamed (l.kids keys) header.kid "id_token" n rest

  -- A verified ID token has a signature that the library accepts under the given keys, issuer,
  -- client and algorithms, a named key wherever there are several, a subject, audiences that
  -- are distinct and each the client or trusted, with the client as authorized party where
  -- there are several or one is named, the expected nonce, a time of authentication no older
  -- than the asked age and not ahead of the clock by more than the leeway, an allowed class
  -- where classes are asked for, and at_hash and c_hash that are absent where not required, or
  -- the hash of the given value, or left unchecked on request where no value was given.
  pub verify_id_token_with-IsVerified :
      (keys : K) (id_token issuer client_id : String) (expected_nonce : Option String)
      (algorithms : List JwsAlgorithm) (trusted : List String) (o : IdTokenOptions) (w : W)
      {claims : Claims} {w' : W}
      → Returns
          (verify_id_token_with l keys id_token issuer client_id expected_nonce algorithms trusted
            o)
          w
          claims
          w'
      → IsVerified keys id_token issuer client_id expected_nonce algorithms trusted o w claims
  unfolding verify_id_token_with check_acr
  verify_id_token_with-IsVerified keys id_token issuer client_id expected_nonce algorithms trusted o
        w {claims = claims} h =
      after_lift _ _ _ h λ _ a h₁. after_lift _ _ _ h₁ λ header b h₂. after_lift _ _ _ h₂ λ _ c h₃.
        after _ _ _ h₃ λ got w₁ d h₄. after_lift _ _ _ h₄ λ _ e h₅. after _ _ _ h₅ λ _ w₂ f h₆.
          after_lift _ _ _ h₆ λ _ g h₇. after_lift _ _ _ h₇ λ _ i h₈.
            let same : got ≡ claims = ok_injective (λ x. (h₈ x).0) in
            let (subject, audience, azp, nonce) =
              check_claims_lem client_id expected_nonce trusted got e in
            let (at, ct) =
              (step->>
                  (check_token_hash l got id_token "at_hash" o.access_token o.require_at_hash
                    o.allow_unchecked_hashes)
                  _).0
                i in
            let found : IsVerified keys id_token issuer client_id expected_nonce algorithms trusted
                o w got =
              record {
                header = header;
                w' = w₁;
                options = a;
                decoded = ok_or-eq-ok _ _ b;
                named = check_kid-IsNamed keys header c;
                signed =
                    map_err-Returns jose
                      (l.decode_with_jwkset keys id_token
                        (validation l keys issuer client_id algorithms o))
                      w d;
                subject = subject;
                audience = audience;
                azp = azp;
                nonce = nonce;
                recent = check_max_age-IsRecent o got o.max_age w₁ w₂ f;
                acr =
                    acr_lem o.acr_values (claim_text "acr" got)
                      (fail_if-eq-ok (wrong_acr o.acr_values (claim_text "acr" got)) _ g);
                at_hash =
                    check_token_hash-IsBound l got id_token "at_hash" o.access_token
                      o.require_at_hash o.allow_unchecked_hashes at;
                c_hash =
                    check_token_hash-IsBound l got id_token "c_hash" o.authorization_code
                      o.require_c_hash o.allow_unchecked_hashes ct;
              } in
            subst (IsVerified keys id_token issuer client_id expected_nonce algorithms trusted o w)
              same found
