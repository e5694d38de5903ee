-- ===== src/Login/IdToken.antt =====
-- src/provider.rs and src/rp.rs: a relying party accepts the ID tokens that a provider builds.
use mathlib.Core.Option.{some-injective}
use grindvakt.Prelude.{
  ℕ, ◌≤◌, ◌<◌, String, ◌≡◌, refl, ap, ◌∙◌, List, [], ◌∷◌, false, Option, none, some, is_some, arith,
  eq_refl,
}
use grindvakt.Prelude.Text.{is_empty}
use grindvakt.Prelude.Bytes.{as_bytes}
use grindvakt.Prelude.Words.{add_u64, saturating_add}
use grindvakt.Dict
use grindvakt.Json.{Json}
use grindvakt.Result.{ok, map_err, map_ok-eq-ok, step->>, fail_if->>}
use grindvakt.Exec.{Returns, run, onward, onward_lift}
use grindvakt.Jwt.{Claims, alg_name, single, oidc_token_hash}
use grindvakt.Provider.Defs.{Provider}
use grindvakt.Provider.Defs.Services.{Services}
use grindvakt.Provider.Mint.{IdTokenInput, token_hash, build_id_token}
use grindvakt.Provider.Mint.Reserved.{text_claim, build_id_token-IsSigned}
use grindvakt.Rp.Library.{RpLibrary, Header, verify_with_jwks}
use grindvakt.Error.{jose}
use grindvakt.Rp.IdToken.{
  check_kid, check_claims, check_audience, check_max_age, check_auth_time, auth_time_secs,
  wrong_nonce, check_hashes, check_options, check_acr, verify_id_token_with, validation,
}
use grindvakt.Rp.Kids.{IsNamed, IsNamed-kid}
use grindvakt.Json.Access.{and_then, as_str}
use grindvakt.Rp.IdToken.Hash.{compare_hash, check_present, check_token_hash}
use grindvakt.Rp.IdToken.Options.{IdTokenOptions, id_token_options, default_leeway}
use grindvakt.Provider.Claims.{is_reserved_id_token_claim}
use grindvakt.Login.{IsPeer}

-- Options that ask for the hash of every value that was received.
abbrev pub strict : IdTokenInput → Option ℕ → IdTokenOptions
strict i max_age = record id_token_options {
  max_age = max_age;
  access_token = i.access_token;
  require_at_hash = is_some i.access_token;
  authorization_code = i.code;
  require_c_hash = is_some i.code;
}

module _ {J V K S W : Type 0} (p : Provider) (s : Services J V) (l : RpLibrary K S W) (keys : K)
    (peer : IsPeer p s l keys) where
  -- The hash that the provider computes is the one that the relying party expects.
  check_hash :
      (token claim : String) (h : Header) (value hash : Option String)
      → l.decode_header token ≡ some h
      → h.alg ≡ alg_name p.signing_alg
      → token_hash p s value ≡ ok hash
      → check_present l token claim value (is_some value) false (text_claim hash) ≡ ok tt
  unfolding token_hash check_present compare_hash
  check_hash token claim h none none d a e = refl
  check_hash token claim h none (some x) d a e = cc
  check_hash token claim h (some value) none d a e =
      let (x, f, g) = map_ok-eq-ok some (oidc_token_hash s.hashing p.signing_alg value) e in cc g
  check_hash token claim h (some value) (some x) d a e =
      let (y, f, g) = map_ok-eq-ok some (oidc_token_hash s.hashing p.signing_alg value) e in
      let hashed : oidc_token_hash s.hashing p.signing_alg value ≡ ok x =
        f ∙ ap ok (some-injective _ _ g) in
      rw (d, a, peer.parsed, peer.hashing, hashed, peer.compares (as_bytes x)) refl

  kid_lem : (h : Header) → IsNamed (l.kids keys) h.kid → check_kid l keys h ≡ ok tt
  unfolding check_kid
  kid_lem h n =
      let (a, b) = IsNamed-kid (l.kids keys) h.kid "id_token" n in (fail_if->> _ _ _).1 (a, b)

  -- Where an age is asked for, the authentication is no older, and not ahead of the clock by more
  -- than the leeway.
  abbrev pub IsFresh : IdTokenInput → Option ℕ → W → Type 0
  IsFresh i none w = Unit {0}
  IsFresh i (some max_age) w =
      ((l.clock w).0 ≤ saturating_add i.auth_time max_age)
      × (i.auth_time ≤ saturating_add (l.clock w).0 default_leeway)

  fresh_lem :
      (i : IdTokenInput) (c : Claims) (max_age : Option ℕ) (w : W)
      → Dict.get "auth_time" c.extra ≡ some (Json.number i.auth_time)
      → IsFresh i max_age w
      → (w' : W) × Returns (check_max_age l (strict i max_age) c max_age) w tt w'
  unfolding check_max_age auth_time_secs check_auth_time
  fresh_lem i c none w e f = (w, refl)
  fresh_lem i c (some max_age) w e (old, new) =
      let time = l.clock w in
      let ok_time : check_auth_time i.auth_time max_age default_leeway time.0 ≡ ok tt =
        ground arith in
      (
        time.1,
        onward_lift _ _ w {a = i.auth_time} (rw e refl)
            ∙ onward (run l.clock) _ w refl
            ∙ ap (λ r. (r, time.1)) ok_time,
      )

  text_lem : (o : Option String) → and_then (text_claim o) as_str ≡ o
  text_lem none = refl
  text_lem (some v) = refl

  nonce_lem : (o : Option String) → wrong_nonce o o ≡ false
  nonce_lem none = refl
  nonce_lem (some v) = ground (arith, eq_refl v)

  claims_lem :
      (i : IdTokenInput) (trusted : List String) (c : Claims)
      → is_empty i.sub ≡ false
      → c.sub ≡ some i.sub
      → c.aud ≡ some (single i.client_id)
      → Dict.get "azp" c.extra ≡ none
      → Dict.get "nonce" c.extra ≡ text_claim i.nonce
      → check_claims i.client_id i.nonce trusted c ≡ ok tt
  unfolding check_claims check_audience
  claims_lem i trusted c full sub aud azp nonce =
      rw (sub, full, aud, azp, nonce, text_lem i.nonce, nonce_lem i.nonce) refl

  options_lem :
      (i : IdTokenInput) (max_age : Option ℕ)
      → check_options (p.signing_alg ∷ []) (strict i max_age) ≡ ok tt
  unfolding check_options
  options_lem i max_age = ground arith

  hash_lem :
      (token claim : String) (h : Header) (value hash : Option String) (c : Claims)
      → l.decode_header token ≡ some h
      → h.alg ≡ alg_name p.signing_alg
      → token_hash p s value ≡ ok hash
      → Dict.get claim c.extra ≡ text_claim hash
      → check_token_hash l c token claim value (is_some value) false ≡ ok tt
  unfolding check_token_hash
  hash_lem token claim h value hash c d a e entry =
      ap (check_present l token claim value (is_some value) false) entry
      ∙ check_hash token claim h value hash d a e

  -- An ID token that the provider built for a subject that is not empty, from claims with
  -- distinct names, is verified by a relying party whose libraries know the provider's
  -- signatures, for the provider's issuer, the client, the nonce and the algorithm, under
  -- options that give the code and the access token it was built with and require their
  -- hashes, at a time in the token's lifetime and, where an age is asked for, with an
  -- authentication that is recent enough; and the subject is found in it.
  pub verify-build :
      (i : IdTokenInput) (max_age : Option ℕ) (trusted : List String) (v : V) {token : String}
      {v' : V} (w : W)
      → Dict.IsMap i.claims
      → is_empty i.sub ≡ false
      → Returns (build_id_token p s i) v token v'
      → (s.clock v).0 ≤ (l.clock w).0
      → (l.clock w).0 < add_u64 (s.clock v).0 p.lifetimes.id_token_ttl
      → IsFresh i max_age
          (l.decode_with_jwkset keys token
            (validation l keys p.metadata.issuer i.client_id
              (p.signing_alg ∷ [])
              (strict i max_age))
            w).1
      → (claims : Claims) × (w' : W) × Returns
          (verify_id_token_with l keys token p.metadata.issuer i.client_id i.nonce
            (p.signing_alg ∷ [])
            trusted
            (strict i max_age))
          w
          claims
          w'
        × (claims.sub ≡ some i.sub)
  unfolding verify_id_token_with check_acr is_reserved_id_token_claim
  verify-build i max_age trusted v {token} w m full built started ends fresh =
      let o = strict i max_age in
      let b = build_id_token-IsSigned p s i v m built in
      let c = b.claims in
      let (h, decoded, alg, named) = peer.header b.random c token b.signed in
      let val = validation l keys p.metadata.issuer i.client_id (p.signing_alg ∷ []) o in
      let read =
        peer.verifies b.random c token val _ _ w b.signed b.issuer b.audience refl refl refl refl
          b.lifetime.0 b.lifetime.1 started ends in
      let w₁ = (l.decode_with_jwkset keys token val w).1 in
      let verified : Returns (verify_with_jwks l keys token val) w c w₁ =
        λ j. (map_err jose (read j), w₁) in
      let (w₂, recent) = fresh_lem i c max_age w₁ (b.entries "auth_time") fresh in
      let claims_ok =
        claims_lem i trusted c full b.subject b.audience (b.entries "azp") (b.entries "nonce") in
      let hashes_ok : check_hashes l c token o ≡ ok tt = (step->> _ _).1 (
        hash_lem token "at_hash" h i.access_token b.at_hash c decoded alg b.token_hash
            (b.entries "at_hash"),
        hash_lem token "c_hash" h i.code b.c_hash c decoded alg b.code_hash (b.entries "c_hash"),
      ) in
      (
        c,
        w₂,
        onward_lift _ _ w (options_lem i max_age)
            ∙ onward_lift _ _ w {a = h} (rw decoded refl)
            ∙ onward_lift _ _ w (kid_lem h named)
            ∙ onward _ _ w verified
            ∙ onward_lift _ _ w₁ claims_ok
            ∙ onward _ _ w₁ recent
            ∙ onward_lift _ _ w₂ {a = tt} refl
            ∙ onward_lift _ _ w₂ hashes_ok,
        b.subject,
      )
