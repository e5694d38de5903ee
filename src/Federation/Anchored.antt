-- ===== src/Federation/Anchored.antt =====
-- src/federation.rs: what an accepted trust chain rests on.
use grindvakt.Prelude.{
  ℕ, suc, ◌≤◌, ◌<◌, String, ◌≡◌, ◌≢◌, sym, ap, ◌∙◌, List, [], ◌∷◌, true, not, some, All, opt_str_eq,
  opt_str_eq-eq, arith,
}
use grindvakt.Json.{Json}
use grindvakt.Json.Access.{get, and_then}
use grindvakt.Result.{ok, >>=-eq-ok, ok_or-eq-ok, fail_if->>, ok_injective}
use grindvakt.Exec.{map_err-Returns, raise-Returns, Returns, after, after_lift}
use grindvakt.Federation.{Library}
use grindvakt.Federation.Statement.{
  EntityStatement, iss, sub, is_issued_by, claim_secs, jwks, decode_unverified, verify,
  verify_self_signed,
}
use grindvakt.Federation.Chain.{
  tokens_of, check_links, last_of, validate_statement_claims, decode_all, check_all,
  check_signatures, check_chain, check_tokens, validate_trust_chain, check_times, signature_error,
}

module _ {K W : Type 0} (l : Library K W) where
  -- The token has been verified under the keys, at some time.
  abbrev pub IsVerified : String → K → Type 0
  IsVerified token keys =
      (s : EntityStatement) × (w : W) × (w' : W) × Returns (verify l token keys) w s w'

  -- Every token but the last is verified under the keys that the next one states for its issuer,
  -- and the last one under those of the trust anchor.
  abbrev pub IsAnchored : K → List String → Type 0
  IsAnchored ta_keys [] = ⊥
  IsAnchored ta_keys (t ∷ []) = IsVerified t ta_keys
  IsAnchored ta_keys (t ∷ t' ∷ ts) =
      ((a : EntityStatement) × (b : EntityStatement) × (keys : K) × (decode_unverified l t ≡ ok a)
        × (decode_unverified l t' ≡ ok b)
        × (iss a ≡ sub b)
        × (jwks l b ≡ ok keys)
        × IsVerified t keys)
      × IsAnchored ta_keys (t' ∷ ts)

  decode_all-eq-cons :
      (t : String) (ts : List String) (s : EntityStatement) (ss : List EntityStatement)
      → decode_all l (t ∷ ts) ≡ ok (s ∷ ss)
      → (decode_unverified l t ≡ ok s) × (decode_all l ts ≡ ok ss)
  unfolding decode_all
  decode_all-eq-cons t ts s ss h =
      let (s', e, rest) = >>=-eq-ok (decode_unverified l t) _ h in
      let (ss', e', same) = >>=-eq-ok (decode_all l ts) _ rest in
      (cc (e, ok_injective same), cc (e', ok_injective same))

  decode_all-ne : (t : String) (ts : List String) → decode_all l (t ∷ ts) ≢ ok []
  unfolding decode_all
  decode_all-ne t ts h =
      let (s, e, rest) = >>=-eq-ok (decode_unverified l t) _ h in
      let (ss, e', same) = >>=-eq-ok (decode_all l ts) _ rest in cc (ok_injective same)

  chain-IsAnchored :
      (ta_keys : K) (idx : ℕ) (t : String) (ts : List String) (s : EntityStatement)
      (ss : List EntityStatement) (w w' : W)
      → decode_all l (t ∷ ts) ≡ ok (s ∷ ss)
      → check_links idx (s ∷ ss) ≡ ok tt
      → Returns (check_signatures l idx (t ∷ ts) (s ∷ ss)) w tt w'
      → IsVerified (last_of t ts) ta_keys
      → IsAnchored ta_keys (t ∷ ts)
  unfolding check_links check_signatures
  chain-IsAnchored ta_keys idx t [] s ss w w' d links signed last = last
  chain-IsAnchored ta_keys idx t (t' ∷ ts) s [] w w' d links signed last =
      absurd (decode_all-ne t' ts (decode_all-eq-cons t (t' ∷ ts) s [] d).1)
  chain-IsAnchored ta_keys idx t (t' ∷ ts) s (s' ∷ ss) w w' d links signed last =
      let (here, later) = decode_all-eq-cons t (t' ∷ ts) s (s' ∷ ss) d in
      let (there, _) = decode_all-eq-cons t' ts s' ss later in
      let (linked, links') =
        (fail_if->> (not (opt_str_eq (iss s) (sub s'))) _ (check_links (suc idx) (s' ∷ ss))).0
          links in
      after_lift _ _ _ signed λ keys k h. after _ _ _ h λ v w₁ e h₁. (
        (
          s,
          s',
          keys,
          here,
          there,
          opt_str_eq-eq _ _ (ground (arith, linked)),
          k,
          (v, w, w₁, map_err-Returns (signature_error idx) (verify l t keys) w e),
        ),
        chain-IsAnchored ta_keys (suc idx) t' ts s' ss w₁ w' later links' h₁ last,
      )

  -- The statement was issued before some reading of the clock and ends after it.
  abbrev pub IsTimely : EntityStatement → Type 0
  IsTimely s =
      (iat : ℕ) × (exp : ℕ) × (w : W) × (and_then (get "iat" s.claims) (claim_secs l) ≡ some iat)
      × (and_then (get "exp" s.claims) (claim_secs l) ≡ some exp)
      × (iat ≤ (l.clock w).0)
      × ((l.clock w).0 < exp)

  validate_statement_claims-IsTimely :
      (s : EntityStatement) (label : String) (w w' : W)
      → Returns (validate_statement_claims l s label) w tt w'
      → IsTimely s
  unfolding validate_statement_claims
  validate_statement_claims-IsTimely s label w w' h = after_lift _ _ _ h λ _ a h₁.
      after_lift _ _ _ h₁ λ iat b h₂. after_lift _ _ _ h₂ λ exp c h₃. after _ _ _ h₃ λ now w₁ d h₄.
        let clock = ok_injective (λ x. (d x).0) in
        let times : check_times l label iat exp now ≡ ok tt = λ x. (h₄ x).0 in
        (
          iat,
          exp,
          w,
          ok_or-eq-ok _ _ b,
          ok_or-eq-ok _ _ c,
          ground (arith, times, clock),
          ground (arith, times, clock),
        )

  check_all-IsTimely :
      (idx : ℕ) (ss : List EntityStatement) (w w' : W)
      → Returns (check_all l idx ss) w tt w'
      → All IsTimely ss
  unfolding check_all
  check_all-IsTimely idx [] w w' h = tt
  check_all-IsTimely idx (s ∷ ss) w w' h = after _ _ _ h λ _ w₁ a h₁.
      (validate_statement_claims-IsTimely s _ w w₁ a, check_all-IsTimely (suc idx) ss w₁ w' h₁)

  -- What an accepted chain fulfils.
  pub record IsTrusted (chain : List Json) (id ta_id : String) (ta_keys : K) (ec : EntityStatement)
      : Type 0 where
    pub token : String
    pub tokens : List String
    pub first : EntityStatement
    pub rest : List EntityStatement
    pub own_keys : K
    pub texts : tokens_of chain ≡ ok (token ∷ tokens)
    pub decoded : decode_all l (token ∷ tokens) ≡ ok (first ∷ rest)
    pub timely : All IsTimely (first ∷ rest)
    pub subject : is_issued_by id first ≡ true
    pub anchor : is_issued_by ta_id (last_of first rest) ≡ true
    pub anchored : IsAnchored ta_keys (token ∷ tokens)
    pub stated : jwks l first ≡ ok own_keys
    pub own : (w : W) × (w' : W) × Returns (verify l token own_keys) w ec w'

  self_signed :
      (token : String) (w w' : W) {s : EntityStatement} {ec : EntityStatement}
      → decode_unverified l token ≡ ok s
      → Returns (verify_self_signed l token) w ec w'
      → (keys : K) × (jwks l s ≡ ok keys) × Returns (verify l token keys) w ec w'
  unfolding verify_self_signed
  self_signed token w w' {s = s} d h = after_lift _ _ _ h λ u e h₁. after_lift _ _ _ h₁ λ _ f h₂.
      after_lift _ _ _ h₂ λ keys k h₃.
        let same : u ≡ s = ok_injective (sym e ∙ d) in (keys, ap (jwks l) (sym same) ∙ k, h₃)

  check_chain-IsTrusted :
      (chain : List Json) (id ta_id : String) (ta_keys : K) (token : String) (tokens : List String)
      (first : EntityStatement) (rest : List EntityStatement) (w w' : W) {ec : EntityStatement}
      → tokens_of chain ≡ ok (token ∷ tokens)
      → decode_all l (token ∷ tokens) ≡ ok (first ∷ rest)
      → Returns (check_chain l id ta_id ta_keys token tokens first rest) w ec w'
      → IsTrusted chain id ta_id ta_keys ec
  unfolding check_chain
  check_chain-IsTrusted chain id ta_id ta_keys token tokens first rest w w' {ec = ec} t d h =
      after _ _ _ h λ _ w₁ a h₁. after_lift _ _ _ h₁ λ _ b h₂. after_lift _ _ _ h₂ λ _ c h₃.
        after_lift _ _ _ h₃ λ _ e h₄. after _ _ _ h₄ λ subject_ec w₂ f h₅.
          after _ _ _ h₅ λ _ w₃ g h₆. after _ _ _ h₆ λ ta_ec w₄ i h₇. after _ _ _ h₇ λ _ w₅ j h₈.
            after_lift _ _ _ h₈ λ _ k h₉.
              let same : subject_ec ≡ ec = ok_injective (λ x. (h₉ x).0) in
              let (keys, stated, own) =
                self_signed token w₁ w₂ (decode_all-eq-cons token tokens first rest d).0 f in
              record {
                token = token;
                tokens = tokens;
                first = first;
                rest = rest;
                own_keys = keys;
                texts = t;
                decoded = d;
                timely = check_all-IsTimely 0 (first ∷ rest) w w₁ a;
                subject = ground (arith, b);
                anchor = ground (arith, c);
                anchored =
                    chain-IsAnchored ta_keys 0 token tokens first rest w₂ w₃ d e g
                      (ta_ec, w₃, w₄, i);
                stated = stated;
                own = (w₁, w₂, own ∙ (λ x. (ok (same x), w₂)));
              }

  check_tokens-IsTrusted :
      (chain : List Json) (id ta_id : String) (ta_keys : K) (tokens : List String)
      (ss : List EntityStatement) (w w' : W) {ec : EntityStatement}
      → tokens_of chain ≡ ok tokens
      → decode_all l tokens ≡ ok ss
      → Returns (check_tokens l id ta_id ta_keys tokens ss) w ec w'
      → IsTrusted chain id ta_id ta_keys ec
  unfolding check_tokens
  check_tokens-IsTrusted chain id ta_id ta_keys [] ss w w' t d h = raise-Returns h
  check_tokens-IsTrusted chain id ta_id ta_keys (token ∷ tokens) [] w w' t d h = raise-Returns h
  check_tokens-IsTrusted chain id ta_id ta_keys (token ∷ tokens) (first ∷ rest) w w' t d h =
      check_chain-IsTrusted chain id ta_id ta_keys token tokens first rest w w' t d h

  -- Where a trust chain is accepted, its entries are texts that decode, each statement was
  -- issued before and ends after some reading of the clock, the first is issued by the subject
  -- for itself and the last by the trust anchor for itself, every token but the last is
  -- verified under the keys that the next one states, whose subject is the issuer, the last
  -- one under the given keys of the trust anchor, and what is returned is the first token
  -- verified under the keys that it states itself.
  pub validate_trust_chain-IsTrusted :
      (chain : List Json) (id ta_id : String) (ta_keys : K) (w : W) {ec : EntityStatement} {w' : W}
      → Returns (validate_trust_chain l chain id ta_id ta_keys) w ec w'
      → IsTrusted chain id ta_id ta_keys ec
  unfolding validate_trust_chain
  validate_trust_chain-IsTrusted chain id ta_id ta_keys w {w' = w'} h =
      after_lift _ _ _ h λ tokens t h₁.
        after_lift _ _ _ h₁
          λ ss d h₂. check_tokens-IsTrusted chain id ta_id ta_keys tokens ss w w' t d h₂
