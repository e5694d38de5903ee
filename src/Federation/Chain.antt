-- ===== src/Federation/Chain.antt =====
-- src/federation.rs: the checks of a trust chain.
use grindvakt.Prelude.{
  ℕ, suc, String, List, [], ◌∷◌, Bool, not, ◌||◌, Option, is_some, opt_str_eq, ltb, leb,
}
use grindvakt.Prelude.Text.{is_empty, ◌<>◌, show}
use grindvakt.Dict.{filter_option}
use grindvakt.Result.{Result, ok, ok_or, fail_if, ◌>>=◌, ◌>>◌}
use grindvakt.Exec
use grindvakt.Exec.{Exec, lift, run, pure, raise}
use grindvakt.Error.{Error, authn, to_string}
use grindvakt.Json.{Json}
use grindvakt.Json.Access.{get, and_then, as_str}
use grindvakt.Federation.{Library}
use grindvakt.Federation.Statement.{
  EntityStatement, iss, sub, is_issued_by, claim_secs, jwks, decode_unverified, verify,
  verify_self_signed,
}

-- The chain as texts.
unfoldable pub tokens_of : List Json → Result Error (List String)
tokens_of [] = ok []
tokens_of (v ∷ vs) =
    ok_or (as_str v) (authn "resolve response trust_chain contains a non-string") >>= λ t.
    tokens_of vs >>= λ ts. ok (t ∷ ts)

abbrev chain_label : ℕ → String
chain_label idx = "trust_chain[" <> show idx <> "]"

-- the error for a token that its successor's keys do not verify
abbrev pub signature_error : ℕ → Error → Error
signature_error idx e = authn (
    chain_label idx
    <> " signature failed against "
    <> chain_label (suc idx)
    <> " keys: "
    <> to_string e)

-- `unverified[idx].iss() == unverified[idx + 1].sub()` for all of the chain
unfoldable pub check_links : ℕ → List EntityStatement → Result Error (Unit {0})
check_links idx [] = ok tt
check_links idx (a ∷ []) = ok tt
check_links idx (a ∷ b ∷ rest) =
    fail_if (not (opt_str_eq (iss a) (sub b)))
      (authn (chain_label idx <> " issuer does not match " <> chain_label (suc idx) <> " subject"))
    >> check_links (suc idx) (b ∷ rest)

abbrev pub last_of {ℓ} : {A : Type ℓ} → A → List A → A
last_of a [] = a
last_of a (b ∷ rest) = last_of b rest

module _ {K W : Type 0} (l : Library K W) where
  present : Option String → Bool
  present o = is_some (filter_option (λ s. not (is_empty s)) o)

  -- The part of `validate_statement_claims` that follows the clock.
  abbrev pub check_times : String → ℕ → ℕ → ℕ → Result Error (Unit {0})
  check_times label iat exp now =
      fail_if (ltb now iat) (authn (label <> " iat is in the future"))
      >> fail_if (leb exp now) (authn (label <> " has expired"))

  unfoldable pub validate_statement_claims : EntityStatement → String → Exec W Error (Unit {0})
  unfolding present
  validate_statement_claims s label =
      Exec.◌>>=◌
        (lift (
          fail_if (not (present (iss s)) || not (present (sub s)))
            (authn (label <> " missing iss/sub"))))
        λ _.
          Exec.◌>>=◌
            (lift (
              ok_or (and_then (get "iat" s.claims) (claim_secs l))
                (authn (label <> " missing iat"))))
            λ iat.
              Exec.◌>>=◌
                (lift (
                  ok_or (and_then (get "exp" s.claims) (claim_secs l))
                    (authn (label <> " missing exp"))))
                λ exp. Exec.◌>>=◌ (run l.clock) λ now. lift (check_times label iat exp now)

  unfoldable pub decode_all : List String → Result Error (List EntityStatement)
  decode_all [] = ok []
  decode_all (t ∷ ts) = decode_unverified l t >>= λ s. decode_all ts >>= λ ss. ok (s ∷ ss)

  -- The loop of `validate_statement_claims` over the chain.
  unfoldable pub check_all : ℕ → List EntityStatement → Exec W Error (Unit {0})
  check_all idx [] = pure tt
  check_all idx (s ∷ ss) =
      Exec.◌>>=◌ (validate_statement_claims s (chain_label idx)) λ _. check_all (suc idx) ss

  -- The loop of signature checks: each token under the keys of the next statement.
  unfoldable pub check_signatures : ℕ → List String → List EntityStatement → Exec W Error (Unit {0})
  check_signatures idx (t ∷ ts) (a ∷ b ∷ rest) = Exec.◌>>=◌ (lift (jwks l b)) λ keys.
      Exec.◌>>=◌ (Exec.map_err (signature_error idx) (verify l t keys))
        λ _. check_signatures (suc idx) ts (b ∷ rest)
  check_signatures idx _ _ = pure tt

  -- `validate_trust_chain` from the decoded statements on, the first of them apart.
  unfoldable pub check_chain :
      String
      → String
      → K
      → String
      → List String
      → EntityStatement
      → List EntityStatement
      → Exec W Error EntityStatement
  check_chain id ta_id ta_keys token tokens first rest =
      Exec.◌>>=◌ (check_all 0 (first ∷ rest)) λ _.
        Exec.◌>>=◌
          (lift (
            fail_if (not (is_issued_by id first)) (
              authn
                "resolve response trust_chain does not start with the subject entity configuration")))
          λ _.
            Exec.◌>>=◌
              (lift (
                fail_if (not (is_issued_by ta_id (last_of first rest))) (
                  authn
                    "resolve response trust_chain does not end with the selected trust anchor")))
              λ _. Exec.◌>>=◌ (lift (check_links 0 (first ∷ rest))) λ _.
                Exec.◌>>=◌ (verify_self_signed l token) λ subject_ec.
                  Exec.◌>>=◌ (check_signatures 0 (token ∷ tokens) (first ∷ rest)) λ _.
                    Exec.◌>>=◌ (verify l (last_of token tokens) ta_keys) λ ta_ec.
                      Exec.◌>>=◌ (verify_self_signed l (last_of token tokens)) λ _.
                        Exec.◌>>=◌
                          (lift (
                            fail_if (not (is_issued_by ta_id ta_ec))
                              (authn "resolve response trust_chain trust anchor mismatch")))
                          λ _. pure subject_ec

  -- The same from the tokens on. There are as many statements as tokens.
  unfoldable pub check_tokens :
      String → String → K → List String → List EntityStatement → Exec W Error EntityStatement
  check_tokens id ta_id ta_keys (token ∷ tokens) (first ∷ rest) =
      check_chain id ta_id ta_keys token tokens first rest
  check_tokens id ta_id ta_keys _ _ = raise (authn "resolve response trust_chain is empty")

  unfoldable pub validate_trust_chain :
      List Json → String → String → K → Exec W Error EntityStatement
  validate_trust_chain chain id ta_id ta_keys = Exec.◌>>=◌ (lift (tokens_of chain)) λ tokens.
      Exec.◌>>=◌ (lift (decode_all tokens))
        λ unverified. check_tokens id ta_id ta_keys tokens unverified
