-- ===== src/Federation/Statement.antt =====
-- src/federation.rs: entity statements.
use grindvakt.Prelude.{
  ℕ, String, List, [], ◌∷◌, Bool, true, not, Option, none, some, opt_str_eq, ◌&&◌,
}
use grindvakt.Result
use grindvakt.Result.{Result, ok_or, fail_if, ◌>>=◌}
use grindvakt.Exec
use grindvakt.Exec.{Exec, lift}
use grindvakt.Error.{Error, bad_request, authn, json}
use grindvakt.Json.{Json, number, negative, float}
use grindvakt.Json.Access.{get, get_str, and_then, as_list, as_str}
use grindvakt.Jwt.{Claims, peek_claims_unverified}
use grindvakt.Federation.{Library, entity_statement_typ, verify_with_jwks}

-- `EntityStatement`
pub record EntityStatement : Type 0 where
  pub claims : Json

abbrev pub iss : EntityStatement → Option String
iss s = get_str "iss" s.claims

abbrev pub sub : EntityStatement → Option String
sub s = get_str "sub" s.claims

unfoldable pub metadata : EntityStatement → String → Option Json
metadata s kind = and_then (get "metadata" s.claims) (get kind)

texts : List Json → List String
texts [] = []
texts (x ∷ xs) = elim (as_str x) [ some s ↦ s ∷ texts xs | none ↦ texts xs ]

pub authority_hints : EntityStatement → List String
unfolding texts
authority_hints s = elim (and_then (get "authority_hints" s.claims) as_list) [
  | some xs ↦ texts xs
  | none ↦ []
]

-- The statement is issued by `id` for `id` itself.
abbrev pub is_issued_by : String → EntityStatement → Bool
is_issued_by id s = opt_str_eq (iss s) (some id) && opt_str_eq (sub s) (some id)

module _ {K W : Type 0} (l : Library K W) where
  unfoldable pub claim_secs : Json → Option ℕ
  claim_secs (number n) = some n
  claim_secs (negative n) = some 0
  claim_secs (float x) = some (l.f64_as_u64 x)
  claim_secs _ = none

  unfoldable pub jwks : EntityStatement → Result Error K
  jwks s = ok_or (get "jwks" s.claims) (bad_request "entity statement has no jwks") >>= λ v.
      ok_or (l.jwks_from_value v) (json "jwks")

  -- `serde_json::to_value`
  abbrev pub statement_of : Claims → Result Error EntityStatement
  statement_of c = Result.map_ok (λ v. record { claims = v }) (ok_or (l.to_value c) (json "claims"))

  unfoldable pub decode_unverified : String → Result Error EntityStatement
  decode_unverified token =
      peek_claims_unverified l.decode l.claims_from_slice token >>= λ c. statement_of c

  unfoldable pub verify_typed : String → K → String → Exec W Error EntityStatement
  verify_typed token keys typ =
      Exec.◌>>=◌ (verify_with_jwks l keys token (record { typ = typ; require_exp = true }))
        λ c. lift (statement_of c)

  unfoldable pub verify : String → K → Exec W Error EntityStatement
  verify token keys = verify_typed token keys entity_statement_typ

  unfoldable pub verify_self_signed : String → Exec W Error EntityStatement
  verify_self_signed token = Exec.◌>>=◌ (lift (decode_unverified token)) λ unverified.
      Exec.◌>>=◌
        (lift (
          fail_if (not (opt_str_eq (iss unverified) (sub unverified)))
            (authn "entity configuration is not self-issued (iss != sub)")))
        λ _. Exec.◌>>=◌ (lift (jwks unverified)) λ keys. verify token keys
