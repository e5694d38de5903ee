-- ===== src/Federation/Examples.antt =====
-- Runs of src/federation.rs: a chain of a leaf, what its trust anchor states of it, and the anchor.
use grindvakt.Prelude.{
  ℕ, String, ◌≡◌, refl, false, List, [], ◌∷◌, Option, none, some, unwrap_or, nat_eq, has,
  if◌then◌else◌, All,
}
use grindvakt.Prelude.Bytes.{as_bytes}
use grindvakt.Dict
use grindvakt.Dict.{Dict}
use grindvakt.Result.{Result, ok, err}
use grindvakt.Json.{Json, Fields, null, number, string, array, object, strings, field, end}
use grindvakt.Jwt.{Claims, default_claims, peek_claims_unverified}
use grindvakt.Error.{Error}
use grindvakt.Url.{UrlLibrary}
use grindvakt.Federation.{Library}
use grindvakt.Federation.Statement.{EntityStatement}
use grindvakt.Federation.Chain.{validate_trust_chain}
use grindvakt.Federation.Anchored.{IsTrusted, validate_trust_chain-IsTrusted}
use grindvakt.Federation.Policy.{apply_policy}
use grindvakt.Federation.Constraints.{IsApplied, apply_policy-IsApplied}

-- A token is three texts, of which the middle one names the issuer and the subject.
abbrev claims_of : List ℕ → Option Claims
claims_of (i ∷ s ∷ []) = some (record default_claims {
  iss = some (if nat_eq i b'l' then "leaf" else "anchor");
  sub = some (if nat_eq s b'l' then "leaf" else "anchor");
})
claims_of _ = none

abbrev statement : String → String → Json
statement iss sub = object (
    field "iss" (string iss) (
      field "sub" (string sub)
        (field "iat" (number 50) (field "exp" (number 200) (field "jwks" null end)))))

abbrev value_of : Claims → Option Json
value_of c = some (statement (unwrap_or "" c.iss) (unwrap_or "" c.sub))

abbrev signed : Result Error Claims → Result String Claims
signed (ok c) = ok c
signed (err e) = err "malformed"

abbrev urls : UrlLibrary
urls = record {
  parse = λ s. err "none";
  byte_serialize = λ s. s;
  form_parse = λ s. [];
  append_pairs = λ ps u. "";
  ip_is_loopback = λ s. none;
}

abbrev library : Library (Unit {0}) (Unit {0})
library = record {
  decode = λ t. some (as_bytes t);
  claims_from_slice = claims_of;
  to_value = value_of;
  jwks_to_value = λ k. some null;
  decode_with_jwkset =
      λ k t v w. (signed (peek_claims_unverified (λ s. some (as_bytes s)) claims_of t), w);
  jwks_from_value = λ v. some tt;
  keys_from_value = λ v. some tt;
  jwks_from_json = λ s. some tt;
  f64_as_u64 = λ s. 0;
  http_get = λ url w. (err (grindvakt.Error.config "no network"), w);
  clock = λ w. (100, w);
  utf8_lossy = λ bs. "";
  from_slice = λ bs. none;
  urls = urls;
}

abbrev chain : List Json
chain = string "h.ll.s" ∷ string "h.al.s" ∷ string "h.aa.s" ∷ []

abbrev leaf : EntityStatement
leaf = record { claims = statement "leaf" "leaf" }

validate_trust_chain-IsTrusted_example : IsTrusted library chain "leaf" "anchor" tt leaf
unfolding validate_trust_chain grindvakt.Exec.◌>>=◌ as_bytes peek_claims_unverified
    grindvakt.Federation.Chain.tokens_of grindvakt.Federation.Chain.decode_all
    grindvakt.Federation.Chain.check_tokens grindvakt.Federation.Chain.check_chain
    grindvakt.Federation.Chain.check_all grindvakt.Federation.Chain.validate_statement_claims
    grindvakt.Federation.Chain.check_links grindvakt.Federation.Chain.check_signatures
    grindvakt.Federation.Statement.decode_unverified grindvakt.Federation.Statement.verify
    grindvakt.Federation.Statement.verify_typed grindvakt.Federation.Statement.verify_self_signed
    grindvakt.Federation.Statement.jwks grindvakt.Federation.Statement.claim_secs
    grindvakt.Prelude.Text.split_once grindvakt.Prelude.Bytes.utf8_char grindvakt.Json.Access.get
    Dict.get
validate_trust_chain-IsTrusted_example =
    validate_trust_chain-IsTrusted library chain "leaf" "anchor" tt tt {ec = leaf} {w' = tt} refl

-- A scope is added to the two of the metadata, within what the policy allows.
abbrev ops : Fields
ops =
    field "add" (array (strings ("c" ∷ [])))
      (field "subset_of" (array (strings ("a" ∷ "b" ∷ "c" ∷ []))) end)

abbrev policy : Dict Json
policy = ("scopes", object ops) ∷ []

abbrev metadata : List String → Dict Json
metadata scopes = ("name", string "n") ∷ ("scopes", array (strings scopes)) ∷ []

abbrev before : Dict Json
before = metadata ("a" ∷ "b" ∷ [])

abbrev after : Dict Json
after = metadata ("a" ∷ "b" ∷ "c" ∷ [])

apply_policy-IsApplied_example :
    All (IsApplied after) policy
    × ((j : String) → has j (Dict.keys policy) ≡ false → Dict.get j after ≡ Dict.get j before)
unfolding apply_policy grindvakt.Exec.◌>>=◌ grindvakt.Federation.Policy.apply_ops
    grindvakt.Federation.Policy.check_constraints Dict.get grindvakt.Federation.Policy.change
    grindvakt.Federation.Policy.add_values grindvakt.Federation.Policy.add_to
    grindvakt.Federation.Policy.or_insert grindvakt.Federation.Policy.set_default
    grindvakt.Federation.Policy.force_value Dict.insert grindvakt.Federation.Policy.push_missing
    grindvakt.Json.Access.json_eq
apply_policy-IsApplied_example = apply_policy-IsApplied policy before {m' = after} (refl, tt) refl
