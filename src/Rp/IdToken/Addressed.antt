-- ===== src/Rp/IdToken/Addressed.antt =====
-- src/rp.rs: for whom an accepted ID token is.
use grindvakt.Prelude.{
  String, ◌≡◌, List, [], ◌∷◌, true, false, not, ◌&&◌, Option, none, some, arith, ◌⊎◌, inl, inr, All,
  has, IsDistinct, eq_of_test, length, ltb, ◌==◌, opt_str_eq-eq, Bool-cases,
}
use grindvakt.Prelude.Distinct.{IsUnseen, IsUnseen-cons}
use grindvakt.Jwt.{Claims, Audience, single, multiple}
use grindvakt.Result.{ok, two_guards, step->>, fail_if-eq-ok}
use grindvakt.Rp.IdToken.{check_audiences, check_audience, claim_text}

-- Every audience is the client or a trusted one.
abbrev pub IsTrustedBy : String → List String → String → Type 0
IsTrustedBy client_id trusted a = (a ≡ client_id) ⊎ (has a trusted ≡ true)

-- Several audiences are distinct and all of them trusted; where there is more than one the
-- authorized party is the client.
abbrev pub IsFor : String → List String → Claims → Option Audience → Type 0
IsFor client_id trusted c (some (multiple values)) =
    IsDistinct values
    × All (IsTrustedBy client_id trusted) values
    × ((ltb 1 (length values) ≡ false) ⊎ (claim_text "azp" c ≡ some client_id))
IsFor client_id trusted c _ = Unit {0}

trusted_lem :
    (client_id a : String) (trusted : List String)
    → (not (a == client_id) && not (has a trusted)) ≡ false
    → IsTrustedBy client_id trusted a
trusted_lem client_id a trusted h = elim (Bool-cases (a == client_id)) [
  | inl e ↦ inl (eq_of_test e)
  | inr n ↦ inr (ground (arith, h, n))
]

check_audiences_lem :
    (client_id : String) (trusted seen values : List String)
    → check_audiences client_id trusted seen values ≡ ok tt
    → IsDistinct values × All (IsTrustedBy client_id trusted) values × IsUnseen seen values
unfolding check_audiences
check_audiences_lem client_id trusted seen [] h = (tt, tt, tt)
check_audiences_lem client_id trusted seen (a ∷ values) h =
    let (new, known, rest) =
      two_guards _ _ _ _ (check_audiences client_id trusted (a ∷ seen) values) h in
    let (distinct, all_trusted, unseen) =
      check_audiences_lem client_id trusted (a ∷ seen) values rest in
    let (once, others) = IsUnseen-cons a seen values unseen in
    ((once, distinct), (trusted_lem client_id a trusted known, all_trusted), (new, others))

pub check_audience-IsFor :
    (client_id : String) (trusted : List String) (c : Claims) (aud : Option Audience)
    → check_audience client_id trusted c aud ≡ ok tt
    → IsFor client_id trusted c aud
unfolding check_audience
check_audience-IsFor client_id trusted c none h = tt
check_audience-IsFor client_id trusted c (some (single a)) h = tt
check_audience-IsFor client_id trusted c (some (multiple values)) h =
    let (each, last) = (step->> (check_audiences client_id trusted [] values) _).0 h in
    let (distinct, all_trusted, _) = check_audiences_lem client_id trusted [] values each in
    (
      distinct,
      all_trusted,
      elim (Bool-cases (ltb 1 (length values))) [
        | inl b ↦ inr (opt_str_eq-eq _ _ (ground (arith, b, fail_if-eq-ok _ _ last)))
        | inr n ↦ inl n
      ],
    )
