-- ===== src/OauthError/Codes.antt =====
-- src/oauth_error.rs: parsing and printing of the error codes.
use grindvakt.Prelude.{
  String, ◌≡◌, refl, ◌↔◌, ◌==◌, ◌∙◌, if◌then◌else◌, Bool-cases, inl, inr, ap, eq_of_test,
}
use grindvakt.Result.{Result, ok, err}
use grindvakt.OauthError.{
  OauthErrorCode, invalid_request, invalid_client, invalid_grant, unauthorized_client,
  unsupported_grant_type, unsupported_response_type, invalid_scope, access_denied, login_required,
  server_error, temporarily_unavailable, invalid_dpop_proof, ParseError, unrecognized, as_str,
  from_str,
}

from_str-as_str : (c : OauthErrorCode) → from_str (as_str c) ≡ ok c
unfolding from_str as_str
from_str-as_str invalid_request = refl
from_str-as_str _ = refl

-- One test of the chain: the code found is that of the test, or one found later.
found_by :
    (c : OauthErrorCode) {d : OauthErrorCode} {s : String} {rest : Result ParseError OauthErrorCode}
    → (rest ≡ ok d → as_str d ≡ s)
    → (if as_str c == s then ok c else rest) ≡ ok d
    → as_str d ≡ s
found_by c {d} {s} later h = elim (Bool-cases (as_str c == s)) [
  | inl same ↦ let e : ok c ≡ ok d = rw same at h in ap as_str (cc e) ∙ eq_of_test same
  | inr differs ↦ later (rw differs at h)
]

none_found : {d : OauthErrorCode} {s : String} → err unrecognized ≡ ok d → as_str d ≡ s
none_found h = cc

as_str_of_from_str : (s : String) (c : OauthErrorCode) → from_str s ≡ ok c → as_str c ≡ s
unfolding from_str as_str
as_str_of_from_str s c = found_by invalid_request (
    found_by invalid_client (
      found_by invalid_grant (
        found_by unauthorized_client (
          found_by unsupported_grant_type (
            found_by unsupported_response_type (
              found_by invalid_scope (
                found_by access_denied (
                  found_by login_required (
                    found_by server_error (
                      found_by temporarily_unavailable
                        (found_by invalid_dpop_proof (none_found))))))))))))

-- A text parses to an error code exactly if it is the code's text.
pub from_str_iff : (s : String) (c : OauthErrorCode) → (from_str s ≡ ok c) ↔ (as_str c ≡ s)
from_str_iff s c = (as_str_of_from_str s c, λ e. rw (← e) (from_str-as_str c))
