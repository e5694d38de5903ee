-- ===== src/Rp/IdToken/Hash.antt =====
-- src/rp.rs: the `at_hash` and the `c_hash` of an ID token.
use grindvakt.Prelude.{String, Bool, not, ◌&&◌, Option, some, is_some}
use grindvakt.Prelude.Text.{◌<>◌}
use grindvakt.Prelude.Bytes.{as_bytes}
use grindvakt.Dict
use grindvakt.Json.{Json}
use grindvakt.Json.Access.{as_str}
use grindvakt.Jwt.{Claims, oidc_token_hash}
use grindvakt.Result.{Result, ok, ok_or, fail_if, ◌>>=◌, ◌>>◌}
use grindvakt.Error.{Error, authn, jose}
use grindvakt.Rp.Library.{RpLibrary}

module _ {K S W : Type 0} (l : RpLibrary K S W) where
  -- The comparison with the hash of the value, where both are there.
  unfoldable pub compare_hash :
      String → String → Option String → Option Json → Result Error (Unit {0})
  compare_hash token claim (some value) (some present) =
      ok_or (as_str present) (authn ("id_token " <> claim <> " is not a string")) >>= λ claimed.
      ok_or (l.decode_header token) (jose "header") >>= λ header.
      ok_or (l.parse_alg header.alg) (jose "alg") >>= λ alg.
      oidc_token_hash l.hashing alg value >>= λ expected.
      fail_if (not (l.constant_time_eq (as_bytes expected) (as_bytes claimed)))
        (authn ("id_token " <> claim <> " mismatch"))
  compare_hash token claim _ _ = ok tt

  -- The check on the claim as it is there or not.
  unfoldable pub check_present :
      String → String → Option String → Bool → Bool → Option Json → Result Error (Unit {0})
  check_present token claim value required allow_unchecked present =
      fail_if (required && not (is_some present)) (authn ("id_token missing " <> claim))
      >> (fail_if (not (is_some value) && is_some present && not allow_unchecked) (
            authn (
              "id_token carries " <> claim
              <> " but no value was supplied to verify it against; pass it, or use allow_unchecked_hashes"))
          >> compare_hash token claim value present)

  unfoldable pub check_token_hash :
      Claims → String → String → Option String → Bool → Bool → Result Error (Unit {0})
  unfolding check_present
  check_token_hash c token claim value required allow_unchecked =
      check_present token claim value required allow_unchecked (Dict.get claim c.extra)
