-- ===== src/Rp/IdToken/Bound.antt =====
-- src/rp.rs: what an accepted `at_hash` or `c_hash` shows.
use grindvakt.Prelude.{String, ◌≡◌, Bool, true, false, Option, none, some, arith}
use grindvakt.Prelude.Bytes.{as_bytes}
use grindvakt.Dict
use grindvakt.Json.{Json}
use grindvakt.Json.Access.{as_str}
use grindvakt.Jwt.{JwsAlgorithm, Claims, oidc_token_hash}
use grindvakt.Result.{ok, >>=-eq-ok, ok_or-eq-ok, fail_if-eq-ok}
use grindvakt.Rp.Library.{RpLibrary, Header}
use grindvakt.Rp.IdToken.Hash.{compare_hash, check_present, check_token_hash}

module _ {K S W : Type 0} (l : RpLibrary K S W) where
  -- A claim that is the hash of a value, under the algorithm of the token.
  pub record IsHash (token value : String) (present : Json) : Type 0 where
    pub claimed : String
    pub header : Header
    pub alg : JwsAlgorithm
    pub expected : String
    pub stated : as_str present ≡ some claimed
    pub read : l.decode_header token ≡ some header
    pub parsed : l.parse_alg header.alg ≡ some alg
    pub hashed : oidc_token_hash l.hashing alg value ≡ ok expected
    pub same : l.constant_time_eq (as_bytes expected) (as_bytes claimed) ≡ true

  -- A claim that is not there is not required, one that is there is the hash of the value, or
  -- there is no value and the caller leaves it unchecked.
  abbrev pub IsBound : String → Option String → Bool → Bool → Option Json → Type 0
  IsBound token value required allow_unchecked none = required ≡ false
  IsBound token none required allow_unchecked (some present) = allow_unchecked ≡ true
  IsBound token (some value) required allow_unchecked (some present) = IsHash token value present

  compare_hash-IsHash :
      (token claim value : String) (present : Json)
      → compare_hash l token claim (some value) (some present) ≡ ok tt
      → IsHash token value present
  unfolding compare_hash
  compare_hash-IsHash token claim value present h =
      let (claimed, a, h₁) = >>=-eq-ok _ _ h in
      let (header, b, h₂) = >>=-eq-ok _ _ h₁ in
      let (alg, c, h₃) = >>=-eq-ok _ _ h₂ in
      let (expected, d, h₄) = >>=-eq-ok (oidc_token_hash l.hashing alg value) _ h₃ in
      record {
        claimed = claimed;
        header = header;
        alg = alg;
        expected = expected;
        stated = ok_or-eq-ok _ _ a;
        read = ok_or-eq-ok _ _ b;
        parsed = ok_or-eq-ok _ _ c;
        hashed = d;
        same = ground (arith, fail_if-eq-ok _ _ h₄);
      }

  check_present-IsBound :
      (token claim : String) (value : Option String) (required allow_unchecked : Bool)
      (present : Option Json)
      → check_present l token claim value required allow_unchecked present ≡ ok tt
      → IsBound token value required allow_unchecked present
  unfolding check_present
  check_present-IsBound token claim value required allow_unchecked none h = ground (arith, h)
  check_present-IsBound token claim none required allow_unchecked (some present) h =
      ground (arith, h)
  check_present-IsBound token claim (some value) required allow_unchecked (some present) h =
      compare_hash-IsHash token claim value present (ground (arith, h))

  pub check_token_hash-IsBound :
      (c : Claims) (token claim : String) (value : Option String) (required allow_unchecked : Bool)
      → check_token_hash l c token claim value required allow_unchecked ≡ ok tt
      → IsBound token value required allow_unchecked (Dict.get claim c.extra)
  unfolding check_token_hash
  check_token_hash-IsBound c token claim value required allow_unchecked h =
      check_present-IsBound token claim value required allow_unchecked (Dict.get claim c.extra) h
