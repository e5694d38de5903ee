-- ===== src/Jwt.antt =====
-- src/jwt.rs: signature algorithms, token hashes, and the claims of a JWT.
pub mod Hashes
use grindvakt.Prelude.{
  ℕ, zero, suc, ◌+◌, ◌/◌, String, Bool, true, false, ◌||◌, List, [], ◌∷◌, Option, none, some,
  if◌then◌else◌, length, any, ◌==◌,
}
use grindvakt.Prelude.Bytes.{as_bytes}
use grindvakt.Prelude.Text.{◌<>◌, split_once}
use grindvakt.Dict.{Dict}
use grindvakt.Json.{Json}
use grindvakt.Error.{Error, bad_request, crypto, jose, json}
use grindvakt.Result.{Result, ok, err, ◌>>=◌, ok_or}

-- `jose_rs::algorithm::JwsAlgorithm`, with one value for the variants that the program does not name
pub data JwsAlgorithm : Type 0 where
  hs256 hs384 hs512 rs256 rs384 rs512 ps256 ps384 ps512 es256 es384 es512 : JwsAlgorithm
  es256k eddsa : JwsAlgorithm
  unnamed : JwsAlgorithm

-- `alg.to_string()`
unfoldable pub alg_name : JwsAlgorithm → String
alg_name hs256 = "HS256"
alg_name hs384 = "HS384"
alg_name hs512 = "HS512"
alg_name rs256 = "RS256"
alg_name rs384 = "RS384"
alg_name rs512 = "RS512"
alg_name ps256 = "PS256"
alg_name ps384 = "PS384"
alg_name ps512 = "PS512"
alg_name es256 = "ES256"
alg_name es384 = "ES384"
alg_name es512 = "ES512"
alg_name es256k = "ES256K"
alg_name eddsa = "EdDSA"
alg_name unnamed = "ML-DSA"

-- `sha2` and base64 (URL-safe, no padding)
pub record Hashing : Type 0 where
  pub sha256 : List ℕ → List ℕ
  pub sha384 : List ℕ → List ℕ
  pub sha512 : List ℕ → List ℕ
  pub encode : List ℕ → String

-- `&digest[..n]`
abbrev pub take : ℕ → List ℕ → List ℕ
take zero xs = []
take (suc n) [] = []
take (suc n) (x ∷ xs) = x ∷ take n xs

-- the digest that belongs to the algorithm
digest_of : Hashing → JwsAlgorithm → List ℕ → Result Error (List ℕ)
digest_of h rs256 v = ok (h.sha256 v)
digest_of h ps256 v = ok (h.sha256 v)
digest_of h es256 v = ok (h.sha256 v)
digest_of h es256k v = ok (h.sha256 v)
digest_of h hs256 v = ok (h.sha256 v)
digest_of h rs384 v = ok (h.sha384 v)
digest_of h ps384 v = ok (h.sha384 v)
digest_of h es384 v = ok (h.sha384 v)
digest_of h hs384 v = ok (h.sha384 v)
digest_of h rs512 v = ok (h.sha512 v)
digest_of h ps512 v = ok (h.sha512 v)
digest_of h es512 v = ok (h.sha512 v)
digest_of h hs512 v = ok (h.sha512 v)
digest_of h alg v = err (crypto (alg_name alg <> " does not define an OIDC token-hash function"))

unfoldable pub oidc_token_hash : Hashing → JwsAlgorithm → String → Result Error String
unfolding digest_of
oidc_token_hash h alg value = do
  digest ← digest_of h alg (as_bytes value)
  ok (h.encode (take (length digest / 2) digest))

unfoldable pub supports_oidc_token_hash : JwsAlgorithm → Bool
supports_oidc_token_hash eddsa = false
supports_oidc_token_hash unnamed = false
supports_oidc_token_hash _ = true

unfoldable pub is_symmetric_jws_algorithm : JwsAlgorithm → Bool
is_symmetric_jws_algorithm hs256 = true
is_symmetric_jws_algorithm hs384 = true
is_symmetric_jws_algorithm hs512 = true
is_symmetric_jws_algorithm _ = false

abbrev pub jws_algorithms : List JwsAlgorithm
jws_algorithms =
    hs256 ∷ hs384 ∷ hs512 ∷ rs256 ∷ rs384 ∷ rs512 ∷ ps256 ∷ ps384 ∷ ps512 ∷ es256 ∷ es384 ∷ es512
    ∷ eddsa ∷ es256k ∷ []

-- The claims of `jose_rs::jwt`, as far as the program reads and writes them. A time is in seconds
-- and nanoseconds.
pub record NumericDate : Type 0 where
  pub as_secs : ℕ
  pub subsec_nanos : ℕ

abbrev pub seconds : ℕ → NumericDate
seconds n = record { as_secs = n; subsec_nanos = 0 }

pub data Audience : Type 0 where
  single : String → Audience
  multiple : List String → Audience

-- `aud.contains(s)`
unfoldable pub aud_contains : String → Audience → Bool
aud_contains s (single a) = a == s
aud_contains s (multiple as_) = any (λ a. a == s) as_

pub record Claims : Type 0 where
  pub iss : Option String
  pub sub : Option String
  pub aud : Option Audience
  pub exp : Option NumericDate
  pub iat : Option NumericDate
  pub jti : Option String
  pub extra : Dict Json

abbrev pub default_claims : Claims
default_claims = record {
  iss = none;
  sub = none;
  aud = none;
  exp = none;
  iat = none;
  jti = none;
  extra = [];
}

-- the second part of a token with at least two dots
middle_part : Option (String × String) → Option String
middle_part none = none
middle_part (some (header, rest)) = elim (split_once b'.' rest) [
  | none ↦ none
  | some (payload, signature) ↦ some payload
]

-- `peek_claims_unverified`; `decode` is base64url, `from_slice` the JSON codec
unfoldable pub peek_claims_unverified :
    (decode : String → Option (List ℕ)) (from_slice : List ℕ → Option Claims)
    → String
    → Result Error Claims
unfolding middle_part
peek_claims_unverified decode from_slice token = do
  part ← ok_or (middle_part (split_once b'.' token)) (bad_request "malformed JWT")
  payload ← ok_or (decode part) (jose "base64url")
  ok_or (from_slice payload) (json "from_slice")
