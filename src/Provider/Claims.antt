-- ===== src/Provider/Claims.antt =====
-- src/provider.rs: which claims are released, and in which JSON type.
pub mod Release
use Prim.Native.Char.{code}
use Prim.Native.String
use grindvakt.Prelude.{
  ℕ, ◌+◌, ◌*◌, ◌-◌, ◌^◌, String, Bool, true, false, ◌&&◌, ◌||◌, List, [], ◌∷◌, Option, none, some,
  if◌then◌else◌, has, ◌==◌, map, leb, unwrap_or, nat_eq,
}
use mathlib.Core.Option
use grindvakt.Prelude.Text.{split_whitespace, is_whitespace, within, lower}
use grindvakt.Dict
use grindvakt.Dict.{Dict}
use grindvakt.Json
use grindvakt.Json.{Json, strings}

abbrev pub reserved_id_token_claims : List String
reserved_id_token_claims =
    "iss" ∷ "sub" ∷ "aud" ∷ "exp" ∷ "iat" ∷ "nbf" ∷ "jti" ∷ "nonce" ∷ "auth_time" ∷ "acr" ∷ "azp"
    ∷ "at_hash" ∷ "c_hash" ∷ []

unfoldable pub is_reserved_id_token_claim : String → Bool
is_reserved_id_token_claim name = has name reserved_id_token_claims

abbrev profile_claims : List String
profile_claims =
    "name" ∷ "family_name" ∷ "given_name" ∷ "middle_name" ∷ "nickname" ∷ "preferred_username"
    ∷ "profile" ∷ "picture" ∷ "website" ∷ "gender" ∷ "birthdate" ∷ "zoneinfo" ∷ "locale"
    ∷ "updated_at" ∷ []

-- the scope that releases a standard claim
pub required_scope : String → Option String
required_scope name =
    if has name profile_claims
    then some "profile"
    else if has name ("email" ∷ "email_verified" ∷ [])
    then some "email"
    else if has name ("address" ∷ [])
    then some "address"
    else if has name ("phone_number" ∷ "phone_number_verified" ∷ [])
    then some "phone"
    else none

unfoldable pub allowed_by : String → Option String → Bool
allowed_by scope none = true
allowed_by scope (some required) = has required (split_whitespace scope)

pub claim_allowed_by_scope : String → String → Bool
unfolding allowed_by
claim_allowed_by_scope scope name = allowed_by scope (required_scope name)

unfoldable pub filter_claims : String → Dict Json → Dict Json
filter_claims scope claims = Dict.filter_keys (claim_allowed_by_scope scope) claims

-- `s.trim()`
trim_start : String → String
trim_start String.[] = String.[]
trim_start (String.◌∷◌ c s) =
    let rest = trim_start s in if is_whitespace (code c) then rest else String.◌∷◌ c s

trim_end : String → String
trim_end String.[] = String.[]
trim_end (String.◌∷◌ c s) = elim (trim_end s) [
  | String.[] ↦ if is_whitespace (code c) then String.[] else String.◌∷◌ c String.[]
  | String.◌∷◌ d t ↦ String.◌∷◌ c (String.◌∷◌ d t)
]

trim : String → String
unfolding trim_start trim_end
trim s = trim_end (trim_start s)

-- the code points of `s.to_ascii_lowercase()`
lower_codes : String → List ℕ
lower_codes String.[] = []
lower_codes (String.◌∷◌ c s) = lower (code c) ∷ lower_codes s

same_codes : List ℕ → List ℕ → Bool
same_codes [] [] = true
same_codes (x ∷ xs) (y ∷ ys) = nat_eq x y && same_codes xs ys
same_codes _ _ = false

one_of : List ℕ → List String → Bool
unfolding lower_codes same_codes
one_of w [] = false
one_of w (t ∷ ts) = same_codes w (lower_codes t) || one_of w ts

coerce_flag : String → Option Json
unfolding trim one_of
coerce_flag value =
    let w = lower_codes (trim value) in
    if one_of w ("true" ∷ "1" ∷ "yes" ∷ "on" ∷ [])
    then some (Json.bool true)
    else if one_of w ("false" ∷ "0" ∷ "no" ∷ "off" ∷ [])
    then some (Json.bool false)
    else none

-- The digits of `parse::<i64>`.
digits : ℕ → String → Option ℕ
digits n String.[] = some n
digits n (String.◌∷◌ c s) =
    let rest = digits (n * 10 + (code c - 48)) s in if within 48 57 (code c) then rest else none

number_of : String → Option ℕ
unfolding digits
number_of String.[] = none
number_of (String.◌∷◌ c s) = digits 0 (String.◌∷◌ c s)

-- -(n), if it is an `i64`
negated : ℕ → Option Json
negated n =
    if nat_eq n 0
    then some (Json.number 0)
    else if leb n (2 ^ 63)
    then some (Json.negative (n - 1))
    else none

positive : ℕ → Option Json
positive n = if leb n (2 ^ 63 - 1) then some (Json.number n) else none

-- `s.parse::<i64>().ok()`: an optional sign and at least one digit
parse_i64 : String → Option Json
unfolding number_of negated positive
parse_i64 String.[] = none
parse_i64 (String.◌∷◌ c s) =
    if nat_eq (code c) b'-'
    then Option.bind (number_of s) negated
    else if nat_eq (code c) b'+'
    then Option.bind (number_of s) positive
    else Option.bind (number_of (String.◌∷◌ c s)) positive

pub coerce_standard_claim : String → String → Option Json
unfolding coerce_flag parse_i64
coerce_standard_claim name value =
    if has name ("email_verified" ∷ "phone_number_verified" ∷ [])
    then coerce_flag value
    else if name == "updated_at"
    then parse_i64 (trim value)
    else none

-- the JSON value of one external claim
flatten_value : String → List String → Json
flatten_value k (v ∷ []) = unwrap_or (Json.string v) (coerce_standard_claim k v)
flatten_value k vs = Json.array (strings vs)

unfoldable pub flatten_claims : Dict (List String) → Dict Json
unfolding flatten_value
flatten_claims external = map (λ e. (e.0, flatten_value e.0 e.1)) external
