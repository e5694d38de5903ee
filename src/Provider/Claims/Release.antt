-- ===== src/Provider/Claims/Release.antt =====
-- src/provider.rs: which claims a granted scope releases.
use grindvakt.Prelude.{◌⊎◌, inl, inr, Bool-cases}
use grindvakt.Prelude.{String, ◌≡◌, refl, ◌∙◌, true, Option, none, some, arith, has}
use grindvakt.Prelude.Text.{split_whitespace}
use grindvakt.Dict
use grindvakt.Dict.{Dict, get-filter_keys}
use grindvakt.Json.{Json}
use grindvakt.Provider.Claims.{required_scope, claim_allowed_by_scope, allowed_by, filter_claims}

-- The scope that the standard defines for a claim, where there is one, is among those granted.
abbrev pub IsReleased : String → String → Type 0
IsReleased scope k =
    (required_scope k ≡ none)
    ⊎ ((required : String) × (required_scope k ≡ some required)
        × (has required (split_whitespace scope) ≡ true))

allowed_by-IsReleased :
    (scope : String) (o : Option String)
    → allowed_by scope o ≡ true
    → (o ≡ none)
      ⊎ ((required : String) × (o ≡ some required) × (has required (split_whitespace scope) ≡ true))
unfolding allowed_by
allowed_by-IsReleased scope none h = inl refl
allowed_by-IsReleased scope (some x) h = inr (x, refl, h)

pub claim_allowed-IsReleased :
    (scope k : String) → claim_allowed_by_scope scope k ≡ true → IsReleased scope k
unfolding claim_allowed_by_scope
claim_allowed-IsReleased scope k h = allowed_by-IsReleased scope (required_scope k) h

allowed_by_mono :
    (scope original : String) (o : Option String)
    → ((x : String)
        → has x (split_whitespace scope) ≡ true
        → has x (split_whitespace original) ≡ true)
    → allowed_by scope o ≡ true
    → allowed_by original o ≡ true
unfolding allowed_by
allowed_by_mono scope original none within h = refl
allowed_by_mono scope original (some x) within h = within x h

claim_mono :
    (scope original k : String)
    → ((x : String)
        → has x (split_whitespace scope) ≡ true
        → has x (split_whitespace original) ≡ true)
    → claim_allowed_by_scope scope k ≡ true
    → claim_allowed_by_scope original k ≡ true
unfolding claim_allowed_by_scope
claim_mono scope original k = allowed_by_mono scope original (required_scope k)

-- Where every scope of the narrower text is one of the wider, filtering claims by the wider
-- scope first changes nothing about what the narrower one releases, and a claim that is released
-- has the scope that the standard defines for it among the granted ones.
pub filter_claims_lem :
    (scope original : String) (claims : Dict Json)
    → ((x : String)
        → has x (split_whitespace scope) ≡ true
        → has x (split_whitespace original) ≡ true)
    → (k : String)
    → (Dict.get k (filter_claims scope (filter_claims original claims))
        ≡ Dict.get k (filter_claims scope claims))
      × ((Dict.get k (filter_claims scope claims) ≡ none) ⊎ IsReleased scope k)
unfolding filter_claims
filter_claims_lem scope original claims within k =
    let narrow = get-filter_keys (claim_allowed_by_scope scope) k in
    let wide = get-filter_keys (claim_allowed_by_scope original) k claims in
    (
      narrow (Dict.filter_keys (claim_allowed_by_scope original) claims)
          ∙ ground (arith, wide, narrow claims, claim_mono scope original k within),
      elim (Bool-cases (claim_allowed_by_scope scope k)) [
        | inl e ↦ inr (claim_allowed-IsReleased scope k e)
        | inr n ↦ inl (ground (arith, n, narrow claims))
      ],
    )
