-- ===== src/Http/Fresh.antt =====
-- src/http.rs: what bounds the lifetime of a fetched document.
use grindvakt.Prelude.{
  ℕ, ◌-◌, String, ◌≡◌, refl, List, [], ◌∷◌, Bool, true, false, not, ◌||◌, Option, none, some, any,
  unwrap_or, arith, Bool-cases, inl, inr, min, ◌⊎◌, sym, ◌∙◌,
}
use grindvakt.Prelude.Slices.{trim}
use grindvakt.Error.Scan.{quotes_balanced, split_unquoted_commas}
use grindvakt.Http.Fetch.{HttpFetchResponse, age, cache_control}
use grindvakt.Http.Lifetime.{
  name_value, forbids, next_max_age, lifetime_from, advertised_ttl, advertised_ttl_secs,
  cache_ttl_secs_max, remaining,
}

-- a directive without which the document may be kept: `no-store` or `no-cache`
abbrev pub is_forbidden : List String → Bool
is_forbidden = any (λ piece. forbids (name_value (trim piece)).0)

-- A quote is left open, or a directive forbids.
abbrev pub is_blocked : Option String → Bool
is_blocked none = false
is_blocked (some value) = not (quotes_balanced value) || is_forbidden (split_unquoted_commas value)

lifetime_from-is_forbidden :
    (max_age : Option ℕ) (pieces : List String)
    → is_forbidden pieces ≡ true
    → lifetime_from max_age pieces ≡ some 0
unfolding lifetime_from
lifetime_from-is_forbidden max_age [] h = cc
lifetime_from-is_forbidden max_age (piece ∷ pieces) h =
    ground
      (arith, h, lifetime_from-is_forbidden (next_max_age max_age (name_value (trim piece))) pieces)

advertised_ttl-is_blocked :
    (value : Option String) → is_blocked value ≡ true → advertised_ttl value ≡ some 0
unfolding advertised_ttl
advertised_ttl-is_blocked none h = cc
advertised_ttl-is_blocked (some value) h =
    ground (arith, h, lifetime_from-is_forbidden none (split_unquoted_commas value))

remaining-eq-some :
    (value : Option String) (old ceiling t : ℕ) (o : Option ℕ)
    → advertised_ttl value ≡ o
    → remaining ceiling old o ≡ some t
    → (ttl : ℕ) × (advertised_ttl value ≡ some ttl)
      × (t ≡ min (ttl - old) ceiling)
      × ((is_blocked value ≡ false) ⊎ (t ≡ 0))
unfolding remaining
remaining-eq-some value old ceiling t none e h = cc
remaining-eq-some value old ceiling t (some ttl) e h = (
  ttl,
  e,
  ground (arith, h),
  elim (Bool-cases (is_blocked value)) [
    | inl b ↦ inr (ground (arith, h, sym e ∙ advertised_ttl-is_blocked value b))
    | inr n ↦ inl n
  ],
)

-- The time for which a response may be kept is the advertised lifetime less the age of the
-- response, and at most the ceiling, and it is zero where a directive forbids keeping it or its
-- quotes are not balanced.
pub cache_ttl_secs_max_bounds :
    (r : HttpFetchResponse) (ceiling t : ℕ)
    → cache_ttl_secs_max r ceiling ≡ some t
    → (ttl : ℕ) × (advertised_ttl (cache_control r) ≡ some ttl)
      × (t ≡ min (ttl - unwrap_or 0 (age r)) ceiling)
      × ((is_blocked (cache_control r) ≡ false) ⊎ (t ≡ 0))
unfolding cache_ttl_secs_max advertised_ttl_secs
cache_ttl_secs_max_bounds r ceiling t h =
    remaining-eq-some (cache_control r) (unwrap_or 0 (age r)) ceiling t
      (advertised_ttl (cache_control r)) refl h
