-- ===== src/Http/Lifetime.antt =====
-- src/rp.rs and src/http.rs: how long a fetched document may be kept.
use grindvakt.Prelude.{
  ℕ, ◌-◌, String, List, [], ◌∷◌, Bool, not, ◌&&◌, ◌||◌, Option, none, some, is_some, unwrap_or, min,
  nat_eq, if◌then◌else◌,
}
use grindvakt.Prelude.Text.{eq_ignore_ascii_case, split_once}
use grindvakt.Prelude.Slices.{trim, trim_start_matches, trim_end_matches}
use grindvakt.Error.Scan.{quotes_balanced, split_unquoted_commas}
use grindvakt.Http.Fetch.{HttpFetchResponse, age, cache_control, seconds_of}

-- the name of a directive and its value
unfoldable pub name_value : String → String × Option String
name_value directive = elim (split_once b'=' directive) [
  | some (n, v) ↦ (trim n, some (trim v))
  | none ↦ (directive, none)
]

abbrev pub forbids : String → Bool
forbids name = eq_ignore_ascii_case name "no-store" || eq_ignore_ascii_case name "no-cache"

max_age_value : Option String → Option ℕ
max_age_value none = none
max_age_value (some v) =
    seconds_of (trim_end_matches (λ c. nat_eq c b'"') (trim_start_matches (λ c. nat_eq c b'"') v))

-- `max_age` after a directive
unfoldable pub next_max_age : Option ℕ → String × Option String → Option ℕ
unfolding max_age_value
next_max_age max_age (name, value) =
    if not (is_some max_age) && eq_ignore_ascii_case name "max-age"
    then max_age_value value
    else max_age

-- The loop over the directives.
unfoldable pub lifetime_from : Option ℕ → List String → Option ℕ
unfolding name_value next_max_age
lifetime_from max_age [] = max_age
lifetime_from max_age (piece ∷ pieces) =
    let directive = name_value (trim piece) in
    let rest = lifetime_from (next_max_age max_age directive) pieces in
    if forbids directive.0 then some 0 else rest

unfoldable pub advertised_ttl : Option String → Option ℕ
unfolding lifetime_from
advertised_ttl none = none
advertised_ttl (some value) =
    if not (quotes_balanced value) then some 0 else lifetime_from none (split_unquoted_commas value)

-- `HttpFetchResponse::advertised_ttl_secs`
unfoldable pub advertised_ttl_secs : HttpFetchResponse → Option ℕ
unfolding advertised_ttl
advertised_ttl_secs r = advertised_ttl (cache_control r)

-- what is left of a lifetime at an age
unfoldable pub remaining : ℕ → ℕ → Option ℕ → Option ℕ
remaining ceiling old none = none
remaining ceiling old (some ttl) = some (min (ttl - old) ceiling)

-- `cache_ttl_secs_max`
unfoldable pub cache_ttl_secs_max : HttpFetchResponse → ℕ → Option ℕ
unfolding remaining advertised_ttl_secs
cache_ttl_secs_max r ceiling = remaining ceiling (unwrap_or 0 (age r)) (advertised_ttl_secs r)
