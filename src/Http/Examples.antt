-- ===== src/Http/Examples.antt =====
-- A response with cache directives of src/http.rs.
use grindvakt.Prelude.{ℕ, ◌-◌, ◌≡◌, refl, [], ◌∷◌, none, some, unwrap_or, min, ◌⊎◌, false}
use grindvakt.Http.Fetch.{HttpFetchResponse, age, cache_control}
use grindvakt.Http.Lifetime.{advertised_ttl, cache_ttl_secs_max}
use grindvakt.Http.Fresh.{is_blocked, cache_ttl_secs_max_bounds}

abbrev kept : HttpFetchResponse
kept = record {
  status = 200;
  body = [];
  content_type = none;
  headers = ("cache-control", "public, max-age=\"600\"") ∷ ("age", " 100 ") ∷ [];
}

abbrev limit : ℕ
limit = 400

cache_ttl_secs_max_bounds_example :
    (ttl : ℕ) × (advertised_ttl (cache_control kept) ≡ some ttl)
    × (limit ≡ min (ttl - unwrap_or 0 (age kept)) limit)
    × ((is_blocked (cache_control kept) ≡ false) ⊎ (limit ≡ 0))
unfolding cache_ttl_secs_max cache_control grindvakt.Prelude.Text.eq_ignore_ascii_case
    grindvakt.Error.Scan.quotes_balanced grindvakt.Prelude.Text.join
    grindvakt.Error.Scan.split_unquoted_commas grindvakt.Prelude.Text.split_once
    grindvakt.Prelude.Slices.trim grindvakt.Http.Fetch.seconds_of grindvakt.Prelude.Text.all_chars
    grindvakt.Prelude.Slices.decimal_from age
cache_ttl_secs_max_bounds_example = cache_ttl_secs_max_bounds kept limit limit refl
