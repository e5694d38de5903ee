-- ===== src/Http/Fetch.antt =====
-- src/http.rs: the response to an outgoing request.
use grindvakt.Prelude.{
  ℕ, String, List, [], ◌∷◌, ◌++◌, map, keep, not, ◌&&◌, Option, none, some, is_some, ◌-◌, ltb,
  if◌then◌else◌, ◌==◌,
}
use grindvakt.Prelude.Text.{is_empty, all_chars, eq_ignore_ascii_case, join}
use grindvakt.Prelude.Slices.{trim, to_ascii_lowercase, is_digit, decimal_from}
use grindvakt.Prelude.Words.{u64_mod}

-- `HttpFetchResponse`; the body is a list of bytes
pub record HttpFetchResponse : Type 0 where
  pub status : ℕ
  pub body : List ℕ
  pub content_type : Option String
  pub headers : List (String × String)

-- `HttpFetchResponse::new`
pub fetch_response : ℕ → List ℕ → HttpFetchResponse
fetch_response status body = record {
  status = status;
  body = body;
  content_type = none;
  headers = [];
}

pub with_header : String → String → HttpFetchResponse → HttpFetchResponse
with_header name value r = record r {
  content_type =
      if to_ascii_lowercase name == "content-type" && not (is_some r.content_type)
      then some value
      else r.content_type;
  headers = r.headers ++ (to_ascii_lowercase name, value) ∷ [];
}

unfoldable pub header_values : HttpFetchResponse → String → List String
header_values r name = map (λ h. h.1) (keep (λ h. eq_ignore_ascii_case h.0 name) r.headers)

first : List String → Option String
first [] = none
first (v ∷ vs) = some v

unfoldable pub header : HttpFetchResponse → String → Option String
unfolding first header_values
header r name = first (header_values r name)

joined : List String → Option String
joined [] = none
joined (v ∷ vs) = some (join ", " (v ∷ vs))

unfoldable pub cache_control : HttpFetchResponse → Option String
unfolding joined header_values
cache_control r = joined (header_values r "cache-control")

-- `v.parse::<u64>().unwrap_or(u64::MAX)` on a text of digits
unfoldable pub saturating_parse : String → ℕ
saturating_parse v = let n = decimal_from 0 v in if ltb n u64_mod then n else u64_mod - 1

-- a text of at least one digit, as a number
unfoldable pub seconds_of : String → Option ℕ
unfolding saturating_parse
seconds_of v = if not (is_empty v) && all_chars is_digit v then some (saturating_parse v) else none

unfoldable pub age : HttpFetchResponse → Option ℕ
unfolding header seconds_of
age r = elim (header r "age") [ none ↦ none | some v ↦ seconds_of (trim v) ]
