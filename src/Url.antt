-- ===== src/Url.antt =====
-- The `url` crate: a parsed URL, and what the program reads of it.
use grindvakt.Prelude.{String, Bool, List, Option}
use grindvakt.Result.{Result}

pub record Url : Type 0 where
  pub scheme : String
  pub host_str : Option String
  pub username : String
  pub password : Option String
  pub query : Option String
  pub fragment : Option String
  pub query_pairs : List (String × String)
  pub as_str : String

-- `Url::parse`, `form_urlencoded::byte_serialize`, `form_urlencoded::parse`, the replacement of a
-- query by pairs appended to it, and `parse::<IpAddr>()` with `is_loopback`
pub record UrlLibrary : Type 0 where
  pub parse : String → Result String Url
  pub byte_serialize : String → String
  pub form_parse : String → List (String × String)
  pub append_pairs : List (String × String) → Url → String
  pub ip_is_loopback : String → Option Bool
