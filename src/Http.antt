-- ===== src/Http.antt =====
-- src/http.rs: the request that a handler takes, and the response that it produces.
pub mod Fetch
pub mod Lifetime
pub mod Fresh
mod Examples
use grindvakt.Prelude.{ℕ, String, List, [], ◌∷◌, ◌++◌, Option, none, some, if◌then◌else◌}
use grindvakt.Prelude.Text.{split_once, eq_ignore_ascii_case}
use grindvakt.Prelude.Slices.{trim}
use grindvakt.Dict
use grindvakt.Dict.{Dict}

-- `Response`; the body is a text of bytes
pub record Response : Type 0 where
  pub status : ℕ
  pub headers : List (String × String)
  pub body : String

-- `Response::new`
abbrev pub response : ℕ → Response
response status = record { status = status; headers = []; body = "" }

abbrev pub with_header : String → String → Response → Response
with_header name value r = record r { headers = r.headers ++ (name, value) ∷ [] }

abbrev pub with_body : String → Response → Response
with_body body r = record r { body = body }

-- `Response::redirect`
abbrev pub redirect : String → Response
redirect location = with_header "location" location (response 302)

-- `Response::html`, `Response::text`
abbrev pub html : String → Response
html body = with_body body (with_header "content-type" "text/html; charset=utf-8" (response 200))

abbrev pub text : ℕ → String → Response
text status body =
    with_body body (with_header "content-type" "text/plain; charset=utf-8" (response status))

-- `HttpRequestData`; the raw body is a list of bytes
pub record HttpRequestData : Type 0 where
  pub path : String
  pub method : String
  pub uri : String
  pub query_pairs : List (String × String)
  pub query : Dict String
  pub form_pairs : List (String × String)
  pub form : Dict String
  pub body : List ℕ
  pub headers : Dict String
  pub cookies : Dict String

or_else : Option String → Option String → Option String
or_else none b = b
or_else (some a) b = some a

pub param : HttpRequestData → String → Option String
unfolding or_else
param r key = or_else (Dict.get key r.query) (Dict.get key r.form)

pub authorization : HttpRequestData → Option String
authorization r = Dict.get "authorization" r.headers

bearer : Option (String × String) → Option String
bearer none = none
bearer (some (scheme, token)) =
    if eq_ignore_ascii_case scheme "Bearer" then some (trim token) else none

pub bearer_token : HttpRequestData → Option String
unfolding bearer authorization
bearer_token r = elim (authorization r) [ none ↦ none | some auth ↦ bearer (split_once b' ' auth) ]
