-- ===== src/Error/Challenge.antt =====
-- src/error.rs: the parser of `WWW-Authenticate` header values.
use Prim.Native.Char.{code}
use Prim.Native.String.{[], ◌∷◌}
use grindvakt.Prelude.{
  ℕ, String, List, Bool, true, false, not, ◌&&◌, ◌||◌, Option, none, some, nat_eq, is_some,
  if◌then◌else◌, ◌++◌,
}
use grindvakt.Prelude.Text.{is_empty, any_char, eq_ignore_ascii_case}
use grindvakt.Prelude.Slices.{
  trim, trim_start, break_at, strip_char, starts_with_char, is_ascii_whitespace, trim_start_matches,
}
use grindvakt.Error.Scan.{split_unquoted_commas}

-- The loop over a quoted value: the value, and what follows the closing quote.
unfoldable pub quoted_value : Bool → String → Option (String × String)
quoted_value escaped [] = none
quoted_value escaped (c ∷ s) =
    let rest = quoted_value (not escaped && nat_eq (code c) b'\\') s in
    if not escaped && nat_eq (code c) b'"'
    then some ([], s)
    else if not escaped && nat_eq (code c) b'\\'
    then rest
    else elim rest [ none ↦ none | some (value, after) ↦ some (c ∷ value, after) ]

abbrev ends_name : ℕ → Bool
ends_name c = nat_eq c b'=' || is_ascii_whitespace c

-- A quoted value that nothing follows.
closed_value : Option (String × String) → Option String
closed_value none = none
closed_value (some (value, after)) = if is_empty (trim after) then some value else none

-- the first word
first_token : String → Option String
first_token rest =
    let word = (break_at is_ascii_whitespace (trim_start_matches is_ascii_whitespace rest)).0 in
    if is_empty word then none else some word

param_value : String → Option String
unfolding closed_value first_token
param_value rest = elim (strip_char b'"' rest) [
  | some quoted ↦ closed_value (quoted_value false quoted)
  | none ↦ first_token rest
]

-- what follows the name
named : String → Option String → Option (String × String)
named name none = none
named name (some rest) =
    if is_empty name
    then none
    else elim (param_value (trim_start rest)) [ none ↦ none | some value ↦ some (name, value) ]

unfoldable pub parse_auth_param : String → Option (String × String)
unfolding named param_value
parse_auth_param text =
    let (name, rest) = break_at ends_name (trim text) in
    if is_empty rest then none else named name (strip_char b'=' (trim_start rest))

-- `Challenge`
pub record Challenge : Type 0 where
  pub scheme : String
  pub params : List (String × String)
  pub malformed : Bool

-- `match parse_auth_param(..) { Some(param) => push, None => malformed = true }`
add_param : Option (String × String) → Challenge → Challenge
add_param none c = record c { malformed = true }
add_param (some param) c = record c { params = c.params ++ List.◌∷◌ param List.[] }

-- `last_mut`
on_last : (Challenge → Challenge) → List Challenge → List Challenge
on_last f List.[] = List.[]
on_last f (List.◌∷◌ c List.[]) = List.◌∷◌ (f c) List.[]
on_last f (List.◌∷◌ c (List.◌∷◌ d cs)) = List.◌∷◌ c (on_last f (List.◌∷◌ d cs))

-- One round of the first loop, on a trimmed piece.
add_piece : List Challenge → String → List Challenge
unfolding add_param on_last
add_piece challenges text =
    let (first, rest) = break_at ends_name text in
    let after_first = trim_start rest in
    let fresh : Challenge = record { scheme = first; params = List.[]; malformed = false } in
    if is_empty text
    then challenges
    else if starts_with_char b'=' after_first
    then on_last (add_param (parse_auth_param text)) challenges
    else if any_char (λ c. nat_eq c b'=') after_first
    then challenges ++ List.◌∷◌ (add_param (parse_auth_param after_first) fresh) List.[]
    else challenges ++ List.◌∷◌ fresh List.[]

unfoldable pub challenges_from : List Challenge → List String → List Challenge
unfolding add_piece
challenges_from challenges List.[] = challenges
challenges_from challenges (List.◌∷◌ piece pieces) =
    challenges_from (add_piece challenges (trim piece)) pieces

-- the value of the first parameter of that name
find_param : String → List (String × String) → Option String
find_param key List.[] = none
find_param key (List.◌∷◌ (name, value) params) =
    if eq_ignore_ascii_case name key then some value else find_param key params

abbrev is_usable : Challenge → Bool
is_usable c =
    not c.malformed
    && (eq_ignore_ascii_case c.scheme "bearer" || eq_ignore_ascii_case c.scheme "dpop")

-- The second loop.
unfoldable pub first_error : List Challenge → Option (Option String × Option String)
unfolding find_param
first_error List.[] = none
first_error (List.◌∷◌ c cs) =
    let error = find_param "error" c.params in
    let description = find_param "error_description" c.params in
    let rest = first_error cs in
    if is_usable c && (is_some error || is_some description)
    then some (error, description)
    else rest

unfoldable pub parse_www_authenticate_bearer : String → Option (Option String × Option String)
unfolding challenges_from first_error
parse_www_authenticate_bearer value =
    first_error (challenges_from List.[] (split_unquoted_commas value))
