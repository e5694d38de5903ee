-- ===== src/Error/Scan.antt =====
-- src/error.rs: commas and quotes in a header value.
use Prim.Native.Char.{code}
use Prim.Native.String.{[], ◌∷◌}
use grindvakt.Prelude.{ℕ, String, List, Bool, false, not, ◌&&◌, nat_eq, if◌then◌else◌}
use grindvakt.Prelude.Text.{push_front}

-- The two flags of the loops, `in_quotes` and `escaped`, after the character `c`.
unfoldable pub next_quotes : Bool → Bool → ℕ → Bool
next_quotes quoted escaped c =
    if escaped
    then quoted
    else if quoted && nat_eq c b'\\'
    then quoted
    else if nat_eq c b'"'
    then not quoted
    else quoted

unfoldable pub next_escaped : Bool → Bool → ℕ → Bool
next_escaped quoted escaped c = not escaped && quoted && nat_eq c b'\\'

-- whether a piece ends before `c`
unfoldable pub ends_piece : Bool → Bool → ℕ → Bool
ends_piece quoted escaped c = not escaped && not quoted && nat_eq c b','

-- The loop of `split_unquoted_commas` from a state on: the pieces of what is left.
unfoldable pub pieces_from : Bool → Bool → String → List String
unfolding next_quotes next_escaped ends_piece push_front
pieces_from quoted escaped [] = List.◌∷◌ [] List.[]
pieces_from quoted escaped (c ∷ s) =
    let rest =
      pieces_from (next_quotes quoted escaped (code c)) (next_escaped quoted escaped (code c)) s in
    if ends_piece quoted escaped (code c) then List.◌∷◌ [] rest else push_front c rest

unfoldable pub split_unquoted_commas : String → List String
unfolding pieces_from
split_unquoted_commas value = pieces_from false false value

-- The loop of `quotes_balanced` from a state on.
unfoldable pub balanced_from : Bool → Bool → String → Bool
unfolding next_quotes next_escaped
balanced_from quoted escaped [] = not quoted
balanced_from quoted escaped (c ∷ s) =
    balanced_from (next_quotes quoted escaped (code c)) (next_escaped quoted escaped (code c)) s

unfoldable pub quotes_balanced : String → Bool
unfolding balanced_from
quotes_balanced value = balanced_from false false value
