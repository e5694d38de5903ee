-- ===== src/Error/Pieces.antt =====
-- src/error.rs: what the pieces of a header value are.
use Prim.Native.Char.{Char, code}
use Prim.Native.String.{[], ◌∷◌}
use text.Mathlib.TextLemmas.{nil-append, cons-append}
use text.Mathlib.TextEquality.{Char-path}
use grindvakt.Prelude.{
  ℕ, String, ◌≡◌, refl, ap, ◌∙◌, List, Bool, true, false, not, ◌&&◌, ◌≢◌, arith, Bool-cases, inl,
  inr, all, sym, ap₂,
}
use grindvakt.Prelude.Text.{push_front, join, ◌<>◌}
use grindvakt.Error.Scan.{
  next_quotes, next_escaped, ends_piece, pieces_from, split_unquoted_commas, balanced_from,
  quotes_balanced,
}

-- A first piece that grows grows the joined text.
join-push_front :
    (sep : String) (c : Char) (ws : List String)
    → ws ≢ List.[]
    → join sep (push_front c ws) ≡ c ∷ join sep ws
unfolding join push_front
join-push_front sep c List.[] n = absurd (n refl)
join-push_front sep c (List.◌∷◌ w List.[]) n = refl
join-push_front sep c (List.◌∷◌ w (List.◌∷◌ v ws)) n = cons-append c w _

join-single : (sep w : String) → join sep (List.◌∷◌ w List.[]) ≡ w
unfolding join
join-single sep w = refl

join-empty :
    (sep : String) (ws : List String)
    → ws ≢ List.[]
    → join sep (List.◌∷◌ "" ws) ≡ sep <> join sep ws
unfolding join
join-empty sep List.[] n = absurd (n refl)
join-empty sep (List.◌∷◌ w ws) n = nil-append _

push_front-ne : (c : Char) (ws : List String) → push_front c ws ≢ List.[]
unfolding push_front
push_front-ne c List.[] h = cc
push_front-ne c (List.◌∷◌ w ws) h = cc

pieces_from-ne : (q e : Bool) (s : String) → pieces_from q e s ≢ List.[]
unfolding pieces_from
pieces_from-ne q e [] h = cc
pieces_from-ne q e (c ∷ s) h = elim (Bool-cases (ends_piece q e (code c))) [
  | inl cut ↦ cc (rw cut at h)
  | inr n ↦ push_front-ne c _ (rw n at h)
]

abbrev comma : Char
comma = ","

comma_lem : (q e : Bool) (c : Char) → ends_piece q e (code c) ≡ true → comma ≡ c
unfolding ends_piece
comma_lem q e c h = Char-path _ c (ground (arith, h))

join-pieces_from : (q e : Bool) (s : String) → join "," (pieces_from q e s) ≡ s
unfolding pieces_from
join-pieces_from q e [] = join-single "," ""
join-pieces_from q e (c ∷ s) =
    let q' = next_quotes q e (code c) in
    let e' = next_escaped q e (code c) in
    elim (Bool-cases (ends_piece q e (code c))) [
      | inl cut ↦ rw cut (
          join-empty "," (pieces_from q' e' s) (pieces_from-ne q' e' s)
          ∙ cons-append comma "" _
          ∙ ap (λ t. comma ∷ t) (nil-append _ ∙ join-pieces_from q' e' s)
          ∙ ap (λ d. d ∷ s) (comma_lem q e c cut))
      | inr n ↦ rw n (
          join-push_front "," c (pieces_from q' e' s) (pieces_from-ne q' e' s)
          ∙ ap (λ t. c ∷ t) (join-pieces_from q' e' s))
    ]

-- The first piece goes on from the state, the others begin outside of quotes.
abbrev balanced_pieces : Bool → Bool → List String → Bool
balanced_pieces q e List.[] = true
balanced_pieces q e (List.◌∷◌ w ws) = balanced_from q e w && all quotes_balanced ws

balanced_pieces_outside :
    (ws : List String) → balanced_pieces false false ws ≡ all quotes_balanced ws
unfolding quotes_balanced
balanced_pieces_outside List.[] = refl
balanced_pieces_outside (List.◌∷◌ w ws) = refl

balanced_pieces-push_front :
    (q e : Bool) (c : Char) (ws : List String)
    → ws ≢ List.[]
    → balanced_pieces q e (push_front c ws)
      ≡ balanced_pieces (next_quotes q e (code c)) (next_escaped q e (code c)) ws
unfolding push_front balanced_from
balanced_pieces-push_front q e c List.[] n = absurd (n refl)
balanced_pieces-push_front q e c (List.◌∷◌ w ws) n = refl

cut_state :
    (q e : Bool) (c : ℕ)
    → ends_piece q e c ≡ true
    → (q ≡ false) × (next_quotes q e c ≡ false) × (next_escaped q e c ≡ false)
unfolding ends_piece next_quotes next_escaped
cut_state q e c h = ground (arith, h)

balanced_pieces-pieces_from :
    (q e : Bool) (s : String) → balanced_pieces q e (pieces_from q e s) ≡ balanced_from q e s
unfolding pieces_from balanced_from
balanced_pieces-pieces_from q e [] = ground arith
balanced_pieces-pieces_from q e (c ∷ s) =
    let q' = next_quotes q e (code c) in
    let e' = next_escaped q e (code c) in
    let rest = balanced_pieces-pieces_from q' e' s in
    elim (Bool-cases (ends_piece q e (code c))) [
      | inl cut ↦
          let (outside, q'-false, e'-false) = cut_state q e (code c) cut in
          let pieces = pieces_from q' e' s in
          let same =
            ap₂ (λ x y. balanced_pieces x y pieces) q'-false e'-false
            ∙ balanced_pieces_outside pieces in
          rw cut (ap (λ b. not b && all quotes_balanced pieces) outside ∙ sym same ∙ rest)
      | inr n ↦
          rw n
            (balanced_pieces-push_front q e c (pieces_from q' e' s) (pieces_from-ne q' e' s) ∙ rest)
    ]

-- The pieces of a header value, joined by commas, are the value, and the quotes are balanced in
-- all of the pieces exactly if they are in the value.
pub split_unquoted_commas_lem :
    (value : String)
    → (join "," (split_unquoted_commas value) ≡ value)
      × (all quotes_balanced (split_unquoted_commas value) ≡ quotes_balanced value)
unfolding split_unquoted_commas quotes_balanced
split_unquoted_commas_lem value = (
  join-pieces_from false false value,
  sym (balanced_pieces_outside (pieces_from false false value))
      ∙ balanced_pieces-pieces_from false false value,
)
