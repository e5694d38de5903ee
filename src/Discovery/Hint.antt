-- ===== src/Discovery/Hint.antt =====
-- src/discovery.rs: promotion of a hinted entity.
use Prim.Native.Char.{Char, code}
use Prim.Native.String.{[], ◌∷◌}
use text.Mathlib.TextLemmas.{nil-append, cons-append}
use text.Mathlib.TextEquality.{Char-path}
use grindvakt.Prelude.{
  ℕ, zero, suc, String, ◌≡◌, ◌↔◌, refl, sym, ap, ap₂, ◌∙◌, List, ◌++◌, Bool, true, false, Option,
  none, some, All, arith, Bool-cases, ◌⊎◌, inl, inr, nat_eq, eq_iff, if◌then◌else◌, ◌&&◌,
}
use grindvakt.Prelude.Text.{◌<>◌, is_empty}
use grindvakt.Prelude.Slices.{trim_end_matches}
use grindvakt.Federation.Collection.{CollectionEntity}
use grindvakt.Discovery.{entity_id_eq, take_out, promoted, promote_hint}

abbrev slash : Char
slash = "/"

-- that many slashes
abbrev pub slashes : ℕ → String
slashes zero = []
slashes (suc n) = slash ∷ slashes n

-- Two identifiers are one text, followed in each by any number of slashes.
abbrev pub IsSame : String → String → Type 0
IsSame a b = (base : String) × (m : ℕ) × (n : ℕ) × (a ≡ base <> slashes m) × (b ≡ base <> slashes n)

abbrev trimmed : String → String
trimmed = trim_end_matches (λ c. nat_eq c b'/')

trimmed-slashes : (n : ℕ) → is_empty (trimmed (slashes n)) ≡ true
unfolding trim_end_matches
trimmed-slashes zero = refl
trimmed-slashes (suc n) = ground (arith, trimmed-slashes n)

empty_lem : (s : String) → is_empty s ≡ true → s ≡ []
empty_lem [] h = refl
empty_lem (c ∷ s) h = cc

trimmed-append : (base : String) (n : ℕ) → trimmed (base <> slashes n) ≡ trimmed base
unfolding trim_end_matches
trimmed-append [] n = ap trimmed (nil-append (slashes n)) ∙ empty_lem _ (trimmed-slashes n)
trimmed-append (c ∷ s) n =
    ap trimmed (cons-append c s (slashes n))
    ∙ ap (λ r. if is_empty r && nat_eq (code c) b'/' then [] else c ∷ r) (trimmed-append s n)

trimmed_lem : (s : String) → (n : ℕ) × (s ≡ trimmed s <> slashes n)
unfolding trim_end_matches
trimmed_lem [] = (0, sym (nil-append []))
trimmed_lem (c ∷ s) =
    let (n, e) = trimmed_lem s in
    elim (Bool-cases (is_empty (trimmed s) && nat_eq (code c) b'/')) [
      | inl t ↦
          let all_slashes : s ≡ slashes n =
            e
            ∙ ap (λ r. r <> slashes n) (empty_lem (trimmed s) (ground (arith, t)))
            ∙ nil-append (slashes n) in
          let same : c ≡ slash = Char-path c slash (ground (arith, t)) in
          (suc n, ap₂ (λ x r. x ∷ r) same all_slashes ∙ rw t (sym (nil-append (slashes (suc n)))))
      | inr t ↦ (n, ap (λ r. c ∷ r) e ∙ rw t (sym (cons-append c (trimmed s) (slashes n))))
    ]

-- The comparison holds exactly between identifiers that differ in slashes at their ends alone.
entity_id_eq_iff : (a b : String) → (entity_id_eq a b ≡ true) ↔ IsSame a b
unfolding entity_id_eq
entity_id_eq_iff a b = (
  λ h.
      let (m, e) = trimmed_lem a in
      let (n, f) = trimmed_lem b in
      (
        trimmed a,
        m,
        n,
        e,
        f ∙ ap (λ r. r <> slashes n) (sym ((eq_iff (trimmed a) (trimmed b)).0 h)),
      ),
  λ (base, m, n, e, f).
      (eq_iff (trimmed a) (trimmed b)).1
        (ap trimmed e ∙ trimmed-append base m ∙ sym (trimmed-append base n) ∙ ap trimmed (sym f)),
)

-- No entity of the list is the hinted one.
abbrev pub IsUnnamed : String → List CollectionEntity → Type 0
IsUnnamed hint = All (λ (e : CollectionEntity). ¬ (IsSame e.entity_id hint))

-- The first entity that is the hinted one, between those before and those behind it.
pub record IsFirst (hint : String) (es : List CollectionEntity) (found : CollectionEntity)
    (others : List CollectionEntity) : Type 0 where
  pub before : List CollectionEntity
  pub behind : List CollectionEntity
  pub listed : es ≡ before ++ List.◌∷◌ found behind
  pub kept : others ≡ before ++ behind
  pub unnamed : IsUnnamed hint before
  pub named : IsSame found.entity_id hint

abbrev IsTaken :
    String → List CollectionEntity → Option (CollectionEntity × List CollectionEntity) → Type 0
IsTaken hint es none = IsUnnamed hint es
IsTaken hint es (some (found, others)) = IsFirst hint es found others

IsTaken-behind :
    (hint : String) (e : CollectionEntity) (es : List CollectionEntity)
    (o : Option (CollectionEntity × List CollectionEntity))
    → ¬ (IsSame e.entity_id hint)
    → IsTaken hint es o
    → IsTaken hint
        (List.◌∷◌ e es)
        (elim o [ none ↦ none | some (found, others) ↦ some (found, List.◌∷◌ e others) ])
IsTaken-behind hint e es none n t = (n, t)
IsTaken-behind hint e es (some (found, others)) n t = record {
  before = List.◌∷◌ e t.before;
  behind = t.behind;
  listed = ap (λ x. List.◌∷◌ e x) t.listed;
  kept = ap (λ x. List.◌∷◌ e x) t.kept;
  unnamed = (n, t.unnamed);
  named = t.named;
}

take_out-IsTaken : (hint : String) (es : List CollectionEntity) → IsTaken hint es (take_out hint es)
unfolding take_out
take_out-IsTaken hint List.[] = tt
take_out-IsTaken hint (List.◌∷◌ e es) = elim (Bool-cases (entity_id_eq e.entity_id hint)) [
  | inl m ↦ rw m (record {
    before = List.[];
    behind = es;
    listed = refl;
    kept = refl;
    unnamed = tt;
    named = (entity_id_eq_iff e.entity_id hint).0 m;
  })
  | inr n ↦
      let differs : ¬ (IsSame e.entity_id hint) =
        λ same. cc (n, (entity_id_eq_iff e.entity_id hint).1 same) in
      rw n (IsTaken-behind hint e es (take_out hint es) differs (take_out-IsTaken hint es))
]

-- What promoting a hint makes of a list.
abbrev pub IsPromoted : String → List CollectionEntity → List CollectionEntity × Bool → Type 0
IsPromoted hint es r =
    (IsUnnamed hint es × (r ≡ (es, false)))
    ⊎ ((found : CollectionEntity) × (others : List CollectionEntity) × IsFirst hint es found others
        × (r ≡ (List.◌∷◌ found others, true)))

promoted-IsPromoted :
    (hint : String) (es : List CollectionEntity)
    (o : Option (CollectionEntity × List CollectionEntity))
    → IsTaken hint es o
    → IsPromoted hint es (promoted o es)
unfolding promoted
promoted-IsPromoted hint es none t = inl (t, refl)
promoted-IsPromoted hint es (some (found, others)) t = inr (found, others, t, refl)

-- Promoting a hint either finds no entity with the hinted identifier, changes nothing and says
-- so, or moves the first such entity to the front, keeps all others in their order and says that
-- one was found. Two identifiers are the same if they are one text, followed in each by any
-- number of slashes.
pub promote_hint-IsPromoted :
    (entities : List CollectionEntity) (hint : String)
    → IsPromoted hint entities (promote_hint entities hint)
unfolding promote_hint
promote_hint-IsPromoted entities hint =
    promoted-IsPromoted hint entities (take_out hint entities) (take_out-IsTaken hint entities)
