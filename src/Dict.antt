-- ===== src/Dict.antt =====
-- `BTreeMap<String, V>` and `HashMap<String, V>`: an association list. No operation of the program
-- that is modelled depends on the order of a map's entries.
use grindvakt.Prelude.{
  String, ◌≡◌, refl, Bool, false, Option, none, some, List, [], ◌∷◌, arith, ◌==◌, eq_iff,
  if◌then◌else◌, keep, Bool-cases, has, has-congr, IsDistinct, map, ◌||◌, eq_refl, eq_of_test, ◌∙◌,
  inl, inr,
}

abbrev pub Dict {ℓ} : Type ℓ → Type ℓ
Dict V = List (String × V)

module _ {ℓ} {V : Type ℓ} where
  abbrev pub empty : Dict V
  empty = []

  -- `m.get(k)`
  unfoldable pub get : String → Dict V → Option V
  get k [] = none
  get k ((j, v) ∷ m) = if j == k then some v else get k m

  -- `m.insert(k, v)`
  unfoldable pub insert : String → V → Dict V → Dict V
  insert k v [] = (k, v) ∷ []
  insert k v ((j, w) ∷ m) = let rest = insert k v m in if j == k then (k, v) ∷ m else (j, w) ∷ rest

  -- `m.into_iter().filter(|(k, _)| p(k)).collect()`
  unfoldable pub filter_keys : (String → Bool) → Dict V → Dict V
  filter_keys p = keep (λ e. p e.0)

  pub get-insert :
      (k j : String) (v : V) (m : Dict V)
      → get j (insert k v m) ≡ (if k == j then some v else get j m)
  unfolding get insert
  get-insert k j v [] = refl
  get-insert k j v ((i, w) ∷ m) =
      ground (arith, eq_iff k j, eq_iff i k, eq_iff i j, get-insert k j v m)

  pub get-filter_keys :
      (p : String → Bool) (k : String) (m : Dict V)
      → get k (filter_keys p m) ≡ (if p k then get k m else none)
  unfolding get filter_keys
  get-filter_keys p k [] = ground arith
  get-filter_keys p k ((j, v) ∷ m) = elim (Bool-cases (j == k)) [
    | inl e ↦ rw ((eq_iff j k).0 e) (ground (arith, eq_iff k k, get-filter_keys p k m))
    | inr n ↦ ground (arith, get-filter_keys p k m)
  ]

abbrev pub keys {ℓ} : {V : Type ℓ} → Dict V → List String
keys m = map (λ e. e.0) m

-- No key stands twice, as in every map.
abbrev pub IsMap {ℓ} : {V : Type ℓ} → Dict V → Type 0
IsMap m = IsDistinct (keys m)

-- `o.filter(p)`
abbrev pub filter_option {ℓ} : {V : Type ℓ} → (V → Bool) → Option V → Option V
filter_option p none = none
filter_option p (some v) = if p v then some v else none

module _ {ℓ} {V : Type ℓ} where
  has-keys-insert :
      (k j : String) (v : V) (m : Dict V) → has j (keys (insert k v m)) ≡ (k == j || has j (keys m))
  unfolding insert
  has-keys-insert k j v [] = refl
  has-keys-insert k j v ((i, w) ∷ m) =
      ground (arith, eq_iff k j, eq_iff i k, eq_iff i j, has-keys-insert k j v m)

  has-keys-keep :
      (p : String × V → Bool) (j : String) (m : Dict V)
      → has j (keys m) ≡ false
      → has j (keys (keep p m)) ≡ false
  has-keys-keep p j [] h = refl
  has-keys-keep p j ((i, w) ∷ m) h = ground (arith, has-keys-keep p j m)

  pub get-eq-none : (k : String) (m : Dict V) → has k (keys m) ≡ false → get k m ≡ none
  unfolding get
  get-eq-none k [] h = refl
  get-eq-none k ((j, v) ∷ m) h = ground (arith, get-eq-none k m)

  kept_head :
      (p : String × V → Bool) (k : String) (v : V) (m : Dict V)
      → get k (keep p m) ≡ none
      → get k (keep p ((k, v) ∷ m)) ≡ (if p (k, v) then some v else none)
  unfolding get
  kept_head p k v m h = ground (arith, eq_refl k)

  kept_tail :
      (p : String × V → Bool) (k j : String) (v : V) (m : Dict V)
      → (j == k) ≡ false
      → get k (keep p ((j, v) ∷ m)) ≡ get k (keep p m)
  unfolding get
  kept_tail p k j v m h = ground arith

  pub insert-IsMap : (k : String) (v : V) (m : Dict V) → IsMap m → IsMap (insert k v m)
  unfolding insert
  insert-IsMap k v [] h = (refl, tt)
  insert-IsMap k v ((j, w) ∷ m) h = ground (
    arith,
    eq_iff j k,
    eq_iff k j,
    has-congr j k (keys m),
    has-keys-insert k j v m,
    insert-IsMap k v m h.1,
  )

  pub keep-IsMap : (p : String × V → Bool) (m : Dict V) → IsMap m → IsMap (keep p m)
  keep-IsMap p [] h = tt
  keep-IsMap p ((j, w) ∷ m) h = ground (arith, has-keys-keep p j m h.0, keep-IsMap p m h.1)

  pub get-keep :
      (p : String × V → Bool) (k : String) (m : Dict V)
      → IsMap m
      → get k (keep p m) ≡ filter_option (λ v. p (k, v)) (get k m)
  unfolding get
  get-keep p k [] h = refl
  get-keep p k ((j, v) ∷ m) h = elim (Bool-cases (j == k)) [
    | inl e ↦ rw (eq_of_test e) (
        rw (eq_refl k) (
          kept_head p k v m
            (get-eq-none k (keep p m) (has-keys-keep p k m (rw (eq_of_test e) at h.0)))))
    | inr n ↦ rw n (kept_tail p k j v m n ∙ get-keep p k m h.1)
  ]
