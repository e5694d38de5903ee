-- ===== src/Client/Expiry.antt =====
-- src/client.rs: the store refines a map whose entries end at a moment of their own.
use grindvakt.Prelude.{
  ℕ, ◌≤◌, String, ◌≡◌, refl, sym, ap, ap₂, ◌∙◌, Bool, true, not, List, [], ◌∷◌, Option, none, some,
  arith, ◌==◌, leb, if◌then◌else◌, Bool-cases, eq_of_test, inl, inr, Option-cases,
}
use grindvakt.Prelude.Words.{add_u64}
use grindvakt.Dict
use grindvakt.Dict.{
  Dict, IsMap, keep-IsMap, insert-IsMap, get-insert, get-keep, get-filter_keys, filter_option,
}
use grindvakt.Client.{
  Client, Entry, InMemoryClientStore, expired, remove, get_entry, get, put, retain_live,
  put_with_ttl,
}

-- The registrations by client and moment: what a lookup at that moment finds.
abbrev pub Registry : Type 0 → Type 0
Registry J = String → ℕ → Option (Client J)

-- An operation and the time that its clock shows.
pub data Operation (J : Type 0) : Type 0 where
  look : ℕ → String → Operation J
  keep_forever : ℕ → Client J → Operation J
  keep_for : ℕ → Client J → ℕ → Operation J

abbrev time : {J : Type 0} → Operation J → ℕ
time (look now k) = now
time (keep_forever now c) = now
time (keep_for now c ttl) = now

module _ {J : Type 0} where
  abbrev pub visible : ℕ → Option (Entry J) → Option (Client J)
  visible now none = none
  visible now (some e) = if expired now e.expires_at then none else some e.client

  abbrev pub view : InMemoryClientStore J → Registry J
  view store k now = visible now (Dict.get k store)

  -- the operations on registries
  pub register : Client J → Registry J → Registry J
  register c a k now = if c.client_id == k then some c else a k now

  pub register_until : Client J → ℕ → Registry J → Registry J
  register_until c end a k now =
      if c.client_id == k then (if leb end now then none else some c) else a k now

  -- The answers of the lookups of a history, by the store and by the registry.
  pub answers : List (Operation J) → InMemoryClientStore J → List (Option (Client J))
  answers [] s = []
  answers (look now k ∷ ops) s = let (answer, s') = get now k s in answer ∷ answers ops s'
  answers (keep_forever now c ∷ ops) s = answers ops (put c s)
  answers (keep_for now c ttl ∷ ops) s = answers ops (put_with_ttl now c ttl s)

  pub expected : List (Operation J) → Registry J → List (Option (Client J))
  expected [] a = []
  expected (look now k ∷ ops) a = a k now ∷ expected ops a
  expected (keep_forever now c ∷ ops) a = expected ops (register c a)
  expected (keep_for now c ttl ∷ ops) a = expected ops (register_until c (add_u64 now ttl) a)

  -- The clock does not go back.
  abbrev pub IsOrdered : ℕ → List (Operation J) → Type 0
  IsOrdered t [] = Unit
  IsOrdered t (op ∷ ops) = (t ≤ time op) × IsOrdered (time op) ops

  -- From `t` on the store shows what the registry holds.
  pub record Shows (t : ℕ) (s : InMemoryClientStore J) (a : Registry J) : Type 0 where
    pub is_map : IsMap s
    pub same : (k : String) (now : ℕ) → t ≤ now → view s k now ≡ a k now

  get-answer : (now : ℕ) (k : String) (s : InMemoryClientStore J) → (get now k s).0 ≡ view s k now
  unfolding get
  get-answer now k s = elim (Option-cases (Dict.get k s)) [
    | inl e ↦ rw e refl
    | inr (x, e) ↦ rw e (ground arith)
  ]

  expired-visible :
      (now t : ℕ) (x : Entry J)
      → expired now x.expires_at ≡ true
      → now ≤ t
      → visible t (some x) ≡ none
  unfolding expired
  expired-visible now t x dead le = ground arith

  remove-visible :
      (k j : String) (now t : ℕ) (s : InMemoryClientStore J) (x : Entry J)
      → Dict.get k s ≡ some x
      → expired now x.expires_at ≡ true
      → now ≤ t
      → visible t (Dict.get j (remove k s)) ≡ visible t (Dict.get j s)
  unfolding remove expired
  remove-visible k j now t s x e dead le = rw get-filter_keys (elim (Bool-cases (j == k)) [
    | inl same ↦ rw same (
        sym (
          ap (visible t) (ap (λ i. Dict.get i s) (eq_of_test same) ∙ e)
          ∙ expired-visible now t x dead le))
    | inr differs ↦ rw differs refl
  ])

  get-Shows :
      (now : ℕ) (k : String) {t : ℕ} {s : InMemoryClientStore J} {a : Registry J}
      → Shows t s a
      → t ≤ now
      → Shows now (get now k s).1 a
  unfolding get Dict.filter_keys
  get-Shows now k {t} {s} {a} h le = elim (Option-cases (Dict.get k s)) [
    | inl e ↦ rw e (record { is_map = h.is_map; same = λ j n m. h.same j n (omega arith) })
    | inr (x, e) ↦ elim (Bool-cases (expired now x.expires_at)) [
      | inl dead ↦
          rw (e, get_entry)
            (rw dead (record {
              is_map = keep-IsMap _ s h.is_map;
              same = λ j n m. remove-visible k j now n s x e dead m ∙ h.same j n (omega arith);
            }))
      | inr alive ↦
          rw (e, get_entry)
            (rw alive (record { is_map = h.is_map; same = λ j n m. h.same j n (omega arith) }))
    ]
  ]

  put-Shows :
      (now : ℕ) (c : Client J) {t : ℕ} {s : InMemoryClientStore J} {a : Registry J}
      → Shows t s a
      → t ≤ now
      → Shows now (put c s) (register c a)
  unfolding put register expired
  put-Shows now c {t} {s} {a} h le = record {
    is_map = insert-IsMap c.client_id _ s h.is_map;
    same = λ k n m. rw get-insert (ground (arith, h.same k n));
  }

  -- What the sweep drops was not to be seen any more.
  until_visible :
      (b : Bool) (now n : ℕ) (o : Option (Entry J)) (x : Entry J) (v : Option (Client J))
      → now ≤ n
      → visible n o ≡ v
      → visible n (if b then some x else filter_option (λ e. not (expired now e.expires_at)) o)
        ≡ (if b then visible n (some x) else v)
  unfolding expired
  until_visible b now n none x v m h = ground arith
  until_visible b now n (some y) x v m h = ground arith

  put_with_ttl-Shows :
      (now : ℕ) (c : Client J) (ttl : ℕ) {t : ℕ} {s : InMemoryClientStore J} {a : Registry J}
      → Shows t s a
      → t ≤ now
      → Shows now (put_with_ttl now c ttl s) (register_until c (add_u64 now ttl) a)
  unfolding put_with_ttl register_until expired
  put_with_ttl-Shows now c ttl {t} {s} {a} h le = record {
    is_map = insert-IsMap c.client_id _ (retain_live now s) (keep-IsMap _ s h.is_map);
    same = λ k n m. rw get-insert (
        rw (get-keep (λ e. not (expired now e.1.expires_at)) k s h.is_map) (
          until_visible (c.client_id == k) now n (Dict.get k s) _ (a k n) m
            (h.same k n (omega arith))));
  }

  -- Over any history of lookups and registrations with a clock that does not go back, from a
  -- store that shows a registry of timed entries, the store's lookups answer as the registry
  -- does.
  pub answers-expected :
      (ops : List (Operation J)) (t : ℕ) (s : InMemoryClientStore J) (a : Registry J)
      → IsOrdered t ops
      → Shows t s a
      → answers ops s ≡ expected ops a
  unfolding answers expected
  answers-expected [] t s a o h = refl
  answers-expected (look now k ∷ ops) t s a o h =
      ap₂ ◌∷◌ (get-answer now k s ∙ h.same k now o.0)
        (answers-expected ops now (get now k s).1 a o.1 (get-Shows now k h o.0))
  answers-expected (keep_forever now c ∷ ops) t s a o h =
      answers-expected ops now (put c s) (register c a) o.1 (put-Shows now c h o.0)
  answers-expected (keep_for now c ttl ∷ ops) t s a o h =
      answers-expected ops now (put_with_ttl now c ttl s) (register_until c (add_u64 now ttl) a) o.1
        (put_with_ttl-Shows now c ttl h o.0)
