-- ===== src/TokenUse/Once.antt =====
-- src/provider.rs: a consumed token stays consumed for its time.
use grindvakt.Prelude.{
  ℕ, ◌+◌, ◌≤◌, ◌<◌, max, String, ◌≡◌, refl, ap, sym, ◌∙◌, Bool, true, false, List, [], ◌∷◌, Option,
  none, some, arith, eq_refl, ◌==◌, if◌then◌else◌, leb, ltb, Bool-cases, eq_of_test, false≢true,
  inl, inr, All,
}
use grindvakt.Prelude.Words.{add_u64, u64_mod, add_u64-eq}
use grindvakt.Dict
use grindvakt.Dict.{Dict, IsMap, keep-IsMap, insert-IsMap, get-insert, get-keep, filter_option}
use grindvakt.TokenUse.{InMemoryTokenUseStore, purge, is_live, consume}

-- One call of `consume`, by any request of any client.
pub record Call : Type 0 where
  pub now : ℕ
  pub token_hash : String
  pub ttl_secs : ℕ

unfoldable pub step : Call → InMemoryTokenUseStore → Bool × InMemoryTokenUseStore
step c s = consume c.now c.token_hash c.ttl_secs s

-- The store after the calls.
unfoldable pub after : List Call → InMemoryTokenUseStore → InMemoryTokenUseStore
after [] s = s
after (c ∷ cs) s = after cs (step c s).1

-- The token `h` is held as consumed until `d` at least.
pub record IsHeld (h : String) (d : ℕ) (s : InMemoryTokenUseStore) : Type 0 where
  pub is_map : IsMap s.entries
  pub exp : ℕ
  pub entry : Dict.get h s.entries ≡ some exp
  pub long : d ≤ exp

purge-IsMap : (now : ℕ) (s : InMemoryTokenUseStore) → IsMap s.entries → IsMap (purge now s).entries
unfolding purge
purge-IsMap now s m = elim (Bool-cases (leb s.next_purge now)) [
  | inl e ↦ rw e (keep-IsMap _ s.entries m)
  | inr e ↦ rw e m
]

-- The sweep does not change what is live, now or later.
purge-is_live :
    (now t : ℕ) (h : String) (s : InMemoryTokenUseStore)
    → IsMap s.entries
    → now ≤ t
    → is_live t (Dict.get h (purge now s).entries) ≡ is_live t (Dict.get h s.entries)
unfolding purge is_live
purge-is_live now t h s m le = elim (Bool-cases (leb s.next_purge now)) [
  | inl e ↦ rw e (rw (get-keep (λ e. ltb now e.1) h s.entries m) (swept (Dict.get h s.entries)))
  | inr e ↦ rw e refl
]
  where
    swept : (o : Option ℕ) → is_live t (filter_option (λ exp. ltb now exp) o) ≡ is_live t o
    swept none = refl
    swept (some exp) = ground arith

consume-IsMap :
    (c : Call) (s : InMemoryTokenUseStore) → IsMap s.entries → IsMap (step c s).1.entries
unfolding step consume
consume-IsMap c s m =
    elim (Bool-cases (is_live c.now (Dict.get c.token_hash (purge c.now s).entries))) [
      | inl e ↦ rw e (purge-IsMap c.now s m)
      | inr e ↦ rw e (insert-IsMap _ _ (purge c.now s).entries (purge-IsMap c.now s m))
    ]

-- The answer is whether the token is not held.
pub consume-answer :
    (c : Call) (s : InMemoryTokenUseStore)
    → IsMap s.entries
    → (step c s).0 ≡ (if is_live c.now (Dict.get c.token_hash s.entries) then false else true)
unfolding step consume
consume-answer c s m =
    rw (← purge-is_live c.now c.now c.token_hash s m (omega arith)) (ground arith)

purge-IsHeld :
    (now : ℕ) {h : String} {d : ℕ} {s : InMemoryTokenUseStore}
    → IsHeld h d s
    → now < d
    → IsHeld h d (purge now s)
unfolding purge
purge-IsHeld now {h} {d} {s} held lt = elim (Bool-cases (leb s.next_purge now)) [
  | inl e ↦ rw e (record {
    is_map = keep-IsMap _ s.entries held.is_map;
    exp = held.exp;
    entry =
        get-keep (λ e. ltb now e.1) h s.entries held.is_map
        ∙ rw held.entry (retained (omega (arith, held.long)));
    long = held.long;
  })
  | inr e ↦ rw e held
]
  where
    retained : now < held.exp → filter_option (λ exp. ltb now exp) (some held.exp) ≡ some held.exp
    retained l = ground arith

pub held-is_live :
    (now : ℕ) {h : String} {d : ℕ} {s : InMemoryTokenUseStore}
    → IsHeld h d s
    → now < d
    → is_live now (Dict.get h s.entries) ≡ true
unfolding is_live
held-is_live now held lt = rw held.entry (ground (arith, held.long))

-- No call before `d` lets go of a token that is held until `d`.
pub step-IsHeld :
    (c : Call) {h : String} {d : ℕ} {s : InMemoryTokenUseStore}
    → IsHeld h d s
    → c.now < d
    → IsHeld h d (step c s).1
unfolding step consume
step-IsHeld c {h} {d} {s} held lt =
    let g = purge c.now s in
    let kept = purge-IsHeld c.now held lt in
    elim (Bool-cases (is_live c.now (Dict.get c.token_hash g.entries))) [
      | inl e ↦ rw e kept
      | inr e ↦ rw e (record {
        is_map = insert-IsMap _ _ g.entries kept.is_map;
        exp = kept.exp;
        entry = rw (get-insert c.token_hash h) (elim (Bool-cases (c.token_hash == h)) [
          | inl same ↦ absurd (
              false≢true (
                sym e
                ∙ ap (λ k. is_live c.now (Dict.get k g.entries)) (eq_of_test same)
                ∙ held-is_live c.now kept lt))
          | inr differs ↦ rw differs kept.entry
        ]);
        long = kept.long;
      })
    ]

pub after-IsHeld :
    (cs : List Call) {h : String} {d : ℕ} {s : InMemoryTokenUseStore}
    → IsHeld h d s
    → All (λ (c : Call). c.now < d) cs
    → IsHeld h d (after cs s)
unfolding after
after-IsHeld [] held l = held
after-IsHeld (c ∷ cs) held l = after-IsHeld cs (step-IsHeld c held l.0) l.1

-- The moment up to which a consumption holds.
abbrev pub held_until : Call → ℕ
held_until c = c.now + max c.ttl_secs 1

pub consumed-IsHeld :
    (c : Call) (s : InMemoryTokenUseStore)
    → IsMap s.entries
    → held_until c < u64_mod
    → (step c s).0 ≡ true
    → IsHeld c.token_hash (held_until c) (step c s).1
unfolding step consume
consumed-IsHeld c s m fits h =
    let g = purge c.now s in
    elim (Bool-cases (is_live c.now (Dict.get c.token_hash g.entries))) [
      | inl e ↦ let k : false ≡ true = rw e at h in absurd (false≢true k)
      | inr e ↦ rw e (record {
        is_map = insert-IsMap _ _ g.entries (purge-IsMap c.now s m);
        exp = add_u64 c.now (max c.ttl_secs 1);
        entry = get-insert c.token_hash c.token_hash _ g.entries ∙ rw eq_refl refl;
        long = omega (arith, add_u64-eq c.now (max c.ttl_secs 1) fits);
      })
    ]

-- Once the in-memory store has let a token's use through, it refuses every later use before that
-- use's time is over, whatever other uses come between them before that time, as long as the end
-- of the time is below 2^64.
pub consume_once :
    (s : InMemoryTokenUseStore) (first : Call) (between : List Call) (again : Call)
    → IsMap s.entries
    → held_until first < u64_mod
    → (step first s).0 ≡ true
    → All (λ (c : Call). c.now < held_until first) between
    → again.now < held_until first
    → again.token_hash ≡ first.token_hash
    → (step again (after between (step first s).1)).0 ≡ false
consume_once s first between again m fits ok before lt same =
    let held = after-IsHeld between (consumed-IsHeld first s m fits ok) before in
    consume-answer again _ held.is_map ∙ rw same (rw (held-is_live again.now held lt) refl)
