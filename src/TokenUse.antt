-- ===== src/TokenUse.antt =====
-- src/provider.rs: the in-memory store that consumes tokens once.
pub mod Once
mod Examples
use grindvakt.Prelude.{
  [], ℕ, ◌+◌, max, String, Bool, true, false, Option, none, some, if◌then◌else◌, leb, ltb, keep,
}
use grindvakt.Prelude.Words.{add_u64}
use grindvakt.Dict
use grindvakt.Dict.{Dict}

-- What stands behind the lock; a poisoned lock is not modelled.
pub record InMemoryTokenUseStore : Type 0 where
  pub entries : Dict ℕ
  pub next_purge : ℕ

abbrev pub empty_store : InMemoryTokenUseStore
empty_store = record { entries = []; next_purge = 0 }

abbrev pub in_memory_purge_interval_secs : ℕ
in_memory_purge_interval_secs = 60

purge : ℕ → InMemoryTokenUseStore → InMemoryTokenUseStore
purge now s =
    if leb s.next_purge now
    then record {
      entries = keep (λ e. ltb now e.1) s.entries;
      next_purge = add_u64 now in_memory_purge_interval_secs;
    }
    else s

pub is_live : ℕ → Option ℕ → Bool
is_live now none = false
is_live now (some exp) = ltb now exp

-- `consume`, at the time `now`
unfoldable pub consume : ℕ → String → ℕ → InMemoryTokenUseStore → Bool × InMemoryTokenUseStore
unfolding purge is_live
consume now token_hash ttl_secs s =
    let g = purge now s in
    if is_live now (Dict.get token_hash g.entries) then (false, g) else (
      true,
      record g { entries = Dict.insert token_hash (add_u64 now (max ttl_secs 1)) g.entries },
    )
