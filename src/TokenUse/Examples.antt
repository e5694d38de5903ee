-- ===== src/TokenUse/Examples.antt =====
-- Runs of the token-use store of src/provider.rs.
use grindvakt.Prelude.{◌≡◌, refl, false, [], ◌∷◌, arith}
use grindvakt.TokenUse.{empty_store, consume}
use grindvakt.TokenUse.Once.{Call, step, after, consume_once}

abbrev first : Call
first = record { now = 100; token_hash = "code:h"; ttl_secs = 600 }

abbrev other : Call
other = record { now = 170; token_hash = "code:i"; ttl_secs = 5 }

abbrev again : Call
again = record { now = 699; token_hash = "code:h"; ttl_secs = 1 }

consume_once_example : (step again (after (other ∷ []) (step first empty_store).1)).0 ≡ false
unfolding step consume grindvakt.Dict.get
consume_once_example =
    consume_once empty_store first (other ∷ []) again tt (omega arith) refl (omega arith, tt)
      (omega arith) refl
