-- ===== src/Client.antt =====
-- src/client.rs: registered clients and the in-memory client store.
pub mod Expiry
mod Examples
use grindvakt.Prelude.{
  ℕ, ◌+◌, String, Bool, false, not, ◌&&◌, List, [], ◌∷◌, Option, none, some, if◌then◌else◌, ◌==◌,
  leb, any, has, keep,
}
use grindvakt.Prelude.Words.{add_u64}
use grindvakt.Dict
use grindvakt.Dict.{Dict}
use grindvakt.Request.{response_type_eq}

abbrev pub auth_none : String
auth_none = "none"

abbrev pub auth_client_secret_basic : String
auth_client_secret_basic = "client_secret_basic"

abbrev pub auth_client_secret_post : String
auth_client_secret_post = "client_secret_post"

abbrev pub auth_private_key_jwt : String
auth_private_key_jwt = "private_key_jwt"

-- `Client`; `J` is the key set type of `jose_rs`
pub record Client (J : Type 0) : Type 0 where
  pub client_id : String
  pub client_secret : Option String
  pub redirect_uris : List String
  pub response_types : List String
  pub grant_types : List String
  pub token_endpoint_auth_method : String
  pub jwks : Option J
  pub scope : Option String
  pub subject_type : String
  pub client_name : Option String

pub record Entry (J : Type 0) : Type 0 where
  pub client : Client J
  pub expires_at : Option ℕ

-- The map behind the lock; a poisoned lock is not modelled.
abbrev pub InMemoryClientStore : Type 0 → Type 0
InMemoryClientStore J = Dict (Entry J)

-- `exp <= now`
pub expired : ℕ → Option ℕ → Bool
expired now none = false
expired now (some exp) = leb exp now

module _ {J : Type 0} where
  unfoldable pub allows_redirect : Client J → String → Bool
  allows_redirect c uri = has uri c.redirect_uris

  unfoldable pub allows_response_type : Client J → String → Bool
  allows_response_type c rt = any (λ registered. response_type_eq registered rt) c.response_types

  -- `with_clients`
  pub with_clients : List (Client J) → InMemoryClientStore J → InMemoryClientStore J
  with_clients [] store = store
  with_clients (c ∷ cs) store =
      with_clients cs (Dict.insert c.client_id (record { client = c; expires_at = none }) store)

  -- `g.remove(k)`
  remove : String → InMemoryClientStore J → InMemoryClientStore J
  remove k = Dict.filter_keys (λ j. not (j == k))

  -- `get`: the answer, and the store, from which an expired entry is gone
  get_entry :
      ℕ
      → String
      → Option (Entry J)
      → InMemoryClientStore J
      → Option (Client J) × InMemoryClientStore J
  get_entry now k none store = (none, store)
  get_entry now k (some e) store =
      if expired now e.expires_at then (none, remove k store) else (some e.client, store)

  pub get : ℕ → String → InMemoryClientStore J → Option (Client J) × InMemoryClientStore J
  unfolding get_entry remove expired
  get now client_id store = get_entry now client_id (Dict.get client_id store) store

  pub put : Client J → InMemoryClientStore J → InMemoryClientStore J
  put c store = Dict.insert c.client_id (record { client = c; expires_at = none }) store

  -- `g.retain(|_, e| ..)`
  retain_live : ℕ → InMemoryClientStore J → InMemoryClientStore J
  unfolding expired
  retain_live now = keep (λ e. not (expired now e.1.expires_at))

  pub put_with_ttl : ℕ → Client J → ℕ → InMemoryClientStore J → InMemoryClientStore J
  unfolding retain_live
  put_with_ttl now c ttl store =
      Dict.insert c.client_id (record { client = c; expires_at = some (add_u64 now ttl) })
        (retain_live now store)
