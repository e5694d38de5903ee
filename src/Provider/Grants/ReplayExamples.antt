-- ===== src/Provider/Grants/ReplayExamples.antt =====
-- Codes and refresh tokens over a store in memory and a clock that moves on.
use grindvakt.Prelude.{
  ℕ, ◌+◌, ◌≤◌, ◌<◌, String, ◌≡◌, refl, Bool, [], ◌∷◌, none, some, arith, if◌then◌else◌, ◌==◌, inl,
  inr,
}
use grindvakt.Result.{ok}
use grindvakt.TokenUse.{InMemoryTokenUseStore, empty_store, consume}
use grindvakt.TokenUse.Once
use grindvakt.TokenUse.Once.{Call}
use grindvakt.Provider.Defs.Services.{Services}
use grindvakt.Provider.Grants.{TokenResponse}
use grindvakt.Provider.Grants.Code.{handle_authorization_code}
use grindvakt.Provider.Grants.Redeem.{IsRedeemed}
use grindvakt.Provider.Grants.Spent.{IsInMemory}
use grindvakt.Provider.Grants.Replay.{code_used_once, refresh_used_once}
use grindvakt.Provider.Grants.Refresh.{refreshed_binding, narrowed_scope, handle_refresh_token}
use grindvakt.Provider.Grants.Narrow.{IsRefreshed}
use grindvakt.Provider.Fixture.{op, client, code_state, refresh_state, code_form, refresh_form}
use grindvakt.Provider.Fixture

record Shelf : Type 0 where
  time : ℕ
  store : InMemoryTokenUseStore

-- The store's step at the shelf's time.
abbrev used_at : String → ℕ → Shelf → Bool × InMemoryTokenUseStore
used_at h ttl w = Once.step (record { now = w.time; token_hash = h; ttl_secs = ttl }) w.store

-- The clock moves on by a second when it is read.
abbrev shelved : Services (Unit {0}) Shelf
shelved = record {
  client_get = λ id w. (if id == "c" then some client else none, w);
  token_consume =
      λ h ttl w. (ok (used_at h ttl w).0, record { time = w.time; store = (used_at h ttl w).1 });
  clock = λ w. (w.time, record { time = w.time + 1; store = w.store });
  draw = λ w. (0, w);
  crypto = Fixture.clear;
  encoding = Fixture.services.encoding;
  hashing = Fixture.services.hashing;
  urlencode = λ t. t;
  form_parse = λ t. [];
  url_parse = λ t. some none;
  sign = λ random claims. ok "id-1";
  decode_url = λ t. none;
  claims_from_slice = λ bs. none;
  verify_with_jwks = λ keys token v w. (none, w);
  default_leeway = 60;
  decode_standard = λ t. none;
  percent_decode_str = λ t. [];
  utf8_lossy = λ bytes. "";
  key_extras = λ keys. [];
  without_extras = λ keys. keys;
  to_value = λ r. none;
  value_eq = Fixture.services.value_eq;
}

shelved-IsInMemory : IsInMemory shelved (λ w. w.store) (λ w. w.time)
shelved-IsInMemory = record {
  answered = λ h ttl w. refl;
  changed = λ h ttl w. refl;
  consumed_at = λ h ttl w. omega arith;
  got = λ id w. refl;
  got_at = λ id w. omega arith;
  drew = λ w. refl;
  drew_at = λ w. omega arith;
  read = λ w. refl;
  read_at = λ w. omega arith;
  read_before = λ w. omega arith;
  verified = λ keys token v w. refl;
  verified_at = λ keys token v w. omega arith;
}

abbrev answer : TokenResponse
answer = record {
  access_token = "access-1";
  token_type = "Bearer";
  expires_in = 3600;
  id_token = some "id-1";
  scope = some "openid";
  refresh_token = some "refresh-1";
}

abbrev used : InMemoryTokenUseStore
used = record { entries = ("code:digest", 701) ∷ []; next_purge = 162 }

abbrev first :
    IsRedeemed op shelved code_form none "https://op/token" none
      (record { time = 100; store = empty_store })
      answer
unfolding grindvakt.Provider.Clients.Methods.authenticate_client_map grindvakt.Exec.◌>>=◌
    grindvakt.Dict.get grindvakt.Provider.Clients.check_secret grindvakt.Pkce.constant_time_eq
    grindvakt.Prelude.Bytes.as_bytes grindvakt.Tokens.open_code grindvakt.Tokens.open_token
    grindvakt.Prelude.Text.split_whitespace grindvakt.Tokens.seal_access_token grindvakt.Tokens.seal
    grindvakt.Provider.Form.token_use_hash Once.step consume grindvakt.Dict.insert
    grindvakt.Prelude.Words.add_u64
first = record {
  client = client;
  code = "code-1";
  payload = code_state;
  w₁ = record { time = 100; store = empty_store };
  before = record { time = 101; store = empty_store };
  after_use = record { time = 102; store = used };
  authenticated = refl;
  allowed = refl;
  presented = refl;
  opened = refl;
  matching = record { own = refl; redirect = inr refl; public_proof = refl; proven = inl refl };
  used = refl;
  issued = record { random = 0; granted = refl; oidc = refl; access = refl };
}

abbrev other : Call
other = record { now = 170; token_hash = "code:i"; ttl_secs = 5 }

abbrev late : Shelf
late = record {
  time = 699;
  store = record { entries = ("code:digest", 701) ∷ ("code:i", 175) ∷ []; next_purge = 230 };
}

abbrev twice : Shelf
twice = record {
  time = 704;
  store = record { entries = ("code:digest", 702) ∷ []; next_purge = 761 };
}

code_used_once_example : first.payload.exp ≤ twice.time
unfolding grindvakt.Provider.Clients.Methods.authenticate_client_map grindvakt.Exec.◌>>=◌
    grindvakt.Dict.get grindvakt.Provider.Clients.check_secret grindvakt.Pkce.constant_time_eq
    grindvakt.Prelude.Bytes.as_bytes grindvakt.Tokens.open_code grindvakt.Tokens.open_token
    grindvakt.Prelude.Text.split_whitespace grindvakt.Tokens.seal_access_token grindvakt.Tokens.seal
    grindvakt.Provider.Form.token_use_hash Once.step consume grindvakt.Dict.insert
    grindvakt.Prelude.Words.add_u64 Once.after handle_authorization_code
    grindvakt.Provider.Grants.consume_token_once grindvakt.Provider.Clients.consumed
    grindvakt.Provider.Defs.Services.server_failure grindvakt.Provider.Defs.Services.drawn
    grindvakt.Exec.when grindvakt.Provider.Mint.build_id_token
    grindvakt.Jwt.supports_oidc_token_hash grindvakt.Jwt.oidc_token_hash
    grindvakt.Provider.Grants.client_allows_refresh grindvakt.Tokens.seal_refresh_token
    grindvakt.Provider.Grants.token_type
code_used_once_example =
    code_used_once shelved (λ w. w.store) (λ w. w.time) shelved-IsInMemory op first tt (omega arith)
      (other ∷ []) (omega arith, tt) late refl code_form none "https://op/token" none {r' = answer}
      {v' = twice} refl refl

abbrev refreshed : TokenResponse
refreshed = record {
  access_token = "access-1";
  token_type = "DPoP";
  expires_in = 3600;
  id_token = none;
  scope = some "email";
  refresh_token = some "refresh-1";
}

abbrev rotated : InMemoryTokenUseStore
rotated = record { entries = ("refresh:digest", 90001) ∷ []; next_purge = 163 }

abbrev first_refresh :
    IsRefreshed op shelved refresh_form none "https://op/token"
      (some "key")
      (record { time = 100; store = empty_store })
      refreshed
unfolding grindvakt.Provider.Clients.Methods.authenticate_client_map grindvakt.Exec.◌>>=◌
    grindvakt.Dict.get grindvakt.Provider.Clients.check_secret grindvakt.Pkce.constant_time_eq
    grindvakt.Prelude.Bytes.as_bytes grindvakt.Tokens.open_refresh_token grindvakt.Tokens.open_token
    grindvakt.Prelude.Text.split_whitespace grindvakt.Tokens.seal_access_token grindvakt.Tokens.seal
    grindvakt.Provider.Form.token_use_hash grindvakt.Tokens.seal_refresh_token
    grindvakt.Provider.Grants.client_allows_refresh grindvakt.Prelude.Text.join Once.step consume
    grindvakt.Dict.insert grindvakt.Prelude.Words.add_u64 refreshed_binding narrowed_scope
first_refresh = record {
  client = client;
  token = "refresh-1";
  rt = refresh_state;
  binding = some "key";
  scope = "email";
  now = 101;
  w₁ = record { time = 100; store = empty_store };
  before = record { time = 102; store = empty_store };
  after_use = record { time = 103; store = rotated };
  authenticated = refl;
  allowed = refl;
  presented = refl;
  opened = refl;
  own = refl;
  bound = refl;
  narrowed = refl;
  used = refl;
  reissued = record {
    random = 0;
    random' = 0;
    rotated = "refresh-1";
    granted = refl;
    answered = refl;
    access = refl;
    refresh = refl;
  };
}

abbrev refreshed_twice : Shelf
refreshed_twice = record {
  time = 90001;
  store = record { entries = ("refresh:digest", 90002) ∷ []; next_purge = 90061 };
}

refresh_used_once_example : first_refresh.rt.exp ≤ refreshed_twice.time
unfolding grindvakt.Provider.Clients.Methods.authenticate_client_map grindvakt.Exec.◌>>=◌
    grindvakt.Dict.get grindvakt.Provider.Clients.check_secret grindvakt.Pkce.constant_time_eq
    grindvakt.Prelude.Bytes.as_bytes grindvakt.Tokens.open_refresh_token grindvakt.Tokens.open_token
    grindvakt.Prelude.Text.split_whitespace grindvakt.Tokens.seal_access_token grindvakt.Tokens.seal
    grindvakt.Provider.Form.token_use_hash Once.step consume grindvakt.Dict.insert
    grindvakt.Prelude.Words.add_u64 refreshed_binding narrowed_scope handle_refresh_token Once.after
    grindvakt.Prelude.Text.join grindvakt.Provider.Grants.consume_token_once
    grindvakt.Provider.Clients.consumed grindvakt.Provider.Defs.Services.server_failure
    grindvakt.Provider.Defs.Services.drawn grindvakt.Exec.when
    grindvakt.Provider.Grants.client_allows_refresh grindvakt.Tokens.seal_refresh_token
    grindvakt.Provider.Grants.token_type
refresh_used_once_example =
    refresh_used_once shelved (λ w. w.store) (λ w. w.time) shelved-IsInMemory op first_refresh tt
      (omega arith) [] tt (record { time = 89998; store = rotated }) refl refresh_form none
      "https://op/token" (some "key") {r' = refreshed} {v' = refreshed_twice} refl refl
