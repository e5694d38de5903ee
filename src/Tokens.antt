-- ===== src/Tokens.antt =====
-- src/tokens.rs: authorization codes, access tokens and refresh tokens, sealed with their state.
pub mod Sealing
pub mod Kinds
pub mod Rotation
pub mod Fixture
mod Examples
use grindvakt.Prelude.{
  ℕ, String, List, [], ◌∷◌, ◌++◌, Option, none, some, if◌then◌else◌, ◌==◌, leb, unwrap_or,
}
use grindvakt.Prelude.Text.{is_empty, ◌<>◌}
use grindvakt.Dict.{Dict}
use grindvakt.Json.{Json}
use grindvakt.Error.{Error, authn, crypto, json}
use grindvakt.Result.{Result, ok, err, ◌>>=◌, ok_or, map_err}

abbrev pub hkdf_salt : String
hkdf_salt = "tunnelbana-oidc-token-v1"

abbrev pub hkdf_info : String
hkdf_info = "tunnelbana oidc token seal: dir+A256GCM"

pub record AuthCodePayload : Type 0 where
  pub client_id : String
  pub redirect_uri : String
  pub scope : String
  pub sub : String
  pub nonce : Option String
  pub code_challenge : Option String
  pub code_challenge_method : Option String
  pub claims : Dict Json
  pub auth_time : ℕ
  pub exp : ℕ
  pub acr : Option String

pub record AccessTokenPayload : Type 0 where
  pub client_id : String
  pub sub : String
  pub scope : String
  pub claims : Dict Json
  pub exp : ℕ
  pub cnf_jkt : Option String

pub record RefreshTokenPayload : Type 0 where
  pub client_id : String
  pub sub : String
  pub scope : String
  pub nonce : Option String
  pub claims : Dict Json
  pub auth_time : ℕ
  pub exp : ℕ
  pub acr : Option String
  pub cnf_jkt : Option String

abbrev pub typ_code : String
typ_code = "code"

abbrev pub typ_access : String
typ_access = "at"

abbrev pub typ_refresh : String
typ_refresh = "rt"

-- `SealedEnvelope` and `OpenedEnvelope`
pub record Envelope (T : Type 0) : Type 0 where
  pub typ : String
  pub p : T

-- `serde_json::to_vec` and `serde_json::from_slice` at the envelopes of one payload type
pub record Serde (T : Type 0) : Type 0 where
  pub to_vec : Envelope T → Option String
  pub from_slice : String → Option (Envelope T)

-- What `hkdf`, `jose_rs::jwe` and `serde_json` do. `encrypt` takes the randomness that it draws;
-- both directions are at `dir` and `A256GCM` alone.
pub record TokenCrypto : Type 0 where
  pub hkdf : (salt info secret : String) → String
  pub encrypt : (random : ℕ) (key plaintext : String) → Result String String
  pub decrypt : (key token : String) → Result String String
  pub code_serde : Serde AuthCodePayload
  pub access_serde : Serde AccessTokenPayload
  pub refresh_serde : Serde RefreshTokenPayload

-- `TokenCodec`; its vector of keys is never empty: `keys[0]`, and the others
pub record TokenCodec : Type 0 where
  pub primary : String
  pub previous : List String

abbrev pub all_keys : TokenCodec → List String
all_keys c = c.primary ∷ c.previous

module _ (x : TokenCrypto) where
  open x use {hkdf, encrypt, decrypt, code_serde, access_serde, refresh_serde}

  pub derive_key : String → String
  derive_key secret = hkdf hkdf_salt hkdf_info secret

  -- `TokenCodec::new`
  pub codec : String → TokenCodec
  unfolding derive_key
  codec secret = record { primary = derive_key secret; previous = [] }

  unfoldable pub with_previous_secrets : List String → TokenCodec → TokenCodec
  unfolding derive_key
  with_previous_secrets [] c = c
  with_previous_secrets (s ∷ ss) c =
      with_previous_secrets ss
        (if is_empty s then c else record c { previous = c.previous ++ derive_key s ∷ [] })

  unfoldable pub seal : {T : Type 0} → Serde T → TokenCodec → String → ℕ → T → Result Error String
  seal s c typ random value = do
    plaintext ← ok_or (s.to_vec (record { typ = typ; p = value })) (json "to_vec")
    map_err (λ e. crypto ("token seal: " <> e)) (encrypt random c.primary plaintext)

  -- what follows a decryption under one of the keys
  checked : {T : Type 0} → String → Option (Envelope T) → Result Error T
  checked expected_typ none = err (json "from_slice")
  checked expected_typ (some env) =
      if env.typ == expected_typ
      then ok env.p
      else err (authn ("token type mismatch: expected " <> expected_typ <> ", got " <> env.typ))

  -- The loop over the keys, with the error of the last one tried.
  try_keys : {T : Type 0} → Serde T → String → String → Option String → List String → Result Error T
  try_keys s expected_typ token last_err [] = err (authn ("token open: " <> unwrap_or "" last_err))
  try_keys s expected_typ token last_err (key ∷ keys) = elim (decrypt key token) [
    | ok plaintext ↦ checked expected_typ (s.from_slice plaintext)
    | err e ↦ try_keys s expected_typ token (some e) keys
  ]

  -- `open`
  unfoldable pub open_token : {T : Type 0} → Serde T → TokenCodec → String → String → Result Error T
  unfolding try_keys checked
  open_token s c expected_typ token = try_keys s expected_typ token none (all_keys c)

  -- `if payload.exp <= now_secs()`
  unexpired : {T : Type 0} → ℕ → ℕ → String → T → Result Error T
  unexpired now exp message payload = if leb exp now then err (authn message) else ok payload

  unfoldable pub seal_code : TokenCodec → ℕ → AuthCodePayload → Result Error String
  seal_code c random payload = seal code_serde c typ_code random payload

  unfoldable pub open_code : TokenCodec → ℕ → String → Result Error AuthCodePayload
  unfolding unexpired
  open_code c now token = do
    payload ← open_token code_serde c typ_code token
    unexpired now payload.exp "authorization code expired" payload

  unfoldable pub seal_access_token : TokenCodec → ℕ → AccessTokenPayload → Result Error String
  seal_access_token c random payload = seal access_serde c typ_access random payload

  unfoldable pub open_access_token : TokenCodec → ℕ → String → Result Error AccessTokenPayload
  unfolding unexpired
  open_access_token c now token = do
    payload ← open_token access_serde c typ_access token
    unexpired now payload.exp "access token expired" payload

  unfoldable pub seal_refresh_token : TokenCodec → ℕ → RefreshTokenPayload → Result Error String
  seal_refresh_token c random payload = seal refresh_serde c typ_refresh random payload

  unfoldable pub open_refresh_token : TokenCodec → ℕ → String → Result Error RefreshTokenPayload
  unfolding unexpired
  open_refresh_token c now token = do
    payload ← open_token refresh_serde c typ_refresh token
    unexpired now payload.exp "refresh token expired" payload
