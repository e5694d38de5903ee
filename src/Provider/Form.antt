-- ===== src/Provider/Form.antt =====
-- src/provider.rs: token forms, and the keys of the token-use store.
pub mod Unique
use grindvakt.Prelude.{String, List, [], ◌∷◌, if◌then◌else◌, is_some, length}
use grindvakt.Prelude.Text.{◌<>◌, show}
use grindvakt.Prelude.Bytes.{as_bytes}
use grindvakt.Dict
use grindvakt.Dict.{Dict}
use grindvakt.Result.{Result, ok, err}
use grindvakt.OauthError.{OauthError, error, invalid_request}
use grindvakt.Pkce.{Encoding}

-- The loop of `unique_parameters`.
unfoldable pub collect_unique :
    Dict String → List (String × String) → Result OauthError (Dict String)
collect_unique unique [] = ok unique
collect_unique unique ((name, value) ∷ params) =
    let rest = collect_unique (Dict.insert name value unique) params in
    if is_some (Dict.get name unique)
    then err (error invalid_request ("duplicate token parameter: " <> name))
    else rest

unfoldable pub unique_parameters : List (String × String) → Result OauthError (Dict String)
unfolding collect_unique
unique_parameters params = collect_unique [] params

unfoldable pub token_use_hash : Encoding → String → String → String
token_use_hash e kind token = kind <> ":" <> e.encode (e.sha256 (as_bytes token))

unfoldable pub assertion_use_hash : Encoding → String → String → String
assertion_use_hash e client_id jti = token_use_hash e "assertion" (
    show (length (as_bytes client_id))
    <> ":"
    <> client_id
    <> ":"
    <> show (length (as_bytes jti))
    <> ":"
    <> jti)
