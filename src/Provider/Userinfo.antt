-- ===== src/Provider/Userinfo.antt =====
-- src/provider.rs: the UserInfo endpoint.
pub mod Released
use grindvakt.Prelude.{String, not, [], ◌∷◌, Option, none, some, if◌then◌else◌, ◌==◌, has}
use grindvakt.Prelude.Text.{split_whitespace}
use grindvakt.Dict
use grindvakt.Dict.{Dict}
use grindvakt.Json
use grindvakt.Json.{Json}
use grindvakt.Result.{Result, ok, err, fail_if, map_err}
use grindvakt.Exec.{Exec, pure, lift, ◌>>=◌, ◌>>◌}
use grindvakt.OauthError.{OauthError, error, access_denied, invalid_dpop_proof}
use grindvakt.Tokens.{AccessTokenPayload, open_access_token}
use grindvakt.Provider.Defs.{Provider}
use grindvakt.Provider.Defs.Services.{Services, now_secs}

-- the binding of a token, and the key that was presented
unfoldable pub check_binding : Option String → Option String → Result OauthError (Unit {0})
check_binding none presented_jkt = ok tt
check_binding (some bound_jkt) (some jkt) =
    fail_if (not (jkt == bound_jkt))
      (error invalid_dpop_proof "DPoP proof key does not match the access token's cnf.jkt")
check_binding (some bound_jkt) none =
    err (error invalid_dpop_proof "access token is DPoP-bound; a matching DPoP proof is required")

-- The loop that copies the claims.
unfoldable pub insert_all : Dict Json → Dict Json → Dict Json
insert_all [] m = m
insert_all ((k, v) ∷ claims) m = insert_all claims (Dict.insert k v m)

-- The members of the JSON object that is answered.
unfoldable pub userinfo_claims : AccessTokenPayload → Dict Json
unfolding insert_all
userinfo_claims payload = Dict.insert "sub" (Json.string payload.sub) (insert_all payload.claims [])

module _ {J W : Type 0} (p : Provider) (s : Services J W) where
  unfoldable pub userinfo : String → Option String → Exec W OauthError (Dict Json)
  unfolding check_binding userinfo_claims
  userinfo access_token presented_jkt = do
    now ← now_secs s
    payload ← lift (
        map_err (λ _. error access_denied "invalid access token")
          (open_access_token s.crypto p.codec now access_token))
    lift (
        fail_if (not (has "openid" (split_whitespace payload.scope)))
          (error access_denied "userinfo requires an access token with openid scope"))
    lift (check_binding payload.cnf_jkt presented_jkt)
    pure (userinfo_claims payload)
