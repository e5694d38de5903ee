-- ===== src/Provider/Userinfo/Released.antt =====
-- src/provider.rs: what the UserInfo endpoint releases, and to whom.
use grindvakt.Prelude.{◌⊎◌, inl, inr}
use grindvakt.Prelude.{
  String, ◌≡◌, ◌≢◌, refl, ap, subst, ◌∙◌, true, [], ◌∷◌, Option, none, some, ◌==◌, has, arith,
  eq_iff, if◌then◌else◌,
}
use grindvakt.Prelude.Text.{split_whitespace}
use grindvakt.Dict
use grindvakt.Dict.{Dict, get-insert}
use grindvakt.Json.{Json}
use grindvakt.Result.{ok, ok_injective, map_err-eq-ok}
use grindvakt.Exec.{Returns, after, after_lift}
use grindvakt.Provider.Defs.{Provider}
use grindvakt.Provider.Defs.Services.{Services}
use grindvakt.Tokens.{AccessTokenPayload, open_access_token}
use grindvakt.Provider.Userinfo.{check_binding, insert_all, userinfo_claims, userinfo}

-- A bound token has been presented with its key.
abbrev pub IsPresented : Option String → Option String → Type 0
IsPresented bound presented =
    (bound ≡ none) ⊎ ((jkt : String) × (bound ≡ some jkt) × (presented ≡ some jkt))

check_binding-IsPresented :
    (bound presented : Option String)
    → check_binding bound presented ≡ ok tt
    → IsPresented bound presented
unfolding check_binding
check_binding-IsPresented none presented h = inl refl
check_binding-IsPresented (some b) none h = cc
check_binding-IsPresented (some b) (some j) h = inr (b, refl, ground (arith, h, eq_iff j b))

abbrev pub or_else : Option Json → Option Json → Option Json
or_else none b = b
or_else (some a) b = some a

-- the value that stands last under a name
abbrev pub latest : String → Dict Json → Option Json
latest k [] = none
latest k ((j, v) ∷ claims) = or_else (latest k claims) (if j == k then some v else none)

get-insert_all :
    (claims m : Dict Json) (k : String)
    → Dict.get k (insert_all claims m) ≡ or_else (latest k claims) (Dict.get k m)
unfolding insert_all
get-insert_all [] m k = refl
get-insert_all ((j, v) ∷ claims) m k =
    get-insert_all claims (Dict.insert j v m) k ∙ ground (arith, get-insert j k v m)

-- the claims of an answer: the subject of the token, and else what was sealed into it
abbrev pub IsAnswer : AccessTokenPayload → Dict Json → Type 0
IsAnswer payload answer =
    (Dict.get "sub" answer ≡ some (Json.string payload.sub))
    × ((k : String) → k ≢ "sub" → Dict.get k answer ≡ latest k payload.claims)

other_claim :
    (claims : Dict Json) (k : String) (v : Json)
    → k ≢ "sub"
    → (if "sub" == k then some v else Dict.get k (insert_all claims [])) ≡ latest k claims
unfolding Dict.get
other_claim claims k v n = ground (arith, n, eq_iff "sub" k, get-insert_all claims [] k)

userinfo_claims-IsAnswer :
    (payload : AccessTokenPayload) → IsAnswer payload (userinfo_claims payload)
unfolding userinfo_claims
userinfo_claims-IsAnswer payload = (
  get-insert "sub" "sub" (Json.string payload.sub) (insert_all payload.claims []),
  λ k n.
      get-insert "sub" k (Json.string payload.sub) (insert_all payload.claims [])
      ∙ other_claim payload.claims k (Json.string payload.sub) n,
)

module _ {J W : Type 0} (p : Provider) (s : Services J W) where
  -- Where UserInfo answers, the access token opens and has the openid scope, a bound token was
  -- presented with its key, and the answer has the token's subject under sub and under every
  -- other name what was sealed last under it.
  pub userinfo_lem :
      (token : String) (jkt : Option String) (w : W) {answer : Dict Json} {w' : W}
      → Returns (userinfo p s token jkt) w answer w'
      → (payload : AccessTokenPayload) × (open_access_token s.crypto p.codec (s.clock w).0 token
          ≡ ok payload)
        × (has "openid" (split_whitespace payload.scope) ≡ true)
        × IsPresented payload.cnf_jkt jkt
        × IsAnswer payload answer
  unfolding userinfo
  userinfo_lem token jkt w {answer = answer} h = after _ _ _ h λ now w₁ a h₁.
      after_lift _ _ _ h₁ λ payload b h₂. after_lift _ _ _ h₂ λ _ c h₃.
        after_lift _ _ _ h₃ λ _ d h₄. (
          payload,
          ap (λ n. open_access_token s.crypto p.codec n token) (ok_injective (λ x. (a x).0))
              ∙ map_err-eq-ok _ _ b,
          ground (arith, c),
          check_binding-IsPresented payload.cnf_jkt jkt d,
          subst (IsAnswer payload) (ok_injective (λ x. (h₄ x).0))
              (userinfo_claims-IsAnswer payload),
        )
