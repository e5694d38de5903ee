-- ===== src/Provider/Grants/Answers.antt =====
-- src/provider.rs: what an answer of the token endpoint rests on, whatever the grant.
use grindvakt.Prelude.{
  String, ◌≡◌, true, false, List, Option, none, some, ◌==◌, eq_iff, ◌⊎◌, inl, inr, if◌then◌else◌,
  Bool, refl, ap, IsDistinct,
}
use grindvakt.Dict
use grindvakt.Dict.{Dict}
use grindvakt.Result.{Result}
use grindvakt.Exec.{raise-Returns, Returns, Exec, after_lift}
use grindvakt.Provider.Defs.{Provider}
use grindvakt.Provider.Defs.Services.{Services}
use grindvakt.Provider.Form.Unique.{unique_parameters_sound}
use grindvakt.Provider.Grants.{Dpop, TokenResponse}
use grindvakt.Provider.Grants.Redeem.{IsRedeemed, code-IsRedeemed}
use grindvakt.Provider.Grants.Service.{IsServed, credentials-IsServed}
use grindvakt.Provider.Grants.Narrow.{IsRefreshed, refresh-IsRefreshed}
use grindvakt.Provider.Grants.Endpoint.{by_grant, handle_token_request_map, handle_token_request}

-- One of two branches has been taken.
either :
    {W E A : Type 0} (t : Bool) (m k : Exec W E A) (w : W) {x : Result E A × W}
    → (if t then m else k) w ≡ x
    → ((t ≡ true) × (m w ≡ x)) ⊎ (k w ≡ x)
either true m k w h = inl (refl, h)
either false m k w h = inr h

module _ {J W : Type 0} (p : Provider) (s : Services J W) where
  -- The grant that a form asks for has been checked in full.
  abbrev pub IsEarned :
      Option String → Dict String → Option String → String → Dpop → W → TokenResponse → Type 0
  IsEarned grant_type form auth_header token_url dpop w r =
      ((grant_type ≡ some "authorization_code")
        × IsRedeemed p s form auth_header token_url dpop w r)
      ⊎ ((grant_type ≡ some "client_credentials")
          × IsServed p s form auth_header token_url dpop w r)
      ⊎ ((grant_type ≡ some "refresh_token") × IsRefreshed p s form auth_header token_url dpop w r)

  by_grant-IsEarned :
      (grant_type : Option String) (form : Dict String) (auth_header : Option String)
      (token_url : String) (dpop : Dpop) (w : W) {r : TokenResponse} {w' : W}
      → Returns (by_grant p s grant_type form auth_header token_url dpop) w r w'
      → IsEarned grant_type form auth_header token_url dpop w r
  unfolding by_grant
  by_grant-IsEarned none form auth_header token_url dpop w h = raise-Returns h
  by_grant-IsEarned (some g) form auth_header token_url dpop w h =
      elim (either (g == "authorization_code") _ _ w h) [
        | inl (e, a) ↦ inl (
          ap some ((eq_iff g "authorization_code").0 e),
          code-IsRedeemed p s form auth_header token_url dpop w a,
        )
        | inr b ↦ elim (either (g == "client_credentials") _ _ w b) [
          | inl (e, a) ↦ inr (
              inl (
                ap some ((eq_iff g "client_credentials").0 e),
                credentials-IsServed p s form auth_header token_url dpop w a,
              ))
          | inr c ↦ elim (either (g == "refresh_token") _ _ w c) [
            | inl (e, a) ↦ inr (
                inr (
                  ap some ((eq_iff g "refresh_token").0 e),
                  refresh-IsRefreshed p s form auth_header token_url dpop w a,
                ))
            | inr d ↦ raise-Returns d
          ]
        ]
      ]

  -- Where the token endpoint answers, no parameter of the form stands twice, the values that
  -- are used are those of the form, the grant type is one of the three that are supported, and
  -- the answer rests on all that this grant checks, uses and issues.
  pub handle_token_request-IsEarned :
      (params : List (String × String)) (auth_header : Option String) (token_url : String)
      (dpop : Dpop) (w : W) {r : TokenResponse} {w' : W}
      → Returns (handle_token_request p s params auth_header token_url dpop) w r w'
      → (form : Dict String) × IsDistinct (Dict.keys params)
        × ((k : String) → Dict.get k form ≡ Dict.get k params)
        × IsEarned (Dict.get "grant_type" form) form auth_header token_url dpop w r
  unfolding handle_token_request handle_token_request_map
  handle_token_request-IsEarned params auth_header token_url dpop w h =
      after_lift _ _ _ h λ form e rest.
        let (distinct, answers) = unique_parameters_sound params form e in
        (
          form,
          distinct,
          answers,
          by_grant-IsEarned (Dict.get "grant_type" form) form auth_header token_url dpop w rest,
        )
