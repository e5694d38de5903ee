-- ===== src/Provider/Grants/Scopes.antt =====
-- src/provider.rs: the scopes and the key binding of the tokens that the grants give.
use grindvakt.Prelude.{◌⊎◌, inl, inr, refl}
use grindvakt.Prelude.{
  String, ◌≡◌, sym, ap, subst, ◌∙◌, true, List, Option, none, some, has, arith, eq_iff, All,
  any-has, unwrap_or,
}
use grindvakt.Prelude.Text.{join, split_whitespace}
use grindvakt.Prelude.Pieces.{IsWord, split_whitespace-IsWord, split_whitespace-join, keep-All}
use grindvakt.Dict
use grindvakt.Dict.{Dict}
use grindvakt.Result.{ok}
use grindvakt.Exec.{Returns}
use grindvakt.Provider.Defs.{Provider}
use grindvakt.Provider.Defs.Services.{Services}
use grindvakt.Provider.Grants.{Dpop, TokenResponse}
use grindvakt.Provider.Grants.Credentials.{
  allowed_scopes, granted_scopes, handle_client_credentials,
}
use grindvakt.Provider.Grants.Refresh.{refreshed_binding, narrowed_scope, handle_refresh_token}
use grindvakt.Provider.Grants.Narrow.{IsRefreshed, refresh-IsRefreshed}
use grindvakt.Provider.Grants.Service.{IsServed, credentials-IsServed}

-- Every scope of the first text is one of the second.
abbrev pub IsWithin : String → String → Type 0
IsWithin scope original =
    (x : String) → has x (split_whitespace scope) ≡ true → has x (split_whitespace original) ≡ true

narrowed_scope-IsWithin :
    (original : String) (requested : Option String) (scope : String)
    → narrowed_scope original requested ≡ ok scope
    → IsWithin scope original
unfolding narrowed_scope
narrowed_scope-IsWithin original none scope h x m = ground (arith, h, m)
narrowed_scope-IsWithin original (some requested) scope h x m =
    let ws = split_whitespace requested in
    let e : join " " ws ≡ scope = ground (arith, h) in
    let back = split_whitespace-join ws (split_whitespace-IsWord requested) in
    any-has (λ y. has y (split_whitespace original)) x ws (ground (arith, h))
      (ap (has x) (sym back ∙ ap split_whitespace e) ∙ m)

-- The key the new tokens are bound to is that of the refresh token, which has been proven, or else
-- that of the request.
abbrev pub IsBound : Option String → Dpop → Option String → Type 0
IsBound bound dpop binding =
    ((bound ≡ none) × (binding ≡ dpop))
    ⊎ ((jkt : String) × (bound ≡ some jkt) × (dpop ≡ some jkt) × (binding ≡ some jkt))

refreshed_binding-IsBound :
    (bound : Option String) (dpop : Dpop) (binding : Option String)
    → refreshed_binding bound dpop ≡ ok binding
    → IsBound bound dpop binding
unfolding refreshed_binding
refreshed_binding-IsBound none dpop binding h = inl (refl, ground (arith, h))
refreshed_binding-IsBound (some b) none binding h = cc
refreshed_binding-IsBound (some b) (some d) binding h =
    inr (b, refl, ground (arith, h, eq_iff d b), ground (arith, h, eq_iff d b))

granted_scopes-All :
    (allowed : List String) (requested : Option String)
    → All IsWord allowed
    → All IsWord (granted_scopes allowed requested)
unfolding granted_scopes
granted_scopes-All allowed none h = h
granted_scopes-All allowed (some requested) h =
    keep-All IsWord (λ s. has s allowed) (split_whitespace requested)
      (split_whitespace-IsWord requested)

module _ {J W : Type 0} (p : Provider) (s : Services J W) where
  -- Where the token endpoint answers a refresh token, the client has authenticated, may
  -- refresh and is the one the token was issued to, the store has taken the token's use, every
  -- scope of the answer is one of the refresh token's, and the new tokens are bound to the key
  -- of the refresh token, whose proof was presented, or, where it has none, to that of the
  -- request.
  pub refresh-narrows :
      (form : Dict String) (auth_header : Option String) (token_url : String) (dpop : Dpop) (w : W)
      {r : TokenResponse} {w' : W}
      → Returns (handle_refresh_token p s form auth_header token_url dpop) w r w'
      → (f : IsRefreshed p s form auth_header token_url dpop w r) × IsWithin
          (unwrap_or "" r.scope)
          f.rt.scope
        × IsBound f.rt.cnf_jkt dpop f.binding
  refresh-narrows form auth_header token_url dpop w {r = r} h =
      let f = refresh-IsRefreshed p s form auth_header token_url dpop w h in
      (
        f,
        rw (f.reissued.granted)
            (narrowed_scope-IsWithin f.rt.scope (Dict.get "scope" form) f.scope f.narrowed),
        refreshed_binding-IsBound f.rt.cnf_jkt dpop f.binding f.bound,
      )

  -- Where the client credentials grant answers, the client has authenticated, is not a public
  -- one and may use the grant, the scopes read from the answer are those granted, each of them
  -- is registered and was asked for where scopes were asked for, none is openid, there is at
  -- least one, and no ID token or refresh token is given.
  pub credentials-scope :
      (form : Dict String) (auth_header : Option String) (token_url : String) (dpop : Dpop) (w : W)
      {r : TokenResponse} {w' : W}
      → Returns (handle_client_credentials p s form auth_header token_url dpop) w r w'
      → (f : IsServed p s form auth_header token_url dpop w r) × (split_whitespace
            (unwrap_or "" r.scope)
          ≡ f.granted)
  credentials-scope form auth_header token_url dpop w {r = r} h =
      let f = credentials-IsServed p s form auth_header token_url dpop w h in
      let allowed = allowed_scopes f.client.scope in
      let words =
        subst (All IsWord) f.within.exact
          (granted_scopes-All allowed (Dict.get "scope" form) (split_whitespace-IsWord _)) in
      (
        f,
        ap (λ o. split_whitespace (unwrap_or "" o)) f.scope ∙ split_whitespace-join f.granted words,
      )
