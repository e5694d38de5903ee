-- ===== src/Login/Examples.antt =====
-- A login at the example provider, whose ID token is checked by a relying party.
use grindvakt.Prelude.{
  String, ◌≡◌, refl, true, false, ◌+◌, ◌&&◌, [], ◌∷◌, none, some, arith, ◌==◌, ◌<◌, ◌≤◌,
  if◌then◌else◌,
}
use grindvakt.Dict.{Dict}
use grindvakt.Result.{ok}
use grindvakt.Request.{AuthorizationRequest}
use grindvakt.Rp.Fixture as RpFixture
use grindvakt.Provider.Mint.{response_params}
use grindvakt.Callback.{AuthorizationResponse, query, matches_state, matches_iss}
use grindvakt.Callback.Parse.{parse_pairs}
use grindvakt.Login.Response.{IsReadable, parse_pairs-response_params}
use grindvakt.Exec.{Returns}
use grindvakt.Tokens.Fixture.{format-ReadsBack}
use grindvakt.Provider.Grants.{TokenResponse}
use grindvakt.Provider.Grants.Code.{handle_authorization_code}
use grindvakt.Login.Issue.{id_token_input}
use grindvakt.Login.Code.{sealed_in}
use grindvakt.Login.Complete.{login_completes}
use grindvakt.Provider.Fixture.{World, op}
use grindvakt.Provider.Defs.Services.{Services}
use grindvakt.Provider.Mint.{build_id_token}
use grindvakt.Rp.IdToken.{verify_id_token_with}
use grindvakt.Login.IdToken.{strict, verify-build}
use grindvakt.Jwt.{es256, Claims}
use grindvakt.Login.Fixture.{
  library, input, login_services, login-IsPeer, login-IsAuthentic, login_request, login,
  login-IsWorking, login-IsMinted, form, login-IsPresented,
}

verify-build_example :
    (claims : Claims) × (w' : Unit {0}) × Returns
      (verify_id_token_with library tt "id-1" "https://op" "c"
        (some "n")
        (es256 ∷ [])
        []
        (strict input (some 1000)))
      tt
      claims
      w'
    × (claims.sub ≡ some "u")
unfolding build_id_token grindvakt.Exec.◌>>=◌ grindvakt.Jwt.oidc_token_hash
    grindvakt.Provider.Defs.Services.drawn grindvakt.Dict.insert
    grindvakt.Provider.Claims.is_reserved_id_token_claim grindvakt.Prelude.Words.add_u64
    grindvakt.Prelude.Words.saturating_add
verify-build_example =
    verify-build op login_services library tt login-IsPeer input (some 1000) [] [] {token = "id-1"}
      {v' = []} tt tt refl refl (omega arith) (omega arith) (omega arith, omega arith)

login_completes_example :
    (t : TokenResponse) × (w' : World) × (id_token : String) × (claims : Claims) × (u' : Unit {0})
    × Returns (handle_authorization_code op login_services form none "" none) [] t w'
    × (t.id_token ≡ some id_token)
    × Returns
        (verify_id_token_with library tt id_token "https://op" "c" (some "n") (es256 ∷ []) [] (
          strict
            (id_token_input op login_services
              (sealed_in op login_services login_request "u" login [])
              "c"
              t.access_token)
            none))
        tt
        claims
        u'
    × (claims.sub ≡ some "u")
unfolding grindvakt.Provider.Redirect.check_iss_redirect_collision grindvakt.Request.use_fragment
    grindvakt.Request.wants grindvakt.Prelude.Text.split_whitespace
    grindvakt.Prelude.Text.split_once grindvakt.OauthError.split_fragment
    grindvakt.Provider.Redirect.redirect_with grindvakt.Prelude.Text.any_char
    grindvakt.OauthError.encode_params grindvakt.Prelude.Text.join
    grindvakt.Provider.Mint.response_params grindvakt.Tokens.seal_code grindvakt.Tokens.seal
    grindvakt.Provider.Mint.released_claims grindvakt.Provider.Claims.filter_claims
    grindvakt.Dict.filter_keys grindvakt.Provider.Claims.flatten_claims
    grindvakt.Prelude.Words.add_u64 grindvakt.Provider.Clients.Methods.authenticate_client_map
    grindvakt.Exec.◌>>=◌ grindvakt.Dict.get grindvakt.Provider.Clients.check_secret
    grindvakt.Pkce.constant_time_eq grindvakt.Prelude.Bytes.as_bytes
login_completes_example =
    login_completes op login_services login-IsAuthentic format-ReadsBack library tt login-IsPeer
      login_request "u" login [] login-IsMinted "t" refl refl tt form none "" none []
      login-IsPresented login-IsWorking 100 100 (λ x. (omega arith, omega arith)) [] tt
      (omega arith) (omega arith) (omega arith)

abbrev asked : AuthorizationRequest
asked = record login_request { state = some "xyz" }

code-IsReadable : IsReadable "t"
unfolding grindvakt.Prelude.Text.any_char grindvakt.Prelude.Text.is_control
    grindvakt.Error.Escape.is_invisible_format
code-IsReadable = record { filled = refl; short = omega arith; clean = refl }

state-IsReadable : IsReadable "xyz"
unfolding grindvakt.Prelude.Text.any_char grindvakt.Prelude.Text.is_control
    grindvakt.Error.Escape.is_invisible_format
state-IsReadable = record { filled = refl; short = omega arith; clean = refl }

issuer-IsReadable : IsReadable "https://op"
unfolding grindvakt.Prelude.Text.any_char grindvakt.Prelude.Text.is_control
    grindvakt.Error.Escape.is_invisible_format
issuer-IsReadable = record { filled = refl; short = omega arith; clean = refl }

parse_pairs-response_params_example :
    (r : AuthorizationResponse) × (parse_pairs RpFixture.urls
        (response_params op login_services asked none (some "t") none)
        (record { mode = none; accept_unverified_jarm = false })
        query
      ≡ ok r)
    × (r.code ≡ some "t")
    × (r.error ≡ none)
    × (matches_state library.constant_time_eq r "xyz" true ≡ true)
    × (matches_iss r "https://op" true ≡ true)
parse_pairs-response_params_example =
    parse_pairs-response_params op login_services RpFixture.urls library.constant_time_eq
      login-IsPeer.compares asked none none "t" "xyz"
      (record { mode = none; accept_unverified_jarm = false }) query refl refl code-IsReadable
      state-IsReadable issuer-IsReadable
