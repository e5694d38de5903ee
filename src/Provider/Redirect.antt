-- ===== src/Provider/Redirect.antt =====
-- src/provider.rs: redirects of the authorization endpoint, and the `iss` parameter (RFC 9207).
pub mod Iss
use grindvakt.Prelude.{
  String, Bool, false, not, ◌||◌, List, [], ◌∷◌, Option, none, some, if◌then◌else◌, ◌==◌, any,
  nat_eq,
}
use grindvakt.Prelude.Text.{any_char, split_once, ◌<>◌}
use grindvakt.Result.{Result, ok, ◌>>◌, fail_if}
use grindvakt.Http.{Response, redirect}
use grindvakt.OauthError.{
  OauthError, error, server_error, split_fragment, encode_params, to_redirect_with_params,
}
use grindvakt.Request.{AuthorizationRequest, use_fragment}
use grindvakt.Provider.Defs.{Provider}
use grindvakt.Provider.Defs.Services.{Services}

-- `form_urlencoded::parse(query).any(|(k, _)| k == "iss")`, where there is a query
unfoldable pub carries_iss : (String → List (String × String)) → Option (String × String) → Bool
carries_iss form_parse none = false
carries_iss form_parse (some (base, query)) = any (λ e. e.0 == "iss") (form_parse query)

-- the query of a URI, in front of its fragment
abbrev pub query_of : String → Option (String × String)
query_of uri = split_once b'?' (split_fragment uri).0

module _ {J W : Type 0} (p : Provider) (s : Services J W) where
  unfoldable pub check_iss_redirect_collision : AuthorizationRequest → Result OauthError (Unit {0})
  unfolding carries_iss
  check_iss_redirect_collision req =
      if not p.emit_iss || use_fragment req
      then ok tt
      else fail_if (carries_iss s.form_parse (query_of req.redirect_uri))
          (error server_error "redirect_uri already contains an iss query parameter")

  -- the parameters that `iss` emission adds
  abbrev pub iss_params : List (String × String)
  iss_params = if p.emit_iss then ("iss", p.metadata.issuer) ∷ [] else []

  pub authorization_error_redirect : AuthorizationRequest → OauthError → Result OauthError Response
  authorization_error_redirect req e = do
    check_iss_redirect_collision req
    ok (to_redirect_with_params s.urlencode e req.redirect_uri (use_fragment req) iss_params)

unfoldable pub redirect_with :
    (urlencode : String → String) → String → List (String × String) → Bool → Response
redirect_with urlencode redirect_uri params fragment =
    let sep = if fragment then "#" else if any_char (nat_eq b'?') redirect_uri then "&" else "?" in
    redirect (redirect_uri <> sep <> encode_params urlencode params)
