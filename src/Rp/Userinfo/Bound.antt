-- ===== src/Rp/Userinfo/Bound.antt =====
-- src/rp.rs: what accepted signed UserInfo rests on.
use grindvakt.Prelude.{
  String, ◌≡◌, refl, List, Bool, true, false, Option, none, some, is_some, opt_str_eq, any,
}
use grindvakt.Prelude.Slices.{trim}
use grindvakt.Dict
use grindvakt.Json.{Json}
use grindvakt.Jwt.{JwsAlgorithm, Claims}
use grindvakt.Result.{ok}
use grindvakt.Http.Fetch.{HttpFetchResponse}
use grindvakt.Rp.Library.{RpLibrary, Header}
use grindvakt.Rp.Userinfo.{content_type_of, is_jwt}
use grindvakt.Rp.Userinfo.Options.{UserinfoJwtOptions}
use grindvakt.Rp.Userinfo.Signed.{
  generic_typs, token_typs, expected_typ, is_typ_of, audience_is, require_kid, validation,
}

-- A key is named where one is required, and a name is that of a key.
abbrev pub IsKeyed : Bool → List (Option String) → Option String → Type 0
IsKeyed required kids none = required ≡ false
IsKeyed required kids (some kid) = any (λ k. opt_str_eq k (some kid)) kids ≡ true

unmarked : (o : Option Json) → is_some o ≡ false → o ≡ none
unmarked none h = refl
unmarked (some v) h = cc

-- None of the claims that an ID token has.
abbrev pub IsUnmarked : Claims → Type 0
IsUnmarked c =
    (Dict.get "nonce" c.extra ≡ none)
    × (Dict.get "at_hash" c.extra ≡ none)
    × (Dict.get "c_hash" c.extra ≡ none)

module _ {K S W : Type 0} (l : RpLibrary K S W) where
  pub record IsUserinfo (keys : K) (r : HttpFetchResponse) (issuer client_id expected_sub : String)
      (algorithms : List JwsAlgorithm) (o : UserinfoJwtOptions) (w : W) (v : Json) : Type 0 where
    pub header : Header
    pub claims : Claims
    pub w' : W
    pub served : is_jwt (content_type_of r) ≡ true
    pub decoded : l.decode_header (trim (l.utf8_lossy r.body)) ≡ some header
    pub keyed : IsKeyed (require_kid l keys o) (l.kids keys) header.kid
    pub specific : is_typ_of generic_typs (expected_typ o.trust) ≡ false
    pub signed :
        l.decode_with_jwkset keys
          (trim (l.utf8_lossy r.body))
          (validation l keys issuer client_id algorithms o)
          w
        ≡ (ok claims, w')
    pub audience : audience_is client_id claims.aud ≡ true
    pub subject : claims.sub ≡ some expected_sub
    pub other_typ : is_typ_of token_typs header.typ ≡ false
    pub unmarked : IsUnmarked claims
    pub shown : l.to_value claims ≡ some v
