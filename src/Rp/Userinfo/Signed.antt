-- ===== src/Rp/Userinfo/Signed.antt =====
-- src/rp.rs: verification of signed UserInfo.
use grindvakt.Prelude.{
  String, List, [], ◌∷◌, Bool, false, not, ◌&&◌, ◌||◌, Option, none, some, is_some, any, has,
  opt_str_eq, ◌==◌, unwrap_or, if◌then◌else◌,
}
use grindvakt.Prelude.Slices.{trim, to_ascii_lowercase, strip_prefix}
use grindvakt.Dict
use grindvakt.Json.{Json}
use grindvakt.Jwt.{JwsAlgorithm, Claims, Audience, single, multiple}
use grindvakt.Result.{Result, ok_or, fail_if, ◌>>◌}
use grindvakt.Exec
use grindvakt.Exec.{Exec, lift}
use grindvakt.Error.{Error, bad_request, authn, json}
use grindvakt.Http.Fetch.{HttpFetchResponse}
use grindvakt.Rp.Library.{RpLibrary, Validation, Header, verify_with_jwks}
use grindvakt.Rp.Kids.{several, ensure_kid_names_key}
use grindvakt.Rp.IdToken.{peek_header, is_nil}
use grindvakt.Rp.Userinfo.Options.{
  UserinfoJwtOptions, UserinfoTrust, by_typ, by_dedicated_keys, by_shared_keys,
}
use grindvakt.Rp.Userinfo.{content_type_of, media_type, is_jwt}

unfoldable pub normalized_typ : String → String
normalized_typ typ =
    let t = to_ascii_lowercase (media_type typ) in unwrap_or t (strip_prefix "application/" t)

-- the types that do not say that a token is UserInfo, and those that say it is another one
abbrev pub generic_typs : List String
generic_typs = "" ∷ "jwt" ∷ "id_token+jwt" ∷ "at+jwt" ∷ []

abbrev pub token_typs : List String
token_typs = "id_token+jwt" ∷ "at+jwt" ∷ []

-- The type that a token must have, if any.
abbrev pub expected_typ : UserinfoTrust → Option String
expected_typ (by_typ typ) = some typ
expected_typ by_dedicated_keys = none
expected_typ by_shared_keys = none

abbrev pub is_typ_of : List String → Option String → Bool
is_typ_of typs none = false
is_typ_of typs (some typ) = has (normalized_typ typ) typs

-- whether an audience is the client and no other
abbrev pub audience_is : String → Option Audience → Bool
audience_is client_id (some (single a)) = a == client_id
audience_is client_id (some (multiple (a ∷ []))) = a == client_id
audience_is client_id _ = false

abbrev pub id_token_claims : List String
id_token_claims = "nonce" ∷ "at_hash" ∷ "c_hash" ∷ []

abbrev pub has_id_token_claim : Claims → Bool
has_id_token_claim c = any (λ k. is_some (Dict.get k c.extra)) id_token_claims

-- The checks on the claims that follow the signature.
unfoldable pub check_claims : String → String → Claims → Result Error (Unit {0})
check_claims client_id expected_sub c =
    fail_if (not (audience_is client_id c.aud))
      (authn "signed userinfo audience must be exactly the client_id")
    >> fail_if (not (opt_str_eq c.sub (some expected_sub)))
        (authn "userinfo sub does not match the validated id_token subject")

module _ {K S W : Type 0} (l : RpLibrary K S W) where
  abbrev pub require_kid : K → UserinfoJwtOptions → Bool
  require_kid keys o = several (l.kids keys) || not o.allow_missing_kid

  unfoldable pub check_kid : K → UserinfoJwtOptions → Header → Result Error (Unit {0})
  check_kid keys o header =
      fail_if (require_kid keys o && not (is_some header.kid)) (
        authn (
          if several (l.kids keys)
          then "signed userinfo has no kid but the JWK Set has several keys"
          else "signed userinfo has no kid; use UserinfoJwtOptions::allow_missing_kid for an OP that publishes a single key without kid"))
      >> ensure_kid_names_key (l.kids keys) header.kid "signed userinfo"

  abbrev pub validation : K → String → String → List JwsAlgorithm → UserinfoJwtOptions → Validation
  validation keys issuer client_id algorithms o = record {
    issuer = issuer;
    audience = client_id;
    allowed_algorithms = algorithms;
    leeway = none;
    max_age = o.max_age;
    typ = expected_typ o.trust;
    require_exp = o.require_exp;
    require_iat = false;
    require_kid = require_kid keys o;
  }

  -- The refusal of tokens of another kind.
  unfoldable pub check_kind : Claims → Header → Result Error (Unit {0})
  check_kind c header = fail_if (is_typ_of token_typs header.typ || has_id_token_claim c) (
      authn
        "signed userinfo carries id_token claims (nonce/at_hash/c_hash); refusing to treat an id_token as UserInfo")

  unfoldable pub userinfo_signed_claims :
      K
      → HttpFetchResponse
      → String
      → String
      → String
      → List JwsAlgorithm
      → UserinfoJwtOptions
      → Exec W Error Json
  userinfo_signed_claims keys r issuer client_id expected_sub algorithms o =
      let token = trim (l.utf8_lossy r.body) in
      Exec.◌>>=◌
        (lift (
          fail_if (is_nil algorithms)
            (bad_request "at least one allowed userinfo signing algorithm is required")))
        λ _.
          Exec.◌>>=◌
            (lift (
              fail_if (not (is_jwt (content_type_of r)))
                (authn "signed userinfo must be served as application/jwt")))
            λ _. Exec.◌>>=◌ (lift (peek_header l token)) λ header.
              Exec.◌>>=◌ (lift (check_kid keys o header)) λ _.
                Exec.◌>>=◌
                  (lift (
                    fail_if (is_typ_of generic_typs (expected_typ o.trust))
                      (bad_request "typ must identify UserInfo specifically")))
                  λ _.
                    Exec.◌>>=◌
                      (verify_with_jwks l keys token
                        (validation keys issuer client_id algorithms o))
                      λ claims. Exec.◌>>=◌ (lift (check_claims client_id expected_sub claims)) λ _.
                        Exec.◌>>=◌ (lift (check_kind claims header))
                          λ _. lift (ok_or (l.to_value claims) (json "claims"))
