-- ===== src/Callback/Verified.antt =====
-- src/callback.rs: what a verified JARM response rests on.
use grindvakt.Prelude.{
  String, ◌≡◌, refl, sym, ap, subst, ◌∙◌, Bool, true, false, not, ◌&&◌, ◌||◌, Option, none, some,
  is_some, arith, opt_str_eq-eq, length, nat_eq,
}
use grindvakt.Prelude.Text.{is_empty, split}
use grindvakt.Result.{ok, ok_injective, ok_or-eq-ok, step->>, fail_if->>, fail_if-eq-ok}
use grindvakt.Exec.{Returns, after, after_lift, map_err-Returns}
use grindvakt.Jwt.{Claims}
use grindvakt.Url.{UrlLibrary}
use grindvakt.Rp.Kids.{several, IsNamed, kid-IsNamed}
use grindvakt.Callback.{AuthorizationResponse}
use grindvakt.Callback.Fields.{Fields, validate, response_of}
use grindvakt.Callback.Parsed.{IsPlain, validate-IsPlain}
use grindvakt.Callback.Jarm.{
  JarmOptions, Header, Jose, jarm_token, check_options, check_jarm_typ, typ_matches, check_header,
  check_claims, audience_is, claim_fields, validation, verify_jarm, verified, exceeds_leeway,
  jarm_error, is_nil,
}

-- The type of the header is the expected one, or one that the caller has allowed.
abbrev pub IsTyped : JarmOptions → Option String → Type 0
IsTyped opts none = opts.allow_missing_typ ≡ true
IsTyped opts (some t) = typ_matches opts t ≡ true

check_jarm_typ-IsTyped :
    (typ : Option String) (opts : JarmOptions) → check_jarm_typ typ opts ≡ ok tt → IsTyped opts typ
unfolding check_jarm_typ
check_jarm_typ-IsTyped none opts h = ground (arith, h)
check_jarm_typ-IsTyped (some t) opts h = ground (arith, h)

jarm_token-unverified :
    (o : Option String) (v : Bool) (t : String) → jarm_token o v ≡ ok t → (o ≡ some t) × (v ≡ false)
unfolding jarm_token
jarm_token-unverified none v t h = cc
jarm_token-unverified (some s) true t h = cc
jarm_token-unverified (some s) false t h = (ap some (ok_injective h), refl)

-- A compact JWT has three parts.
abbrev pub three_parts : String → Bool
three_parts token = nat_eq (length (split (λ c. nat_eq c b'.') token)) 3

not-false : {b : Bool} → not b ≡ false → b ≡ true
not-false {b} h = ground (arith, h)

module _ {K W : Type 0} (u : UrlLibrary) (j : Jose K W) where
  -- What a verified response rests on.
  pub record IsVerified (r : AuthorizationResponse) (keys : K) (opts : JarmOptions) (w : W)
      (out : AuthorizationResponse) : Type 0 where
    pub token : String
    pub header : Header
    pub claims : Claims
    pub fields : Fields
    pub w' : W
    pub carried : r.jarm_response ≡ some token
    pub unverified : r.jarm_verified ≡ false
    pub leeway : exceeds_leeway opts.leeway ≡ false
    pub parts : three_parts token ≡ true
    pub decoded : j.decode_header token ≡ some header
    pub typed : IsTyped opts header.typ
    pub named : IsNamed (j.kids keys) header.kid
    pub signed : j.decode_with_jwkset keys token (validation u j opts keys) w ≡ (ok claims, w')
    pub audience : audience_is opts.client_id claims.aud ≡ true
    pub issuer : claims.iss ≡ some opts.issuer
    pub read : claim_fields claims ≡ ok fields
    pub plain : IsPlain (response_of u fields)
    pub made : verified token (response_of u fields) ≡ out

  check_header_lem :
      (keys : K) (opts : JarmOptions) (header : Header)
      → check_header u j keys opts header ≡ ok tt
      → IsTyped opts header.typ × IsNamed (j.kids keys) header.kid
  unfolding check_header
  check_header_lem keys opts header h =
      let (typed, rest) = (step->> (check_jarm_typ header.typ opts) _).0 h in
      let (several_unnamed, known) =
        (fail_if->> (several (j.kids keys) && not (is_some header.kid)) _ _).0 rest in
      (
        check_jarm_typ-IsTyped header.typ opts typed,
        kid-IsNamed (j.kids keys) header.kid "JARM response" several_unnamed known,
      )

  check_claims_lem :
      (opts : JarmOptions) (claims : Claims)
      → check_claims u j opts claims ≡ ok tt
      → (audience_is opts.client_id claims.aud ≡ true) × (claims.iss ≡ some opts.issuer)
  unfolding check_claims
  check_claims_lem opts claims h =
      (ground (arith, h), opt_str_eq-eq claims.iss (some opts.issuer) (ground (arith, h)))

  check_options_lem :
      (opts : JarmOptions) (token : String)
      → check_options opts token ≡ ok tt
      → (exceeds_leeway opts.leeway ≡ false) × (three_parts token ≡ true)
  unfolding check_options
  check_options_lem opts token h =
      let (_, h₁) = (fail_if->> (is_nil opts.allowed_algorithms) _ _).0 h in
      let (_, h₂) = (fail_if->> (is_empty opts.issuer || is_empty opts.client_id) _ _).0 h₁ in
      let (leeway, h₃) = (fail_if->> (exceeds_leeway opts.leeway) _ _).0 h₂ in
      (leeway, not-false (fail_if-eq-ok (not (three_parts token)) _ h₃))

  -- A verified JARM response rests on the token that the response carried unverified, a
  -- compact JWT of three parts whose header has the expected type or one that the options
  -- allow, a key that is named wherever there are several, a signature that the library
  -- accepts under the given keys, issuer, audience and algorithms, an audience that is exactly
  -- the client, the expected issuer, and fields of its claims that pass all checks of a plain
  -- response.
  pub verify_jarm-IsVerified :
      (r : AuthorizationResponse) (keys : K) (opts : JarmOptions) (w : W)
      {out : AuthorizationResponse} {w' : W}
      → Returns (verify_jarm u j r keys opts) w out w'
      → IsVerified r keys opts w out
  unfolding verify_jarm validate
  verify_jarm-IsVerified r keys opts w {out = out} h = after_lift _ _ _ h λ token a h₁.
      after_lift _ _ _ h₁ λ _ b h₂. after_lift _ _ _ h₂ λ header c h₃. after_lift _ _ _ h₃ λ _ d h₄.
        after _ _ _ h₄ λ claims w₁ e h₅. after_lift _ _ _ h₅ λ _ f h₆.
          after_lift _ _ _ h₆ λ fields g h₇. after_lift _ _ _ h₇ λ q i h₈.
            let (carried, unverified) =
              jarm_token-unverified r.jarm_response r.jarm_verified token a in
            let (leeway, parts) = check_options_lem opts token b in
            let (typed, named) = check_header_lem keys opts header d in
            let (audience, issuer) = check_claims_lem opts claims f in
            let (plain, same) = validate-IsPlain u fields i in
            record {
              token = token;
              header = header;
              claims = claims;
              fields = fields;
              w' = w₁;
              carried = carried;
              unverified = unverified;
              leeway = leeway;
              parts = parts;
              decoded = ok_or-eq-ok _ _ c;
              typed = typed;
              named = named;
              signed =
                  map_err-Returns jarm_error
                    (j.decode_with_jwkset keys token (validation u j opts keys)) w e;
              audience = audience;
              issuer = issuer;
              read = g;
              plain = subst IsPlain (sym same) plain;
              made = ap (verified token) same ∙ ok_injective (λ x. (h₈ x).0);
            }
