-- ===== src/Callback/Jarm.antt =====
-- src/callback.rs: verification of a JARM response.
use grindvakt.Prelude.{
  ℕ, String, List, [], ◌∷◌, Bool, true, false, not, ◌&&◌, ◌||◌, Option, none, some, is_some,
  unwrap_or, length, ltb, nat_eq, opt_str_eq, ◌==◌, if◌then◌else◌,
}
use grindvakt.Prelude.Text.{is_empty, split, ◌<>◌}
use grindvakt.Prelude.Slices.{to_ascii_lowercase, strip_prefix}
use grindvakt.Dict
use grindvakt.Dict.{Dict}
use grindvakt.Result.{Result, ok, err, ok_or, fail_if, ◌>>=◌, ◌>>◌}
use grindvakt.Exec
use grindvakt.Exec.{Exec, lift, pure}
use grindvakt.Error.{Error, authn}
use grindvakt.Json.{string}
use grindvakt.Jwt.{JwsAlgorithm, Claims, Audience, single, multiple}
use grindvakt.Rp.Kids.{ensure_kid_names_key, several}
use grindvakt.Url.{UrlLibrary}
use grindvakt.Callback.{AuthorizationResponse, jwt, bad}
use grindvakt.Callback.Fields.{Fields, validate}

-- `JarmOptions`
pub record JarmOptions : Type 0 where
  pub issuer : String
  pub client_id : String
  pub allowed_algorithms : List JwsAlgorithm
  pub leeway : Option ℕ
  pub expected_typ : String
  pub allow_missing_typ : Bool

abbrev pub jarm_typ : String
jarm_typ = "oauth-authz-resp+jwt"

-- `JarmOptions::new`
abbrev pub jarm_options : String → String → List JwsAlgorithm → JarmOptions
jarm_options issuer client_id allowed_algorithms = record {
  issuer = issuer;
  client_id = client_id;
  allowed_algorithms = allowed_algorithms;
  leeway = none;
  expected_typ = jarm_typ;
  allow_missing_typ = false;
}

-- what the header says
pub record Header : Type 0 where
  pub typ : Option String
  pub kid : Option String

-- `jose_rs::jwt::Validation`, as far as this module sets it; `exp` is always required
pub record Validation : Type 0 where
  pub issuer : String
  pub audience : String
  pub allowed_algorithms : List JwsAlgorithm
  pub leeway : Option ℕ
  pub require_kid : Bool

-- `jose_rs` at key sets `K`: the header, the identifiers of the keys, and the verification, which
-- reads the clock.
pub record Jose (K W : Type 0) : Type 0 where
  pub decode_header : String → Option Header
  pub kids : K → List (Option String)
  pub decode_with_jwkset : K → String → Validation → W → Result String Claims × W

abbrev pub max_id_token_leeway : ℕ
max_id_token_leeway = 300

unfoldable pub norm_typ : String → String
norm_typ typ = let t = to_ascii_lowercase typ in unwrap_or t (strip_prefix "application/" t)

abbrev pub typ_matches : JarmOptions → String → Bool
typ_matches opts t =
    norm_typ t == norm_typ opts.expected_typ || (opts.allow_missing_typ && norm_typ t == "jwt")

unfoldable pub check_jarm_typ : Option String → JarmOptions → Result Error (Unit {0})
check_jarm_typ (some t) opts =
    fail_if (not (typ_matches opts t))
      (authn "JARM response typ header does not identify a JARM response")
check_jarm_typ none opts = fail_if (not opts.allow_missing_typ) (
    authn
      "JARM response has no typ header (see JarmOptions::with_dedicated_keys / allow_untyped_shared_keys)")

-- the error for a token that does not verify
abbrev pub jarm_error : String → Error
jarm_error e = authn ("JARM response verification failed: jose error: " <> e)

-- the token that is to be verified
unfoldable pub jarm_token : Option String → Bool → Result Error String
jarm_token (some t) false = ok t
jarm_token (some t) true = err (bad "JARM response is already verified")
jarm_token none verified = err (bad "response is not a JARM response")

abbrev pub is_nil : {A : Type 0} → List A → Bool
is_nil [] = true
is_nil (x ∷ xs) = false

abbrev pub exceeds_leeway : Option ℕ → Bool
exceeds_leeway none = false
exceeds_leeway (some l) = ltb max_id_token_leeway l

-- the error for a number of parts that is not three
abbrev shape_error : ℕ → Error
shape_error n =
    if nat_eq n 5
    then bad "encrypted JARM not supported"
    else bad "JARM response is not a compact JWT"

-- The checks on the options and on the shape of the token.
unfoldable pub check_options : JarmOptions → String → Result Error (Unit {0})
check_options opts token =
    fail_if (is_nil opts.allowed_algorithms)
      (bad "at least one allowed JARM signing algorithm is required")
    >> (fail_if (is_empty opts.issuer || is_empty opts.client_id)
          (bad "JARM issuer and client_id must not be empty")
        >> (fail_if (exceeds_leeway opts.leeway) (bad "JARM leeway must be at most 300 seconds")
            >> fail_if (not (nat_eq (length (split (λ c. nat_eq c b'.') token)) 3))
                (shape_error (length (split (λ c. nat_eq c b'.') token)))))

-- The audience is the client alone.
abbrev pub audience_is : String → Option Audience → Bool
audience_is client none = false
audience_is client (some (single a)) = a == client
audience_is client (some (multiple [])) = false
audience_is client (some (multiple (a ∷ []))) = a == client
audience_is client (some (multiple (a ∷ b ∷ as_))) = false

unfoldable pub string_claim : Claims → String → Result Error (Option String)
string_claim claims name = elim (Dict.get name claims.extra) [
  | none ↦ ok none
  | some (string s) ↦ ok (some s)
  | some v ↦ err (bad ("JARM claim " <> name <> " must be a string"))
]

unfoldable pub claim_fields : Claims → Result Error Fields
claim_fields claims = string_claim claims "code" >>= λ code.
    string_claim claims "state" >>= λ state. string_claim claims "error" >>= λ error.
    string_claim claims "error_description" >>= λ description.
    string_claim claims "error_uri" >>= λ uri. ok (record {
      code = code;
      state = state;
      error = error;
      description = description;
      uri = uri;
      iss = claims.iss;
    })

abbrev pub verified : String → AuthorizationResponse → AuthorizationResponse
verified token r = record r {
  jarm_response = some token;
  jarm_verified = true;
  response_mode = jwt;
}

module _ {K W : Type 0} (u : UrlLibrary) (j : Jose K W) where
  abbrev pub validation : JarmOptions → K → Validation
  validation opts keys = record {
    issuer = opts.issuer;
    audience = opts.client_id;
    allowed_algorithms = opts.allowed_algorithms;
    leeway = opts.leeway;
    require_kid = several (j.kids keys);
  }

  -- The checks on the header.
  unfoldable pub check_header : K → JarmOptions → Header → Result Error (Unit {0})
  check_header keys opts header =
      check_jarm_typ header.typ opts
      >> (fail_if (several (j.kids keys) && not (is_some header.kid))
            (authn "JARM response has no kid but the JWK Set has several keys")
          >> ensure_kid_names_key (j.kids keys) header.kid "JARM response")

  -- The checks on the claims.
  unfoldable pub check_claims : JarmOptions → Claims → Result Error (Unit {0})
  check_claims opts claims =
      fail_if (not (audience_is opts.client_id claims.aud))
        (authn "JARM aud must be exactly the client id")
      >> fail_if (not (opt_str_eq claims.iss (some opts.issuer))) (authn "JARM iss mismatch")

  unfoldable pub verify_jarm :
      AuthorizationResponse → K → JarmOptions → Exec W Error AuthorizationResponse
  verify_jarm r keys opts = Exec.◌>>=◌ (lift (jarm_token r.jarm_response r.jarm_verified)) λ token.
      Exec.◌>>=◌ (lift (check_options opts token)) λ _.
        Exec.◌>>=◌ (lift (ok_or (j.decode_header token) (bad "JARM response header is malformed")))
          λ header. Exec.◌>>=◌ (lift (check_header keys opts header)) λ _.
            Exec.◌>>=◌
              (Exec.map_err jarm_error (j.decode_with_jwkset keys token (validation opts keys)))
              λ claims. Exec.◌>>=◌ (lift (check_claims opts claims)) λ _.
                Exec.◌>>=◌ (lift (claim_fields claims))
                  λ fields. Exec.◌>>=◌ (lift (validate u fields)) λ out. pure (verified token out)
