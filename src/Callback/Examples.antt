-- ===== src/Callback/Examples.antt =====
-- Runs of src/callback.rs: a plain response and a signed one.
use grindvakt.Prelude.{◌≤◌, String, ◌≡◌, refl, ◌⊎◌, true, false, List, [], ◌∷◌, none, some}
use grindvakt.Result.{ok, err}
use grindvakt.Json.{string}
use grindvakt.Jwt.{Claims, default_claims, single, rs256}
use grindvakt.Url.{UrlLibrary}
use grindvakt.Callback.{AuthorizationResponse, AuthorizationResponseOptions, query, jwt}
use grindvakt.Callback.Parse.{parse_pairs, jarm}
use grindvakt.Callback.Parsed.{count}
use grindvakt.Callback.Accepted.{IsSigned, IsSent, parse_pairs-IsParsed}
use grindvakt.Callback.Jarm.{JarmOptions, jarm_options, Header, Jose, jarm_typ}
use grindvakt.Callback.Verified.{IsVerified, verify_jarm-IsVerified}

abbrev urls : UrlLibrary
urls = record {
  parse = λ s. err "none";
  byte_serialize = λ s. s;
  form_parse = λ s. [];
  append_pairs = λ ps u. "";
  ip_is_loopback = λ s. none;
}

abbrev pairs : List (String × String)
pairs = ("code", "abc") ∷ ("session", "1") ∷ ("state", "s") ∷ ("iss", "https://op") ∷ []

abbrev options : AuthorizationResponseOptions
options = record { mode = none; accept_unverified_jarm = false }

abbrev plain : AuthorizationResponse
plain = record {
  code = some "abc";
  state = some "s";
  error = none;
  error_description_safe = none;
  error_uri = none;
  iss = some "https://op";
  jarm_response = none;
  jarm_verified = false;
  response_mode = query;
}

parse_pairs-IsParsed_example :
    (count "code" pairs ≤ 1) × (IsSigned pairs options plain ⊎ IsSent pairs options query plain)
unfolding parse_pairs grindvakt.Callback.Parse.collect_params grindvakt.Dict.get
    grindvakt.Dict.insert grindvakt.Callback.Parse.finish grindvakt.Callback.Fields.validate
    grindvakt.Callback.Fields.check_fields grindvakt.Callback.Parse.fields_of
    grindvakt.Callback.Fields.check_value grindvakt.Prelude.Text.any_char
    grindvakt.Prelude.Text.is_control grindvakt.Error.Escape.is_invisible_format
    grindvakt.Callback.Fields.response_of
parse_pairs-IsParsed_example =
    parse_pairs-IsParsed urls pairs options query "code" {r = plain} refl refl

abbrev claims : Claims
claims = record default_claims {
  iss = some "https://op";
  aud = some (single "client");
  extra = ("code", string "abc") ∷ ("state", string "s") ∷ [];
}

abbrev header : Header
header = record { typ = some jarm_typ; kid = some "k" }

abbrev jose : Jose (Unit {0}) (Unit {0})
jose = record {
  decode_header = λ t. some header;
  kids = λ keys. some "k" ∷ some "l" ∷ [];
  decode_with_jwkset = λ keys t v w. (ok claims, w);
}

abbrev received : JarmOptions
received = jarm_options "https://op" "client" (rs256 ∷ [])

abbrev signed : AuthorizationResponse
signed = record plain { jarm_response = some "a.b.c"; jarm_verified = true; response_mode = jwt }

verify_jarm-IsVerified_example : IsVerified urls jose (jarm "a.b.c") tt received tt signed
unfolding grindvakt.Callback.Jarm.verify_jarm grindvakt.Exec.◌>>=◌
    grindvakt.Callback.Jarm.jarm_token grindvakt.Callback.Jarm.check_options
    grindvakt.Prelude.Text.split grindvakt.Callback.Jarm.check_header
    grindvakt.Callback.Jarm.check_jarm_typ grindvakt.Callback.Jarm.norm_typ
    grindvakt.Prelude.Slices.strip_prefix grindvakt.Prelude.Slices.to_ascii_lowercase
    grindvakt.Rp.Kids.ensure_kid_names_key grindvakt.Callback.Jarm.check_claims
    grindvakt.Callback.Jarm.claim_fields grindvakt.Callback.Jarm.string_claim grindvakt.Dict.get
    grindvakt.Callback.Fields.validate grindvakt.Callback.Fields.check_fields
    grindvakt.Callback.Fields.check_value grindvakt.Prelude.Text.any_char
    grindvakt.Prelude.Text.is_control grindvakt.Error.Escape.is_invisible_format
    grindvakt.Callback.Fields.response_of
verify_jarm-IsVerified_example =
    verify_jarm-IsVerified urls jose (jarm "a.b.c") tt received tt {out = signed} {w' = tt} refl
