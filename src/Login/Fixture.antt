-- ===== src/Login/Fixture.antt =====
-- The example provider and a relying party that knows its one signature.
use grindvakt.Prelude.{
  ℕ, String, ◌≡◌, refl, Bool, true, false, ◌&&◌, [], ◌∷◌, Option, none, some, arith, opt_str_eq,
  opt_str_eq-eq, ◌==◌, eq_iff, nat_eq, sym, ap, inl, ◌<◌, ◌≤◌, if◌then◌else◌,
}
use grindvakt.Dict.{Dict}
use grindvakt.Result.{Result, ok, err, ok_injective}
use grindvakt.Error.{Error, config}
use mathlib.Core.Option.{some-injective}
use grindvakt.Http
use grindvakt.Request.{AuthorizationRequest}
use grindvakt.Tokens.Sealing.{IsAuthentic}
use grindvakt.Tokens.Fixture.{cipher, cipher-IsAuthentic}
use grindvakt.Provider.Mint.{Authentication}
use grindvakt.Provider.Mint.Response.{IsMinted}
use grindvakt.Login.Issue.{IsWorking}
use grindvakt.Login.Code.{IsPresented, sealed_in}
use grindvakt.Provider.Fixture
use grindvakt.Provider.Fixture.{World, op}
use grindvakt.Provider.Defs.Services.{Services}
use grindvakt.Provider.Mint.{IdTokenInput}
use grindvakt.Rp.Fixture as RpFixture
use grindvakt.Rp.Library.{RpLibrary}
use grindvakt.Pkce.Verify.{constant_time_eq_iff}
use grindvakt.Login.{IsPeer}
use grindvakt.Json.{Json, string, number}
use grindvakt.Jwt.{Claims, Audience, NumericDate, single, seconds, default_claims}

abbrev pub sample : Claims
sample = record default_claims {
  iss = some "https://op";
  sub = some "u";
  aud = some (single "c");
  iat = some (seconds 100);
  exp = some (seconds 3700);
  extra = ("nonce", string "n") ∷ ("auth_time", number 90) ∷ ("at_hash", string "half") ∷ [];
}

abbrev is_aud : Option Audience → Bool
is_aud (some (single a)) = a == "c"
is_aud _ = false

abbrev is_date : ℕ → Option NumericDate → Bool
is_date n none = false
is_date n (some d) = nat_eq d.as_secs n && nat_eq d.subsec_nanos 0

abbrev is_none : Option String → Bool
is_none none = true
is_none (some a) = false

abbrev is_extra : Dict Json → Bool
is_extra ((a, string b) ∷ (c, number d) ∷ (e, string f) ∷ []) =
    a == "nonce" && b == "n" && c == "auth_time" && nat_eq d 90 && e == "at_hash" && f == "half"
is_extra _ = false

abbrev is_sample : Claims → Bool
is_sample c =
    opt_str_eq c.iss (some "https://op")
    && opt_str_eq c.sub (some "u")
    && is_aud c.aud
    && is_date 100 c.iat
    && is_date 3700 c.exp
    && is_none c.jti
    && is_extra c.extra

is_aud-eq : (o : Option Audience) → is_aud o ≡ true → some (single "c") ≡ o
is_aud-eq (some (single a)) h = ground (arith, h, eq_iff a "c")
is_aud-eq _ h = cc

is_date-eq : (n : ℕ) (o : Option NumericDate) → is_date n o ≡ true → some (seconds n) ≡ o
is_date-eq n none h = cc
is_date-eq n (some d) h = ground (arith, h)

is_none-eq : (o : Option String) → is_none o ≡ true → none ≡ o
is_none-eq none h = refl
is_none-eq (some a) h = cc

is_extra-eq : (m : Dict Json) → is_extra m ≡ true → sample.extra ≡ m
is_extra-eq ((a, string b) ∷ (c, number d) ∷ (e, string f) ∷ []) h = ground (
  arith,
  h,
  eq_iff a "nonce",
  eq_iff b "n",
  eq_iff c "auth_time",
  eq_iff e "at_hash",
  eq_iff f "half",
)
is_extra-eq _ h = cc

is_sample-eq : (c : Claims) → is_sample c ≡ true → sample ≡ c
is_sample-eq c h = ground (
  arith,
  opt_str_eq-eq c.iss (some "https://op"),
  opt_str_eq-eq c.sub (some "u"),
  is_aud-eq c.aud,
  is_date-eq 100 c.iat,
  is_date-eq 3700 c.exp,
  is_none-eq c.jti,
  is_extra-eq c.extra,
)

abbrev pub signer : ℕ → Claims → Result Error String
signer random c = if is_sample c then ok "id-1" else err (config "sign")

abbrev pub library : RpLibrary (Unit {0}) (Unit {0}) (Unit {0})
library = record RpFixture.library {
  hashing = Fixture.services.hashing;
  decode_with_jwkset = λ keys t v w. (ok sample, w);
}

abbrev pub input : IdTokenInput
input = record {
  client_id = "c";
  sub = "u";
  nonce = some "n";
  claims = [];
  acr = none;
  auth_time = 90;
  code = none;
  access_token = some "access-1";
}

abbrev pub login_services : Services (Unit {0}) World
login_services = record Fixture.services {
  sign = signer;
  crypto = record cipher {
    access_serde = Fixture.one_text "at" "u" Fixture.access_state;
    refresh_serde = Fixture.one_text "rt" "u" Fixture.refresh_state;
  };
}

pub login-IsPeer : IsPeer op login_services library tt
unfolding grindvakt.Jwt.alg_name
login-IsPeer = record {
  hashing = refl;
  compares = λ bytes. (constant_time_eq_iff bytes bytes).1 refl;
  parsed = refl;
  header = λ random c token signed. (_, refl, refl, refl);
  verifies = λ random c token v iat exp w signed _ _ _ _ _ _ _ _ _ _.
      ap ok (is_sample-eq c (ground (arith, signed)));
}

pub login-IsAuthentic : IsAuthentic login_services.crypto
login-IsAuthentic = record {
  decrypts = cipher-IsAuthentic.decrypts;
  refuses = cipher-IsAuthentic.refuses;
}

abbrev pub login_request : AuthorizationRequest
login_request = record Fixture.request { scope = "openid"; nonce = some "n" }

abbrev pub login : Authentication
login = record { external_claims = []; acr = none; extra_claims = []; auth_time = some 90 }

pub login-IsWorking :
    IsWorking op login_services (sealed_in op login_services login_request "u" login []) "c"
unfolding grindvakt.Tokens.seal_access_token grindvakt.Tokens.seal
    grindvakt.Tokens.seal_refresh_token grindvakt.Provider.Mint.token_hash
    grindvakt.Jwt.supports_oidc_token_hash grindvakt.Jwt.oidc_token_hash
    grindvakt.Provider.Mint.id_token_claims grindvakt.Prelude.Words.add_u64
    grindvakt.Provider.Mint.released_claims grindvakt.Provider.Claims.filter_claims
    grindvakt.Dict.filter_keys grindvakt.Provider.Claims.flatten_claims grindvakt.Dict.insert
login-IsWorking = record {
  access = λ random q. ("t", refl);
  refresh = λ random q. ("t", refl);
  signs = λ random w access_token h hashed.
      let half : ◌≡◌ {A = Result Error (Option String)} (ok (some "half")) (ok h) = hashed in
      ("id-1", rw (sym (ok_injective half)) refl);
}

abbrev pub granted : Http.Response
granted = Http.redirect "https://c/cb?code=t&state=x&iss=https://op"

abbrev pub login-IsMinted : IsMinted op login_services login_request "u" login [] granted
unfolding grindvakt.Provider.Redirect.check_iss_redirect_collision grindvakt.Request.use_fragment
    grindvakt.Request.wants grindvakt.Prelude.Text.split_whitespace
    grindvakt.Prelude.Text.split_once grindvakt.OauthError.split_fragment
    grindvakt.Provider.Redirect.redirect_with grindvakt.Prelude.Text.any_char
    grindvakt.OauthError.encode_params grindvakt.Prelude.Text.join grindvakt.Dict.get
    grindvakt.Provider.Mint.response_params grindvakt.Tokens.seal_code grindvakt.Tokens.seal
    grindvakt.Provider.Mint.released_claims grindvakt.Provider.Claims.filter_claims
    grindvakt.Dict.filter_keys grindvakt.Provider.Claims.flatten_claims
    grindvakt.Prelude.Words.add_u64
login-IsMinted = record {
  id_token = none;
  code = some "t";
  access_token = none;
  random = 0;
  subject = refl;
  no_collision = refl;
  has_id_token = refl;
  has_code = refl;
  has_access_token = refl;
  params = ("code", "t") ∷ ("state", "x") ∷ ("iss", "https://op") ∷ [];
  answer = record {
    for_id_token = refl;
    for_code = refl;
    for_access_token = refl;
    token_type = refl;
    expires_in = refl;
    state = refl;
    iss = refl;
    distinct = (refl, (refl, (refl, tt)));
  };
  location = refl;
  sealed = λ c e. ap ok (some-injective _ _ e);
}

abbrev pub form : Dict String
form =
    ("client_id", "c")
    ∷ ("client_secret", "s")
    ∷ ("code", "t")
    ∷ ("redirect_uri", "https://c/cb")
    ∷ []

abbrev pub login-IsPresented : IsPresented op login_services login_request [] "t" form none "" []
unfolding grindvakt.Provider.Clients.Methods.authenticate_client_map grindvakt.Exec.◌>>=◌
    grindvakt.Dict.get grindvakt.Provider.Clients.check_secret grindvakt.Pkce.constant_time_eq
    grindvakt.Prelude.Bytes.as_bytes grindvakt.Prelude.Words.add_u64
login-IsPresented = record {
  client = Fixture.client;
  w₁ = [];
  authenticated = refl;
  allowed = refl;
  own = refl;
  presented = refl;
  redirect = refl;
  public_proof = refl;
  proven = inl refl;
  early = omega arith;
  fresh = refl;
}
