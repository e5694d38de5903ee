-- ===== src/Provider/Fixture.antt =====
-- A provider with one client, over libraries that are simple functions: the data of the examples.
use grindvakt.Prelude.{String, true, false, List, [], ◌∷◌, none, some, if◌then◌else◌, ◌==◌, has}
use grindvakt.Dict.{Dict}
use grindvakt.Json.{Json}
use grindvakt.Result.{ok}
pub use grindvakt.Provider.Registered.{client}
use grindvakt.Provider.Registered.{is_registration, same_text}
use grindvakt.Jwt.{es256}
use grindvakt.Metadata.{ProviderMetadata}
use grindvakt.Tokens.{TokenCrypto, Serde, AuthCodePayload, AccessTokenPayload, RefreshTokenPayload}
use grindvakt.Request.{AuthorizationRequest}
use grindvakt.Provider.Defs.{Provider}
use grindvakt.Provider.Defs.Services.{Services}

-- the uses that the store has taken
abbrev pub World : Type 0
World = List String

abbrev pub document : ProviderMetadata
document = record {
  issuer = "https://op";
  authorization_endpoint = "https://op/authorization";
  token_endpoint = "https://op/token";
  userinfo_endpoint = none;
  jwks_uri = "https://op/jwks";
  registration_endpoint = none;
  scopes_supported = [];
  response_types_supported = [];
  response_modes_supported = [];
  grant_types_supported = [];
  subject_types_supported = [];
  id_token_signing_alg_values_supported = [];
  token_endpoint_auth_methods_supported = [];
  claims_supported = [];
  code_challenge_methods_supported = [];
  claims_parameter_supported = false;
  request_parameter_supported = false;
  dpop_signing_alg_values_supported = [];
  extra = [];
}

abbrev pub op : Provider
op = record {
  metadata = document;
  signing_alg = es256;
  codec = record { primary = "k"; previous = [] };
  lifetimes = record {
    code_ttl = 600;
    access_token_ttl = 3600;
    id_token_ttl = 3600;
    refresh_token_ttl = 86400;
  };
  caller_managed_pairwise_subjects = false;
  client_assertion_max_age = 300;
  emit_iss = true;
}

abbrev pub code_state : AuthCodePayload
code_state = record {
  client_id = "c";
  redirect_uri = "https://c/cb";
  scope = "openid";
  sub = "u";
  nonce = some "n";
  code_challenge = none;
  code_challenge_method = none;
  claims = [];
  auth_time = 90;
  exp = 700;
  acr = none;
}

abbrev pub access_state : AccessTokenPayload
access_state = record {
  client_id = "c";
  sub = "u";
  scope = "openid";
  claims = ("email", Json.string "u@c") ∷ [];
  exp = 3700;
  cnf_jkt = some "key";
}

abbrev pub refresh_state : RefreshTokenPayload
refresh_state = record {
  client_id = "c";
  sub = "u";
  scope = "email api";
  nonce = none;
  claims = [];
  auth_time = 90;
  exp = 90000;
  acr = none;
  cnf_jkt = some "key";
}

-- A format that knows one text.
abbrev pub one_text : {T : Type 0} → String → String → T → Serde T
one_text typ text payload = record {
  to_vec = λ e. some text;
  from_slice = λ t. if t == text then some (record { typ = typ; p = payload }) else none;
}

abbrev pub clear : TokenCrypto
clear = record {
  hkdf = λ salt info secret. secret;
  encrypt = λ random key text. ok text;
  decrypt = λ key token. ok token;
  code_serde = one_text "code" "code-1" code_state;
  access_serde = one_text "at" "access-1" access_state;
  refresh_serde = one_text "rt" "refresh-1" refresh_state;
}

abbrev pub services : Services (Unit {0}) World
services = record {
  client_get = λ id w. (if id == "c" then some client else none, w);
  token_consume = λ key ttl w. if has key w then (ok false, w) else (ok true, key ∷ w);
  clock = λ w. (100, w);
  draw = λ w. (0, w);
  crypto = clear;
  encoding = record { encode = λ bs. "digest"; decode = λ t. none; sha256 = λ bs. bs };
  hashing = record {
    sha256 = λ bs. bs;
    sha384 = λ bs. bs;
    sha512 = λ bs. bs;
    encode = λ bs. "half";
  };
  urlencode = λ t. t;
  form_parse = λ t. [];
  url_parse = λ t. some none;
  sign = λ random claims. ok "id-1";
  decode_url = λ t. none;
  claims_from_slice = λ bs. none;
  verify_with_jwks = λ keys token v w. (none, w);
  default_leeway = 60;
  decode_standard = λ t. none;
  percent_decode_str = λ t. [];
  utf8_lossy = λ bytes. "";
  key_extras = λ keys. [];
  without_extras = λ keys. keys;
  to_value = λ r. if is_registration r then some (Json.string "client") else none;
  value_eq = same_text;
}

abbrev pub request : AuthorizationRequest
request = record {
  client_id = "c";
  redirect_uri = "https://c/cb";
  response_type = "code";
  scope = "email";
  state = some "x";
  nonce = none;
  code_challenge = none;
  code_challenge_method = none;
  response_mode = none;
  prompt = none;
  acr_values = none;
  claims = none;
  request_object = none;
  resources = [];
  extra = [];
}

abbrev pub code_form : Dict String
code_form =
    ("grant_type", "authorization_code")
    ∷ ("client_id", "c")
    ∷ ("client_secret", "s")
    ∷ ("code", "code-1")
    ∷ ("redirect_uri", "https://c/cb")
    ∷ []

abbrev pub refresh_form : Dict String
refresh_form =
    ("grant_type", "refresh_token")
    ∷ ("client_id", "c")
    ∷ ("client_secret", "s")
    ∷ ("refresh_token", "refresh-1")
    ∷ ("scope", "email")
    ∷ []

abbrev pub credentials_form : Dict String
credentials_form =
    ("grant_type", "client_credentials")
    ∷ ("client_id", "c")
    ∷ ("client_secret", "s")
    ∷ ("scope", "api other")
    ∷ []
