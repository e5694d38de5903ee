-- ===== src/Rp/Fixture.antt =====
-- A library for src/rp.rs with one provider, and what is sent to it.
use grindvakt.Prelude.{ℕ, zero, suc, String, List, [], ◌∷◌, none, some, ◌==◌, if◌then◌else◌}
use grindvakt.Result.{ok, err}
use grindvakt.Json.{Json, null, number, string, object, field, end}
use grindvakt.Jwt.{Claims, Hashing, es256, default_claims, single, multiple}
use grindvakt.Pkce.{Encoding, constant_time_eq}
use grindvakt.Error.{config}
use grindvakt.Http.Fetch.{HttpFetchResponse}
use grindvakt.Url.{Url, UrlLibrary}
use grindvakt.Rp.Library.{RpLibrary}
use grindvakt.Rp.Config.{ProviderInfo, RpClient, no_auth, TokenSet}

-- A parsed URL of a provider, with one parameter.
abbrev pub url : String → Url
url s = record {
  scheme = "https";
  host_str = some "op";
  username = "";
  password = none;
  query = none;
  fragment = none;
  query_pairs = if s == "https://op/a?v=1" then ("v", "1") ∷ [] else [];
  as_str = s;
}

abbrev pub urls : UrlLibrary
urls = record {
  parse = λ s. ok (url s);
  byte_serialize = λ s. s;
  form_parse = λ s. [];
  append_pairs = λ ps u. "";
  ip_is_loopback = λ s. none;
}

abbrev zeros : ℕ → List ℕ
zeros zero = []
zeros (suc n) = 0 ∷ zeros n

abbrev encoding : Encoding
encoding = record { encode = λ bs. "challenge"; decode = λ s. some (zeros 32); sha256 = λ bs. bs }

abbrev hashing : Hashing
hashing = record { sha256 = λ bs. bs; sha384 = λ bs. bs; sha512 = λ bs. bs; encode = λ bs. "hash" }

-- the claims of an ID token and those of UserInfo
abbrev pub id_claims : Claims
id_claims = record default_claims {
  iss = some "https://op";
  sub = some "user";
  aud = some (multiple ("client" ∷ "api" ∷ []));
  extra =
      ("azp", string "client")
      ∷ ("nonce", string "n")
      ∷ ("auth_time", number 950)
      ∷ ("at_hash", string "hash")
      ∷ [];
}

abbrev pub user_claims : Claims
user_claims = record default_claims {
  iss = some "https://op";
  sub = some "user";
  aud = some (single "client");
  extra = ("name", string "N") ∷ [];
}

abbrev pub body : Json
body = object (
    field "access_token" (string "t")
      (field "id_token" (string "i") (field "token_type" (string "bearer") end)))

abbrev pub response : String → HttpFetchResponse
response content_type = record {
  status = 200;
  body = [];
  content_type = some content_type;
  headers = [];
}

abbrev pub library : RpLibrary (Unit {0}) (Unit {0}) (Unit {0})
library = record {
  urls = urls;
  encoding = encoding;
  hashing = hashing;
  constant_time_eq = constant_time_eq;
  base64 = λ bs. "";
  decode_header = λ t. some (record { alg = "ES256"; typ = none; kid = some "k" });
  parse_alg = λ a. some es256;
  kids = λ keys. some "k" ∷ some "l" ∷ [];
  decode_with_jwkset = λ keys t v w. (ok (if t == "id" then id_claims else user_claims), w);
  sign = λ key c w. (ok "signed", w);
  jwks_from_json = λ s. some tt;
  metadata_from_slice = λ bs. none;
  from_slice = λ bs. some body;
  to_value = λ c. some null;
  utf8_lossy = λ bs. "";
  f64_floor = λ s. none;
  http_get = λ u w. (err (config "none"), w);
  post_form = λ u form headers w. (ok (response "application/json"), w);
  get_with_headers = λ u headers w. (err (config "none"), w);
  clock = λ w. (1000, w);
  random_token = λ n w. ("r", w);
}

abbrev pub info : ProviderInfo
info = record {
  issuer = "https://op";
  authorization_endpoint = "https://op/a?v=1";
  token_endpoint = "https://op/t";
  userinfo_endpoint = none;
  jwks_uri = some "https://op/k";
}

abbrev pub client : RpClient (Unit {0})
client = record {
  client_id = "client";
  redirect_uri = "https://rp/cb";
  auth = no_auth;
  scope = "openid email";
}

abbrev pub verifier : String
verifier = "0123456789012345678901234567890123456789012"

abbrev pub tokens : TokenSet
tokens = record { access_token = "t"; id_token = "i"; token_type = "bearer"; raw = body }
