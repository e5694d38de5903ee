-- ===== src/Keys/Examples.antt =====
-- Runs of src/keys.rs.
use grindvakt.Prelude.{String, [], ◌∷◌, refl, none, some, ◌⊎◌}
use grindvakt.Jwt.{JwsAlgorithm, alg_name, rs384}
use grindvakt.Keys.{SigningKey}
use grindvakt.Keys.Library.{Jwk, KeyLibrary, TokenLibrary, modulus}
use grindvakt.Keys.Token.{Pkcs11KeyConfig}
use grindvakt.Keys.Consistent.{
  IsConsistent, HasSigner, IsOnToken, Loaded, from_token, Loaded-IsConsistent,
}

abbrev jwk : Jwk String
jwk = record {
  kty = "RSA";
  crv = none;
  alg = none;
  kid = some "old";
  use_ = none;
  material = "private";
}

-- a signer is the name of its algorithm
abbrev library : KeyLibrary String String JwsAlgorithm String String
library = record {
  jwk_from_json = λ s. some jwk;
  parse_alg = λ s. none;
  to_crypto = λ a. some a;
  jwk_to_software_key = λ j. some j.material;
  software_key_to_jwk = λ d. some jwk;
  to_public_jwk = λ j. record j { material = "public" };
  software_signer = λ a d. some (alg_name a);
  import_pkcs8 = λ a bs. none;
  import_spki = λ a bs. some "software key";
  pem_contents = λ bs. none;
  from_pkcs8 = λ a bs. none;
  from_other = λ a bs. none;
  to_pkcs8 = λ a k. none;
  rsa_public = λ n e. some "RSA key";
  point_public = λ c bs. none;
  ed25519_public = λ bs. none;
  to_spki = λ a k. some [];
}

abbrev token : TokenLibrary String String String JwsAlgorithm String (Unit {0})
token = record {
  provider = λ path w. (some path, w);
  open_session = λ v pin w. (some pin, w);
  token_signer = λ h label a w. (some (alg_name a), w);
  find_public_key = λ h label w. (some label, w);
  get_attributes = λ h o ty w. (some (modulus [] ∷ []), w);
}

abbrev config : Pkcs11KeyConfig
config = record {
  module_path = "module";
  pin = "1234";
  key_label = "signing";
  alg = rs384;
  kid = some "k1";
}

abbrev key : SigningKey String String
key = record {
  signer = "RS384";
  public_jwk = record jwk {
    alg = some "RS384";
    kid = some "k1";
    use_ = some "sig";
    material = "public";
  };
  alg = rs384;
  kid = some "k1";
}

loaded : Loaded library token key
unfolding grindvakt.Keys.Token.signing_key_from_pkcs11 grindvakt.Exec.◌>>=◌
    grindvakt.Keys.Token.public_jwk_from_token grindvakt.Keys.Token.public_from_token
    grindvakt.Keys.Token.rsa_public_from_token grindvakt.Keys.Token.read_attr alg_name
    grindvakt.Keys.public_jwk_from_private
loaded = from_token config tt tt {k = key} refl

Loaded-IsConsistent_example :
    IsConsistent key × (HasSigner library key ⊎ IsOnToken library token key)
Loaded-IsConsistent_example = Loaded-IsConsistent library token {k = key} loaded
