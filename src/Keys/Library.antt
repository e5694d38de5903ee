-- ===== src/Keys/Library.antt =====
-- src/keys.rs: what the module takes from the crates that hold keys and from a token.
use grindvakt.Prelude.{ℕ, String, List, Option}
use grindvakt.Jwt.{JwsAlgorithm}

-- `jose_rs::jwk::Jwk`, as far as this module reads and writes it; `M` is the key material.
pub record Jwk (M : Type 0) : Type 0 where
  pub kty : String
  pub crv : Option String
  pub alg : Option String
  pub kid : Option String
  pub use_ : Option String
  pub material : M

pub data Curve : Type 0 where
  p256 p384 : Curve

-- `KeyAlgorithm`, as far as this module names it
pub data KeyAlgorithm : Type 0 where
  rsa ed25519 : KeyAlgorithm
  ec : Curve → KeyAlgorithm

-- `D` is `SoftwareKey`, `A` a signature algorithm, `N` a key of the crate of its kind, `G` a signer.
pub record KeyLibrary (M D A N G : Type 0) : Type 0 where
  -- `jose_rs`
  pub jwk_from_json : String → Option (Jwk M)
  pub parse_alg : String → Option JwsAlgorithm
  pub to_crypto : JwsAlgorithm → Option A
  pub jwk_to_software_key : Jwk M → Option D
  pub software_key_to_jwk : D → Option (Jwk M)
  pub to_public_jwk : Jwk M → Jwk M
  -- `kryptering`
  pub software_signer : A → D → Option G
  pub import_pkcs8 : KeyAlgorithm → List ℕ → Option D
  pub import_spki : KeyAlgorithm → List ℕ → Option D
  -- `pem`, and the crates of RSA, P-256, P-384 and Ed25519 keys: PKCS#8, and PKCS#1 or SEC1
  pub pem_contents : List ℕ → Option (List ℕ)
  pub from_pkcs8 : KeyAlgorithm → List ℕ → Option N
  pub from_other : KeyAlgorithm → List ℕ → Option N
  pub to_pkcs8 : KeyAlgorithm → N → Option (List ℕ)
  -- public keys from a modulus and an exponent, a SEC1 point, and 32 bytes
  pub rsa_public : List ℕ → List ℕ → Option N
  pub point_public : Curve → List ℕ → Option N
  pub ed25519_public : List ℕ → Option N
  pub to_spki : KeyAlgorithm → N → Option (List ℕ)

-- the attributes of an object on a token, as far as this module names them
pub data Attribute : Type 0 where
  ec_point modulus public_exponent other_attribute : List ℕ → Attribute

pub data AttributeType : Type 0 where
  ec_point_type modulus_type public_exponent_type : AttributeType

-- `cryptoki` and `kryptering::pkcs11`: `V` is a provider, `H` a session, `O` an object, `W` what
-- the token changes.
pub record TokenLibrary (V H O A G W : Type 0) : Type 0 where
  pub provider : String → W → Option V × W
  pub open_session : V → String → W → Option H × W
  pub token_signer : H → String → A → W → Option G × W
  pub find_public_key : H → String → W → Option O × W
  pub get_attributes : H → O → AttributeType → W → Option (List Attribute) × W
