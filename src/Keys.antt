-- ===== src/Keys.antt =====
-- src/keys.rs: signing keys.
pub mod Library
pub mod Der
pub mod Octets
pub mod Token
pub mod Consistent
mod Examples
use grindvakt.Prelude.{
  ℕ, String, List, [], ◌∷◌, Bool, true, false, ◌&&◌, Option, none, some, nat_eq, ◌==◌,
  if◌then◌else◌,
}
use grindvakt.Prelude.Text.{◌<>◌}
use grindvakt.Prelude.Bytes.{as_bytes}
use grindvakt.Jwt.{JwsAlgorithm, alg_name, rs256, es256, es384, es512, eddsa, hs256}
use grindvakt.Result.{Result, ok, err, ok_or, ◌>>=◌, or_else}
use grindvakt.Error.{Error, crypto, jose}
use grindvakt.Keys.Library.{Jwk, KeyAlgorithm, rsa, ec, ed25519, p256, p384, KeyLibrary}

-- `SigningKey`
pub record SigningKey (M G : Type 0) : Type 0 where
  pub signer : G
  pub public_jwk : Jwk M
  pub alg : JwsAlgorithm
  pub kid : Option String

-- `to_public_jwks`
pub to_public_jwks : {M G : Type 0} → SigningKey M G → List (Jwk M)
to_public_jwks k = k.public_jwk ∷ []

curve_alg : Option String → Result Error JwsAlgorithm
curve_alg none = err (crypto "unsupported EC curve: None")
curve_alg (some crv) =
    if crv == "P-256"
    then ok es256
    else if crv == "P-384"
    then ok es384
    else if crv == "P-521"
    then ok es512
    else err (crypto ("unsupported EC curve: Some(\"" <> crv <> "\")"))

unfoldable pub default_alg : {M : Type 0} → Jwk M → Result Error JwsAlgorithm
unfolding curve_alg
default_alg jwk =
    if jwk.kty == "RSA"
    then ok rs256
    else if jwk.kty == "EC"
    then curve_alg jwk.crv
    else if jwk.kty == "OKP"
    then ok eddsa
    else if jwk.kty == "oct"
    then ok hs256
    else err (crypto ("unsupported kty: " <> jwk.kty))

-- whether bytes begin with others
abbrev starts_with : List ℕ → List ℕ → Bool
starts_with [] bytes = true
starts_with (a ∷ as_) [] = false
starts_with (a ∷ as_) (b ∷ bytes) = nat_eq a b && starts_with as_ bytes

-- `match kid_override { Some(kid) => kid, None => jwk.kid }`
abbrev pub effective : Option String → Option String → Option String
effective (some kid) own = some kid
effective none own = own

module _ {M D A N G : Type 0} (l : KeyLibrary M D A N G) where
  unfoldable pub public_jwk_from_private : Jwk M → JwsAlgorithm → Option String → Jwk M
  public_jwk_from_private jwk alg kid = record (l.to_public_jwk jwk) {
    alg = some (alg_name alg);
    kid = kid;
    use_ = some "sig";
  }

  unfoldable pub effective_alg : Option String → Jwk M → Result Error JwsAlgorithm
  effective_alg (some s) jwk = ok_or (l.parse_alg s) (crypto ("bad signing algorithm " <> s))
  effective_alg none jwk = default_alg jwk

  -- What follows the choice of the algorithm, on the stamped key.
  unfoldable pub built_key : Jwk M → JwsAlgorithm → Result Error (SigningKey M G)
  built_key jwk alg = ok_or (l.jwk_to_software_key jwk) (jose "jwk_to_software_key") >>= λ sw.
      ok_or (l.to_crypto alg) (jose "to_crypto") >>= λ sig_alg.
      ok_or (l.software_signer sig_alg sw) (crypto "could not build software signer") >>= λ signer.
      ok (record {
        signer = signer;
        public_jwk = public_jwk_from_private jwk alg jwk.kid;
        alg = alg;
        kid = jwk.kid;
      })

  unfoldable pub finalize_signing_key :
      Jwk M → Option String → Option String → Result Error (SigningKey M G)
  finalize_signing_key jwk alg_override kid_override = effective_alg alg_override jwk >>= λ alg.
      built_key (record jwk { alg = some (alg_name alg); kid = effective kid_override jwk.kid }) alg

  unfoldable pub signing_key_from_jwk_json :
      String → Option String → Option String → Result Error (SigningKey M G)
  signing_key_from_jwk_json text alg_override kid_override =
      ok_or (l.jwk_from_json text) (jose "jwk") >>= λ jwk.
      finalize_signing_key jwk alg_override kid_override

  -- `from_pkcs8_der(der).or_else(from_pkcs1_der | from_sec1_der)`
  abbrev native_key : KeyAlgorithm → List ℕ → Option N
  native_key a der = elim (l.from_pkcs8 a der) [ some k ↦ some k | none ↦ l.from_other a der ]

  -- `rsa_from_der`, `ec_p256_from_der` and `ec_p384_from_der`, which differ in the library's types
  unfoldable pub converted_from_der : KeyAlgorithm → List ℕ → Result Error D
  converted_from_der a der = ok_or (native_key a der) (crypto "not such a key") >>= λ k.
      ok_or (l.to_pkcs8 a k) (crypto "PKCS#8 encoding failed") >>= λ pkcs8.
      ok_or (l.import_pkcs8 a pkcs8) (crypto "key import failed")

  unfoldable pub ed25519_from_der : List ℕ → Result Error D
  ed25519_from_der der = ok_or (l.from_pkcs8 ed25519 der) (crypto "not an Ed25519 key") >>= λ k.
      ok_or (l.import_pkcs8 ed25519 der) (crypto "Ed25519 key import failed")

  unfoldable pub der_of : List ℕ → Result Error (List ℕ)
  der_of bytes =
      if starts_with (as_bytes "-----BEGIN") bytes
      then ok_or (l.pem_contents bytes) (crypto "invalid PEM")
      else ok bytes

  unfoldable pub parse_private_key : List ℕ → Result Error D
  parse_private_key bytes = der_of bytes >>= λ der. or_else (converted_from_der rsa der) (
      or_else (converted_from_der (ec p256) der) (
        or_else (converted_from_der (ec p384) der) (
          or_else (ed25519_from_der der) (
            err (
              crypto
                "could not parse private key (tried RSA/EC P-256/P-384/Ed25519 in PKCS#8/PKCS#1/SEC1)")))))

  unfoldable pub signing_key_from_pem :
      List ℕ → Option String → Option String → Result Error (SigningKey M G)
  signing_key_from_pem bytes alg_override kid_override = parse_private_key bytes >>= λ sw.
      ok_or (l.software_key_to_jwk sw) (jose "software_key_to_jwk") >>= λ jwk.
      finalize_signing_key jwk alg_override kid_override
