-- ===== src/Keys/Token.antt =====
-- src/keys.rs: signing keys on a PKCS#11 token.
use grindvakt.Prelude.{ℕ, String, List, [], ◌∷◌, Option, none, some}
use grindvakt.Prelude.Text.{◌<>◌}
use grindvakt.Jwt.{JwsAlgorithm, alg_name, rs256, rs384, rs512, es256, es384, eddsa}
use grindvakt.Result.{Result, ok, err, ok_or, ◌>>=◌}
use grindvakt.Exec
use grindvakt.Exec.{Exec, lift, run, pure, raise}
use grindvakt.Error.{Error, crypto, jose}
use grindvakt.Keys.{SigningKey, public_jwk_from_private}
use grindvakt.Keys.Library.{
  Jwk, KeyAlgorithm, Curve, rsa, ec, ed25519, p256, p384, KeyLibrary, TokenLibrary, Attribute,
  AttributeType, ec_point, modulus, public_exponent, other_attribute, ec_point_type, modulus_type,
  public_exponent_type,
}
use grindvakt.Keys.Der.{parse_ec_point, ed25519_bytes}

-- `Pkcs11KeyConfig`
pub record Pkcs11KeyConfig : Type 0 where
  pub module_path : String
  pub pin : String
  pub key_label : String
  pub alg : JwsAlgorithm
  pub kid : Option String

-- The bytes of the first attribute.
abbrev first_bytes : Option (List Attribute) → Result Error (List ℕ)
first_bytes none = err (crypto "C_GetAttributeValue failed")
first_bytes (some (ec_point b ∷ attrs)) = ok b
first_bytes (some (modulus b ∷ attrs)) = ok b
first_bytes (some (public_exponent b ∷ attrs)) = ok b
first_bytes (some (other_attribute b ∷ attrs)) = err (crypto "attribute missing on token object")
first_bytes (some []) = err (crypto "attribute missing on token object")

module _ {M D A N G V H O W : Type 0} (l : KeyLibrary M D A N G)
    (t : TokenLibrary V H O A G W) where
  -- A call of the token whose failure is an error.
  abbrev pub need : {B : Type 0} → (W → Option B × W) → Error → Exec W Error B
  need m e = Exec.◌>>=◌ (run m) λ o. lift (ok_or o e)

  unfoldable pub read_attr : H → O → AttributeType → Exec W Error (List ℕ)
  read_attr session handle ty =
      Exec.◌>>=◌ (run (t.get_attributes session handle ty)) λ attrs. lift (first_bytes attrs)

  -- The public key of a crate as a software key, by way of its SPKI.
  abbrev spki_key : KeyAlgorithm → N → Result Error D
  spki_key a k = ok_or (l.to_spki a k) (crypto "SPKI encoding failed") >>= λ spki.
      ok_or (l.import_spki a spki) (crypto "public key import failed")

  unfoldable pub rsa_public_from_token : H → O → Exec W Error D
  rsa_public_from_token session handle = Exec.◌>>=◌ (read_attr session handle modulus_type) λ n.
      Exec.◌>>=◌ (read_attr session handle public_exponent_type) λ e.
        lift
          (ok_or (l.rsa_public n e) (crypto "invalid RSA public key from token") >>= spki_key rsa)

  unfoldable pub ec_public_from_token : H → O → Curve → Exec W Error D
  ec_public_from_token session handle curve =
      Exec.◌>>=◌ (read_attr session handle ec_point_type)
        λ raw. lift (parse_ec_point raw (l.point_public curve) >>= spki_key (ec curve))

  unfoldable pub ed25519_public_from_token : H → O → Exec W Error D
  ed25519_public_from_token session handle =
      Exec.◌>>=◌ (read_attr session handle ec_point_type) λ raw. lift (
        ok_or (ed25519_bytes raw) (crypto "Ed25519 public key is not 32 bytes") >>= λ bytes.
        ok_or (l.ed25519_public bytes) (crypto "invalid Ed25519 key from token")
        >>= spki_key ed25519)

  unfoldable pub public_from_token : H → O → JwsAlgorithm → Exec W Error D
  public_from_token session handle rs256 = rsa_public_from_token session handle
  public_from_token session handle rs384 = rsa_public_from_token session handle
  public_from_token session handle rs512 = rsa_public_from_token session handle
  public_from_token session handle es256 = ec_public_from_token session handle p256
  public_from_token session handle es384 = ec_public_from_token session handle p384
  public_from_token session handle eddsa = ed25519_public_from_token session handle
  public_from_token session handle other =
      raise (crypto ("unsupported PKCS#11 signing algorithm: " <> alg_name other))

  unfoldable pub public_jwk_from_token :
      H → String → JwsAlgorithm → Option String → Exec W Error (Jwk M)
  public_jwk_from_token session key_label alg kid =
      Exec.◌>>=◌
        (need (t.find_public_key session key_label)
          (crypto ("public key " <> key_label <> " not found")))
        λ handle. Exec.◌>>=◌ (public_from_token session handle alg) λ sw.
          Exec.◌>>=◌ (lift (ok_or (l.software_key_to_jwk sw) (jose "software_key_to_jwk")))
            λ jwk. pure (public_jwk_from_private l jwk alg kid)

  unfoldable pub signing_key_from_pkcs11 : Pkcs11KeyConfig → Exec W Error (SigningKey M G)
  signing_key_from_pkcs11 cfg =
      Exec.◌>>=◌ (need (t.provider cfg.module_path) (crypto "PKCS#11 init failed")) λ provider.
        Exec.◌>>=◌ (need (t.open_session provider cfg.pin) (crypto "PKCS#11 login failed"))
          λ session. Exec.◌>>=◌ (lift (ok_or (l.to_crypto cfg.alg) (jose "to_crypto"))) λ sig_alg.
            Exec.◌>>=◌
              (need (t.token_signer session cfg.key_label sig_alg)
                (crypto ("PKCS#11 signer for " <> cfg.key_label)))
              λ signer.
                Exec.◌>>=◌ (public_jwk_from_token session cfg.key_label cfg.alg cfg.kid)
                  λ public_jwk. pure (record {
                    signer = signer;
                    public_jwk = public_jwk;
                    alg = cfg.alg;
                    kid = cfg.kid;
                  })
