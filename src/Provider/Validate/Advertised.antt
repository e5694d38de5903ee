-- ===== src/Provider/Validate/Advertised.antt =====
-- src/provider.rs: what the metadata advertises is what is accepted.
use grindvakt.Prelude.{not, false}
use grindvakt.Prelude.{
  String, ◌≡◌, refl, ap, ◌∙◌, true, ◌&&◌, ◌||◌, arith, has, All, All-has, any, Bool-cases, inl, inr,
}
use grindvakt.Prelude.Text.{split, split_whitespace}
use grindvakt.Result.{ok}
use grindvakt.Request.{
  AuthorizationRequest, wants, wants_code, wants_id_token, wants_access_token, is_oidc,
  validate_response_type, response_type_eq, supported_response_types,
}
use grindvakt.Request.Modes.{validate_response_type_iff}
use grindvakt.Tokens.{TokenCodec}
use grindvakt.Jwt.{JwsAlgorithm, supports_oidc_token_hash}
use grindvakt.Metadata.{ProviderMetadata}
use grindvakt.Provider.Defs.{TokenLifetimes, Provider, provider, response_types}

-- An advertised response type is supported, and asks for a token hash only where there is one.
IsServable : JwsAlgorithm → String → Type 0
IsServable alg t =
    (any (response_type_eq t) supported_response_types ≡ true)
    × ((has "id_token" (split_whitespace t)
          && (has "code" (split_whitespace t) || has "token" (split_whitespace t))
          && not (supports_oidc_token_hash alg))
        ≡ false)

plain-IsServable :
    (alg : JwsAlgorithm)
    → IsServable alg "code" × IsServable alg "id_token" × IsServable alg "code token"
unfolding IsServable response_type_eq split split_whitespace
plain-IsServable alg = ((refl, refl), (refl, refl), (refl, refl))

hashed-IsServable :
    (alg : JwsAlgorithm)
    → supports_oidc_token_hash alg ≡ true
    → IsServable alg "id_token token"
      × IsServable alg "code id_token"
      × IsServable alg "code id_token token"
unfolding IsServable response_type_eq split split_whitespace
hashed-IsServable alg h = ((refl, ap not h), (refl, ap not h), (refl, ap not h))

response_types-IsServable : (alg : JwsAlgorithm) → All (IsServable alg) (response_types alg)
unfolding response_types
response_types-IsServable alg =
    let (a, b, c) = plain-IsServable alg in
    elim (Bool-cases (supports_oidc_token_hash alg)) [
      | inl e ↦
          let (x, y, z) = hashed-IsServable alg e in rw (e, All) (a, (b, (c, (x, (y, (z, tt))))))
      | inr n ↦ rw (n, All) (a, (b, (c, tt)))
    ]

-- A response type that a newly made provider advertises is accepted, with the openid scope where
-- it asks for an ID token, and needs a token hash only where the signing algorithm defines one.
pub advertised_lem :
    (m : ProviderMetadata) (alg : JwsAlgorithm) (codec : TokenCodec) (lifetimes : TokenLifetimes)
    (p : Provider) (r : AuthorizationRequest)
    → provider m alg codec lifetimes ≡ ok p
    → has r.response_type p.metadata.response_types_supported ≡ true
    → (wants_id_token r ≡ true → is_oidc r ≡ true)
    → (validate_response_type r ≡ ok tt)
      × ((wants_id_token r
            && (wants_code r || wants_access_token r)
            && not (supports_oidc_token_hash p.signing_alg))
          ≡ false)
unfolding provider wants IsServable
advertised_lem m alg codec lifetimes p r h member oidc =
    let e : response_types alg ≡ p.metadata.response_types_supported = ground (arith, h) in
    let a : alg ≡ p.signing_alg = ground (arith, h) in
    let (known, hashed) =
      All-has (IsServable alg) r.response_type (response_types alg) (response_types-IsServable alg)
        (ap (has r.response_type) e ∙ member) in
    ((validate_response_type_iff r).1 (known, ground (arith, oidc)), rw (← a) hashed)
