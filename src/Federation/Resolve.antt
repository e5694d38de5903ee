-- ===== src/Federation/Resolve.antt =====
-- src/federation.rs: resolution of an entity through the trust anchors.
use grindvakt.Prelude.{
  ℕ, String, [], ◌∷◌, Bool, true, false, not, Option, none, some, unwrap_or, is_some, opt_str_eq,
  nat_eq, if◌then◌else◌,
}
use grindvakt.Prelude.Text.{any_char, ◌<>◌, show}
use grindvakt.Prelude.Slices.{trim_end_matches, strip_prefix}
use grindvakt.Dict
use grindvakt.Dict.{Dict}
use grindvakt.Result.{Result, ok, err, ok_or, fail_if}
use grindvakt.Exec
use grindvakt.Exec.{Exec, lift, pure, raise}
use grindvakt.Error.{Error, authn, internal, json, jose}
use grindvakt.Error.Escape.{display_safe}
use grindvakt.Json.{Json}
use grindvakt.Json.Access.{get, get_str, and_then, as_str, as_list}
use grindvakt.Http.Fetch.{HttpFetchResponse}
use grindvakt.Rp.Upstream
use grindvakt.Rp.Upstream.{upstream_error}
use grindvakt.Rp.Endpoints.{validate_service_endpoint_for_issuer}
use grindvakt.Federation.{Library, resolve_response_typ, jwk_set_typ, verify_with_jwks}
use grindvakt.Federation.Statement.{
  EntityStatement, iss, sub, is_issued_by, metadata, claim_secs, jwks, verify, verify_typed,
  verify_self_signed,
}
use grindvakt.Federation.Chain.{validate_trust_chain}

-- `ResolvedEntity`
pub record ResolvedEntity (K : Type 0) : Type 0 where
  pub issuer : String
  pub subject : String
  pub metadata : Json
  pub subject_jwks : K
  pub exp : Option ℕ

-- `?` or `&`, whichever goes before a further parameter
abbrev pub separator : String → String
separator url = if any_char (λ c. nat_eq c b'?') url then "&" else "?"

module _ {K W : Type 0} (l : Library K W) where
  -- A response of status 200, or the error for a failed fetch of metadata.
  unfoldable pub expect_200 : String → HttpFetchResponse → Result Error (Unit {0})
  expect_200 message r =
      fail_if (not (nat_eq r.status 200))
        (upstream_error l.utf8_lossy l.from_slice Upstream.metadata message r)

  unfoldable pub fetch_entity_configuration : String → Exec W Error String
  fetch_entity_configuration entity_id =
      let url =
        trim_end_matches (λ c. nat_eq c b'/') entity_id <> "/.well-known/openid-federation" in
      Exec.◌>>=◌ (l.http_get url) λ r.
        Exec.◌>>=◌
          (lift (
            expect_200 ("entity config fetch " <> display_safe url <> " returned " <> show r.status)
              r))
          λ _. pure (l.utf8_lossy r.body)

  unfoldable pub extract_resolved_entity :
      EntityStatement → String → String → K → Exec W Error (ResolvedEntity K)
  extract_resolved_entity resolved ta_id id ta_keys =
      Exec.◌>>=◌
        (lift (
          fail_if (not (opt_str_eq (iss resolved) (some ta_id)))
            (authn "resolve response issuer mismatch")))
        λ _.
          Exec.◌>>=◌
            (lift (
              fail_if (not (opt_str_eq (sub resolved) (some id)))
                (authn "resolve response sub mismatch")))
            λ _.
              Exec.◌>>=◌
                (lift (
                  ok_or (and_then (get "trust_chain" resolved.claims) as_list)
                    (authn "resolve response has no trust_chain")))
                λ chain. Exec.◌>>=◌ (validate_trust_chain l chain id ta_id ta_keys) λ subject_ec.
                  Exec.◌>>=◌
                    (lift (
                      ok_or (get "metadata" resolved.claims)
                        (authn "resolve response has no metadata")))
                    λ metadata. Exec.◌>>=◌ (lift (jwks l subject_ec)) λ subject_jwks. pure (record {
                      issuer = ta_id;
                      subject = id;
                      metadata = metadata;
                      subject_jwks = subject_jwks;
                      exp = and_then (get "exp" resolved.claims) (claim_secs l);
                    })

  -- `federation_resolve_endpoint` of the trust anchor
  unfoldable pub resolve_endpoint : EntityStatement → Option String
  resolve_endpoint ec =
      and_then (and_then (metadata ec "federation_entity") (get "federation_resolve_endpoint"))
        as_str

  abbrev resolve_url : String → String → String → String
  resolve_url endpoint id ta_id =
      endpoint
      <> separator endpoint
      <> "sub="
      <> l.urls.byte_serialize id
      <> "&trust_anchor="
      <> l.urls.byte_serialize ta_id

  unfoldable pub resolve_one : String → String → K → Exec W Error (ResolvedEntity K)
  resolve_one id ta_id ta_keys = Exec.◌>>=◌ (fetch_entity_configuration ta_id) λ ec_jwt.
      Exec.◌>>=◌ (verify l ec_jwt ta_keys) λ ec.
        Exec.◌>>=◌ (verify_self_signed l ec_jwt) λ self_issued.
          Exec.◌>>=◌
            (lift (
              fail_if (not (is_issued_by ta_id ec)) (
                authn (
                  "trust anchor "
                  <> display_safe ta_id
                  <> " entity configuration is not issued for the configured entity id"))))
            λ _.
              Exec.◌>>=◌
                (lift (
                  fail_if (not (is_issued_by ta_id self_issued)) (
                    authn (
                      "trust anchor "
                      <> display_safe ta_id
                      <> " entity configuration is not self-issued"))))
                λ _.
                  Exec.◌>>=◌
                    (lift (
                      ok_or (resolve_endpoint ec) (
                        internal (
                          "trust anchor "
                          <> display_safe ta_id
                          <> " has no federation_resolve_endpoint"))))
                    λ endpoint. Exec.◌>>=◌ (l.http_get (resolve_url endpoint id ta_id)) λ r.
                      Exec.◌>>=◌
                        (lift (
                          expect_200
                            ("resolve endpoint returned "
                              <> show r.status
                              <> " for "
                              <> display_safe id)
                            r))
                        λ _.
                          Exec.◌>>=◌
                            (verify_typed l (l.utf8_lossy r.body) ta_keys resolve_response_typ)
                            λ resolved. extract_resolved_entity resolved ta_id id ta_keys

  -- The loop over the trust anchors, with the last error.
  unfoldable pub resolve_from : Error → String → Dict K → Exec W Error (ResolvedEntity K)
  resolve_from last_err id [] w = (err last_err, w)
  resolve_from last_err id ((ta_id, ta_keys) ∷ anchors) w =
      let w₁ = (resolve_one id ta_id ta_keys w).1 in
      elim ((resolve_one id ta_id ta_keys w).0) [
        | ok entity ↦ (ok entity, w₁)
        | err e ↦ resolve_from e id anchors w₁
      ]

  unfoldable pub resolve_via_trust_anchors : String → Dict K → Exec W Error (ResolvedEntity K)
  unfolding resolve_from
  resolve_via_trust_anchors id anchors =
      resolve_from (authn "no trust anchors configured") id anchors

  -- A content type, if any, must be that of a signed key set.
  content_type_ok : Option String → Bool
  content_type_ok none = true
  content_type_ok (some t) = is_some (strip_prefix "application/jwk-set+jwt" t)

  unfoldable pub fetch_signed_jwks : String → String → K → Exec W Error K
  unfolding content_type_ok
  fetch_signed_jwks uri subject_entity_id subject_fed_jwks =
      Exec.◌>>=◌
        (lift (validate_service_endpoint_for_issuer l.urls "signed_jwks_uri" uri subject_entity_id))
        λ _. Exec.◌>>=◌ (l.http_get uri) λ r.
          Exec.◌>>=◌
            (lift (expect_200 ("signed_jwks_uri fetch failed (" <> show r.status <> ")") r))
            λ _.
              Exec.◌>>=◌
                (lift (
                  fail_if (not (content_type_ok r.content_type)) (
                    authn (
                      "signed_jwks_uri returned unexpected content type "
                      <> display_safe (unwrap_or "" r.content_type)))))
                λ _.
                  Exec.◌>>=◌
                    (verify_with_jwks l subject_fed_jwks (l.utf8_lossy r.body)
                      (record { typ = jwk_set_typ; require_exp = false }))
                    λ claims.
                      Exec.◌>>=◌
                        (lift (
                          fail_if (not (opt_str_eq claims.sub (some subject_entity_id)))
                            (authn "signed_jwks_uri sub mismatch")))
                        λ _.
                          Exec.◌>>=◌
                            (lift (
                              fail_if (not (is_some claims.iss))
                                (authn "signed_jwks_uri response missing iss")))
                            λ _.
                              Exec.◌>>=◌
                                (lift (
                                  ok_or (Dict.get "keys" claims.extra)
                                    (authn "signed_jwks_uri response has no keys")))
                                λ keys. lift (ok_or (l.keys_from_value keys) (json "keys"))

  fetch_plain_jwks : String → String → Exec W Error K
  fetch_plain_jwks uri subject_entity_id =
      Exec.◌>>=◌
        (lift (validate_service_endpoint_for_issuer l.urls "jwks_uri" uri subject_entity_id))
        λ _. Exec.◌>>=◌ (l.http_get uri) λ r.
          Exec.◌>>=◌ (lift (expect_200 ("jwks fetch failed (" <> show r.status <> ")") r))
            λ _. lift (ok_or (l.jwks_from_json (l.utf8_lossy r.body)) (jose "from_json"))

  unfoldable pub entity_metadata_jwks : Json → String → K → Exec W Error K
  unfolding fetch_plain_jwks
  entity_metadata_jwks metadata subject_entity_id subject_fed_jwks = elim (get "jwks" metadata) [
    | some v ↦ lift (ok_or (l.jwks_from_value v) (json "jwks"))
    | none ↦ elim (get_str "signed_jwks_uri" metadata) [
      | some uri ↦ fetch_signed_jwks uri subject_entity_id subject_fed_jwks
      | none ↦ elim (get_str "jwks_uri" metadata) [
        | some uri ↦ fetch_plain_jwks uri subject_entity_id
        | none ↦ raise (authn "metadata has neither jwks, signed_jwks_uri, nor jwks_uri")
      ]
    ]
  ]
