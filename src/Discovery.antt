-- ===== src/Discovery.antt =====
-- src/discovery.rs: home-organization discovery and third-party initiated login.
pub mod Hint
mod Examples
use grindvakt.Prelude.{
  ℕ, String, List, [], ◌∷◌, ◌++◌, Bool, true, false, not, ◌&&◌, ◌||◌, Option, none, some, is_some,
  unwrap_or, nat_eq, ◌==◌, if◌then◌else◌,
}
use grindvakt.Prelude.Text.{is_empty, ◌<>◌}
use grindvakt.Prelude.Slices.{trim_end_matches}
use grindvakt.Dict
use grindvakt.Dict.{Dict, filter_option}
use grindvakt.Result.{Result, ok, ok_or, fail_if, map_err, ◌>>=◌, ◌>>◌}
use grindvakt.Exec
use grindvakt.Exec.{Exec, lift, pure}
use grindvakt.Error.{Error, authn, bad_request}
use grindvakt.Json.{Json, null}
use grindvakt.Json.Access.{get, and_then, as_str}
use grindvakt.Url.{UrlLibrary}
use grindvakt.Federation.{Library}
use grindvakt.Federation.Statement.{is_issued_by, verify_self_signed, claim_secs}
use grindvakt.Federation.Resolve.{ResolvedEntity, separator, fetch_entity_configuration}
use grindvakt.Federation.Collection.{CollectionEntity}

-- an optional query parameter, as a pair
abbrev pair : String → Option String → List (String × String)
pair k none = []
pair k (some v) = (k, v) ∷ []

-- `ThirdPartyInitiatedLogin`
pub record ThirdPartyInitiatedLogin : Type 0 where
  pub iss : String
  pub login_hint : Option String
  pub target_link_uri : Option String

-- `params.get(k).filter(|v| !v.is_empty())`
abbrev pub get_nonempty : String → Dict String → Option String
get_nonempty k params = filter_option (λ s. not (is_empty s)) (Dict.get k params)

module _ (u : UrlLibrary) where
  unfoldable pub validate_entity_id : String → Result Error (Unit {0})
  validate_entity_id s =
      map_err (λ e. bad_request ("invalid entity id: " <> e)) (u.parse s) >>= λ url.
      fail_if (not (url.scheme == "https")) (bad_request "entity id must use https")
      >> (fail_if (not (is_some url.host_str)) (bad_request "entity id has no host")
          >> fail_if (is_some url.query || is_some url.fragment)
              (bad_request "entity id must not contain a query or fragment"))

  validate_hint : Option String → Result Error (Unit {0})
  validate_hint none = ok tt
  validate_hint (some hint) = validate_entity_id hint

  pub discovery_request_url : String → String → Option String → Option String → Result Error String
  unfolding validate_hint
  discovery_request_url discovery_endpoint rp_entity_id op_hint target_link_uri =
      validate_entity_id rp_entity_id
      >> (validate_hint op_hint
          >> (map_err (λ e. bad_request ("invalid discovery endpoint: " <> e))
                (u.parse discovery_endpoint)
              >>= λ url. ok (
                  u.append_pairs
                    (("entity_id", rp_entity_id)
                      ∷ (pair "hint" op_hint ++ pair "target_link_uri" target_link_uri))
                    url)))

  unfoldable pub parse_third_party_initiated_login :
      Dict String → Result Error ThirdPartyInitiatedLogin
  parse_third_party_initiated_login params =
      ok_or (get_nonempty "iss" params) (bad_request "third-party initiated login is missing iss")
      >>= λ iss.
          validate_entity_id iss
          >> ok (record {
            iss = iss;
            login_hint = get_nonempty "login_hint" params;
            target_link_uri = get_nonempty "target_link_uri" params;
          })

  unfoldable pub initiate_login_uri : Json → Result Error String
  initiate_login_uri metadata =
      ok_or
        (filter_option (λ s. not (is_empty s))
          (and_then (and_then (get "openid_relying_party" metadata) (get "initiate_login_uri"))
            as_str))
        (authn "relying party metadata has no initiate_login_uri")
      >>= λ uri.
          map_err (λ e. authn ("invalid initiate_login_uri: " <> e)) (u.parse uri) >>= λ parsed.
          fail_if (not (parsed.scheme == "https") || not (is_some parsed.host_str))
            (authn "initiate_login_uri must be an https URL")
          >> (fail_if (is_some parsed.fragment)
                (authn "initiate_login_uri must not contain a fragment")
              >> ok uri)

  pub initiate_login_uri_from_resolved : {K : Type 0} → ResolvedEntity K → Result Error String
  initiate_login_uri_from_resolved entity = initiate_login_uri entity.metadata

  unfoldable pub push_param : String → String → String → String
  push_param url key value = url <> separator url <> key <> "=" <> u.byte_serialize value

  abbrev push_some : String → Option String → String → String
  push_some key none url = url
  push_some key (some value) url = push_param url key value

  pub third_party_login_url : String → String → Option String → Option String → String
  third_party_login_url initiate_login_uri op_entity_id login_hint target_link_uri =
      push_some "target_link_uri" target_link_uri
        (push_some "login_hint" login_hint (push_param initiate_login_uri "iss" op_entity_id))

-- `SelfPublishedRp`
pub record SelfPublishedRp : Type 0 where
  pub metadata : Json
  pub exp : Option ℕ

module _ {K W : Type 0} (l : Library K W) where
  pub self_published_rp : String → Exec W Error SelfPublishedRp
  self_published_rp rp_entity_id = Exec.◌>>=◌ (lift (validate_entity_id l.urls rp_entity_id)) λ _.
      Exec.◌>>=◌ (fetch_entity_configuration l rp_entity_id) λ jwt.
        Exec.◌>>=◌ (verify_self_signed l jwt) λ stmt.
          Exec.◌>>=◌
            (lift (
              fail_if (not (is_issued_by rp_entity_id stmt))
                (authn "entity configuration is not issued by the requested entity")))
            λ _. pure (record {
              metadata = unwrap_or null (get "metadata" stmt.claims);
              exp = and_then (get "exp" stmt.claims) (claim_secs l);
            })

  pub self_published_initiate_login_uri : String → Exec W Error String
  self_published_initiate_login_uri rp_entity_id =
      Exec.◌>>=◌ (self_published_rp rp_entity_id) λ rp. lift (initiate_login_uri l.urls rp.metadata)

unfoldable pub entity_id_eq : String → String → Bool
entity_id_eq a b =
    trim_end_matches (λ c. nat_eq c b'/') a == trim_end_matches (λ c. nat_eq c b'/') b

-- `position` and `remove`: the first entity of that name, and the others in their order
unfoldable pub take_out :
    String → List CollectionEntity → Option (CollectionEntity × List CollectionEntity)
take_out hint [] = none
take_out hint (e ∷ es) =
    let rest = take_out hint es in
    if entity_id_eq e.entity_id hint
    then some (e, es)
    else elim rest [ none ↦ none | some (found, others) ↦ some (found, e ∷ others) ]

unfoldable pub promoted :
    Option (CollectionEntity × List CollectionEntity)
    → List CollectionEntity
    → List CollectionEntity × Bool
promoted none entities = (entities, false)
promoted (some (found, others)) entities = (found ∷ others, true)

unfoldable pub promote_hint : List CollectionEntity → String → List CollectionEntity × Bool
unfolding take_out promoted
promote_hint entities hint = promoted (take_out hint entities) entities
