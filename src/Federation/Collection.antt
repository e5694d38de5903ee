-- ===== src/Federation/Collection.antt =====
-- src/federation.rs: the entities that a collection endpoint lists, and own entity configurations.
use grindvakt.Prelude.{
  ℕ, String, List, [], ◌∷◌, Bool, true, false, not, Option, none, some, unwrap_or, any, opt_str_eq,
  if◌then◌else◌, keep,
}
use grindvakt.Prelude.Text.{is_empty, ◌<>◌, show}
use grindvakt.Prelude.Words.{add_u64}
use grindvakt.Dict
use grindvakt.Dict.{Dict, filter_option}
use grindvakt.Result.{Result, ok_or}
use grindvakt.Exec
use grindvakt.Exec.{Exec, lift, run, pure}
use grindvakt.Error.{Error, json, jose}
use grindvakt.Error.Escape.{display_safe}
use grindvakt.Json.{Json, array, strings}
use grindvakt.Json.Access.{get, get_str, and_then, as_list, as_str, items}
use grindvakt.Jwt.{Claims, default_claims, seconds}
use grindvakt.Federation.{Library, entity_statement_typ}
use grindvakt.Federation.Resolve.{separator, expect_200}

-- `CollectionEntity`
pub record CollectionEntity : Type 0 where
  pub entity_id : String
  pub display_name : String
  pub logo_uri : Option String

-- `Option::or_else`
abbrev or_else : Option String → Option String → Option String
or_else none b = b
or_else (some a) b = some a

-- a text that is not empty, under a name in the `ui_infos` of a kind: `ui_name` and `ui_logo`
unfoldable pub ui_text : String → Json → String → Option String
ui_text name entity kind =
    filter_option (λ s. not (is_empty s))
      (and_then (and_then (and_then (get "ui_infos" entity) (get kind)) (get name)) as_str)

-- The entity says that it is of the type.
unfoldable pub advertises : String → Json → Bool
advertises entity_type entity = elim (and_then (get "entity_types" entity) as_list) [
  | none ↦ false
  | some types ↦ any (λ t. opt_str_eq (as_str t) (some entity_type)) types
]

entity_of : String → Json → Option String → Option CollectionEntity
entity_of entity_type entity none = none
entity_of entity_type entity (some entity_id) =
    if is_empty entity_id
    then none
    else some (record {
      entity_id = entity_id;
      display_name = unwrap_or entity_id (
          or_else (ui_text "display_name" entity entity_type)
            (ui_text "display_name" entity "federation_entity"));
      logo_uri =
          or_else (ui_text "logo_uri" entity entity_type)
            (ui_text "logo_uri" entity "federation_entity");
    })

-- `filter_map`
collect : String → List Json → List CollectionEntity
unfolding entity_of
collect entity_type [] = []
collect entity_type (x ∷ xs) =
    let rest = collect entity_type xs in
    elim (entity_of entity_type x (get_str "entity_id" x)) [ none ↦ rest | some e ↦ e ∷ rest ]

unfoldable pub parse_collection : Json → String → List CollectionEntity
unfolding collect advertises
parse_collection body entity_type = elim (and_then (get "entities" body) as_list) [
  | none ↦ []
  | some entities ↦ collect entity_type (keep (advertises entity_type) entities)
]

module _ {K W : Type 0} (l : Library K W) where
  pub fetch_collection : String → String → Exec W Error (List CollectionEntity)
  fetch_collection collection_endpoint entity_type =
      let url =
        collection_endpoint
        <> separator collection_endpoint
        <> "entity_type="
        <> l.urls.byte_serialize entity_type in
      Exec.◌>>=◌ (l.http_get url) λ r.
        Exec.◌>>=◌
          (lift (
            expect_200 l
              ("collection endpoint " <> display_safe url <> " returned " <> show r.status) r))
          λ _.
            Exec.◌>>=◌ (lift (ok_or (l.from_slice r.body) (json "from_slice")))
              λ body. pure (parse_collection body entity_type)

  abbrev insert_unless : Bool → String → Json → Dict Json → Dict Json
  insert_unless true k v m = m
  insert_unless false k v m = Dict.insert k v m

  abbrev is_nil : {A : Type 0} → List A → Bool
  is_nil [] = true
  is_nil (x ∷ xs) = false

  -- The claims of an own entity configuration.
  unfoldable pub configuration_claims :
      String → Json → List String → Json → List Json → ℕ → ℕ → Claims
  configuration_claims entity_id jwks authority_hints metadata trust_marks lifetime now =
      record default_claims {
        iss = some entity_id;
        sub = some entity_id;
        iat = some (seconds now);
        exp = some (seconds (add_u64 now lifetime));
        extra = insert_unless (is_nil trust_marks) "trust_marks" (array (items trust_marks)) (
            Dict.insert "metadata" metadata (
              insert_unless (is_nil authority_hints) "authority_hints"
                (array (strings authority_hints)) (Dict.insert "jwks" jwks [])));
      }

  -- `encode` is `jose_rs::jwt::encode` under the key, with its `kid` and the given `typ`.
  pub build_entity_configuration :
      (encode : String → Claims → W → Result String String × W)
      → String
      → K
      → List String
      → Json
      → List Json
      → ℕ
      → Exec W Error String
  unfolding configuration_claims
  build_entity_configuration encode entity_id jwks authority_hints metadata trust_marks lifetime =
      Exec.◌>>=◌ (run l.clock) λ now.
        Exec.◌>>=◌ (lift (ok_or (l.jwks_to_value jwks) (json "jwks"))) λ v. Exec.map_err jose (
          encode entity_statement_typ
            (configuration_claims entity_id v authority_hints metadata trust_marks lifetime now))
