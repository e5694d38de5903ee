-- ===== src/Discovery/Examples.antt =====
-- Entities of src/discovery.rs, and a hint with further slashes.
use grindvakt.Prelude.{String, List, [], ◌∷◌, none}
use grindvakt.Federation.Collection.{CollectionEntity}
use grindvakt.Discovery.{promote_hint}
use grindvakt.Discovery.Hint.{IsPromoted, promote_hint-IsPromoted}

abbrev entity : String → CollectionEntity
entity id = record { entity_id = id; display_name = id; logo_uri = none }

abbrev listed : List CollectionEntity
listed = entity "https://a" ∷ entity "https://b" ∷ entity "https://c" ∷ []

promote_hint-IsPromoted_example :
    IsPromoted "https://c//" listed (promote_hint listed "https://c//")
promote_hint-IsPromoted_example = promote_hint-IsPromoted listed "https://c//"
