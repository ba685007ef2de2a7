-- ===== src/Storage/AssetGraph.antt =====
-- internal/storage/sqlite.go, internal/storage/assets.go: the tables of the asset graph, and what the
-- SELECT statements on them find.
use open_kmip_server.Common.{
  ℕ, String, Bool, true, false, ◌&&◌, Option, none, some, List, [], ◌∷◌, str_eq, ◌==◌,
  if◌then◌else◌,
}
use open_kmip_server.Common.Dict
use open_kmip_server.Common.Dict.{Dict}

pub record Asset : Type 0 where
  pub id : String
  pub asset_type : String
  pub native_id : String
  pub source : String
  pub name : String
  pub status : String
  pub created_at : String
  pub updated_at : String

pub record Tag : Type 0 where
  pub id : ℕ
  pub name : String

pub record RelationshipRow : Type 0 where
  pub id : ℕ
  pub from_asset_id : String
  pub relationship_type : String
  pub to_asset_id : String
  pub metadata_json : String

pub record EventRow : Type 0 where
  pub id : ℕ
  pub asset_id : String
  pub event_type : String
  pub actor : String
  pub timestamp : String
  pub result : String
  pub details_json : String

-- The tables. Metadata stand by the two columns of their UNIQUE constraint.
pub record AssetTables : Type 0 where
  pub assets : Dict Asset
  pub asset_metadata : Dict (Dict String)
  pub tags : List Tag
  pub asset_tags : List (String × ℕ)
  pub asset_relationships : List RelationshipRow
  pub asset_lifecycle_events : List EventRow

unfoldable pub create_asset_tables : AssetTables
create_asset_tables = record {
  assets = Dict.empty;
  asset_metadata = Dict.empty;
  tags = [];
  asset_tags = [];
  asset_relationships = [];
  asset_lifecycle_events = [];
}

abbrev pub metadata_of : AssetTables → String → Dict String
metadata_of t asset_id = elim (Dict.get t.asset_metadata asset_id) [
  | none ↦ Dict.empty
  | some m ↦ m
]

-- SELECT id FROM tags WHERE name = ?
unfoldable pub tag_id : List Tag → String → Option ℕ
tag_id [] name = none
tag_id (tag ∷ tags) name =
    let rest = tag_id tags name in if str_eq (Tag.name tag) name then some (Tag.id tag) else rest

-- Whether a row has the primary key (asset_id, tag_id).
unfoldable pub is_tagged : List (String × ℕ) → String → ℕ → Bool
is_tagged [] asset_id id = false
is_tagged ((asset, tag) ∷ rows) asset_id id =
    let rest = is_tagged rows asset_id id in
    if str_eq asset asset_id && tag == id then true else rest

-- The ids of the tags of an asset.
unfoldable pub tag_ids : List (String × ℕ) → String → List ℕ
tag_ids [] asset_id = []
tag_ids ((asset, tag) ∷ rows) asset_id =
    let rest = tag_ids rows asset_id in if str_eq asset asset_id then tag ∷ rest else rest

unfoldable pub tag_name : List Tag → ℕ → Option String
tag_name [] id = none
tag_name (tag ∷ tags) id =
    let rest = tag_name tags id in if Tag.id tag == id then some (Tag.name tag) else rest

-- JOIN … ON t.id = at.tag_id
unfoldable pub joined : List Tag → List ℕ → List String
unfolding tag_name
joined tags [] = []
joined tags (id ∷ ids) =
    let rest = joined tags ids in elim (tag_name tags id) [ none ↦ rest | some name ↦ name ∷ rest ]

-- WHERE asset_id = ?, and all rows for the empty identifier
unfoldable pub events_of : String → List EventRow → List EventRow
events_of asset_id [] = []
events_of asset_id (e ∷ events) =
    let rest = events_of asset_id events in
    if str_eq asset_id "" then e ∷ rest else if str_eq e.asset_id asset_id then e ∷ rest else rest

-- WHERE from_asset_id = ?
unfoldable pub related : String → List RelationshipRow → List RelationshipRow
related asset_id [] = []
related asset_id (row ∷ rows) =
    let rest = related asset_id rows in
    if str_eq row.from_asset_id asset_id then row ∷ rest else rest

unfoldable pub relationship_ids : List RelationshipRow → List ℕ
relationship_ids [] = []
relationship_ids (row ∷ rows) = RelationshipRow.id row ∷ relationship_ids rows

unfoldable pub relationship_at : List RelationshipRow → ℕ → Option RelationshipRow
relationship_at [] id = none
relationship_at (row ∷ rows) id =
    let rest = relationship_at rows id in if RelationshipRow.id row == id then some row else rest

-- The rows of `assets`, in the order in which they are delivered.
unfoldable pub asset_rows : Dict Asset → List String → List Asset
asset_rows assets [] = []
asset_rows assets (k ∷ ks) =
    let rest = asset_rows assets ks in elim (Dict.get assets k) [ none ↦ rest | some a ↦ a ∷ rest ]
