-- ===== src/Api/Inventory.antt =====
-- internal/api/api.go: the handler of the inventory.
use open_kmip_server.Common.{String, Option, none, some, List, [], ◌∷◌, ◌++◌, map}
use open_kmip_server.Common.Dict
use open_kmip_server.Common.Dict.{Dict}
use open_kmip_server.External.Database.{Driver, AssetFormats}
use open_kmip_server.Kmip.Action.{◌>>=◌, pure, draw, or_fail}
use open_kmip_server.Storage.AssetGraph.{AssetTables}
use open_kmip_server.Storage.Inventory.{AssetView, AssetRelationship, list_inventory}
use open_kmip_server.Web.Http.{Json, words, array, json_map, items_of, slice_json}
use open_kmip_server.Api.{Handler, status_ok, status_internal_server_error}

-- What the inventory uses: the driver, and how json.Marshal writes a map; an empty map[string]any is
-- omitted.
pub record Inventory : Type 1 where
  pub driver : Driver
  pub assets : AssetFormats
  pub map_json : Dict String → Json
  pub metadata_fields : assets.Object → List (String × Json)

-- `omitempty` on a slice
abbrev unless_nil : String → List Json → List (String × Json)
unless_nil name [] = []
unless_nil name (value ∷ rest) = (name, array (items_of (value ∷ rest))) ∷ []

module _ (inventory : Inventory) where
  relationship_json : AssetRelationship inventory.driver inventory.assets → Json
  relationship_json rel = json_map (
      ("type", words rel.rel_type)
      ∷ ("target", words rel.target)
      ∷ inventory.metadata_fields rel.metadata)

  metadata_field : List String → Dict String → List (String × Json)
  metadata_field [] m = []
  metadata_field (k ∷ ks) m = ("metadata", inventory.map_json m) ∷ []

  view_json : AssetView inventory.driver inventory.assets → Json
  unfolding relationship_json metadata_field
  view_json v = json_map (
      (("id", words v.id)
        ∷ ("type", words v.asset_type)
        ∷ ("source", words v.source)
        ∷ ("name", words v.name)
        ∷ ("status", words v.status)
        ∷ ("created_at", words v.created_at)
        ∷ [])
      ++ metadata_field (Dict.keys v.metadata) v.metadata
      ++ unless_nil "tags" (map words v.tags)
      ++ unless_nil "relationships" (map relationship_json v.relationships))

  -- a.store.(*storage.SQLiteStore): the tables, where the store is one.
  unfoldable pub handle_inventory : {S : Type 0} → Option AssetTables → Handler S
  unfolding view_json
  handle_inventory none = pure (status_ok, array (items_of []))
  handle_inventory (some tables) = do
    listed ← draw (λ n. list_inventory inventory.driver inventory.assets n tables)
    views ← or_fail listed status_internal_server_error
    pure (status_ok, slice_json (map view_json views))
