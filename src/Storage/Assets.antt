-- ===== src/Storage/Assets.antt =====
-- internal/storage/assets.go: the methods that write the asset graph, and two that read it. A
-- statement has a moment of its own; one that fails changes nothing.
pub mod Growth
pub mod Changes
use open_kmip_server.Common.{
  ℕ, suc, ◌+◌, String, Bool, false, none, some, List, [], ◌∷◌, ◌++◌, if◌then◌else◌,
}
use open_kmip_server.Common.Int.{ℤ, pos, leb_ℤ, pos_part}
use open_kmip_server.Common.Result.{Result, ok, err}
use open_kmip_server.Common.Slices.{take}
use open_kmip_server.Common.Dict
use open_kmip_server.Common.Dict.{Dict}
use open_kmip_server.External.Database.{Driver, AssetFormats}
use open_kmip_server.Storage.Memory.{done}
use open_kmip_server.Storage.AssetGraph.{
  Asset, RelationshipRow, EventRow, AssetTables, metadata_of, tag_id, is_tagged, tag_ids, tag_name,
  joined, events_of, related, relationship_ids, relationship_at, asset_rows,
}

module _ (driver : Driver) (formats : AssetFormats) where
  open formats use {
    Object, marshal, unmarshal, datetime_now, parse_rfc3339, row_id, id_order, has_foreign_keys,
    foreign_key_error,
  }

  -- REFERENCES assets(id), where the connection enforces it
  abbrev pub is_dangling : ℕ → AssetTables → String → Bool
  is_dangling n t asset_id = elim (Dict.get t.assets asset_id) [
    | none ↦ has_foreign_keys n
    | some a ↦ false
  ]

  unfoldable pub register_asset :
      ℕ → AssetTables → String → String → String → String → String → Result (Unit {0}) × AssetTables
  register_asset n t id asset_type native_id name status = elim (driver.exec_error n) [
    | some e ↦ (err e, t)
    | none ↦ elim (Dict.get t.assets id) [
      | none ↦ (
        done,
        record t {
          assets = Dict.put t.assets id (record {
            id = id;
            asset_type = asset_type;
            native_id = native_id;
            source = "open-kmip-server";
            name = name;
            status = status;
            created_at = datetime_now n;
            updated_at = datetime_now n;
          });
        },
      )
      | some a ↦ (
        done,
        record t {
          assets =
              Dict.put t.assets id
                (record a { name = name; status = status; updated_at = datetime_now n });
        },
      )
    ]
  ]

  unfoldable pub set_metadata :
      ℕ → AssetTables → String → String → String → Result (Unit {0}) × AssetTables
  set_metadata n t asset_id key value = elim (driver.exec_error n) [
    | some e ↦ (err e, t)
    | none ↦ elim (Dict.get (metadata_of t asset_id) key) [
      | none ↦ if is_dangling n t asset_id then (err foreign_key_error, t) else (done, written)
      | some old ↦ (done, written)
    ]
  ]
    where
      written : AssetTables
      written = record t {
        asset_metadata =
            Dict.put t.asset_metadata asset_id (Dict.put (metadata_of t asset_id) key value);
      }

  unfoldable pub get_metadata : ℕ → AssetTables → String → Result (Dict String)
  get_metadata n t asset_id = elim (driver.query_error n) [
    | some e ↦ err e
    | none ↦ ok (metadata_of t asset_id)
  ]

  -- INSERT OR IGNORE INTO tags, whose error is dropped
  unfoldable pub insert_tag : ℕ → AssetTables → String → AssetTables
  unfolding tag_id
  insert_tag n t name = elim (driver.exec_error n) [
    | some e ↦ t
    | none ↦ elim (tag_id t.tags name) [
      | some id ↦ t
      | none ↦ record t { tags = t.tags ++ record { id = row_id n; name = name } ∷ [] }
    ]
  ]

  -- INSERT OR IGNORE INTO asset_tags … SELECT ?, id FROM tags WHERE name = ?
  unfoldable pub insert_asset_tag :
      ℕ → AssetTables → String → String → Result (Unit {0}) × AssetTables
  unfolding tag_id is_tagged
  insert_asset_tag n t asset_id name = elim (driver.exec_error n) [
    | some e ↦ (err e, t)
    | none ↦ elim (tag_id t.tags name) [
      | none ↦ (done, t)
      | some id ↦
          if is_tagged t.asset_tags asset_id id
          then (done, t)
          else if is_dangling n t asset_id
          then (err foreign_key_error, t)
          else (done, record t { asset_tags = t.asset_tags ++ (asset_id, id) ∷ [] })
    ]
  ]

  unfoldable pub tag_asset : ℕ → AssetTables → String → String → Result (Unit {0}) × AssetTables
  unfolding insert_tag insert_asset_tag
  tag_asset n t asset_id name = insert_asset_tag (suc n) (insert_tag n t name) asset_id name

  unfoldable pub get_tags : ℕ → AssetTables → String → Result (List String)
  unfolding tag_ids tag_name joined
  get_tags n t asset_id = elim (driver.query_error n) [
    | some e ↦ err e
    | none ↦ ok (joined t.tags (id_order n (tag_ids t.asset_tags asset_id)))
  ]

  unfoldable pub add_relationship :
      ℕ → AssetTables → String → String → String → Object → Result (Unit {0}) × AssetTables
  add_relationship n t from_asset_id rel_type to_asset_id metadata = elim (driver.exec_error n) [
    | some e ↦ (err e, t)
    | none ↦ if is_dangling n t from_asset_id then (err foreign_key_error, t) else (
      done,
      record t {
        asset_relationships =
            t.asset_relationships
            ++ record {
              id = row_id n;
              from_asset_id = from_asset_id;
              relationship_type = rel_type;
              to_asset_id = to_asset_id;
              metadata_json = marshal metadata;
            }
              ∷ [];
      },
    )
  ]

  unfoldable pub emit_lifecycle_event :
      ℕ → AssetTables → String → String → String → Object → Result (Unit {0}) × AssetTables
  emit_lifecycle_event n t asset_id event_type actor details = elim (driver.exec_error n) [
    | some e ↦ (err e, t)
    | none ↦ (
      done,
      record t {
        asset_lifecycle_events =
            t.asset_lifecycle_events
            ++ record {
              id = row_id n;
              asset_id = asset_id;
              event_type = event_type;
              actor = actor;
              timestamp = datetime_now n;
              result = "success";
              details_json = marshal details;
            }
              ∷ [];
      },
    )
  ]
