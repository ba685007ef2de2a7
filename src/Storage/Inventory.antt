-- ===== src/Storage/Inventory.antt =====
-- internal/storage/assets.go: the reports on the asset graph. A SELECT has a moment of its own.
use open_kmip_server.Common.{ℕ, suc, ◌+◌, String, none, some, List, [], ◌∷◌, if◌then◌else◌}
use open_kmip_server.Common.Int.{ℤ, pos, leb_ℤ, pos_part}
use open_kmip_server.Common.Result.{Result, ok, err}
use open_kmip_server.Common.Slices.{take}
use open_kmip_server.Common.Dict
use open_kmip_server.Common.Dict.{Dict}
use open_kmip_server.External.Database.{Driver, AssetFormats}
use open_kmip_server.Storage.AssetGraph.{
  Asset, RelationshipRow, EventRow, AssetTables, events_of, related, relationship_ids,
  relationship_at, asset_rows,
}
use open_kmip_server.Storage.Assets.{get_metadata, get_tags}

-- if limit <= 0 { limit = 50 }
abbrev pub event_limit : ℤ → ℕ
event_limit limit = if leb_ℤ limit (pos 0) then 50 else pos_part limit

module _ (driver : Driver) (formats : AssetFormats) where
  open formats use {
    Object, marshal, unmarshal, datetime_now, parse_rfc3339, row_id, id_order, has_foreign_keys,
    foreign_key_error,
  }

  pub record AssetRelationship : Type 0 where
    pub rel_type : String
    pub target : String
    pub metadata : Object

  -- The loop over rows.Next(), for the rows in the order of their ids.
  unfoldable pub scan_relationships : List RelationshipRow → List ℕ → List AssetRelationship
  unfolding relationship_at
  scan_relationships rows [] = []
  scan_relationships rows (id ∷ ids) =
      let rest = scan_relationships rows ids in
      elim (relationship_at rows id) [
        | none ↦ rest
        | some row ↦
            record {
              rel_type = row.relationship_type;
              target = row.to_asset_id;
              metadata = unmarshal row.metadata_json;
            }
            ∷ rest
      ]

  unfoldable pub get_relationships : ℕ → AssetTables → String → Result (List AssetRelationship)
  unfolding related relationship_ids scan_relationships
  get_relationships n t asset_id = elim (driver.query_error n) [
    | some e ↦ err e
    | none ↦
        let rows = related asset_id t.asset_relationships in
        ok (scan_relationships rows (id_order n (relationship_ids rows)))
  ]

  pub record LifecycleEvent : Type 0 where
    pub id : ℕ
    pub asset_id : String
    pub event_type : String
    pub actor : String
    pub timestamp : ℕ
    pub result : String
    pub details : Object

  -- ORDER BY timestamp DESC, on the texts
  unfoldable pub insert_event : EventRow → List EventRow → List EventRow
  insert_event e [] = e ∷ []
  insert_event e (next ∷ events) =
      let below = insert_event e events in
      if driver.text_after next.timestamp e.timestamp then next ∷ below else e ∷ next ∷ events

  unfoldable pub order_events : List EventRow → List EventRow
  unfolding insert_event
  order_events [] = []
  order_events (e ∷ events) = insert_event e (order_events events)

  unfoldable pub scan_events : List EventRow → List LifecycleEvent
  scan_events [] = []
  scan_events (e ∷ events) =
      record {
        id = EventRow.id e;
        asset_id = e.asset_id;
        event_type = e.event_type;
        actor = e.actor;
        timestamp = parse_rfc3339 e.timestamp;
        result = e.result;
        details = unmarshal e.details_json;
      }
      ∷ scan_events events

  unfoldable pub list_lifecycle_events : ℕ → AssetTables → String → ℤ → Result (List LifecycleEvent)
  unfolding events_of order_events scan_events
  list_lifecycle_events n t asset_id limit = elim (driver.query_error n) [
    | some e ↦ err e
    | none ↦ ok (
        scan_events
          (take (event_limit limit) (order_events (events_of asset_id t.asset_lifecycle_events))))
  ]

  pub record AssetView : Type 0 where
    pub id : String
    pub asset_type : String
    pub source : String
    pub name : String
    pub status : String
    pub created_at : String
    pub metadata : Dict String
    pub tags : List String
    pub relationships : List AssetRelationship

  -- m, _ = …
  abbrev metadata_or_nil : Result (Dict String) → Dict String
  metadata_or_nil (ok m) = m
  metadata_or_nil (err e) = Dict.empty

  abbrev list_or_nil : {A : Type 0} → Result (List A) → List A
  list_or_nil (ok xs) = xs
  list_or_nil (err e) = []

  -- The loop over rows.Next(), with three SELECTs in each round.
  unfoldable pub asset_views : ℕ → AssetTables → List Asset → List AssetView
  unfolding get_metadata get_tags get_relationships
  asset_views n t [] = []
  asset_views n t (a ∷ rows) =
      record {
        id = Asset.id a;
        asset_type = a.asset_type;
        source = "open-kmip-server";
        name = a.name;
        status = a.status;
        created_at = a.created_at;
        metadata = metadata_or_nil (get_metadata driver formats n t a.id);
        tags = list_or_nil (get_tags driver formats (n + 1) t a.id);
        relationships = list_or_nil (get_relationships (n + 2) t a.id);
      }
      ∷ asset_views (n + 3) t rows

  -- ORDER BY created_at DESC, on the texts
  unfoldable pub insert_asset : Asset → List Asset → List Asset
  insert_asset a [] = a ∷ []
  insert_asset a (next ∷ rows) =
      let below = insert_asset a rows in
      if driver.text_after next.created_at a.created_at then next ∷ below else a ∷ next ∷ rows

  unfoldable pub order_assets : List Asset → List Asset
  unfolding insert_asset
  order_assets [] = []
  order_assets (a ∷ rows) = insert_asset a (order_assets rows)

  unfoldable pub list_inventory : ℕ → AssetTables → Result (List AssetView)
  unfolding asset_rows order_assets asset_views
  list_inventory n t = elim (driver.query_error n) [
    | some e ↦ err e
    | none ↦ ok (
        asset_views (suc n) t
          (order_assets (asset_rows t.assets (driver.row_order n (Dict.keys t.assets)))))
  ]
