-- ===== src/Scenarios/Assets.antt =====
-- An asset that is registered, tagged and reported on.
use open_kmip_server.Common.{
  ◌==◌, String, ◌≡◌, refl, true, none, some, List, [], ◌∷◌, if◌then◌else◌,
}
use open_kmip_server.Common.Result.{ok}
use open_kmip_server.Common.Dict
use Prim.Native.String.{len}
use open_kmip_server.External.Database.{Driver, AssetFormats}
use open_kmip_server.Storage.Memory.{done}
use open_kmip_server.Storage.AssetGraph.{AssetTables, create_asset_tables, tag_id}
use open_kmip_server.Storage.Assets
use open_kmip_server.Storage.Assets.{tag_asset, get_tags}
use open_kmip_server.Storage.Assets.Changes.{
  AssetCall, register, describe, attach, relate, emit, run, apply, tag_asset-lost,
}
use open_kmip_server.Scenarios.World.{strokes}
use open_kmip_server.Scenarios.Databases.{driver}

abbrev pub asset_formats : AssetFormats
asset_formats = record {
  Object = String;
  marshal = λ text. text;
  unmarshal = λ text. text;
  datetime_now = strokes;
  parse_rfc3339 = λ text. len text;
  row_id = λ n. n;
  id_order = λ n ids. ids;
  has_foreign_keys = λ n. true;
  foreign_key_error = "FOREIGN KEY constraint failed";
}

abbrev calls : List (AssetCall driver asset_formats)
calls =
    register "a" "key" "uid-1" "k" "active"
    ∷ describe "a" "owner" "app"
    ∷ attach "a" "prod"
    ∷ relate "a" "signs" "b" "{}"
    ∷ emit "a" "created" "app" "{}"
    ∷ register "a" "key" "uid-2" "k2" "destroyed"
    ∷ []

abbrev filled : AssetTables
filled = run driver asset_formats 0 create_asset_tables calls

shows_tag : get_tags driver asset_formats 20 filled "a" ≡ ok ("prod" ∷ [])
unfolding run apply Assets.register_asset Assets.set_metadata Assets.tag_asset Assets.insert_tag
    Assets.insert_asset_tag Assets.add_relationship Assets.emit_lifecycle_event get_tags
    create_asset_tables Dict.get Dict.put Dict.empty strokes
shows_tag = refl

-- The database is locked at the moment 0.
abbrev locked : Driver
locked = record driver { exec_error = λ n. if n == 0 then some "database is locked" else none }

is_unknown : tag_id create_asset_tables.tags "prod" ≡ none
unfolding tag_id create_asset_tables
is_unknown = refl

tag_asset-lost_example :
    tag_asset locked asset_formats 0 create_asset_tables "a" "prod" ≡ (done, create_asset_tables)
tag_asset-lost_example =
    tag_asset-lost locked asset_formats 0 create_asset_tables "a" "prod" "database is locked" refl
      refl is_unknown
