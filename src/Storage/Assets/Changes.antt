-- ===== src/Storage/Assets/Changes.antt =====
-- What the writes on the asset graph leave in place (internal/storage/assets.go).
use open_kmip_server.Common.{ℕ, suc, ◌+◌, String, ◌≡◌, refl, none, some, List, [], ◌∷◌}
use open_kmip_server.Common.Dict
use open_kmip_server.Common.Dict.{Dict, get-put}
use open_kmip_server.External.Database.{Driver, AssetFormats}
use open_kmip_server.Storage.Memory.{done}
use open_kmip_server.Storage.AssetGraph.{AssetTables, tag_id}
use open_kmip_server.Storage.Assets.{
  register_asset, set_metadata, insert_tag, insert_asset_tag, tag_asset, add_relationship,
  emit_lifecycle_event,
}

module _ (driver : Driver) (formats : AssetFormats) where
  open formats use {Object}

  -- The writes of the asset graph.
  pub data AssetCall : Type 0 where
    register : (id asset_type native_id name status : String) → AssetCall
    describe : (asset_id key value : String) → AssetCall
    attach : (asset_id tag_name : String) → AssetCall
    relate : (from rel_type target : String) (metadata : Object) → AssetCall
    emit : (asset_id event_type actor : String) (details : Object) → AssetCall

  unfoldable pub apply : ℕ → AssetTables → AssetCall → AssetTables
  apply n t (register id asset_type native_id name status) =
      (register_asset driver formats n t id asset_type native_id name status).1
  apply n t (describe asset_id key value) = (set_metadata driver formats n t asset_id key value).1
  apply n t (attach asset_id tag_name) = (tag_asset driver formats n t asset_id tag_name).1
  apply n t (relate from rel_type target metadata) =
      (add_relationship driver formats n t from rel_type target metadata).1
  apply n t (emit asset_id event_type actor details) =
      (emit_lifecycle_event driver formats n t asset_id event_type actor details).1

  -- Calls one after the other; a call takes at most two moments.
  unfoldable pub run : ℕ → AssetTables → List AssetCall → AssetTables
  run n t [] = t
  run n t (c ∷ calls) = run (n + 2) (apply n t c) calls

  -- Where the INSERT of a new tag fails and the statement after it runs: TagAsset reports no error,
  -- although every table is as it was.
  pub tag_asset-lost :
      (n : ℕ) (t : AssetTables) (asset_id name : String) (e : String)
      → driver.exec_error n ≡ some e
      → driver.exec_error (suc n) ≡ none
      → tag_id t.tags name ≡ none
      → tag_asset driver formats n t asset_id name ≡ (done, t)
  unfolding tag_asset insert_tag insert_asset_tag
  tag_asset-lost n t asset_id name e broken fine absent =
      rw (tag_asset, insert_tag, broken) (rw (insert_asset_tag, fine, absent) refl)
