-- ===== src/Api/Overrides.antt =====
-- The state changes of the REST side, which no lifecycle guards (internal/api/api.go), on the memory
-- store.
use open_kmip_server.Common.{String, ◌≡◌, refl, some, [], ◌∷◌, arith, eq_refl, false}
use open_kmip_server.Common.Dict.{get-put}
use open_kmip_server.External.Libraries.{Libraries}
use open_kmip_server.External.Formats.{Formats}
use open_kmip_server.Storage.Types.{KeyRecord, active, destroyed, is_state}
use open_kmip_server.Storage.Memory.{MemoryStore, memory_storage, get, overwrite}
use open_kmip_server.Storage.Memory.Lookup.{activate-live}
use open_kmip_server.Kmip.Action.{World, done, ◌>>=◌}
use open_kmip_server.Web.Http.{words, json_map}
use open_kmip_server.Api.{Backend, ApiRequest, storing, log_audit, status_ok}
use open_kmip_server.Api.Keys.{handle_activate_key, changed_to}

get-overwrite :
    (m : MemoryStore) (uid : String) (rec : KeyRecord)
    → is_state rec.state destroyed ≡ false
    → get (overwrite m uid rec) uid ≡ some rec
unfolding get
get-overwrite m uid rec live = ground (arith, eq_refl uid, get-put m.keys uid uid rec, live)

module _ (l : Libraries) (formats : Formats l.crypto) (api_key : String) (r : ApiRequest)
    (uid : String) (w : World (Backend MemoryStore)) (rec : KeyRecord)
    (found : get w.store.store uid ≡ some rec) where
  -- On the memory store, for any object that Get shows, whatever its state (so also for a revoked or an
  -- archived one): POST /v1/keys/{uid}/activate answers 200, and afterwards Get shows the object as
  -- active with nothing else changed.
  pub handle_activate_key-overrides :
      ((handle_activate_key l formats api_key (memory_storage l.machine) r uid w).0
        ≡ done (status_ok, json_map (("uid", words uid) ∷ ("state", words "active") ∷ [])))
      × (get
            (handle_activate_key l formats api_key (memory_storage l.machine) r uid w).1.store.store
            uid
          ≡ some (record rec { state = active }))
  unfolding handle_activate_key ◌>>=◌ storing log_audit changed_to
  handle_activate_key-overrides =
      rw (activate-live w.store.store uid rec found)
        (refl, get-overwrite w.store.store uid (record rec { state = active }) refl)
