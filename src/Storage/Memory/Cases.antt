-- ===== src/Storage/Memory/Cases.antt =====
-- The branches of the methods that change one object (internal/storage/memory.go).
use open_kmip_server.Common.{String, ◌≡◌, refl, true, false, none, some}
use open_kmip_server.Common.Text.{cat}
use open_kmip_server.Common.Result.{err}
use open_kmip_server.Common.Dict
use open_kmip_server.Common.Dict.{Dict}
use open_kmip_server.Storage.Types.{KeyRecord, pre_active, destroyed, archived, is_state}
use open_kmip_server.Storage.Memory.{MemoryStore, not_found, overwrite, done, set_state, recover}

module _ (change : KeyRecord → KeyRecord) (m : MemoryStore) (uid : String) where
  pub set_state-absent :
      Dict.get m.keys uid ≡ none → set_state change m uid ≡ (err (not_found uid), m)
  unfolding set_state
  set_state-absent missing = rw (set_state, missing) refl

  pub set_state-gone :
      (rec : KeyRecord)
      → Dict.get m.keys uid ≡ some rec
      → is_state rec.state destroyed ≡ true
      → set_state change m uid ≡ (err (not_found uid), m)
  unfolding set_state
  set_state-gone rec found gone = rw (set_state, found, gone) refl

  pub set_state-here :
      (rec : KeyRecord)
      → Dict.get m.keys uid ≡ some rec
      → is_state rec.state destroyed ≡ false
      → set_state change m uid ≡ (done, overwrite m uid (change rec))
  unfolding set_state
  set_state-here rec found here = rw (set_state, found, here) refl

module _ (m : MemoryStore) (uid : String) where
  pub recover-absent :
      Dict.get m.keys uid ≡ none
      → recover m uid ≡ (err (cat "object not found or not archived: " uid), m)
  unfolding recover
  recover-absent missing = rw (recover, missing) refl

  pub recover-here :
      (rec : KeyRecord)
      → Dict.get m.keys uid ≡ some rec
      → is_state rec.state archived ≡ true
      → recover m uid ≡ (done, overwrite m uid (record rec { state = pre_active }))
  unfolding recover
  recover-here rec found here = rw (recover, found, here) refl

  pub recover-other :
      (rec : KeyRecord)
      → Dict.get m.keys uid ≡ some rec
      → is_state rec.state archived ≡ false
      → recover m uid ≡ (err (cat "object not found or not archived: " uid), m)
  unfolding recover
  recover-other rec found other = rw (recover, found, other) refl
