-- ===== src/Scenarios/Archives.antt =====
-- Archive and Recover of a key that was created, in memory and in a database.
use open_kmip_server.Common.{Option, some, List, [], ◌∷◌}
use open_kmip_server.Common.Int.{pos}
use open_kmip_server.Storage.Memory.{MemoryStore, memory_storage, new_memory_store}
use open_kmip_server.Storage.Memory.Calls.{Call, create_call, apply, run}
use open_kmip_server.Storage.Memory.Invariant.{new_memory_store-IsValid}
use open_kmip_server.Storage.Tables.{create_tables}
use open_kmip_server.Storage.Sqlite.{sqlite_storage}
use open_kmip_server.Storage.Refinement.{Matches}
use open_kmip_server.Storage.Refinement.Making.{create-Agree}
use open_kmip_server.Kmip.Codes.{op_archive, op_recover}
use open_kmip_server.Kmip.Handlers.Lifecycle.{handle_archive, handle_recover}
use open_kmip_server.Kmip.Refusals.{
  RefusesFrom, handle_archive-RefusesFrom, handle_recover-RefusesFrom,
}
use open_kmip_server.Scenarios.World.{
  machine, machine-IsSound, libraries, Tree, structure, forest_of, words,
}
use open_kmip_server.Scenarios.Databases.{
  driver, driver-IsDriver, driver-IsUp, new_stores-Matches, filled,
}

abbrev creation : List Call
creation = create_call "k" (pos 3) (pos 128) (pos 12) "app" ∷ []

abbrev created : MemoryStore
created = run machine 0 new_memory_store creation

-- A payload with the identifier of the key, the empty text.
abbrev payload : Option Tree
payload = some (structure 0x420079 (forest_of (words 0x420094 "" ∷ [])))

created-Matches : Matches driver filled created
unfolding run apply
created-Matches =
    (create-Agree driver driver-IsDriver 0 (driver-IsUp 0) create_tables new_memory_store
      new_stores-Matches machine machine-IsSound (new_memory_store-IsValid machine) "k" (pos 3)
      (pos 128) (pos 12) "app").1

handle_archive-RefusesFrom_example :
    RefusesFrom libraries.lib
      (pos op_archive)
      (record { store = created; moment = 5 })
      (handle_archive libraries (memory_storage machine) (pos op_archive) payload)
    × RefusesFrom libraries.lib
        (pos op_archive)
        (record { store = filled; moment = 5 })
        (handle_archive libraries (sqlite_storage driver machine) (pos op_archive) payload)
handle_archive-RefusesFrom_example =
    handle_archive-RefusesFrom libraries (pos op_archive) payload driver driver-IsDriver driver-IsUp
      creation 5 filled created-Matches

handle_recover-RefusesFrom_example :
    RefusesFrom libraries.lib
      (pos op_recover)
      (record { store = created; moment = 5 })
      (handle_recover libraries (memory_storage machine) (pos op_recover) payload)
    × RefusesFrom libraries.lib
        (pos op_recover)
        (record { store = filled; moment = 5 })
        (handle_recover libraries (sqlite_storage driver machine) (pos op_recover) payload)
handle_recover-RefusesFrom_example =
    handle_recover-RefusesFrom libraries (pos op_recover) payload driver driver-IsDriver driver-IsUp
      creation 5 filled created-Matches machine-IsSound (tt, tt)
