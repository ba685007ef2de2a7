-- ===== src/Scenarios/Requests.antt =====
-- A session: a key is created, activated, used, revoked and destroyed, by whole requests.
use open_kmip_server.Common.{some, List, [], ◌∷◌}
use open_kmip_server.Common.Int.{ℤ, pos}
use open_kmip_server.Common.Dict
use open_kmip_server.Storage.Memory.{MemoryStore, memory_storage, new_memory_store}
use open_kmip_server.Storage.Memory.History.{Evolves}
use open_kmip_server.Kmip.Connections.{new_connection_tracker, add}
use open_kmip_server.Kmip.Batch.{Server, Client}
use open_kmip_server.Kmip.Request.{handle_request, process_items}
use open_kmip_server.Kmip.Trace.Safety.{IsSafe, Advances, new_memory_store-IsSafe}
use open_kmip_server.Kmip.Service.{serve, serve-IsSafe, serve-Evolves, serve-Advances}
use open_kmip_server.Kmip.Answer.Requests.{
  IsDone, IsFull, handle_request-IsDone, process_items-IsFull,
}
use open_kmip_server.Scenarios.World.{
  empty_logger, Tree, forest_of, number, words, structure, libraries, machine, machine-IsSound,
  crypto-IsAead,
}

abbrev pub client : Client
client = record { common_name = "app"; remote_addr = "10.0.0.1:4711"; conn_id = "c1" }

abbrev pub item : ℤ → List Tree → Tree
item op payload =
    structure 0x42000F
      (forest_of (number 0x42005C op ∷ structure 0x420079 (forest_of payload) ∷ []))

abbrev pub message : List Tree → Tree
message items = structure 0x420078 (
    forest_of (
      structure 0x420077 (
        forest_of (
          structure 0x420069 (forest_of (number 0x42006A (pos 1) ∷ number 0x42006B (pos 4) ∷ []))
          ∷ []))
      ∷ items))

-- The attribute Cryptographic Length, in a template.
abbrev template : Tree
template = structure 0x420091 (
    forest_of (
      structure 0x420008
        (forest_of (words 0x42000A "Cryptographic Length" ∷ number 0x42000B (pos 128) ∷ []))
      ∷ []))

abbrev pub create_item : Tree
create_item = item (pos 1) (number 0x420057 (pos 2) ∷ template ∷ [])

abbrev pub on_key : ℤ → Tree
on_key op = item op (words 0x420094 "" ∷ [])

-- The first identifier of the machine is the empty text.
abbrev session : List (Tree × Client)
session =
    (message (create_item ∷ on_key (pos 0x12) ∷ []), client)
    ∷ (message (on_key (pos 0x13) ∷ []), client)
    ∷ (message (on_key (pos 0x14) ∷ []), client)
    ∷ []

abbrev pub server : Server MemoryStore
server = record {
  world = record { store = new_memory_store; moment = 0 };
  audit = some empty_logger;
  tracker = some (add 0 new_connection_tracker "c1" "app" "10.0.0.1:4711");
}

serve-IsSafe_example :
    IsSafe machine
      (serve libraries session server).world.moment
      (serve libraries session server).world.store
serve-IsSafe_example =
    serve-IsSafe libraries machine-IsSound session server (new_memory_store-IsSafe machine)

-- The session after its first request.
abbrev started : Server MemoryStore
started = serve libraries ((message (create_item ∷ []), client) ∷ []) server

started-IsSafe : IsSafe machine started.world.moment started.world.store
started-IsSafe =
    serve-IsSafe libraries machine-IsSound ((message (create_item ∷ []), client) ∷ []) server
      (new_memory_store-IsSafe machine)

serve-Evolves_example :
    Evolves
      (Dict.get started.world.store.keys "")
      (Dict.get (serve libraries session started).world.store.keys "")
serve-Evolves_example = serve-Evolves libraries machine-IsSound session started started-IsSafe ""

serve-Advances_example :
    Advances
      (Dict.get started.world.store.keys "")
      (Dict.get (serve libraries session started).world.store.keys "")
serve-Advances_example = serve-Advances libraries machine-IsSound session started started-IsSafe ""

handle_request-IsDone_example :
    IsDone
      (handle_request libraries
        (memory_storage machine)
        (message (create_item ∷ []))
        client
        server).0
handle_request-IsDone_example =
    handle_request-IsDone libraries (memory_storage machine) crypto-IsAead machine-IsSound
      (message (create_item ∷ [])) client server

process_items-IsFull_example :
    IsFull libraries (memory_storage machine) (create_item ∷ on_key (pos 0x12) ∷ []) (
      process_items libraries
        (memory_storage machine)
        (create_item ∷ on_key (pos 0x12) ∷ [])
        client
        server)
process_items-IsFull_example =
    process_items-IsFull libraries (memory_storage machine) crypto-IsAead machine-IsSound
      (create_item ∷ on_key (pos 0x12) ∷ []) client server
