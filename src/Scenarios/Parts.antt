-- ===== src/Scenarios/Parts.antt =====
-- The parts of the server on their own: the memory store, the version gate, the tracker, the audit log.
use mathlib.Core.List.{Mem}
use open_kmip_server.Common.{
  String, ◌+◌, ◌/◌, ◌≤◌, ◌≡◌, ◌↔◌, refl, true, none, some, List, [], ◌∷◌, ◌++◌, arith, length,
  str_eq, if◌then◌else◌, replicate,
}
use open_kmip_server.Common.Int.{pos, pos_part}
use open_kmip_server.Common.Dict
use open_kmip_server.Common.Bytes.{contents}
use open_kmip_server.Common.Result.{ok}
use open_kmip_server.Storage.Types.{KeyRecord, pre_active, active}
use open_kmip_server.Storage.Memory.{
  MemoryStore, locate, memory_storage, new_memory_store, create, derive_key, derive_from, get,
  set_custom_attribute,
}
use open_kmip_server.Storage.Memory.Calls.{
  Call, apply, run, create_call, activate_call, derive_call, destroy_call,
}
use open_kmip_server.Storage.Memory.Invariant.{IsValid, run-IsValid, new_memory_store-IsValid}
use open_kmip_server.Storage.Memory.History.{Evolves, run-Evolves}
use open_kmip_server.Storage.Memory.Material.{create-Makes, derive_key-Makes}
use open_kmip_server.Storage.Memory.Attributes.{attribute, set_custom_attribute_lem}
use open_kmip_server.Audit
use open_kmip_server.Audit.{Entry}
use open_kmip_server.Audit.Queue.{Event, logged, written, run-fifo, stamped}
use open_kmip_server.Kmip.Connections.{ConnectionInfo, new_connection_tracker, add}
use open_kmip_server.Kmip.Connections.Counts.{record_ops, record_ops-counts}
use open_kmip_server.Kmip.Codes.{operation_name, reason_feature_not_supported}
use open_kmip_server.Kmip.Action.{done}
use open_kmip_server.Kmip.Response.{build_error_response}
use open_kmip_server.Storage.Memory.Search.{shows, locate-shows}
use open_kmip_server.Kmip.Request.{version_of, handle_request}
use open_kmip_server.Kmip.Request.Versions.{newer_major, handle_request-newer}
use open_kmip_server.Kmip.Batch.{process_batch_item}
use open_kmip_server.Kmip.Answer.Audited.{IsLogged, process_batch_item-IsLogged}
use open_kmip_server.Scenarios.World.{
  empty_logger, strokes, machine, machine-IsSound, libraries, lib, number, crypto-IsAead, Tree,
  structure, forest_of,
}
use open_kmip_server.Scenarios.Keys.{key, world, found}
use open_kmip_server.Scenarios.Requests.{client, server, create_item}

abbrev calls : List Call
calls =
    create_call "k" (pos 3) (pos 128) (pos 12) "app"
    ∷ activate_call ""
    ∷ derive_call "" none "d" (pos 256)
    ∷ destroy_call ""
    ∷ []

run-IsValid_example : IsValid machine (0 + length calls) (run machine 0 new_memory_store calls)
run-IsValid_example =
    run-IsValid machine 0 new_memory_store calls (new_memory_store-IsValid machine)

abbrev created : KeyRecord
created = record {
  uid = "";
  name = "k";
  object_type = pos 2;
  algorithm = pos 3;
  bit_length = pos 128;
  material = some (replicate 16 7);
  usage_mask = pos 12;
  state = pre_active;
  revocation_reason = pos 0;
  owner = "app";
  created_at = 0;
  version = pos 1;
}

-- The store after the creation, and what is done to its object.
abbrev begun : MemoryStore
begun = run machine 0 new_memory_store (create_call "k" (pos 3) (pos 128) (pos 12) "app" ∷ [])

abbrev follow_up : List Call
follow_up = activate_call "" ∷ derive_call "" none "d" (pos 256) ∷ destroy_call "" ∷ []

begun_has : Dict.get begun.keys "" ≡ some created
unfolding run apply create new_memory_store Dict.get Dict.put Dict.empty strokes
begun_has = refl

run-Evolves_example :
    Evolves (Dict.get begun.keys "") (Dict.get (run machine 1 begun follow_up).keys "")
run-Evolves_example =
    run-Evolves machine machine-IsSound 1 begun follow_up
      (run-IsValid machine 0 new_memory_store
        (create_call "k" (pos 3) (pos 128) (pos 12) "app" ∷ []) (new_memory_store-IsValid machine))
      ""

is_created : (create machine 0 new_memory_store "k" (pos 3) (pos 128) (pos 12) "app").0 ≡ ok created
unfolding create strokes
is_created = refl

create-Makes_example :
    (get (create machine 0 new_memory_store "k" (pos 3) (pos 128) (pos 12) "app").1 created.uid
      ≡ some created)
    × (created.state ≡ pre_active)
    × (length (contents created.material) ≡ pos_part (pos 128) / 8)
    × (length (contents created.material) ≤ 4096)
create-Makes_example =
    create-Makes machine machine-IsSound 0 new_memory_store "k" (pos 3) (pos 128) (pos 12) "app"
      created is_created

abbrev info : ConnectionInfo
info = record {
  id = "c1";
  client_cn = "app";
  remote_addr = "10.0.0.1:4711";
  connected_at = 0;
  operations = pos 0;
  last_op = "";
  last_op_at = 0;
}

tracked : Dict.get (add 0 new_connection_tracker "c1" "app" "10.0.0.1:4711").conns "c1" ≡ some info
unfolding add new_connection_tracker Dict.get Dict.put Dict.empty
tracked = refl

record_ops-counts_example :
    (final : ConnectionInfo) × (Dict.get
        (record_ops
          (add 0 new_connection_tracker "c1" "app" "10.0.0.1:4711")
          "c1"
          ((1, "Create") ∷ (2, "Get") ∷ [])).conns
        "c1"
      ≡ some final)
    × (final.operations ≡ pos (0 + 2))
record_ops-counts_example =
    record_ops-counts (add 0 new_connection_tracker "c1" "app" "10.0.0.1:4711") "c1"
      ((1, "Create") ∷ (2, "Get") ∷ []) info 0 tracked refl (omega arith)

abbrev entry : Entry
entry = record {
  timestamp = 0;
  source = "kmip";
  operation = "Create";
  client_id = "app";
  object_uid = "";
  object_name = "";
  status = "success";
  message = "";
  remote_addr = "10.0.0.1:4711";
}

abbrev events : List Event
events = logged 5 entry ∷ logged 6 entry ∷ written true ∷ logged 7 entry ∷ []

run-fifo_example :
    (Audit.Queue.run events empty_logger).rows ++ (Audit.Queue.run events empty_logger).channel
    ≡ (empty_logger.rows ++ empty_logger.channel) ++ stamped events
unfolding Audit.log Audit.write_round
run-fifo_example = run-fifo events empty_logger (refl, tt) (refl, (refl, (refl, tt)))

process_batch_item-IsLogged_example :
    IsLogged libraries
      (memory_storage machine)
      (operation_name lib (pos 1))
      client
      empty_logger
      (process_batch_item libraries (memory_storage machine) create_item client server).1.audit
process_batch_item-IsLogged_example =
    process_batch_item-IsLogged libraries (memory_storage machine) crypto-IsAead machine-IsSound
      create_item (number 0x42005C (pos 1)) client server empty_logger refl refl

abbrev derived : KeyRecord
derived = record {
  uid = "u";
  name = "d";
  object_type = pos 2;
  algorithm = pos 3;
  bit_length = pos 128;
  material = some (replicate 16 9);
  usage_mask = pos 12;
  state = pre_active;
  revocation_reason = pos 0;
  owner = "";
  created_at = 1;
  version = pos 1;
}

is_derived : (derive_key machine 1 (world active).store "k1" none "d" (pos 128)).0 ≡ ok derived
unfolding derive_key derive_from strokes get Dict.get Dict.put Dict.empty new_memory_store
is_derived = refl

derive_key-Makes_example :
    (get (derive_key machine 1 (world active).store "k1" none "d" (pos 128)).1 "u" ≡ some derived)
    × (derived.state ≡ pre_active)
    × (length (contents derived.material) ≡ 16)
    × (length (contents derived.material) ≤ 512)
derive_key-Makes_example =
    derive_key-Makes machine machine-IsSound 1 (world active).store "k1" none "d" (pos 128) derived
      is_derived

set_custom_attribute_lem_example :
    attribute (set_custom_attribute (world active).store "k1" "x-team" "blue").1 "k1" "x-team" ≡ (
      if str_eq "k1" "k1"
      then (if str_eq "x-team" "x-team"
          then some "blue"
          else attribute (world active).store "k1" "x-team")
      else attribute (world active).store "k1" "x-team")
set_custom_attribute_lem_example =
    set_custom_attribute_lem (world active).store "k1" (key active) (found active (ground arith))
      "x-team" "blue" "k1" "x-team"

-- After the calls, the derived key of the name d is under the identifier uu.
locate-shows_example :
    Mem "uu" (locate machine (0 + length calls) (run machine 0 new_memory_store calls) "d")
    ↔ (shows (run machine 0 new_memory_store calls) "d" "uu" ≡ true)
locate-shows_example =
    locate-shows machine (0 + length calls) (run machine 0 new_memory_store calls)
      (run-IsValid machine 0 new_memory_store calls (new_memory_store-IsValid machine)) "d"
      machine-IsSound "uu"

abbrev version_2 : Tree
version_2 = structure 0x420078 (
    forest_of (
      structure 0x420077 (
        forest_of (
          structure 0x420069 (forest_of (number 0x42006A (pos 2) ∷ number 0x42006B (pos 0) ∷ []))
          ∷ []))
      ∷ create_item
      ∷ []))

is_version_2 : version_of libraries (memory_storage machine) version_2 ≡ some (pos 2, pos 0)
unfolding version_of
is_version_2 = refl

handle_request-newer_example :
    (message : String) × (handle_request libraries (memory_storage machine) version_2 client server
      ≡ (done (build_error_response lib (pos 0) reason_feature_not_supported message), server))
handle_request-newer_example =
    handle_request-newer libraries (memory_storage machine) version_2 client server version_2
      (pos 2) (pos 0) refl refl is_version_2 (newer_major (omega arith))
