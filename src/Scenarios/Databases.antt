-- ===== src/Scenarios/Databases.antt =====
-- A database that always runs its statements, and the store on it.
use open_kmip_server.Common.{
  ℕ, ◌≡◌, refl, ap, true, false, none, some, List, [], ◌∷◌, arith, replicate,
}
use open_kmip_server.Common.Int.{pos, inc_int}
use open_kmip_server.Common.Dict
use open_kmip_server.Common.Dict.{get-empty}
use open_kmip_server.Common.Result.{ok}
use Prim.Native.String.{len}
use open_kmip_server.External.Database.{Driver, IsDriver, IsUp}
use open_kmip_server.Storage.Types.{KeyRecord, pre_active}
use open_kmip_server.Storage.Tables.{Database, KeyRow, create_tables, row_with, insert_key, scan}
use open_kmip_server.Storage.Memory.{memory_storage, new_memory_store}
use open_kmip_server.Storage.Memory.Calls.{
  Call, create_call, activate_call, destroy_call, rekey_call, recover_call, set_attribute_call,
}
use open_kmip_server.Storage.Memory.Invariant.{new_memory_store-IsValid}
use open_kmip_server.Storage.Conversation.{
  Ask, write, read_object, read_custom_attributes, talk, call,
}
use open_kmip_server.Storage.Refinement.{Matches}
use open_kmip_server.Storage.Refinement.Talk.{talk-refines}
use open_kmip_server.Storage.Sqlite
use open_kmip_server.Storage.Sqlite.{sqlite_storage}
use open_kmip_server.Storage.Sqlite.Failures.{is_refusal, call-refused, rekey_write-late}
use open_kmip_server.Scenarios.World.{strokes, len-strokes, machine, machine-IsSound}

abbrev pub driver : Driver
driver = record {
  query_error = λ n. none;
  exec_error = λ n. none;
  unique_error = "UNIQUE constraint failed: keys.uid";
  not_null_error = "NOT NULL constraint failed: keys.material";
  bind_blob = λ slice. slice;
  scan_blob = λ bs. some bs;
  format_time = strokes;
  parse_time = λ s. ok (len s);
  row_order = λ n ks. ks;
  text_after = λ s t. false;
}

pub driver-IsDriver : IsDriver driver
driver-IsDriver = record {
  bind_blob-some = λ bs. refl;
  contents-scan_blob = λ bs. refl;
  parse_time-format_time = λ t. ap ok (len-strokes t);
  mem-row_order = λ i ks k. (λ m. m, λ m. m);
}

pub driver-IsUp : (i : ℕ) → IsUp driver i
driver-IsUp i = record { queries = refl; writes = refl }

pub new_stores-Matches : Matches driver create_tables new_memory_store
unfolding create_tables new_memory_store
new_stores-Matches = record {
  keys = λ uid. ground (arith, get-empty {V = KeyRow} uid, get-empty {V = KeyRecord} uid);
  attributes = refl;
}

-- A key is created, used, changed and destroyed; its identifier is the empty text.
abbrev asks : List Ask
asks =
    write (create_call "k" (pos 3) (pos 128) (pos 12) "app")
    ∷ write (activate_call "")
    ∷ read_object ""
    ∷ write (set_attribute_call "" "x-team" "blue")
    ∷ read_custom_attributes ""
    ∷ write (rekey_call "")
    ∷ write (recover_call "")
    ∷ write (destroy_call "")
    ∷ read_object ""
    ∷ []

talk-refines_example :
    talk (sqlite_storage driver machine) 0 create_tables asks
    ≡ talk (memory_storage machine) 0 new_memory_store asks
talk-refines_example =
    talk-refines driver driver-IsDriver driver-IsUp machine machine-IsSound 0 create_tables
      new_memory_store asks new_stores-Matches (new_memory_store-IsValid machine)
      (tt, (tt, (tt, (tt, (tt, (tt, (tt, (tt, (tt, tt)))))))))

-- The database cannot write.
abbrev read_only : Driver
read_only = record driver { exec_error = λ n. some "attempt to write a readonly database" }

abbrev creation : Call
creation = create_call "k" (pos 3) (pos 128) (pos 12) "app"

is_refused : is_refusal (call (sqlite_storage read_only machine) 0 create_tables creation).0 ≡ true
unfolding call Sqlite.create Sqlite.insert_new insert_key
is_refused = refl

call-refused_example :
    (call (sqlite_storage read_only machine) 0 create_tables creation).1 ≡ create_tables
call-refused_example = call-refused read_only 0 create_tables machine creation is_refused

-- The database after the creation.
abbrev pub filled : Database
filled = (Sqlite.create driver machine 0 create_tables "k" (pos 3) (pos 128) (pos 12) "app").1

abbrev key : KeyRecord
key = record {
  uid = "";
  name = "k";
  object_type = pos 2;
  algorithm = pos 3;
  bit_length = pos 128;
  material = some (replicate 16 7);
  usage_mask = pos 12;
  state = pre_active;
  revocation_reason = pos 0;
  owner = "app";
  created_at = 0;
  version = pos 1;
}

is_shown : Sqlite.get driver 1 filled "" ≡ some key
unfolding Sqlite.get Sqlite.create Sqlite.insert_new insert_key row_with scan strokes create_tables
    Dict.get Dict.put Dict.empty
is_shown = refl

rekey_write-late_example :
    (Sqlite.rekey_write driver 1 (Sqlite.destroy driver 1 filled "").1 "" key (replicate 16 9) ≡ (
      ok (record key { material = some (replicate 16 9); version = inc_int (pos 1) }),
      (Sqlite.destroy driver 1 filled "").1,
    ))
    × (Sqlite.get driver 1 (Sqlite.destroy driver 1 filled "").1 "" ≡ none)
rekey_write-late_example =
    rekey_write-late driver 1 (driver-IsUp 1) filled "" key (replicate 16 9) is_shown
