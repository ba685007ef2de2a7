-- ===== src/Storage/Sqlite.antt =====
-- internal/storage/sqlite.go: the store that keeps its objects in a database. A statement's SQL is
-- that of Tables; the statements of one method run one after the other.
pub mod Failures
use open_kmip_server.Common.{
  ℕ, ◌/◌, String, Bool, not, ◌&&◌, Option, none, some, List, [], map, ltb, str_eq, ◌==◌,
  if◌then◌else◌,
}
use open_kmip_server.Common.Int.{ℤ, pos, leb_ℤ, eq_ℤ, pos_part, inc_int}
use open_kmip_server.Common.Text.{cat, dec}
use open_kmip_server.Common.Bytes.{Bytes, Slice, contents}
use open_kmip_server.Common.Result.{Result, ok, err}
use open_kmip_server.Common.Dict
use open_kmip_server.Common.Dict.{Dict}
use open_kmip_server.External.Machine.{Machine}
use open_kmip_server.External.Database.{Driver}
use open_kmip_server.Storage.Types.{
  KeyRecord, pre_active, active, destroyed, archived, revoked, state_code, max_key_length_bits,
  max_derived_key_bytes,
}
use open_kmip_server.Storage.Interface.{Storage}
use open_kmip_server.Storage.Tables.{
  Database, KeyRow, scan, insert_key, update_keys, selected, order_rows, not_destroyed, is_archived,
}
use open_kmip_server.Storage.Memory.{bad_length, not_found, derived_length, done}

-- What a method returns after its INSERT.
unfoldable pub inserted :
    String → KeyRecord → Result (Unit {0}) × Database → Result KeyRecord × Database
inserted what rec (err e, db) = (err (cat what e), db)
inserted what rec (ok _, db) = (ok rec, db)

-- What a method returns after its UPDATE: `what` goes before an error of the driver, `missing` is the
-- error where no row matches.
unfoldable pub updated : String → String → Result ℕ × Database → Result (Unit {0}) × Database
updated what missing (err e, db) = (err (cat what e), db)
updated what missing (ok affected, db) = (if affected == 0 then err missing else done, db)

-- Rekey does not look at the rows affected.
unfoldable pub rekeyed : KeyRecord → Result ℕ × Database → Result KeyRecord × Database
rekeyed rec (err e, db) = (err (cat "rekey: " e), db)
rekeyed rec (ok affected, db) = (ok rec, db)

module _ (driver : Driver) where
  -- An INSERT of a new record, and what the method returns.
  unfoldable pub insert_new : String → ℕ → Database → KeyRecord → Result KeyRecord × Database
  unfolding inserted
  insert_new what n db rec = inserted what rec (insert_key driver n db rec)

  -- The methods that are one UPDATE.
  unfoldable pub update_one :
      String
      → String
      → ℕ
      → Database
      → String
      → (KeyRow → Bool)
      → (KeyRow → KeyRow)
      → Result (Unit {0}) × Database
  unfolding updated
  update_one what missing n db uid matches change =
      updated what missing (update_keys driver n db uid matches change)

  -- SELECT … WHERE uid = ? AND state != ?, then scanKey
  unfoldable pub get : ℕ → Database → String → Option KeyRecord
  unfolding scan
  get n db uid = elim (driver.query_error n) [
    | some e ↦ none
    | none ↦ elim (Dict.get db.keys uid) [
      | none ↦ none
      | some row ↦ if not_destroyed row then some (scan driver row) else none
    ]
  ]

  unfoldable pub locate : ℕ → Database → String → List String
  unfolding selected
  locate n db name = elim (driver.query_error n) [
    | some e ↦ []
    | none ↦
        map (λ row. row.uid)
          (selected (λ row. str_eq row.name name && not_destroyed row) db.keys
            (driver.row_order n (Dict.keys db.keys)))
  ]

  unfoldable pub list : ℕ → Database → List KeyRecord
  unfolding selected order_rows scan
  list n db = elim (driver.query_error n) [
    | some e ↦ []
    | none ↦ map (scan driver) (
        order_rows driver (selected not_destroyed db.keys (driver.row_order n (Dict.keys db.keys))))
  ]

  unfoldable pub activate : ℕ → Database → String → Result (Unit {0}) × Database
  unfolding update_one
  activate n db uid =
      update_one "activate: " (not_found uid) n db uid not_destroyed
        (λ row. record row { state = state_code active })

  -- material = X''
  unfoldable pub destroy : ℕ → Database → String → Result (Unit {0}) × Database
  unfolding update_one
  destroy n db uid =
      update_one "destroy: " (not_found uid) n db uid not_destroyed
        (λ row. record row { state = state_code destroyed; material = [] })

  unfoldable pub revoke : ℕ → Database → String → ℤ → Result (Unit {0}) × Database
  unfolding update_one
  revoke n db uid reason =
      update_one "revoke: " (not_found uid) n db uid not_destroyed
        (λ row. record row { state = state_code revoked; revocation_reason = reason })

  unfoldable pub archive : ℕ → Database → String → Result (Unit {0}) × Database
  unfolding update_one
  archive n db uid =
      update_one "archive: " (not_found uid) n db uid not_destroyed
        (λ row. record row { state = state_code archived })

  unfoldable pub recover : ℕ → Database → String → Result (Unit {0}) × Database
  unfolding update_one
  recover n db uid =
      update_one "recover: " (cat "object not found or not archived: " uid) n db uid is_archived
        (λ row. record row { state = state_code pre_active })

  -- Rekey after its SELECT.
  unfoldable pub rekey_write :
      ℕ → Database → String → KeyRecord → Bytes → Result KeyRecord × Database
  unfolding rekeyed
  rekey_write n db uid rec key_bytes =
      rekeyed (record rec { material = some key_bytes; version = inc_int rec.version })
        (update_keys driver n db uid not_destroyed
          (λ row. record row { material = key_bytes; version = inc_int rec.version }))

  -- SELECT attr_name, attr_value … WHERE uid = ?, into a map
  unfoldable pub attributes_of : Database → String → Dict String
  attributes_of db uid = elim (Dict.get db.key_attributes uid) [ none ↦ Dict.empty | some a ↦ a ]

  unfoldable pub get_custom_attributes : ℕ → Database → String → Result (Dict String)
  unfolding get attributes_of
  get_custom_attributes n db uid = elim (get n db uid) [
    | none ↦ err (not_found uid)
    | some rec ↦ elim (driver.query_error n) [ some e ↦ err e | none ↦ ok (attributes_of db uid) ]
  ]

  -- INSERT … ON CONFLICT(uid, attr_name) DO UPDATE SET attr_value = excluded.attr_value
  unfoldable pub set_custom_attribute :
      ℕ → Database → String → String → String → Result (Unit {0}) × Database
  unfolding get attributes_of
  set_custom_attribute n db uid name value = elim (get n db uid) [
    | none ↦ (err (not_found uid), db)
    | some rec ↦ elim (driver.exec_error n) [
      | some e ↦ (err e, db)
      | none ↦ (
        done,
        record db {
          key_attributes =
              Dict.put db.key_attributes uid (Dict.put (attributes_of db uid) name value);
        },
      )
    ]
  ]

  -- DELETE FROM key_attributes WHERE uid = ? AND attr_name = ?
  unfoldable pub delete_custom_attribute :
      ℕ → Database → String → String → Result (Unit {0}) × Database
  unfolding get
  delete_custom_attribute n db uid name = elim (get n db uid) [
    | none ↦ (err (not_found uid), db)
    | some rec ↦ elim (driver.exec_error n) [
      | some e ↦ (err e, db)
      | none ↦ elim (Dict.get db.key_attributes uid) [
        | none ↦ (done, db)
        | some a ↦ (
          done,
          record db { key_attributes = Dict.put db.key_attributes uid (Dict.delete a name) },
        )
      ]
    ]
  ]

  module _ (machine : Machine) where
    unfoldable pub create : ℕ → Database → String → ℤ → ℤ → ℤ → String → Result KeyRecord × Database
    unfolding insert_new
    create now db name algorithm bit_length usage_mask owner =
        if bad_length bit_length
        then (
          err (
              cat "invalid key length: " (
                cat (dec bit_length)
                  (cat " (must be 1-" (cat (dec (pos max_key_length_bits)) " bits)")))),
          db,
        )
        else elim (machine.rand_error now (pos_part bit_length / 8)) [
          | some e ↦ (err (cat "generate key material: " e), db)
          | none ↦ insert_new "insert key: " now db rec
        ]
      where
        rec : KeyRecord
        rec = record {
          uid = machine.new_uuid now;
          name = name;
          object_type = pos 0x00000002;
          algorithm = algorithm;
          bit_length = bit_length;
          material = some (machine.rand_bytes now (pos_part bit_length / 8));
          usage_mask = usage_mask;
          state = pre_active;
          revocation_reason = pos 0;
          owner = owner;
          created_at = machine.now now;
          version = pos 1;
        }

    unfoldable pub register : ℕ → Database → KeyRecord → Result KeyRecord × Database
    unfolding insert_new
    register now db given =
        if not (eq_ℤ given.object_type (pos 0x00000001)) && not (leb_ℤ (pos 0) given.bit_length)
        then (err (cat "invalid key length: " (dec given.bit_length)), db)
        else insert_new "register: " now db rec
      where
        rec : KeyRecord
        rec = record given {
          uid = machine.new_uuid now;
          created_at = machine.now now;
          state = pre_active;
          version = if eq_ℤ given.version (pos 0) then pos 1 else given.version;
        }

    unfoldable pub rekey : ℕ → Database → String → Result KeyRecord × Database
    rekey now db uid = elim (get now db uid) [
      | none ↦ (err (not_found uid), db)
      | some rec ↦
          if bad_length rec.bit_length
          then (err (cat "invalid key length for rekey: " (dec rec.bit_length)), db)
          else elim (machine.rand_error now (pos_part rec.bit_length / 8)) [
            | some e ↦ (err (cat "generate key material: " e), db)
            | none ↦
                rekey_write now db uid rec (machine.rand_bytes now (pos_part rec.bit_length / 8))
          ]
    ]

    -- DeriveKey from the source key that it has read.
    unfoldable pub derive_from :
        ℕ → Database → KeyRecord → Slice → String → ℤ → Result KeyRecord × Database
    unfolding insert_new
    derive_from now db src derivation_data name bit_length =
        if ltb max_derived_key_bytes key_len
        then (
          err (
              cat "derived key length " (
                cat (dec (pos key_len))
                  (cat " bytes exceeds maximum " (dec (pos max_derived_key_bytes))))),
          db,
        )
        else elim (machine.hkdf (contents src.material) (contents derivation_data) "kmip-derive"
            key_len) [
              | err e ↦ (err (cat "HKDF derivation failed: " e), db)
              | ok derived ↦ insert_new "insert derived key: " now db (rec derived)
            ]
      where
        key_len : ℕ
        key_len = derived_length bit_length

        rec : Bytes → KeyRecord
        rec derived = record {
          uid = machine.new_uuid now;
          name = name;
          object_type = pos 0x00000002;
          algorithm = src.algorithm;
          bit_length = bit_length;
          material = some derived;
          usage_mask = src.usage_mask;
          state = pre_active;
          revocation_reason = pos 0;
          owner = src.owner;
          created_at = machine.now now;
          version = pos 1;
        }

    unfoldable pub derive_key :
        ℕ → Database → String → Slice → String → ℤ → Result KeyRecord × Database
    derive_key now db source_uid derivation_data name bit_length = elim (get now db source_uid) [
      | none ↦ (err (cat "source key not found: " source_uid), db)
      | some src ↦ derive_from now db src derivation_data name bit_length
    ]

    -- The store as a value of the interface.
    abbrev pub sqlite_storage : Storage
    sqlite_storage = record {
      State = Database;
      create = create;
      get = get;
      locate = locate;
      list = list;
      activate = activate;
      destroy = destroy;
      register = register;
      revoke = revoke;
      get_attributes = get;
      rekey = rekey;
      archive = archive;
      recover = recover;
      derive_key = derive_key;
      get_custom_attributes = get_custom_attributes;
      set_custom_attribute = set_custom_attribute;
      delete_custom_attribute = delete_custom_attribute;
    }
