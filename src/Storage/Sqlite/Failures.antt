-- ===== src/Storage/Sqlite/Failures.antt =====
-- What is left in the database by a method that fails, and by a Rekey that comes too late
-- (internal/storage/sqlite.go).
use open_kmip_server.Common.{
  ℕ, ◌/◌, String, Bool, true, false, not, ◌&&◌, ◌≡◌, refl, ap, none, some, [], arith, eq_refl,
  Bool-cases, Option-cases, inl, inr, ltb,
}
use open_kmip_server.Common.Int.{ℤ, pos, leb_ℤ, eq_ℤ, pos_part, inc_int}
use open_kmip_server.Common.Bytes.{Bytes, Slice, contents}
use open_kmip_server.Common.Result.{Result, ok, err, is_ok, Result-cases}
use open_kmip_server.Common.Dict
use open_kmip_server.Common.Dict.{get-put}
use open_kmip_server.External.Machine.{Machine}
use open_kmip_server.External.Database.{Driver, IsUp}
use open_kmip_server.Storage.Types.{KeyRecord, max_derived_key_bytes}
use open_kmip_server.Storage.Tables.{
  Database, KeyRow, insert_key, update_keys, update_row, not_destroyed,
}
use open_kmip_server.Storage.Memory.{bad_length, derived_length}
use open_kmip_server.Storage.Memory.Calls.{
  Call, create_call, activate_call, destroy_call, rekey_call, archive_call, recover_call,
  register_call, revoke_call, derive_call, set_attribute_call, delete_attribute_call,
}
use open_kmip_server.Storage.Conversation.{
  Answer, object, finished, attributes, call, finish, make, told_result,
}
use open_kmip_server.Storage.Sqlite
use open_kmip_server.Storage.Sqlite.{sqlite_storage}

-- The client is told of an error.
abbrev pub is_refusal : Answer → Bool
is_refusal (object none) = true
is_refusal (object (some rec)) = false
is_refusal (finished b) = not b
is_refusal (attributes none) = true
is_refusal (attributes (some attrs)) = false

-- An error leaves the database as it was.
abbrev Keeps {ℓ} : {A : Type ℓ} → Database → Result A × Database → Type 0
Keeps db (r, db') = is_ok r ≡ false → db' ≡ db

module _ (driver : Driver) (n : ℕ) (db : Database) where
  insert_new-Keeps :
      (what : String) (rec : KeyRecord) → Keeps db (Sqlite.insert_new driver what n db rec)
  unfolding Sqlite.insert_new Sqlite.inserted insert_key
  insert_new-Keeps what rec failed = ground arith

  update_one-Keeps :
      (what missing uid : String) (matches : KeyRow → Bool) (change : KeyRow → KeyRow)
      → Keeps db (Sqlite.update_one driver what missing n db uid matches change)
  unfolding Sqlite.update_one Sqlite.updated update_keys update_row
  update_one-Keeps what missing uid matches change failed = ground arith

  rekey_write-Keeps :
      (uid : String) (rec : KeyRecord) (key_bytes : Bytes)
      → Keeps db (Sqlite.rekey_write driver n db uid rec key_bytes)
  unfolding Sqlite.rekey_write Sqlite.rekeyed update_keys update_row
  rekey_write-Keeps uid rec key_bytes failed = ground arith

  module _ (machine : Machine) where
    create-Keeps :
        (name : String) (algorithm bit_length usage_mask : ℤ) (owner : String)
        → Keeps db (Sqlite.create driver machine n db name algorithm bit_length usage_mask owner)
    unfolding Sqlite.create
    create-Keeps name algorithm bit_length usage_mask owner =
        elim (Bool-cases (bad_length bit_length)) [
          | inl bad ↦ λ failed. rw (Sqlite.create, bad) refl
          | inr good ↦ elim (Option-cases (machine.rand_error n (pos_part bit_length / 8))) [
            | inr (e, broken) ↦ λ failed. rw (Sqlite.create, good, broken) refl
            | inl fine ↦ rw (Sqlite.create, good, fine) (insert_new-Keeps "insert key: " _)
          ]
        ]

    register-Keeps : (given : KeyRecord) → Keeps db (Sqlite.register driver machine n db given)
    unfolding Sqlite.register
    register-Keeps given =
        elim (Bool-cases
          (not (eq_ℤ given.object_type (pos 1)) && not (leb_ℤ (pos 0) given.bit_length))) [
            | inl bad ↦ λ failed. rw (Sqlite.register, bad) refl
            | inr good ↦ rw (Sqlite.register, good) (insert_new-Keeps "register: " _)
          ]

    derive_from-Keeps :
        (src : KeyRecord) (salt : Slice) (name : String) (bit_length : ℤ)
        → Keeps db (Sqlite.derive_from driver machine n db src salt name bit_length)
    unfolding Sqlite.derive_from
    derive_from-Keeps src salt name bit_length =
        elim (Bool-cases (ltb max_derived_key_bytes (derived_length bit_length))) [
          | inl long ↦ λ failed. rw (Sqlite.derive_from, long) refl
          | inr fits ↦
              elim (Result-cases (
                machine.hkdf (contents src.material) (contents salt) "kmip-derive"
                  (derived_length bit_length))) [
                    | inl (bs, e) ↦
                        rw (Sqlite.derive_from, fits, e) (insert_new-Keeps "insert derived key: " _)
                    | inr (x, e) ↦ λ failed. rw (Sqlite.derive_from, fits, e) refl
                  ]
        ]

    derive_key-Keeps :
        (uid : String) (salt : Slice) (name : String) (bit_length : ℤ)
        → Keeps db (Sqlite.derive_key driver machine n db uid salt name bit_length)
    unfolding Sqlite.derive_key
    derive_key-Keeps uid salt name bit_length = elim (Option-cases (Sqlite.get driver n db uid)) [
      | inl missing ↦ λ failed. rw (Sqlite.derive_key, missing) refl
      | inr (src, found) ↦
          rw (Sqlite.derive_key, found) (derive_from-Keeps src salt name bit_length)
    ]

    rekey-Keeps : (uid : String) → Keeps db (Sqlite.rekey driver machine n db uid)
    unfolding Sqlite.rekey
    rekey-Keeps uid = elim (Option-cases (Sqlite.get driver n db uid)) [
      | inl missing ↦ λ failed. rw (Sqlite.rekey, missing) refl
      | inr (rec, found) ↦ elim (Bool-cases (bad_length rec.bit_length)) [
        | inl bad ↦ λ failed. rw (Sqlite.rekey, found, bad) refl
        | inr good ↦ elim (Option-cases (machine.rand_error n (pos_part rec.bit_length / 8))) [
          | inr (e, broken) ↦ λ failed. rw (Sqlite.rekey, found, good, broken) refl
          | inl fine ↦ rw (Sqlite.rekey, found, good, fine) (rekey_write-Keeps uid rec _)
        ]
      ]
    ]

  set-Keeps :
      (uid name value : String) → Keeps db (Sqlite.set_custom_attribute driver n db uid name value)
  unfolding Sqlite.set_custom_attribute
  set-Keeps uid name value failed = ground arith

  delete-Keeps :
      (uid name : String) → Keeps db (Sqlite.delete_custom_attribute driver n db uid name)
  unfolding Sqlite.delete_custom_attribute
  delete-Keeps uid name failed = ground arith

  finish-refused :
      (x : Result (Unit {0}) × Database)
      → Keeps db x
      → is_refusal (finished (is_ok x.0)) ≡ true
      → x.1 ≡ db
  finish-refused x keeps refused = keeps (ground (arith, refused))

  make-refused :
      (r : Result KeyRecord) (db' : Database)
      → (is_ok r ≡ false → db' ≡ db)
      → is_refusal (told_result r) ≡ true
      → db' ≡ db
  make-refused (ok rec) db' keeps refused = absurd (ground (arith, refused))
  make-refused (err e) db' keeps refused = keeps refl

  -- Whatever fails, the driver's statements, the randomness or a check of the method: a call on the
  -- database that answers with an error has changed nothing in the tables.
  pub call-refused :
      (machine : Machine) (c : Call)
      → is_refusal (call (sqlite_storage driver machine) n db c).0 ≡ true
      → (call (sqlite_storage driver machine) n db c).1 ≡ db
  unfolding call finish make Sqlite.activate Sqlite.destroy Sqlite.revoke Sqlite.archive
      Sqlite.recover
  call-refused machine (create_call name algorithm bit_length usage_mask owner) =
      make-refused _ _ (create-Keeps machine name algorithm bit_length usage_mask owner)
  call-refused machine (register_call rec) = make-refused _ _ (register-Keeps machine rec)
  call-refused machine (rekey_call uid) = make-refused _ _ (rekey-Keeps machine uid)
  call-refused machine (derive_call uid salt name bit_length) =
      make-refused _ _ (derive_key-Keeps machine uid salt name bit_length)
  call-refused machine (activate_call uid) = finish-refused _ (update_one-Keeps _ _ uid _ _)
  call-refused machine (destroy_call uid) = finish-refused _ (update_one-Keeps _ _ uid _ _)
  call-refused machine (archive_call uid) = finish-refused _ (update_one-Keeps _ _ uid _ _)
  call-refused machine (revoke_call uid reason) = finish-refused _ (update_one-Keeps _ _ uid _ _)
  call-refused machine (recover_call uid) = finish-refused _ (update_one-Keeps _ _ uid _ _)
  call-refused machine (set_attribute_call uid name value) =
      finish-refused _ (set-Keeps uid name value)
  call-refused machine (delete_attribute_call uid name) = finish-refused _ (delete-Keeps uid name)

  update_keys-gone :
      (uid : String) (row : KeyRow) (change : KeyRow → KeyRow)
      → driver.exec_error n ≡ none
      → Dict.get db.keys uid ≡ some row
      → not_destroyed row ≡ false
      → update_keys driver n db uid not_destroyed change ≡ (ok 0, db)
  unfolding update_keys update_row
  update_keys-gone uid row change up found gone = rw (update_keys, up, update_row, found, gone) refl

  get-gone :
      (uid : String) (row : KeyRow)
      → Dict.get db.keys uid ≡ some row
      → not_destroyed row ≡ false
      → Sqlite.get driver n db uid ≡ none
  unfolding Sqlite.get
  get-gone uid row found gone = ground arith

  destroyed_row :
      (uid : String) (rec : KeyRecord)
      → driver.exec_error n ≡ none
      → Sqlite.get driver n db uid ≡ some rec
      → (row : KeyRow) × (Dict.get (Sqlite.destroy driver n db uid).1.keys uid ≡ some row)
        × (not_destroyed row ≡ false)
  unfolding Sqlite.get Sqlite.destroy Sqlite.update_one Sqlite.updated update_keys update_row
  destroyed_row uid rec up shown = elim (Option-cases (Dict.get db.keys uid)) [
    | inl missing ↦ absurd (ground arith)
    | inr (row, found) ↦ (
      record row { state = 5; material = [] },
      ground
          (arith, eq_refl uid, get-put db.keys uid uid (record row { state = 5; material = [] })),
      refl,
    )
  ]

-- With statements that run: where Rekey has read an object, and the object is destroyed before Rekey
-- makes its UPDATE, Rekey still returns the record with new material and a new version, although the
-- tables stay as the Destroy left them and Get shows no object under the identifier.
pub rekey_write-late :
    (driver : Driver) (n : ℕ) (up : IsUp driver n) (db : Database) (uid : String) (rec : KeyRecord)
    (key_bytes : Bytes)
    → Sqlite.get driver n db uid ≡ some rec
    → (Sqlite.rekey_write driver n (Sqlite.destroy driver n db uid).1 uid rec key_bytes ≡ (
      ok (record rec { material = some key_bytes; version = inc_int rec.version }),
      (Sqlite.destroy driver n db uid).1,
    ))
      × (Sqlite.get driver n (Sqlite.destroy driver n db uid).1 uid ≡ none)
unfolding Sqlite.rekey_write Sqlite.rekeyed
rekey_write-late driver n up db uid rec key_bytes shown =
    let (row, found, gone) = destroyed_row driver n db uid rec up.writes shown in
    let after = (Sqlite.destroy driver n db uid).1 in
    (
      ap (Sqlite.rekeyed _) (update_keys-gone driver n after uid row _ up.writes found gone),
      get-gone driver n after uid row found gone,
    )
