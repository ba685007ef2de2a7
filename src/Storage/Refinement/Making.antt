-- ===== src/Storage/Refinement/Making.antt =====
-- The methods that make an object or its material, on the database and in memory
-- (internal/storage/sqlite.go, internal/storage/memory.go).
use open_kmip_server.Common.{
  ℕ, ◌/◌, String, false, not, ◌&&◌, ◌≡◌, refl, ap, none, some, arith, Bool-cases, Option-cases, inl,
  inr, ltb,
}
use open_kmip_server.Common.Int.{ℤ, pos, leb_ℤ, eq_ℤ, pos_part, inc_int}
use open_kmip_server.Common.Bytes.{Bytes, Slice, contents}
use open_kmip_server.Common.Result.{Result, ok, Result-cases}
use open_kmip_server.Common.Dict
use open_kmip_server.External.Machine.{Machine, IsSound}
use open_kmip_server.External.Database.{Driver, IsDriver, IsUp}
use open_kmip_server.Storage.Types.{KeyRecord, destroyed, is_state, max_derived_key_bytes}
use open_kmip_server.Storage.Tables.{Database, KeyRow, row_with, insert_key, not_destroyed}
use open_kmip_server.Storage.Memory.{MemoryStore, bad_length, derived_length}
use open_kmip_server.Storage.Memory
use open_kmip_server.Storage.Memory.Invariant.{IsValid}
use open_kmip_server.Storage.Memory.History.{new_uuid_fresh}
use open_kmip_server.Storage.Sqlite
use open_kmip_server.Storage.Conversation.{told_result}
use open_kmip_server.Storage.Refinement.{
  row_of, Matches, reread, get-Matches, put-Matches, present, absent, update_keys-hit,
}

module _ (driver : Driver) where
  -- The same record or a refusal on both sides, and stores that still match.
  abbrev pub AgreeMade : Result KeyRecord × Database → Result KeyRecord × MemoryStore → Type 0
  AgreeMade (a, db) (b, m) = (told_result a ≡ told_result b) × Matches driver db m

  agree_made :
      {x x' : Result KeyRecord × Database} {y y' : Result KeyRecord × MemoryStore}
      → x ≡ x'
      → y ≡ y'
      → AgreeMade x' y'
      → AgreeMade x y
  agree_made e f h = rw (e, f) h

  module _ (laws : IsDriver driver) (n : ℕ) (up : IsUp driver n) (db : Database) (m : MemoryStore)
      (matching : Matches driver db m) where
    module _ (rec : KeyRecord)
        (bound : driver.bind_blob rec.material ≡ some (contents rec.material))
        (new : Dict.get m.keys rec.uid ≡ none) where
      insert_key-new :
          insert_key driver n db rec
          ≡ (Memory.done, record db { keys = Dict.put db.keys rec.uid (row_of driver rec) })
      unfolding insert_key
      insert_key-new =
          rw (insert_key, up.writes, bound, absent driver n up db m matching rec.uid new) refl

      -- Where both make the record.
      insert_new-save :
          (what : String)
          → AgreeMade (Sqlite.insert_new driver what n db rec) (ok rec, Memory.save m rec)
      unfolding Sqlite.insert_new Sqlite.inserted
      insert_new-save what =
          agree_made {y = (ok rec, Memory.save m rec)}
            (ap (Sqlite.inserted what rec) insert_key-new) refl
            (refl, put-Matches driver db m rec.uid rec matching)

    module _ (machine : Machine) (sound : IsSound machine) (valid : IsValid machine n m) where
      pub create-Agree :
          (name : String) (algorithm bit_length usage_mask : ℤ) (owner : String)
          → AgreeMade
              (Sqlite.create driver machine n db name algorithm bit_length usage_mask owner)
              (Memory.create machine n m name algorithm bit_length usage_mask owner)
      unfolding Sqlite.create Memory.create
      create-Agree name algorithm bit_length usage_mask owner =
          elim (Bool-cases (bad_length bit_length)) [
            | inl bad ↦ rw (Sqlite.create, Memory.create, bad) (refl, matching)
            | inr good ↦ elim (Option-cases (machine.rand_error n (pos_part bit_length / 8))) [
              | inr (e, failed) ↦ rw (Sqlite.create, Memory.create, good, failed) (refl, matching)
              | inl fine ↦
                  rw (Sqlite.create, Memory.create, good, fine)
                    (insert_new-save _ (laws.bind_blob-some _)
                      (new_uuid_fresh machine sound n m valid) "insert key: ")
            ]
          ]

      pub register-Agree :
          (given : KeyRecord)
          → driver.bind_blob given.material ≡ some (contents given.material)
          → AgreeMade
              (Sqlite.register driver machine n db given)
              (Memory.register machine n m given)
      unfolding Sqlite.register Memory.register
      register-Agree given bound =
          elim (Bool-cases
            (not (eq_ℤ given.object_type (pos 1)) && not (leb_ℤ (pos 0) given.bit_length))) [
              | inl bad ↦ rw (Sqlite.register, Memory.register, bad) (refl, matching)
              | inr good ↦
                  rw (Sqlite.register, Memory.register, good)
                    (insert_new-save _ bound (new_uuid_fresh machine sound n m valid) "register: ")
            ]

      derive_from-Agree :
          (src : KeyRecord) (salt : Slice) (name : String) (bit_length : ℤ)
          → AgreeMade
              (Sqlite.derive_from driver machine n db (reread driver src) salt name bit_length)
              (Memory.derive_from machine n m src salt name bit_length)
      unfolding Sqlite.derive_from Memory.derive_from
      derive_from-Agree src salt name bit_length =
          elim (Bool-cases (ltb max_derived_key_bytes (derived_length bit_length))) [
            | inl long ↦ rw (Sqlite.derive_from, Memory.derive_from, long) (refl, matching)
            | inr fits ↦
                elim (Result-cases (
                  machine.hkdf (contents src.material) (contents salt) "kmip-derive"
                    (derived_length bit_length))) [
                      | inl (bs, e) ↦
                          rw
                            (
                              Sqlite.derive_from,
                              Memory.derive_from,
                              fits,
                              laws.contents-scan_blob (contents src.material),
                              e,
                            )
                            (insert_new-save _ (laws.bind_blob-some _)
                              (new_uuid_fresh machine sound n m valid) "insert derived key: ")
                      | inr (x, e) ↦
                          rw
                            (
                              Sqlite.derive_from,
                              Memory.derive_from,
                              fits,
                              laws.contents-scan_blob (contents src.material),
                              e,
                            )
                            (refl, matching)
                    ]
          ]

      pub derive_key-Agree :
          (uid : String) (salt : Slice) (name : String) (bit_length : ℤ)
          → AgreeMade
              (Sqlite.derive_key driver machine n db uid salt name bit_length)
              (Memory.derive_key machine n m uid salt name bit_length)
      unfolding Sqlite.derive_key Memory.derive_key
      derive_key-Agree uid salt name bit_length =
          rw (Sqlite.derive_key, get-Matches driver laws n up db m matching uid)
            (elim (Option-cases (Memory.get m uid)) [
              | inl missing ↦ rw (Memory.derive_key, missing) (refl, matching)
              | inr (src, found) ↦
                  rw (Memory.derive_key, found) (derive_from-Agree src salt name bit_length)
            ])

    module _ (machine : Machine) (uid : String) where
      rekey_write-Agree :
          (rec : KeyRecord) (key_bytes : Bytes)
          → Dict.get m.keys uid ≡ some rec
          → is_state rec.state destroyed ≡ false
          → AgreeMade (Sqlite.rekey_write driver n db uid (reread driver rec) key_bytes) (
            ok (record rec { material = some key_bytes; version = inc_int rec.version }),
            Memory.overwrite m uid
                (record rec { material = some key_bytes; version = inc_int rec.version }),
          )
      unfolding Sqlite.rekey_write Sqlite.rekeyed row_with
      rekey_write-Agree rec key_bytes found here =
          agree_made {y = (ok new, Memory.overwrite m uid new)}
            (ap (Sqlite.rekeyed new) (
              update_keys-hit driver n up db m matching not_destroyed change uid (row_of driver rec)
                (present driver n up db m matching uid rec found) (ground (arith, here))))
            refl (refl, put-Matches driver db m uid new matching)
        where
          new : KeyRecord
          new = record rec { material = some key_bytes; version = inc_int rec.version }

          change : KeyRow → KeyRow
          change row = record row { material = key_bytes; version = inc_int rec.version }

      pub rekey-Agree :
          AgreeMade (Sqlite.rekey driver machine n db uid) (Memory.rekey machine n m uid)
      unfolding Sqlite.rekey Memory.rekey Memory.get
      rekey-Agree =
          rw (Sqlite.rekey, get-Matches driver laws n up db m matching uid)
            (elim (Option-cases (Dict.get m.keys uid)) [
              | inl missing ↦ rw (Memory.get, Memory.rekey, missing) (refl, matching)
              | inr (rec, found) ↦ elim (Bool-cases (is_state rec.state destroyed)) [
                | inl gone ↦ rw (Memory.get, Memory.rekey, found, gone) (refl, matching)
                | inr here ↦ elim (Bool-cases (bad_length rec.bit_length)) [
                  | inl bad ↦ rw (Memory.get, Memory.rekey, found, here, bad) (refl, matching)
                  | inr good ↦
                      elim (Option-cases (machine.rand_error n (pos_part rec.bit_length / 8))) [
                        | inr (e, failed) ↦
                            rw (Memory.get, Memory.rekey, found, here, good, failed)
                              (refl, matching)
                        | inl fine ↦
                            rw (Memory.get, Memory.rekey, found, here, good, fine)
                              (rekey_write-Agree rec _ found here)
                      ]
                ]
              ]
            ])
