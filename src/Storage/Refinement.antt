-- ===== src/Storage/Refinement.antt =====
-- The store that keeps its objects in a database (internal/storage/sqlite.go) against the one that
-- keeps them in memory (internal/storage/memory.go).
pub mod Making
pub mod Talk
use open_kmip_server.Common.{
  ℕ, suc, ◌/◌, String, Bool, true, false, not, ◌&&◌, ◌≡◌, refl, ap, Option, none, some, List, [],
  ◌∷◌, arith, str_eq, eq_iff, Bool-cases, Option-cases, inl, inr, if◌then◌else◌, ltb, ◌==◌,
}
use open_kmip_server.Common.Int.{ℤ, pos, leb_ℤ, eq_ℤ, pos_part, inc_int}
use open_kmip_server.Common.Text.{cat, dec}
use open_kmip_server.Common.Bytes.{Bytes, Slice, contents}
use open_kmip_server.Common.Result.{Result, ok, err, Result-cases, is_ok}
use open_kmip_server.Common.Dict
use open_kmip_server.Common.Dict.{Dict, get-put}
use open_kmip_server.External.Machine.{Machine, IsSound}
use open_kmip_server.External.Database.{Driver, IsDriver, IsUp}
use open_kmip_server.Storage.Types.{
  KeyRecord, pre_active, active, destroyed, archived, revoked, is_state, state_code,
}
use open_kmip_server.Storage.Tables.{
  Database, KeyRow, scan, row_with, update_row, state_of, insert_key, update_keys, not_destroyed,
  is_archived,
}
use open_kmip_server.Storage.Memory.{MemoryStore}
use open_kmip_server.Storage.Memory
use open_kmip_server.Storage.Memory.Cases.{
  set_state-absent, set_state-gone, set_state-here, recover-absent, recover-here, recover-other,
}
use open_kmip_server.Storage.Sqlite
use open_kmip_server.Storage.Conversation.{told, Answer}

state_of-state_code : (rec : KeyRecord) → state_of (state_code rec.state) ≡ rec.state
state_of-state_code rec = ground arith

module _ (driver : Driver) where
  -- The row of a record whose material is bound as its bytes.
  abbrev pub row_of : KeyRecord → KeyRow
  row_of rec = row_with driver rec (contents rec.material)

  -- The row of what the memory store has under an identifier.
  abbrev pub stored : Option KeyRecord → Option KeyRow
  stored none = none
  stored (some rec) = some (row_of rec)

  -- The tables hold what the maps hold.
  pub record Matches (db : Database) (m : MemoryStore) : Type 0 where
    pub keys : (uid : String) → Dict.get db.keys uid ≡ stored (Dict.get m.keys uid)
    pub attributes : db.key_attributes ≡ m.attrs

  -- A record as it comes back from the database.
  abbrev pub reread : KeyRecord → KeyRecord
  reread rec = record rec { material = driver.scan_blob (contents rec.material) }

  abbrev pub reread_object : Option KeyRecord → Option KeyRecord
  reread_object none = none
  reread_object (some rec) = some (reread rec)

  module _ (laws : IsDriver driver) where
    scan-row_of : (rec : KeyRecord) → scan driver (row_of rec) ≡ reread rec
    unfolding scan row_with
    scan-row_of rec = rw (state_of-state_code rec, laws.parse_time-format_time rec.created_at) refl

    pub told-reread : (rec : KeyRecord) → told (reread rec) ≡ told rec
    told-reread rec = rw (laws.contents-scan_blob (contents rec.material)) refl

    module _ (n : ℕ) (up : IsUp driver n) (db : Database) (m : MemoryStore)
        (matching : Matches db m) where
      pub get-Matches :
          (uid : String) → Sqlite.get driver n db uid ≡ reread_object (Memory.get m uid)
      unfolding Sqlite.get Memory.get row_with
      get-Matches uid = elim (Option-cases (Dict.get m.keys uid)) [
        | inl missing ↦ ground (arith, up.queries, matching.keys uid)
        | inr (rec, found) ↦ ground (arith, up.queries, matching.keys uid, scan-row_of rec)
      ]

  pub put-Matches :
      (db : Database) (m : MemoryStore) (uid : String) (rec : KeyRecord)
      → Matches db m
      → Matches
          (record db { keys = Dict.put db.keys uid (row_of rec) })
          (record m { keys = Dict.put m.keys uid rec })
  put-Matches db m uid rec matching = record {
    keys = λ other. ground (
      arith,
      eq_iff uid other,
      get-put db.keys uid other (row_of rec),
      get-put m.keys uid other rec,
      matching.keys other,
    );
    attributes = matching.attributes;
  }

  -- The same answer, and stores that still match.
  abbrev pub Agree : {A : Type 0} → A × Database → A × MemoryStore → Type 0
  Agree (a, db) (b, m) = (a ≡ b) × Matches db m

  module _ (n : ℕ) (up : IsUp driver n) (db : Database) (m : MemoryStore)
      (matching : Matches db m) where
    pub absent : (uid : String) → Dict.get m.keys uid ≡ none → Dict.get db.keys uid ≡ none
    absent uid missing = ground (arith, matching.keys uid)

    pub present :
        (uid : String) (rec : KeyRecord)
        → Dict.get m.keys uid ≡ some rec
        → Dict.get db.keys uid ≡ some (row_of rec)
    present uid rec found = ground (arith, matching.keys uid)

    module _ (matches : KeyRow → Bool) (change : KeyRow → KeyRow) where
      pub update_keys-hit :
          (uid : String) (row : KeyRow)
          → Dict.get db.keys uid ≡ some row
          → matches row ≡ true
          → update_keys driver n db uid matches change
            ≡ (ok 1, record db { keys = Dict.put db.keys uid (change row) })
      unfolding update_keys update_row
      update_keys-hit uid row there hit = rw (update_keys, up.writes, update_row, there, hit) refl

      update_keys-absent :
          (uid : String)
          → Dict.get db.keys uid ≡ none
          → update_keys driver n db uid matches change ≡ (ok 0, db)
      unfolding update_keys update_row
      update_keys-absent uid there = rw (update_keys, up.writes, update_row, there) refl

      update_keys-miss :
          (uid : String) (row : KeyRow)
          → Dict.get db.keys uid ≡ some row
          → matches row ≡ false
          → update_keys driver n db uid matches change ≡ (ok 0, db)
      unfolding update_keys update_row
      update_keys-miss uid row there miss =
          rw (update_keys, up.writes, update_row, there, miss) refl

    module _ (what missing : String) (matches : KeyRow → Bool) (change : KeyRow → KeyRow)
        (uid : String) where
      update_one-hit :
          (row : KeyRow)
          → Dict.get db.keys uid ≡ some row
          → matches row ≡ true
          → Sqlite.update_one driver what missing n db uid matches change
            ≡ (Memory.done, record db { keys = Dict.put db.keys uid (change row) })
      unfolding Sqlite.update_one Sqlite.updated
      update_one-hit row there hit =
          ap (Sqlite.updated what missing) (update_keys-hit matches change uid row there hit)

      update_one-absent :
          Dict.get db.keys uid ≡ none
          → Sqlite.update_one driver what missing n db uid matches change ≡ (err missing, db)
      unfolding Sqlite.update_one Sqlite.updated
      update_one-absent there =
          ap (Sqlite.updated what missing) (update_keys-absent matches change uid there)

      update_one-miss :
          (row : KeyRow)
          → Dict.get db.keys uid ≡ some row
          → matches row ≡ false
          → Sqlite.update_one driver what missing n db uid matches change ≡ (err missing, db)
      unfolding Sqlite.update_one Sqlite.updated
      update_one-miss row there miss =
          ap (Sqlite.updated what missing) (update_keys-miss matches change uid row there miss)

    agree :
        {A : Type 0} {x x' : A × Database} {y y' : A × MemoryStore}
        → x ≡ x'
        → y ≡ y'
        → Agree x' y'
        → Agree x y
    agree e f h = rw (e, f) h

    module _ (what uid : String) where
      pub update_one-set_state :
          (change : KeyRow → KeyRow) (change' : KeyRecord → KeyRecord)
          → ((rec : KeyRecord) → change (row_of rec) ≡ row_of (change' rec))
          → Agree
              (Sqlite.update_one driver what (Memory.not_found uid) n db uid not_destroyed change)
              (Memory.set_state change' m uid)
      unfolding Sqlite.update_one Memory.set_state row_with
      update_one-set_state change change' same = elim (Option-cases (Dict.get m.keys uid)) [
        | inl missing ↦
            agree (update_one-absent what _ _ change uid (absent uid missing))
              (set_state-absent change' m uid missing) (refl, matching)
        | inr (rec, found) ↦ elim (Bool-cases (is_state rec.state destroyed)) [
          | inl gone ↦
              agree
                (update_one-miss what _ _ change uid (row_of rec) (present uid rec found)
                  (ground (arith, gone)))
                (set_state-gone change' m uid rec found gone) (refl, matching)
          | inr here ↦
              agree
                (update_one-hit what _ _ change uid (row_of rec) (present uid rec found)
                  (ground (arith, here)))
                (set_state-here change' m uid rec found here)
                (refl, rw (same rec) (put-Matches db m uid (change' rec) matching))
        ]
      ]

    module _ (uid : String) where
      pub recover-Agree : Agree (Sqlite.recover driver n db uid) (Memory.recover m uid)
      unfolding Sqlite.recover Memory.recover row_with
      recover-Agree = elim (Option-cases (Dict.get m.keys uid)) [
        | inl missing ↦
            agree (update_one-absent "recover: " _ _ _ uid (absent uid missing))
              (recover-absent m uid missing) (refl, matching)
        | inr (rec, found) ↦ elim (Bool-cases (is_state rec.state archived)) [
          | inl here ↦
              agree
                (update_one-hit "recover: " _ _ _ uid (row_of rec) (present uid rec found)
                  (ground (arith, here)))
                (recover-here m uid rec found here)
                (refl, put-Matches db m uid (record rec { state = pre_active }) matching)
          | inr other ↦
              agree
                (update_one-miss "recover: " _ _ _ uid (row_of rec) (present uid rec found)
                  (ground (arith, other)))
                (recover-other m uid rec found other) (refl, matching)
        ]
      ]
