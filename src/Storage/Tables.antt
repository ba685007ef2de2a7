-- ===== src/Storage/Tables.antt =====
-- internal/storage/sqlite.go: the tables of the database, and its SQL statements written out on them.
use open_kmip_server.Common.{ℕ, String, Bool, not, none, some, List, [], ◌∷◌, ◌==◌, if◌then◌else◌}
use open_kmip_server.Common.Int.{ℤ}
use open_kmip_server.Common.Bytes.{Bytes}
use open_kmip_server.Common.Result.{Result, ok, err}
use open_kmip_server.Common.Dict
use open_kmip_server.Common.Dict.{Dict}
use open_kmip_server.External.Database.{Driver}
use open_kmip_server.Storage.Types.{
  KeyRecord, KeyState, unset, pre_active, active, deactivated, compromised, destroyed,
  destroyed_compromised, archived, state_code,
}
use open_kmip_server.Storage.Memory.{done}

-- A row of the table `keys`. `state` holds int(rec.State), `created_at` a text.
pub record KeyRow : Type 0 where
  pub uid : String
  pub name : String
  pub object_type : ℤ
  pub algorithm : ℤ
  pub bit_length : ℤ
  pub material : Bytes
  pub usage_mask : ℤ
  pub state : ℕ
  pub revocation_reason : ℤ
  pub owner : String
  pub created_at : String
  pub version : ℤ

-- The tables `keys`, by its primary key, and `key_attributes`, by the two columns of its primary key.
pub record Database : Type 0 where
  pub keys : Dict KeyRow
  pub key_attributes : Dict (Dict String)

-- The tables of a new database.
unfoldable pub create_tables : Database
create_tables = record { keys = Dict.empty; key_attributes = Dict.empty }

-- KeyState(stateInt). No row has a code that the program has no state for.
abbrev pub state_of : ℕ → KeyState
state_of code =
    if code == 1
    then pre_active
    else if code == 2
    then active
    else if code == 3
    then deactivated
    else if code == 4
    then compromised
    else if code == 5
    then destroyed
    else if code == 6
    then destroyed_compromised
    else if code == 100
    then archived
    else unset

-- WHERE state != ?, with int(StateDestroyed)
abbrev pub not_destroyed : KeyRow → Bool
not_destroyed row = not (row.state == state_code destroyed)

-- WHERE state = ?, with int(StateArchived)
abbrev pub is_archived : KeyRow → Bool
is_archived row = row.state == state_code archived

-- What an UPDATE … WHERE uid = ? AND … changes: the rows that it touches, and the table.
unfoldable pub update_row :
    Dict KeyRow → String → (KeyRow → Bool) → (KeyRow → KeyRow) → ℕ × Dict KeyRow
update_row keys uid matches change = elim (Dict.get keys uid) [
  | none ↦ (0, keys)
  | some row ↦ if matches row then (1, Dict.put keys uid (change row)) else (0, keys)
]

-- The rows of a SELECT … WHERE …, in the order in which they are delivered.
unfoldable pub selected : (KeyRow → Bool) → Dict KeyRow → List String → List KeyRow
selected matches keys [] = []
selected matches keys (k ∷ ks) =
    let rest = selected matches keys ks in
    elim (Dict.get keys k) [ none ↦ rest | some row ↦ if matches row then row ∷ rest else rest ]

-- `time.Parse`, whose error is dropped: the zero time is 0.
time_or_zero : Result ℕ → ℕ
time_or_zero (ok t) = t
time_or_zero (err e) = 0

module _ (driver : Driver) where
  -- row.Scan into a record
  unfoldable pub scan : KeyRow → KeyRecord
  unfolding time_or_zero
  scan row = record {
    uid = row.uid;
    name = row.name;
    object_type = row.object_type;
    algorithm = row.algorithm;
    bit_length = row.bit_length;
    material = driver.scan_blob row.material;
    usage_mask = row.usage_mask;
    state = state_of row.state;
    revocation_reason = row.revocation_reason;
    owner = row.owner;
    created_at = time_or_zero (driver.parse_time row.created_at);
    version = row.version;
  }

  unfoldable pub row_with : KeyRecord → Bytes → KeyRow
  row_with rec material = record {
    uid = rec.uid;
    name = rec.name;
    object_type = rec.object_type;
    algorithm = rec.algorithm;
    bit_length = rec.bit_length;
    material = material;
    usage_mask = rec.usage_mask;
    state = state_code rec.state;
    revocation_reason = rec.revocation_reason;
    owner = rec.owner;
    created_at = driver.format_time rec.created_at;
    version = rec.version;
  }

  -- INSERT INTO keys: uid is the primary key, and material must not be NULL.
  unfoldable pub insert_key : ℕ → Database → KeyRecord → Result (Unit {0}) × Database
  unfolding row_with
  insert_key n db rec = elim (driver.exec_error n) [
    | some e ↦ (err e, db)
    | none ↦ elim (driver.bind_blob rec.material) [
      | none ↦ (err driver.not_null_error, db)
      | some material ↦ elim (Dict.get db.keys rec.uid) [
        | some row ↦ (err driver.unique_error, db)
        | none ↦ (done, record db { keys = Dict.put db.keys rec.uid (row_with rec material) })
      ]
    ]
  ]

  -- UPDATE keys … : the number of rows affected, or the driver's error.
  unfoldable pub update_keys :
      ℕ → Database → String → (KeyRow → Bool) → (KeyRow → KeyRow) → Result ℕ × Database
  unfolding update_row
  update_keys n db uid matches change = elim (driver.exec_error n) [
    | some e ↦ (err e, db)
    | none ↦
        let updated = update_row db.keys uid matches change in
        (ok updated.0, record db { keys = updated.1 })
  ]

  -- ORDER BY created_at DESC, on the texts
  insert_row : KeyRow → List KeyRow → List KeyRow
  insert_row row [] = row ∷ []
  insert_row row (next ∷ rows) =
      let below = insert_row row rows in
      if driver.text_after next.created_at row.created_at then next ∷ below else row ∷ next ∷ rows

  unfoldable pub order_rows : List KeyRow → List KeyRow
  unfolding insert_row
  order_rows [] = []
  order_rows (row ∷ rows) = insert_row row (order_rows rows)
