-- ===== src/External/Database.antt =====
-- The SQL driver (modernc.org/sqlite behind database/sql) and the text of times (package time), as
-- internal/storage/sqlite.go uses them. A method of the store makes at most one SELECT of each table
-- and one statement that writes, all at the moment of its call.
use mathlib.Core.List.{Mem}
use open_kmip_server.Common.{ℕ, String, Bool, ◌≡◌, ◌↔◌, Option, none, some, List}
use open_kmip_server.Common.Result.{Result, ok}
use open_kmip_server.Common.Bytes.{Bytes, Slice, contents}

pub record Driver : Type 0 where
  -- why a SELECT, and a statement that writes, does not run; a statement that fails changes nothing
  pub query_error : ℕ → Option String
  pub exec_error : ℕ → Option String
  -- the errors of an INSERT that breaks a constraint of the table
  pub unique_error : String
  pub not_null_error : String
  -- how a `[]byte` is bound to a column, `none` as NULL, and how a BLOB is scanned
  pub bind_blob : Slice → Option Bytes
  pub scan_blob : Bytes → Slice
  -- t.Format(time.RFC3339Nano), time.Parse(time.RFC3339Nano, s)
  pub format_time : ℕ → String
  pub parse_time : String → Result ℕ
  -- the rows that rows.Next() delivers, by their primary keys
  pub row_order : ℕ → List String → List String
  -- the order of TEXT: the first stands before the second under DESC
  pub text_after : String → String → Bool

-- What the driver and the package document: bytes come back as they were bound, a time is read back
-- from its text, and a SELECT delivers the rows that match and nothing else.
pub record IsDriver (d : Driver) : Type 0 where
  pub bind_blob-some : (bs : Bytes) → d.bind_blob (some bs) ≡ some bs
  pub contents-scan_blob : (bs : Bytes) → contents (d.scan_blob bs) ≡ bs
  pub parse_time-format_time : (t : ℕ) → d.parse_time (d.format_time t) ≡ ok t
  pub mem-row_order : (i : ℕ) (ks : List String) (k : String) → Mem k (d.row_order i ks) ↔ Mem k ks

-- Every statement runs at the moment n.
pub record IsUp (d : Driver) (n : ℕ) : Type 0 where
  pub queries : d.query_error n ≡ none
  pub writes : d.exec_error n ≡ none

-- What the tables of the assets use beside the rest of the driver. An `Object` is a map[string]any.
pub record AssetFormats : Type 1 where
  pub Object : Type 0
  -- string(json.Marshal(m)), and what a nil map holds after json.Unmarshal, with their errors dropped
  pub marshal : Object → String
  pub unmarshal : String → Object
  -- datetime('now'), and time.Parse(time.RFC3339, s) with the zero time for an error
  pub datetime_now : ℕ → String
  pub parse_rfc3339 : String → ℕ
  -- the id that an AUTOINCREMENT column gives, and the order in which rows are delivered, by their ids
  pub row_id : ℕ → ℕ
  pub id_order : ℕ → List ℕ → List ℕ
  -- whether the connection that runs a statement has PRAGMA foreign_keys, and the error of a violation
  pub has_foreign_keys : ℕ → Bool
  pub foreign_key_error : String
