-- ===== src/Audit.antt =====
-- internal/audit/audit.go: the logger. Entries wait in a channel of 256 places, from which one
-- goroutine writes them to the table.
pub mod Queue
pub mod Selection
pub mod Pages
use open_kmip_server.Common.{
  ℕ, zero, suc, String, Bool, true, false, ◌&&◌, ◌||◌, Option, none, some, List, [], ◌∷◌, ◌++◌, ltb,
  length, ◌==◌, str_eq, if◌then◌else◌,
}
use open_kmip_server.Common.Slices.{take, drop}

-- `Entry` without the row id, which the table gives. A zero timestamp is 0.
pub record Entry : Type 0 where
  pub timestamp : ℕ
  pub source : String
  pub operation : String
  pub client_id : String
  pub object_uid : String
  pub object_name : String
  pub status : String
  pub message : String
  pub remote_addr : String

-- The channel, oldest entry first, and the rows of audit_log, oldest first.
pub record Logger : Type 0 where
  pub channel : List Entry
  pub rows : List Entry

abbrev pub channel_size : ℕ
channel_size = 256

-- NewLogger on a table with some rows: nil where the statement that creates the table fails.
unfoldable pub new_logger : Option String → List Entry → Option Logger
new_logger (some e) rows = none
new_logger none rows = some (record { channel = []; rows = rows })

-- if entry.Timestamp.IsZero() { entry.Timestamp = time.Now() }
unfoldable pub stamp : ℕ → Entry → Entry
stamp now entry = if entry.timestamp == 0 then record entry { timestamp = now } else entry

-- Log: the entry is dropped where the channel is full. `now` is time.Now().
unfoldable pub log : ℕ → Logger → Entry → Logger
unfolding stamp
log now a entry =
    if ltb (length a.channel) channel_size
    then record a { channel = a.channel ++ stamp now entry ∷ [] }
    else a

drain : Bool → List Entry → Logger → Logger
drain accepted [] a = a
drain true (entry ∷ rest) a = record { channel = rest; rows = a.rows ++ entry ∷ [] }
drain false (entry ∷ rest) a = record a { channel = rest }

-- One round of the writer: it takes the oldest entry, if there is one, and inserts its row, unless the
-- database refuses the insert.
unfoldable pub write_round : Bool → Logger → Logger
unfolding drain
write_round accepted a = drain accepted a.channel a

-- The rows with their ids, newest first: ORDER BY id DESC.
unfoldable pub newest_first : ℕ → List Entry → List (ℕ × Entry) → List (ℕ × Entry)
newest_first id [] newer = newer
newest_first id (entry ∷ rest) newer = newest_first (suc id) rest ((id, entry) ∷ newer)

-- WHERE 1=1, AND operation = ? where one is asked for, AND status = ? where one is asked for
abbrev pub is_wanted : String → String → Entry → Bool
is_wanted operation status entry =
    (str_eq operation "" || str_eq entry.operation operation)
    && (str_eq status "" || str_eq entry.status status)

unfoldable pub select_wanted : String → String → List (ℕ × Entry) → List (ℕ × Entry)
select_wanted operation status [] = []
select_wanted operation status (row ∷ rows) =
    let rest = select_wanted operation status rows in
    if is_wanted operation status row.1 then row ∷ rest else rest

-- All rows that match, newest first. The ids of the table begin with 1.
unfoldable pub matching : Logger → String → String → List (ℕ × Entry)
unfolding newest_first select_wanted
matching a operation status = select_wanted operation status (newest_first 1 a.rows [])

-- Query: the page, LIMIT and OFFSET of the rows, with the ids of its rows, and the number of rows that
-- match. An argument tells for each of its two statements whether it runs.
unfoldable pub query : Bool → Bool → Logger → ℕ → ℕ → String → String → List (ℕ × Entry) × ℕ
unfolding matching
query counts selects a limit offset operation status =
    if selects
    then (
      take limit (drop offset (matching a operation status)),
      if counts then length (matching a operation status) else 0,
    )
    else ([], 0)
