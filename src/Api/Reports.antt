-- ===== src/Api/Reports.antt =====
-- internal/api/api.go: the handlers that report on the server.
use Prim.Native.Nat.{◌-◌, ◌/◌}
use open_kmip_server.Common.{
  ℕ, suc, String, Bool, Option, none, some, List, [], ◌∷◌, length, map, str_eq, ltb, ◌==◌,
  if◌then◌else◌,
}
use open_kmip_server.Common.Int.{ℤ, pos, pos_part, leb_ℤ}
use open_kmip_server.Common.Text.{cat, dec}
use open_kmip_server.External.Libraries.{Libraries}
use open_kmip_server.External.Formats.{Formats}
use open_kmip_server.Audit
use open_kmip_server.Audit.{Entry, Logger}
use open_kmip_server.Storage.Types.{
  KeyRecord, KeyState, pre_active, active, deactivated, compromised, is_state,
}
use open_kmip_server.Storage.Interface.{Storage}
use open_kmip_server.Kmip.Action.{Action, done, ◌>>=◌, pure, draw}
use open_kmip_server.Kmip.Connections
use open_kmip_server.Kmip.Connections.{ConnectionInfo, ConnectionTracker}
use open_kmip_server.Web.Http.{Json, words, number, array, json_map, items_of, slice_json}
use open_kmip_server.Api.{Backend, Handler, status_ok, stored}

-- The parameters limit, offset, operation and status of the URL's query, empty where they are absent.
pub record AuditQuery : Type 0 where
  pub limit : String
  pub offset : String
  pub operation : String
  pub status : String

-- How many records have the state.
unfoldable pub count_state : KeyState → List KeyRecord → ℕ
count_state wanted [] = 0
count_state wanted (rec ∷ records) =
    let rest = count_state wanted records in if is_state rec.state wanted then suc rest else rest

-- counts[name]++ makes an entry for a state that some record has, and no other.
unfoldable pub count_field : String → ℕ → List (String × Json) → List (String × Json)
count_field name n rest = if n == 0 then rest else (name, number (pos n)) ∷ rest

-- if n, err := strconv.Atoi(v); err == nil && n >= least
abbrev at_least : ℤ → Option ℤ → ℕ → ℕ
at_least least none otherwise = otherwise
at_least least (some n) otherwise = if leb_ℤ least n then pos_part n else otherwise

-- The page that a request of the audit log gets: limit, offset.
unfoldable pub audit_page : (String → Option ℤ) → AuditQuery → ℕ × ℕ
audit_page atoi q =
    let limit = if str_eq q.limit "" then 50 else at_least (pos 1) (atoi q.limit) 50 in
    let offset = if str_eq q.offset "" then 0 else at_least (pos 0) (atoi q.offset) 0 in
    (if ltb 1000 limit then 1000 else limit, offset)

abbrev count_connections : Option ConnectionTracker → ℕ
count_connections none = 0
count_connections (some tracker) = Connections.count tracker

module _ (l : Libraries) (formats : Formats l.crypto) (storage : Storage) where
  entry_json : ℕ × Entry → Json
  entry_json (id, e) = json_map (
      ("id", number (pos id))
      ∷ ("timestamp", words (formats.json_time e.timestamp))
      ∷ ("source", words e.source)
      ∷ ("operation", words e.operation)
      ∷ ("client_id", words e.client_id)
      ∷ ("object_uid", words e.object_uid)
      ∷ ("object_name", words e.object_name)
      ∷ ("status", words e.status)
      ∷ ("message", words e.message)
      ∷ ("remote_addr", words e.remote_addr)
      ∷ [])

  -- The arguments after the query tell whether the two statements of audit.Query run.
  audit_answer : AuditQuery → Bool → Bool → Option Logger → Json
  unfolding entry_json
  audit_answer q counts selects none =
      json_map (("entries", array (items_of [])) ∷ ("total", number (pos 0)) ∷ [])
  audit_answer q counts selects (some a) =
      let (limit, offset) = audit_page formats.atoi q in
      let (entries, total) = Audit.query counts selects a limit offset q.operation q.status in
      json_map (
        ("entries", slice_json (map entry_json entries))
        ∷ ("total", number (pos total))
        ∷ ("limit", number (pos limit))
        ∷ ("offset", number (pos offset))
        ∷ [])

  unfoldable pub handle_audit_log : AuditQuery → Bool → Bool → Handler storage.State
  unfolding audit_answer
  handle_audit_log q counts selects w =
      (done (status_ok, audit_answer q counts selects w.store.audit), w)

  connection_json : ConnectionInfo → Json
  connection_json c = json_map (
      ("id", words c.id)
      ∷ ("client_cn", words c.client_cn)
      ∷ ("remote_addr", words c.remote_addr)
      ∷ ("connected_at", words (formats.json_time c.connected_at))
      ∷ ("operations", number c.operations)
      ∷ ("last_op", words c.last_op)
      ∷ ("last_op_at", words (formats.json_time c.last_op_at))
      ∷ [])

  connections_at : ℕ → Option ConnectionTracker → List ConnectionInfo
  connections_at n none = []
  connections_at n (some tracker) = Connections.list l.machine n tracker

  unfoldable pub handle_connections : Option ConnectionTracker → Handler storage.State
  unfolding connection_json connections_at
  handle_connections tracker = do
    conns ← draw (λ n. connections_at n tracker)
    pure (
      status_ok,
      json_map (
          ("connections", array (items_of (map connection_json conns)))
          ∷ ("total", number (pos (length conns)))
          ∷ []),
    )

  -- `start` is the time at which the server started, in nanoseconds.
  unfoldable pub handle_status : ℕ → Option ConnectionTracker → Handler storage.State
  unfolding count_state count_field
  handle_status start tracker = do
    records ← stored storage.list
    now ← draw l.machine.now
    let counts =
        ("total", number (pos (length records)))
        ∷ count_field "pre_active" (count_state pre_active records) (
            count_field "active" (count_state active records) (
              count_field "deactivated" (count_state deactivated records)
                (count_field "compromised" (count_state compromised records) [])))
    pure (
      status_ok,
      json_map (
          ("status", words "ok")
          ∷ ("version", words "0.1.0")
          ∷ ("connections", number (pos (count_connections tracker)))
          ∷ ("kmip", json_map (("protocol", words "1.4") ∷ ("port", number (pos 5696)) ∷ []))
          ∷ ("uptime_seconds", number (pos ((now - start) / 1000000000)))
          ∷ ("keys", json_map counts)
          ∷ []),
    )

  unfoldable pub handle_healthz : Handler storage.State
  handle_healthz w = (done (status_ok, json_map (("status", words "ok") ∷ [])), w)

  -- # HELP, # TYPE and the value of one gauge
  gauge : String → String → ℕ → String
  gauge name help n =
      cat (cat "# HELP " (cat name (cat " " (cat help "\n"))))
        (cat (cat "# TYPE " (cat name " gauge\n")) (cat name (cat " " (cat (dec (pos n)) "\n"))))

  -- The text of the metrics.
  unfoldable pub handle_metrics : Option ConnectionTracker → Action (Backend storage.State) String
  unfolding count_state gauge
  handle_metrics tracker = do
    records ← stored storage.list
    pure (
        cat (gauge "open_kmip_keys_total" "Total managed keys" (length records)) (
          cat (gauge "open_kmip_keys_active" "Active keys" (count_state active records)) (
            cat
              (gauge "open_kmip_keys_pre_active" "Pre-active keys" (count_state pre_active records))
              (cat (gauge "open_kmip_keys_revoked" "Revoked keys" (count_state compromised records))
                (gauge "open_kmip_connections_active" "Active KMIP connections"
                  (count_connections tracker))))))
