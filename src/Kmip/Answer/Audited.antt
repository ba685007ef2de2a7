-- ===== src/Kmip/Answer/Audited.antt =====
-- The audit entry of a batch item (processBatchItem of internal/kmip/handler.go).
use open_kmip_server.Common.{
  String, ◌≡◌, ◌⊎◌, refl, true, false, Option, some, [], ◌∷◌, ◌++◌, inl, inr, Option-cases,
  Bool-cases, arith, ltb, length, ◌==◌,
}
use open_kmip_server.External.Machine.{IsSound}
use open_kmip_server.External.Crypto.{IsAead}
use open_kmip_server.External.Libraries.{Libraries}
use open_kmip_server.Storage.Interface.{Storage}
use open_kmip_server.Audit
use open_kmip_server.Audit.{Logger, Entry, channel_size, stamp}
use open_kmip_server.Kmip.Action.{Outcome, done, fail, panic}
use open_kmip_server.Kmip.Codes.{operation_name}
use open_kmip_server.Kmip.Batch.{
  Server, Client, conclude, process_operation, process_batch_item, log_operation, count_operation,
  Report, report_of,
}
use open_kmip_server.Kmip.Answer.Requests.{IsDone}
use open_kmip_server.Kmip.Answer.Handlers.{dispatch-Answers}

module _ (l : Libraries) (storage : Storage) where
  open l use {Item, Buffer, find_child, int_value, tag_operation}

  -- What becomes of an entry: it stands last in the channel, or the channel is full and the entry is
  -- dropped.
  abbrev pub IsQueued : Entry → Logger → Option Logger → Type 0
  IsQueued entry a b =
      ((ltb (length a.channel) channel_size ≡ true)
        × (b ≡ some (record a { channel = a.channel ++ entry ∷ [] })))
      ⊎ ((ltb (length a.channel) channel_size ≡ false) × (b ≡ some a))

  -- From the log a, one entry about the operation was logged, and the log is now b.
  abbrev pub IsLogged : String → Client → Logger → Option Logger → Type 0
  IsLogged operation client a b =
      (entry : Entry) × IsQueued entry a b
      × (entry.source ≡ "kmip")
      × (entry.operation ≡ operation)
      × (entry.client_id ≡ client.common_name)
      × (entry.remote_addr ≡ client.remote_addr)

  stamp-now : (entry : Entry) → stamp entry.timestamp entry ≡ entry
  unfolding stamp
  stamp-now entry = elim (Bool-cases (entry.timestamp == 0)) [
    | inl zero_time ↦ rw zero_time refl
    | inr set ↦ rw set refl
  ]

  log-IsQueued :
      (entry : Entry) (a : Logger) → IsQueued entry a (some (Audit.log entry.timestamp a entry))
  unfolding Audit.log
  log-IsQueued entry a = elim (Bool-cases (ltb (length a.channel) channel_size)) [
    | inl room ↦ inl (room, rw (room, stamp-now entry) refl)
    | inr full ↦ inr (full, rw full refl)
  ]

  count_operation-audit :
      (operation : String) (client : Client) (srv : Server storage.State)
      → (count_operation l storage operation client srv).audit ≡ srv.audit
  unfolding count_operation
  count_operation-audit operation client srv = elim (Option-cases srv.tracker) [
    | inl off ↦ rw off refl
    | inr (ct, on) ↦ rw on refl
  ]

  log_operation-IsLogged :
      (operation : String) (report : Report) (client : Client) (srv : Server storage.State)
      (a : Logger)
      → srv.audit ≡ some a
      → IsLogged operation client a
          (log_operation l storage "kmip" operation report client srv).audit
  unfolding log_operation
  log_operation-IsLogged operation report client srv a on =
      let entry : Entry = record {
        timestamp = l.machine.now srv.world.moment;
        source = "kmip";
        operation = operation;
        client_id = client.common_name;
        object_uid = report.object_uid;
        object_name = "";
        status = report.status;
        message = report.message;
        remote_addr = client.remote_addr;
      } in
      (entry, rw (log_operation, on) (log-IsQueued entry a), refl, refl, refl, refl)

  conclude-IsLogged :
      (operation uid : String) (client : Client) (srv : Server storage.State) (o : Outcome Buffer)
      (a : Logger)
      → IsDone o
      → srv.audit ≡ some a
      → IsLogged operation client a (conclude l storage operation uid client srv o).1.audit
  unfolding conclude
  conclude-IsLogged operation uid client srv (done response) a d on =
      rw count_operation-audit
        (log_operation-IsLogged operation (report_of l storage uid response) client srv a on)
  conclude-IsLogged operation uid client srv (fail reason message) a d on = absurd (ground arith)
  conclude-IsLogged operation uid client srv panic a d on = absurd (ground arith)

  -- On any store, with an AEAD and randomness as documented, and the audit log switched on: a batch item
  -- that has an Operation leaves the log with one more entry, the last one of its channel, of source kmip
  -- and with the name of the operation, the client and its address; where the channel is full, the entry
  -- is dropped and the log is as it was.
  pub process_batch_item-IsLogged :
      IsAead l.crypto
      → IsSound l.machine
      → (bi op_item : Item) (client : Client) (srv : Server storage.State) (a : Logger)
      → find_child bi tag_operation ≡ some op_item
      → srv.audit ≡ some a
      → IsLogged
          (operation_name l.lib (int_value op_item))
          client
          a
          (process_batch_item l storage bi client srv).1.audit
  unfolding process_batch_item process_operation
  process_batch_item-IsLogged aead sound bi op_item client srv a has on = rw has (
      conclude-IsLogged _ _ client _ _ a
        ((dispatch-Answers l storage _ _ aead sound client.common_name).at srv.world) on)
