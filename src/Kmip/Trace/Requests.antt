-- ===== src/Kmip/Trace/Requests.antt =====
-- A whole request leaves a trace too (HandleRequest and processBatchItem of internal/kmip/handler.go).
use open_kmip_server.Common.{ℕ, String, Option, none, some, List, [], ◌∷◌, inl, inr, Option-cases}
use open_kmip_server.Common.Result.{Result, ok, err}
use open_kmip_server.External.Libraries.{Libraries}
use open_kmip_server.Storage.Memory.{MemoryStore, memory_storage}
use open_kmip_server.Kmip.Action.{Outcome, done, fail, panic}
use open_kmip_server.Kmip.Batch.{
  Server, Client, Report, conclude, process_operation, process_batch_item, log_operation,
  count_operation,
}
use open_kmip_server.Kmip.Request.{
  collect, round, respond_batch, handle_decoded, process_items, answer, handle_request,
}
use open_kmip_server.Kmip.Trace.{Trace, here, wait, Trace-trans}
use open_kmip_server.Kmip.Trace.Handlers.{dispatch-Steps}

module _ (l : Libraries) where
  open l use {
    Item, Buffer, machine, find_child, find_children, int_value, tag_operation, tag_request_payload,
  }

  -- From one state of the server to another.
  abbrev pub Reaches : Server MemoryStore → Server MemoryStore → Type 0
  Reaches srv srv' =
      Trace machine srv.world.moment srv.world.store srv'.world.moment srv'.world.store

  log_operation-Reaches :
      (source operation : String) (report : Report) (client : Client) (srv : Server MemoryStore)
      → Reaches srv (log_operation l (memory_storage machine) source operation report client srv)
  unfolding log_operation
  log_operation-Reaches source operation report client srv = elim (Option-cases srv.audit) [
    | inl off ↦ rw off here
    | inr (a, on) ↦ rw on (wait here)
  ]

  count_operation-Reaches :
      (operation : String) (client : Client) (srv : Server MemoryStore)
      → Reaches srv (count_operation l (memory_storage machine) operation client srv)
  unfolding count_operation
  count_operation-Reaches operation client srv = elim (Option-cases srv.tracker) [
    | inl off ↦ rw off here
    | inr (ct, on) ↦ rw on (wait here)
  ]

  conclude-Reaches :
      (operation uid : String) (client : Client) (srv : Server MemoryStore) (o : Outcome Buffer)
      → Reaches srv (conclude l (memory_storage machine) operation uid client srv o).1
  unfolding conclude
  conclude-Reaches operation uid client srv (done response) =
      Trace-trans (log_operation-Reaches "kmip" operation _ client srv)
        (count_operation-Reaches operation client _)
  conclude-Reaches operation uid client srv (fail reason message) = here
  conclude-Reaches operation uid client srv panic = here

  process_operation-Reaches :
      (op_item : Option Item) (bi : Item) (client : Client) (srv : Server MemoryStore)
      → Reaches srv (process_operation l (memory_storage machine) op_item bi client srv).1
  unfolding process_operation
  process_operation-Reaches none bi client srv = here
  process_operation-Reaches (some op_item) bi client srv =
      Trace-trans
        ((dispatch-Steps l (int_value op_item) (find_child bi tag_request_payload)
            client.common_name).at
          srv.world)
        (conclude-Reaches _ _ client _ _)

  pub process_batch_item-Reaches :
      (bi : Item) (client : Client) (srv : Server MemoryStore)
      → Reaches srv (process_batch_item l (memory_storage machine) bi client srv).1
  unfolding process_batch_item
  process_batch_item-Reaches bi client srv = process_operation-Reaches _ bi client srv

  collect-Reaches :
      (srv : Server MemoryStore) (response : Buffer)
      (r : Outcome (List Buffer) × Server MemoryStore)
      → Reaches srv r.1
      → Reaches srv (collect l (memory_storage machine) response r).1
  unfolding collect
  collect-Reaches srv response (done rest, v) h = h
  collect-Reaches srv response (fail reason message, v) h = h
  collect-Reaches srv response (panic, v) h = h

  round-Reaches :
      (srv : Server MemoryStore) (r : Outcome Buffer × Server MemoryStore)
      (rest : Server MemoryStore → Outcome (List Buffer) × Server MemoryStore)
      → Reaches srv r.1
      → Reaches r.1 (rest r.1).1
      → Reaches srv (round l (memory_storage machine) r rest).1
  unfolding round
  round-Reaches srv (done response, v) rest h k =
      collect-Reaches srv response (rest v) (Trace-trans h k)
  round-Reaches srv (fail reason message, v) rest h k = h
  round-Reaches srv (panic, v) rest h k = h

  process_items-Reaches :
      (bis : List Item) (client : Client) (srv : Server MemoryStore)
      → Reaches srv (process_items l (memory_storage machine) bis client srv).1
  unfolding process_items
  process_items-Reaches [] client srv = here
  process_items-Reaches (bi ∷ bis) client srv =
      round-Reaches srv _ _ (process_batch_item-Reaches bi client srv)
        (process_items-Reaches bis client _)

  respond_batch-Reaches :
      (srv : Server MemoryStore) (r : Outcome (List Buffer) × Server MemoryStore)
      → Reaches srv r.1
      → Reaches srv (respond_batch l (memory_storage machine) r).1
  unfolding respond_batch
  respond_batch-Reaches srv (done items, v) h = h
  respond_batch-Reaches srv (fail reason message, v) h = h
  respond_batch-Reaches srv (panic, v) h = h

  answer-Reaches :
      (refused : Option (ℕ × String)) (msg : Item) (client : Client) (srv : Server MemoryStore)
      → Reaches srv (answer l (memory_storage machine) refused msg client srv).1
  unfolding answer
  answer-Reaches (some (reason, message)) msg client srv = here
  answer-Reaches none msg client srv =
      respond_batch-Reaches srv _ (process_items-Reaches _ client srv)

  handle_decoded-Reaches :
      (r : Result Item) (client : Client) (srv : Server MemoryStore)
      → Reaches srv (handle_decoded l (memory_storage machine) r client srv).1
  unfolding handle_decoded
  handle_decoded-Reaches (err e) client srv = log_operation-Reaches "kmip" "Decode" _ client srv
  handle_decoded-Reaches (ok msg) client srv = answer-Reaches _ msg client srv

  -- A request, whatever its bytes, acts on the memory store by legal calls at successive moments.
  pub handle_request-Reaches :
      (request : Buffer) (client : Client) (srv : Server MemoryStore)
      → Reaches srv (handle_request l (memory_storage machine) request client srv).1
  unfolding handle_request
  handle_request-Reaches request client srv = handle_decoded-Reaches _ client srv
