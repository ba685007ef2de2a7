-- ===== src/Kmip/Answer/Requests.antt =====
-- Every request is answered with one response message (HandleRequest of internal/kmip/handler.go).
use open_kmip_server.Common.{ℕ, String, ◌≡◌, refl, Option, none, some, List, [], ◌∷◌, length, arith}
use open_kmip_server.Common.Result.{Result, ok, err}
use open_kmip_server.External.Machine.{IsSound}
use open_kmip_server.External.Crypto.{IsAead}
use open_kmip_server.External.Libraries.{Libraries}
use open_kmip_server.Storage.Interface.{Storage}
use open_kmip_server.Kmip.Action.{Outcome, done, fail, panic}
use open_kmip_server.Kmip.Batch.{Server, Client, conclude, process_operation, process_batch_item}
use open_kmip_server.Kmip.Request.{
  collect, round, respond_batch, handle_decoded, process_items, answer, handle_request,
}
use open_kmip_server.Kmip.Answer.Handlers.{dispatch-Answers}

-- The outcome is a response.
abbrev pub IsDone : {A : Type 0} → Outcome A → Type 0
IsDone {A} o = (a : A) × (o ≡ done a)

module _ (l : Libraries) (storage : Storage) where
  open l use {Item, Buffer, crypto, machine}

  conclude-IsDone :
      (operation uid : String) (client : Client) (srv : Server storage.State) (o : Outcome Buffer)
      → IsDone o
      → IsDone (conclude l storage operation uid client srv o).0
  unfolding conclude
  conclude-IsDone operation uid client srv (done response) d = (response, refl)
  conclude-IsDone operation uid client srv (fail reason message) d = d
  conclude-IsDone operation uid client srv panic d = d

  -- The responses of a batch: one for each item.
  abbrev pub IsFull : List Item → Outcome (List Buffer) × Server storage.State → Type 0
  IsFull bis r =
      (responses : List Buffer) × (r.0 ≡ done responses) × (length responses ≡ length bis)

  collect-IsFull :
      (bi : Item) (bis : List Item) (response : Buffer)
      (r : Outcome (List Buffer) × Server storage.State)
      → IsFull bis r
      → IsFull (bi ∷ bis) (collect l storage response r)
  unfolding collect
  collect-IsFull bi bis response (done rest, v) (rs, e, n) = (response ∷ rest, refl, ground arith)
  collect-IsFull bi bis response (fail reason message, v) (rs, e, n) = absurd (ground arith)
  collect-IsFull bi bis response (panic, v) (rs, e, n) = absurd (ground arith)

  round-IsFull :
      (bi : Item) (bis : List Item) (r : Outcome Buffer × Server storage.State)
      (rest : Server storage.State → Outcome (List Buffer) × Server storage.State)
      → IsDone r.0
      → IsFull bis (rest r.1)
      → IsFull (bi ∷ bis) (round l storage r rest)
  unfolding round
  round-IsFull bi bis (done response, v) rest d h = collect-IsFull bi bis response (rest v) h
  round-IsFull bi bis (fail reason message, v) rest d h = absurd (ground arith)
  round-IsFull bi bis (panic, v) rest d h = absurd (ground arith)

  module _ (aead : IsAead crypto) (sound : IsSound machine) where
    process_operation-IsDone :
        (op_item : Option Item) (bi : Item) (client : Client) (srv : Server storage.State)
        → IsDone (process_operation l storage op_item bi client srv).0
    unfolding process_operation
    process_operation-IsDone none bi client srv = (_, refl)
    process_operation-IsDone (some op_item) bi client srv =
        conclude-IsDone _ _ client _ _
          ((dispatch-Answers l storage _ _ aead sound client.common_name).at srv.world)

    process_batch_item-IsDone :
        (bi : Item) (client : Client) (srv : Server storage.State)
        → IsDone (process_batch_item l storage bi client srv).0
    unfolding process_batch_item
    process_batch_item-IsDone bi client srv = process_operation-IsDone _ bi client srv

    -- On any store, with an AEAD that panics only on a nonce of the wrong length and randomness of the
    -- length asked for: the loop over the items of a batch ends with a list of
    -- responses, as many as there are items.
    pub process_items-IsFull :
        (bis : List Item) (client : Client) (srv : Server storage.State)
        → IsFull bis (process_items l storage bis client srv)
    unfolding process_items
    process_items-IsFull [] client srv = ([], refl, refl)
    process_items-IsFull (bi ∷ bis) client srv =
        round-IsFull bi bis _ _ (process_batch_item-IsDone bi client srv)
          (process_items-IsFull bis client _)

    respond_batch-IsDone :
        (bis : List Item) (r : Outcome (List Buffer) × Server storage.State)
        → IsFull bis r
        → IsDone (respond_batch l storage r).0
    unfolding respond_batch
    respond_batch-IsDone bis (done items, v) full = (_, refl)
    respond_batch-IsDone bis (fail reason message, v) full = absurd (ground arith)
    respond_batch-IsDone bis (panic, v) full = absurd (ground arith)

    answer-IsDone :
        (refused : Option (ℕ × String)) (msg : Item) (client : Client) (srv : Server storage.State)
        → IsDone (answer l storage refused msg client srv).0
    unfolding answer
    answer-IsDone (some (reason, message)) msg client srv = (_, refl)
    answer-IsDone none msg client srv = respond_batch-IsDone _ _ (process_items-IsFull _ client srv)

    handle_decoded-IsDone :
        (r : Result Item) (client : Client) (srv : Server storage.State)
        → IsDone (handle_decoded l storage r client srv).0
    unfolding handle_decoded
    handle_decoded-IsDone (err e) client srv = (_, refl)
    handle_decoded-IsDone (ok msg) client srv = answer-IsDone _ msg client srv

    -- On any store, with an AEAD that panics only on a nonce of the wrong length and randomness of the
    -- length asked for: HandleRequest ends with a response for any request; no handler panics.
    pub handle_request-IsDone :
        (request : Buffer) (client : Client) (srv : Server storage.State)
        → IsDone (handle_request l storage request client srv).0
    unfolding handle_request
    handle_request-IsDone request client srv = handle_decoded-IsDone _ client srv
