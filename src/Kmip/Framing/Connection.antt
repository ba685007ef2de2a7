-- ===== src/Kmip/Framing/Connection.antt =====
-- internal/kmip/server.go: a connection of a client, with HandleRequest behind its loop and its entry
-- in the tracker.
use open_kmip_server.Common.{
  ℕ, suc, Bool, true, ◌≡◌, refl, ap, Option, none, some, List, [], ◌∷◌, arith, length,
}
use open_kmip_server.Common.Bytes.{Bytes}
use open_kmip_server.External.Crypto.{IsAead}
use open_kmip_server.External.Machine.{IsSound}
use open_kmip_server.External.Libraries.{Libraries}
use open_kmip_server.Storage.Interface.{Storage}
use open_kmip_server.Kmip.Action.{Outcome, done, fail, panic}
use open_kmip_server.Kmip.Batch.{Server, Client}
use open_kmip_server.Kmip.Connections
use open_kmip_server.Kmip.Connections.{ConnectionTracker}
use open_kmip_server.Kmip.Request.{handle_request}
use open_kmip_server.Kmip.Answer.Requests.{IsDone, handle_request-IsDone}
use open_kmip_server.Kmip.Framing.{read_message, reply_with, handle_connection}
use open_kmip_server.Kmip.Framing.Messages.{
  AllMessages, stream, answer_all, handle_connection-messages,
}

-- s.tracker, where it is not nil.
tracked :
    Option ConnectionTracker → (ConnectionTracker → ConnectionTracker) → Option ConnectionTracker
tracked none change = none
tracked (some tracker) change = some (change tracker)

-- `of_bytes` and `to_bytes` take bytes for a message of the TTLV library and back. A Server runs on the
-- memory of one program, so the tracker is that of the handler.
module _ (l : Libraries) (storage : Storage) (of_bytes : Bytes → l.Buffer)
    (to_bytes : l.Buffer → Bytes) where
  answer_bytes : Outcome l.Buffer × Server storage.State → Option Bytes × Server storage.State
  answer_bytes (done response, srv) = (some (to_bytes response), srv)
  answer_bytes (fail reason message, srv) = (none, srv)
  answer_bytes (panic, srv) = (none, srv)

  -- s.handler.HandleRequest(request, clientCN, remoteAddr, connID)
  unfoldable pub handle_bytes :
      Client → Bytes → Server storage.State → Option Bytes × Server storage.State
  unfolding answer_bytes
  handle_bytes client request srv =
      answer_bytes (handle_request l storage (of_bytes request) client srv)

  unfoldable pub connect : Client → Server storage.State → Server storage.State
  unfolding tracked
  connect client srv = record srv {
    world = record (srv.world) { moment = suc srv.world.moment };
    tracker = tracked srv.tracker (λ ct.
        Connections.add (l.machine.now srv.world.moment) ct client.conn_id client.common_name
          client.remote_addr);
  }

  unfoldable pub disconnect : Client → Server storage.State → Server storage.State
  unfolding tracked
  disconnect client srv = record srv {
    tracker = tracked srv.tracker (λ ct. Connections.remove ct client.conn_id);
  }

  -- A connection after its handshake: what is written, and the server afterwards.
  unfoldable pub serve_connection :
      (ℕ → Bool) → Client → Bytes → Server storage.State → List Bytes × Server storage.State
  unfolding connect disconnect
  serve_connection written client incoming srv =
      let ended =
        handle_connection (handle_bytes client) written (length incoming) 0 incoming
          (connect client srv) in
      (ended.0, disconnect client ended.1)

  module _ (aead : IsAead l.crypto) (sound : IsSound l.machine) (client : Client)
      (written : ℕ → Bool) (reaches : (k : ℕ) → written k ≡ true) where
    answered :
        (o : Outcome l.Buffer × Server storage.State)
        → IsDone o.0
        → (response : Bytes) × (answer_bytes o ≡ (some response, o.1))
    unfolding answer_bytes
    answered (done response, srv) d = (to_bytes response, refl)
    answered (fail reason message, srv) d = absurd (ground (arith, d))
    answered (panic, srv) d = absurd (ground (arith, d))

    length-answer_all :
        (k : ℕ) (requests : List Bytes) (srv : Server storage.State)
        → length (answer_all (handle_bytes client) written k requests srv).0 ≡ length requests
    unfolding answer_all reply_with handle_bytes
    length-answer_all k [] srv = refl
    length-answer_all k (request ∷ requests) srv =
        let (response, e) =
          answered (handle_request l storage (of_bytes request) client srv)
            (handle_request-IsDone l storage aead sound (of_bytes request) client srv) in
        rw (answer_all, handle_bytes, e, reaches k) (ap suc (length-answer_all (suc k) requests _))

    -- With libraries that keep their laws, on any store, where every write reaches the client: a
    -- connection on which well-formed messages come one after another, followed by bytes that are no
    -- whole message, gets exactly one answer to each message.
    pub length-serve_connection :
        (requests : List Bytes) (tail : Bytes) (srv : Server storage.State)
        → AllMessages requests
        → read_message tail ≡ none
        → length (serve_connection written client (stream requests tail) srv).0 ≡ length requests
    unfolding serve_connection
    length-serve_connection requests tail srv all ends =
        rw
          (handle_connection-messages (handle_bytes client) written requests tail 0
            (length (stream requests tail)) (connect client srv) all ends (omega arith))
          (length-answer_all 0 requests (connect client srv))
