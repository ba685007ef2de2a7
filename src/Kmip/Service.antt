-- ===== src/Kmip/Service.antt =====
-- internal/kmip/handler.go: sequences of requests to HandleRequest, on the memory store.
use open_kmip_server.Common.{String, List, [], ◌∷◌}
use open_kmip_server.Common.Dict
use open_kmip_server.External.Machine.{IsSound}
use open_kmip_server.External.Libraries.{Libraries}
use open_kmip_server.Storage.Memory.{MemoryStore, memory_storage}
use open_kmip_server.Storage.Memory.History.{Evolves}
use open_kmip_server.Kmip.Batch.{Server, Client}
use open_kmip_server.Kmip.Request.{handle_request}
use open_kmip_server.Kmip.Trace.{here, Trace-trans}
use open_kmip_server.Kmip.Trace.Requests.{Reaches, handle_request-Reaches}
use open_kmip_server.Kmip.Trace.Safety.{
  IsSafe, Advances, Trace-IsSafe, Trace-Advances, Trace-Evolves,
}

module _ (l : Libraries) where
  open l use {Buffer, machine}

  -- The requests are answered one after another.
  unfoldable pub serve : List (Buffer × Client) → Server MemoryStore → Server MemoryStore
  serve [] srv = srv
  serve ((request, client) ∷ rest) srv =
      serve rest (handle_request l (memory_storage machine) request client srv).1

  serve-Reaches :
      (requests : List (Buffer × Client)) (srv : Server MemoryStore)
      → Reaches l srv (serve requests srv)
  unfolding serve
  serve-Reaches [] srv = here
  serve-Reaches ((request, client) ∷ rest) srv =
      Trace-trans (handle_request-Reaches l request client srv) (serve-Reaches rest _)

  module _ (sound : IsSound machine) (requests : List (Buffer × Client)) (srv : Server MemoryStore)
      (safe : IsSafe machine srv.world.moment srv.world.store) where
    -- With sound sources of randomness and from a store that is safe, any sequence of requests, from any
    -- clients and whatever their bytes, leaves a safe store: every object is filed under its own
    -- identifier, which was issued before; no object is unset, deactivated, destroyed-compromised or
    -- archived; and a destroyed object has no material.
    pub serve-IsSafe :
        IsSafe machine (serve requests srv).world.moment (serve requests srv).world.store
    serve-IsSafe = Trace-IsSafe machine sound safe (serve-Reaches requests srv)

    -- With sound sources of randomness, from a store that is safe, after any sequence of requests, and
    -- for every identifier: an object that is in the store before the
    -- requests is there after them, with the same identifier, name, type, algorithm, length, usage mask,
    -- owner and creation time, and an object that is destroyed stays exactly as it is.
    pub serve-Evolves :
        (uid : String)
        → Evolves
            (Dict.get srv.world.store.keys uid)
            (Dict.get (serve requests srv).world.store.keys uid)
    serve-Evolves = Trace-Evolves machine sound safe (serve-Reaches requests srv)

    -- With sound sources of randomness, from a store that is safe, after any sequence of requests, and
    -- for every identifier: the state of an object never goes back in the
    -- order pre-active, active, compromised, destroyed, and an object that is compromised is afterwards
    -- destroyed or exactly as it was.
    pub serve-Advances :
        (uid : String)
        → Advances
            (Dict.get srv.world.store.keys uid)
            (Dict.get (serve requests srv).world.store.keys uid)
    serve-Advances = Trace-Advances machine sound safe (serve-Reaches requests srv)
