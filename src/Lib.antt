-- ===== src/Lib.antt =====
-- A verification library of the KMIP server: its request processing and operation handlers, its two key
-- stores, the REST side with its logins and its rate limiter, the audit log, and the connections.
--
-- The program. A client connects and sends TTLV messages. handleConnection (internal/kmip/server.go)
-- cuts them out of the stream and gives each to HandleRequest (internal/kmip/handler.go), which decodes
-- it, gates its version and its size, and runs processBatchItem on each item of the batch: a switch
-- calls the handler of the operation, the handler reads and writes the key store behind the interface
-- of internal/storage/types.go, and the response is entered in the audit log
-- (internal/audit/audit.go) and counted by the connection tracker (internal/kmip/connections.go).
-- Behind the interface stand a map (internal/storage/memory.go) or a database
-- (internal/storage/sqlite.go). An operator reaches the same store by REST (internal/api/api.go), past
-- a rate limiter and a gate that asks for a key or a session (internal/dashauth/dashauth.go).
--
-- The files.
--   Common: booleans, Go's integers with their wrap-around, texts, `(T, error)` results, byte slices,
--     slicing, string-keyed maps.
--   External: what the code calls and the repository does not hold, as parameters with their documented
--     laws. Machine has the identifiers, the time, the randomness, the order of a range loop and HKDF;
--     Kmiplib the TTLV library; Crypto the ciphers and signatures of the Go library; Database the SQL
--     driver, the text of times and the formats of the asset tables; Float the arithmetic of float64;
--     Formats the encodings of the REST side.
--   Storage/Types, Storage/Interface: internal/storage/types.go. A state is a constructor; `unset` is
--     the zero value of a record that is not yet registered.
--   Storage/Memory: internal/storage/memory.go, one function for each method. Below it, Cases has the
--     branches of its guarded writes, Calls the methods as data, Effects and Lookup what each does,
--     Invariant and History what sequences of them keep, Material, Search and Attributes what single
--     methods promise.
--   Storage/Tables, Storage/Sqlite: internal/storage/sqlite.go, its statements on tables and one
--     function for each method. Sqlite/Failures has what a method leaves that fails.
--   Storage/AssetGraph, Storage/Assets, Storage/Inventory: internal/storage/assets.go, the tables of the
--     assets with what a SELECT finds, the methods that write, and the reports; Assets/Growth and
--     Assets/Changes follow sequences of writes.
--   Storage/Conversation: sequences of calls through the interface with their answers;
--     Storage/Refinement compares the stores, Making for the methods that make objects, Talk for
--     conversations.
--   Audit: Log, one round of the writer goroutine, and Query. Audit/Queue has the interleavings of the
--     writer with Log, Audit/Selection the rows that Query selects, Audit/Pages its pages.
--   Kmip/Action: how a handler runs: a state-passing computation over the store that ends with a
--     value, an error for the client, or a panic. What was written before an error stays written.
--   Kmip/Codes, Fields, Lifecycle, Response: the constants, the chains of optional items,
--     validateStateTransition and the response builders.
--   Kmip/Handlers: one function for each handle function of internal/kmip/handler.go, as a do block
--     with a line for each early return.
--   Kmip/Dispatch, Batch, Request: the switch, processBatchItem with its entry and its count, and
--     HandleRequest; Request/Versions has its version gate.
--   Kmip/Connections: the tracker; Connections/Counts what it knows of a connection.
--   Kmip/Trace: a relation of legal calls on the memory store at successive moments. Every handler, and
--     so every request, leaves such a trace; Safety has what the traces keep, and Kmip/Service applies
--     it to sequences of requests.
--   Kmip/Answer: the handlers end with a response item, on any store, and each item with an operation
--     leaves an audit entry.
--   Kmip/Creation, Changes, Refusals, Secrecy: the answers of single handlers on the memory store,
--     those of Archive and Recover on a database too.
--   Kmip/Framing: the loop of handleConnection, for any handler of messages; Framing/Messages has how it
--     cuts the stream, Framing/Connection the loop around HandleRequest.
--   Web/Http: requests, responses and JSON values, as the HTTP handlers use them.
--   Dashauth: internal/dashauth/dashauth.go; Dashauth/Sessions and Dashauth/Logins follow it through
--     sequences of requests.
--   Api: what the REST handlers share; Api/Limiter, Keys, Cryptographic, Reports and Inventory the
--     handlers of internal/api/api.go, Api/Routes its routes behind RequireAPIAuth, Api/Mux all that
--     Serve registers but the files of the dashboard. Api/Refill and Bounds are about the rate limiter,
--     Disclosure, Panics, Serving and Overrides about the handlers.
--   Startup: main of cmd/open-kmip/main.go up to its listeners; Startup/Yields and Startup/Guards say
--     what its checks guarantee.
--   Scenarios: a concrete machine, TTLV library, cipher and database, and the theorems at concrete
--     requests.
--
-- Choices. Each call from a handler into the store, the clock or the randomness happens at a moment of
-- its own, a number that only grows; an identifier is the one of its moment. Calls of the TTLV and
-- crypto libraries return, and only Seal and Open of an AEAD can panic. Requests run one after another:
-- the interleaving of handlers of different connections is not modelled, and a handler's lookup and
-- write are two steps of one run. So are the statements that one method sends to the database, but for
-- Rekey, whose SELECT and UPDATE are also functions of their own. Any statement may fail; one that
-- fails has changed nothing. Loops over items are structural recursion. Fuel is used in the printing of
-- numbers, 20 digits, where a 64-bit number has at most 19 decimal and 16 hexadecimal ones, and in the
-- loop over a connection, where the length of the input is enough, as each message takes at least its
-- eight bytes of header. The float64 operations in the refill of the rate limiter are parameters with the
-- roundings of IEEE 754 as their laws. A record that a handler has read is a copy of what the map held at that moment.
--
-- Not modelled: the opening of the database file, the middlewares for CORS and for the size of bodies, the list of cipher suites, Accept and
-- the deadlines, the making of development certificates, and the dashboard page.
pub mod Common
pub mod External
pub mod Storage
pub mod Audit
pub mod Web
pub mod Dashauth
pub mod Kmip
pub mod Api
pub mod Startup
pub mod Scenarios
