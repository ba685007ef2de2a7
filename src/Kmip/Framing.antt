-- ===== src/Kmip/Framing.antt =====
-- internal/kmip/server.go: the loop of handleConnection that reads TTLV messages from a connection and
-- writes their answers, and the places that Serve has for connections.
pub mod Messages
pub mod Connection
use open_kmip_server.Common.{
  ℕ, zero, suc, ◌+◌, ◌*◌, ◌^◌, Bool, Option, none, some, List, [], ◌∷◌, ◌++◌, ltb, length,
  if◌then◌else◌,
}
use open_kmip_server.Common.Bytes.{Bytes}
use open_kmip_server.Common.Slices.{take, drop}

abbrev pub max_ttlv_message_size : ℕ
max_ttlv_message_size = 10 * 2 ^ 20

abbrev pub max_connections : ℕ
max_connections = 1000

-- The number that bytes write, the most significant byte first.
unfoldable pub big_endian : ℕ → Bytes → ℕ
big_endian n [] = n
big_endian n (b ∷ bs) = big_endian (n * 256 + b) bs

-- io.ReadFull on what the client sends before it closes, fails or is late: the bytes and what follows
-- them, if there are as many.
unfoldable pub read_full : ℕ → Bytes → Option (Bytes × Bytes)
read_full n incoming =
    if ltb (length incoming) n then none else some (take n incoming, drop n incoming)

-- The message that a header begins, and what follows it.
read_body : Bytes → Bytes → Option (Bytes × Bytes)
read_body header incoming =
    if ltb max_ttlv_message_size (big_endian 0 (drop 4 header))
    then none
    else elim (read_full (big_endian 0 (drop 4 header)) incoming) [
      | none ↦ none
      | some (body, rest) ↦ some (header ++ body, rest)
    ]

-- One message; `none` where the loop returns.
unfoldable pub read_message : Bytes → Option (Bytes × Bytes)
unfolding read_full read_body
read_message incoming = elim (read_full 8 incoming) [
  | none ↦ none
  | some (header, rest) ↦ read_body header rest
]

-- The handler, which can panic, and the writes that reach the client, by their number.
module _ {S : Type 0} (handle : Bytes → S → Option Bytes × S) (written : ℕ → Bool) where
  -- What the round with number k writes before the rounds that follow it.
  unfoldable pub reply_with : ℕ → Option Bytes × S → (S → List Bytes × S) → List Bytes × S
  reply_with k (none, s) rest = ([], s)
  reply_with k (some response, s) rest =
      if written k then (response ∷ (rest s).0, (rest s).1) else ([], s)

  -- The loop, from round k on, with fuel for its rounds: the answers that are written.
  unfoldable pub handle_connection : ℕ → ℕ → Bytes → S → List Bytes × S
  unfolding reply_with
  handle_connection zero k incoming s = ([], s)
  handle_connection (suc fuel) k incoming s = elim (read_message incoming) [
    | none ↦ ([], s)
    | some (request, rest) ↦
        reply_with k (handle request s) (λ s'. handle_connection fuel (suc k) rest s')
  ]

-- sem <- struct{}{}: a connection is taken where a place is free.
unfoldable pub accept : ℕ → Bool × ℕ
accept taken = (ltb taken max_connections, if ltb taken max_connections then suc taken else taken)

-- <-sem
abbrev pub release : ℕ → ℕ
release zero = zero
release (suc taken) = taken
