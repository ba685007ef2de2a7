-- ===== src/Audit/Queue.antt =====
-- What reaches the table of the audit log (internal/audit/audit.go).
use open_kmip_server.Common.{
  ℕ, ◌≤◌, Bool, true, false, ◌≡◌, refl, List, [], ◌∷◌, ◌++◌, arith, length, length-append, ltb, ap,
  sym,
}
use open_kmip_server.Common.Slices.{append_nil}
use open_kmip_server.Audit.{Entry, Logger, channel_size, log, stamp, write_round, drain}

-- What happens to the logger: a call of Log at some time, or a round of the writer.
pub data Event : Type 0 where
  logged : ℕ → Entry → Event
  written : Bool → Event

unfoldable pub run : List Event → Logger → Logger
run [] a = a
run (logged now entry ∷ rest) a = run rest (log now a entry)
run (written accepted ∷ rest) a = run rest (write_round accepted a)

drain_bounded :
    (accepted : Bool) (entries : List Entry) (a : Logger)
    → length entries ≤ channel_size
    → length a.channel ≤ channel_size
    → length (drain accepted entries a).channel ≤ channel_size
unfolding drain
drain_bounded accepted [] a h k = k
drain_bounded true (entry ∷ rest) a h k = omega (arith, h)
drain_bounded false (entry ∷ rest) a h k = omega (arith, h)

-- From a channel of at most 256 entries, calls of Log and rounds of the writer in any order lead to a
-- channel of at most 256 entries.
run-bounded :
    (events : List Event) (a : Logger)
    → length a.channel ≤ channel_size
    → length (run events a).channel ≤ channel_size
unfolding run log write_round drain
run-bounded [] a h = h
run-bounded (logged now entry ∷ rest) a h =
    run-bounded rest (log now a entry)
      (ground (arith, length-append a.channel (stamp now entry ∷ [])))
run-bounded (written accepted ∷ rest) a h =
    run-bounded rest (write_round accepted a) (drain_bounded accepted a.channel a h h)

-- The entries of the calls of Log, in order, as they are queued.
unfoldable pub stamped : List Event → List Entry
unfolding stamp
stamped [] = []
stamped (logged now entry ∷ rest) = stamp now entry ∷ stamped rest
stamped (written accepted ∷ rest) = stamped rest

-- No round of the writer is refused by the database.
abbrev pub AllAccepted : List Event → Type 0
AllAccepted [] = Unit
AllAccepted (logged now entry ∷ rest) = AllAccepted rest
AllAccepted (written accepted ∷ rest) = (accepted ≡ true) × AllAccepted rest

-- No call of Log finds the channel full.
abbrev pub NeverFull : List Event → Logger → Type 0
NeverFull [] a = Unit
NeverFull (logged now entry ∷ rest) a =
    (ltb (length a.channel) channel_size ≡ true) × NeverFull rest (log now a entry)
NeverFull (written accepted ∷ rest) a = NeverFull rest (write_round accepted a)

append_assoc : (xs ys zs : List Entry) → (xs ++ ys) ++ zs ≡ xs ++ (ys ++ zs)
append_assoc [] ys zs = refl
append_assoc (x ∷ xs) ys zs = ap (λ t. x ∷ t) (append_assoc xs ys zs)

drain_keeps :
    (entries : List Entry) (rows : List Entry)
    → (drain true entries (record { channel = entries; rows = rows })).rows
        ++ (drain true entries (record { channel = entries; rows = rows })).channel
      ≡ rows ++ entries
unfolding drain
drain_keeps [] rows = refl
drain_keeps (entry ∷ rest) rows = append_assoc rows (entry ∷ []) rest

-- Where the database takes every insert and no call of Log finds the channel full: after any calls of
-- Log and rounds of the writer, the rows of the table followed by the channel are what they were,
-- followed by the entries of the calls in their order.
pub run-fifo :
    (events : List Event) (a : Logger)
    → AllAccepted events
    → NeverFull events a
    → (run events a).rows ++ (run events a).channel ≡ (a.rows ++ a.channel) ++ stamped events
unfolding run stamped log write_round
run-fifo [] a accepted room = sym (append_nil (a.rows ++ a.channel))
run-fifo (logged now entry ∷ rest) a accepted (room, more) =
    let ih = run-fifo rest (log now a entry) accepted more in
    rw
      (
        ih,
        room,
        ← append_assoc a.rows a.channel (stamp now entry ∷ []),
        append_assoc (a.rows ++ a.channel) (stamp now entry ∷ []) (stamped rest),
      )
      refl
run-fifo (written accepted ∷ rest) a (accept, all) more =
    let ih = run-fifo rest (write_round accepted a) all more in
    rw (ih, accept, drain_keeps a.channel a.rows) refl
