-- ===== src/Kmip/Connections/Counts.antt =====
-- What the tracker knows of a connection (internal/kmip/connections.go).
use open_kmip_server.Common.{
  str_eq, if◌then◌else◌, Bool-cases, inl, inr, none, ℕ, ◌+◌, ◌-◌, ◌^◌, ◌≤◌, String, ◌≡◌, refl, some,
  List, [], ◌∷◌, arith, eq_refl, length,
}
use open_kmip_server.Common.Int.{pos, inc_int, inc_int-pos}
use open_kmip_server.Common.Dict
use open_kmip_server.Common.Dict.{get-delete, get-put, get-delete, size-put}
use open_kmip_server.Kmip.Connections.{add, remove, ConnectionInfo, ConnectionTracker, record_op}

-- RecordOp for each operation, with the time of each.
unfoldable pub record_ops : ConnectionTracker → String → List (ℕ × String) → ConnectionTracker
record_ops ct id [] = ct
record_ops ct id ((now, operation) ∷ rest) = record_ops (record_op now ct id operation) id rest

record_op-found :
    (now : ℕ) (ct : ConnectionTracker) (id operation : String) (info : ConnectionInfo) (n : ℕ)
    → Dict.get ct.conns id ≡ some info
    → info.operations ≡ pos n
    → n + 1 ≤ 2 ^ 63 - 1
    → (new : ConnectionInfo) × (Dict.get (record_op now ct id operation).conns id ≡ some new)
      × (new.operations ≡ pos (n + 1))
unfolding record_op
record_op-found now ct id operation info n h e b = (
  record info { operations = inc_int info.operations; last_op = operation; last_op_at = now },
  rw (record_op, h, get-put, eq_refl) refl,
  rw (e, inc_int-pos n b) refl,
)

-- Where the tracker has a connection with n operations, n and the number of calls together less than
-- 2 ^ 63: after any calls of RecordOp for it, the tracker has it with n plus the number of calls.
pub record_ops-counts :
    (ct : ConnectionTracker) (id : String) (ops : List (ℕ × String)) (info : ConnectionInfo) (n : ℕ)
    → Dict.get ct.conns id ≡ some info
    → info.operations ≡ pos n
    → n + length ops ≤ 2 ^ 63 - 1
    → (final : ConnectionInfo) × (Dict.get (record_ops ct id ops).conns id ≡ some final)
      × (final.operations ≡ pos (n + length ops))
unfolding record_ops
record_ops-counts ct id [] info n h e b = (info, h, rw e (ground arith))
record_ops-counts ct id ((now, operation) ∷ rest) info n h e b =
    let (new, h', e') = record_op-found now ct id operation info n h e (omega (arith, b)) in
    let (final, f, c) =
      record_ops-counts (record_op now ct id operation) id rest new (n + 1) h' e'
        (omega (arith, b)) in
    (final, f, ground (arith, c))

-- For every identifier, of the one that is added or another: after Add the tracker has the new connection
-- under its identifier, with no operations, and after Add and Remove it has none there; every other
-- connection is as it was.
remove-add :
    (now : ℕ) (ct : ConnectionTracker) (id client_cn remote_addr other : String)
    → (Dict.get (add now ct id client_cn remote_addr).conns other ≡ (
        if str_eq id other
        then some (record {
          id = id;
          client_cn = client_cn;
          remote_addr = remote_addr;
          connected_at = now;
          operations = pos 0;
          last_op = "";
          last_op_at = 0;
        })
        else Dict.get ct.conns other))
      × (Dict.get (remove (add now ct id client_cn remote_addr) id).conns other
          ≡ (if str_eq id other then none else Dict.get ct.conns other))
unfolding add remove
remove-add now ct id client_cn remote_addr other = (
  rw get-put refl,
  rw (get-delete, get-put)
      (elim (Bool-cases (str_eq id other)) [ inl same ↦ rw same refl | inr apart ↦ rw apart refl ]),
)
