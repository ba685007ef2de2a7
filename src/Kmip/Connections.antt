-- ===== src/Kmip/Connections.antt =====
-- internal/kmip/connections.go: the tracker of active connections.
pub mod Counts
use open_kmip_server.Common.{ℕ, String, none, some, List, [], ◌∷◌}
use open_kmip_server.Common.Int.{ℤ, pos, inc_int}
use open_kmip_server.Common.Dict
use open_kmip_server.Common.Dict.{Dict}
use open_kmip_server.External.Machine.{Machine}

-- A zero time is 0.
pub record ConnectionInfo : Type 0 where
  pub id : String
  pub client_cn : String
  pub remote_addr : String
  pub connected_at : ℕ
  pub operations : ℤ
  pub last_op : String
  pub last_op_at : ℕ

pub record ConnectionTracker : Type 0 where
  pub conns : Dict ConnectionInfo

unfoldable pub new_connection_tracker : ConnectionTracker
new_connection_tracker = record { conns = Dict.empty }

-- `now` is time.Now().
unfoldable pub add : ℕ → ConnectionTracker → String → String → String → ConnectionTracker
add now ct id client_cn remote_addr = record {
  conns = Dict.put ct.conns id (record {
    id = id;
    client_cn = client_cn;
    remote_addr = remote_addr;
    connected_at = now;
    operations = pos 0;
    last_op = "";
    last_op_at = 0;
  });
}

unfoldable pub remove : ConnectionTracker → String → ConnectionTracker
remove ct id = record { conns = Dict.delete ct.conns id }

unfoldable pub record_op : ℕ → ConnectionTracker → String → String → ConnectionTracker
record_op now ct id operation = elim (Dict.get ct.conns id) [
  | none ↦ ct
  | some info ↦ record {
    conns = Dict.put ct.conns id (record info {
      operations = inc_int info.operations;
      last_op = operation;
      last_op_at = now;
    });
  }
]

infos_at : Dict ConnectionInfo → List String → List ConnectionInfo
infos_at conns [] = []
infos_at conns (k ∷ ks) =
    let rest = infos_at conns ks in
    elim (Dict.get conns k) [ none ↦ rest | some info ↦ info ∷ rest ]

-- Copies of the connections, in the order of a range loop.
unfoldable pub list : Machine → ℕ → ConnectionTracker → List ConnectionInfo
unfolding infos_at
list machine now ct = infos_at ct.conns (machine.map_order now (Dict.keys ct.conns))

unfoldable pub count : ConnectionTracker → ℕ
count ct = Dict.size ct.conns
