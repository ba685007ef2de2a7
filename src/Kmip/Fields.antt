-- ===== src/Kmip/Fields.antt =====
-- internal/kmip/handler.go: the chains `if x := FindChild(…); x != nil { … }` over optional items.
use open_kmip_server.Common.{ℕ, String, Option, none, some}
use open_kmip_server.Common.Int.{ℤ}
use open_kmip_server.Common.Bytes.{Slice}
use open_kmip_server.External.Kmiplib.{Kmiplib}

module _ (lib : Kmiplib) where
  open lib use {Item, find_child, int_value, string_value, bytes_value}

  -- The child of an item that may be missing.
  unfoldable pub child_of : Option Item → ℕ → Option Item
  child_of none t = none
  child_of (some i) t = find_child i t

  -- The value of an item that may be missing: a variable keeps what it had before.
  unfoldable pub int_of : Option Item → ℤ → ℤ
  int_of none before = before
  int_of (some i) before = int_value i

  unfoldable pub string_of : Option Item → String → String
  string_of none before = before
  string_of (some i) before = string_value i

  unfoldable pub bytes_of : Option Item → Slice → Slice
  bytes_of none before = before
  bytes_of (some i) before = bytes_value i
