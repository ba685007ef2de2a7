-- ===== src/Common/Bytes.antt =====
-- Go's `[]byte`.
use Prim.Native.Nat.{ℕ}
use mathlib.Core.Option.{Option, none, some}
use mathlib.Core.List.{List, []}

-- A `[]byte`: `nil`, or a slice with its bytes. `contents` is what code that takes any slice reads.
abbrev pub Bytes : Type 0
Bytes = List ℕ

abbrev pub Slice : Type 0
Slice = Option Bytes

abbrev pub contents : Slice → Bytes
contents none = []
contents (some bs) = bs
