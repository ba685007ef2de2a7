-- ===== src/Storage/Memory/Calls.antt =====
-- The methods of the interface `Storage` that can write, as data, and their runs on the memory store
-- (internal/storage/types.go, internal/storage/memory.go). The n-th call is made at moment n.
use open_kmip_server.Common.{ℕ, suc, String, List, [], ◌∷◌}
use open_kmip_server.Common.Int.{ℤ}
use open_kmip_server.Common.Bytes.{Slice}
use open_kmip_server.External.Machine.{Machine}
use open_kmip_server.Storage.Types.{KeyRecord}
use open_kmip_server.Storage.Memory.{
  MemoryStore, create, activate, destroy, register, revoke, rekey, archive, recover, derive_key,
  set_custom_attribute, delete_custom_attribute,
}

pub data Call : Type 0 where
  create_call : String → ℤ → ℤ → ℤ → String → Call
  activate_call destroy_call rekey_call archive_call recover_call : String → Call
  register_call : KeyRecord → Call
  revoke_call : String → ℤ → Call
  derive_call : String → Slice → String → ℤ → Call
  set_attribute_call : String → String → String → Call
  delete_attribute_call : String → String → Call

module _ (machine : Machine) where
  unfoldable pub apply : ℕ → MemoryStore → Call → MemoryStore
  apply n m (create_call name algorithm bit_length usage_mask owner) =
      (create machine n m name algorithm bit_length usage_mask owner).1
  apply n m (activate_call uid) = (activate m uid).1
  apply n m (destroy_call uid) = (destroy m uid).1
  apply n m (rekey_call uid) = (rekey machine n m uid).1
  apply n m (archive_call uid) = (archive m uid).1
  apply n m (recover_call uid) = (recover m uid).1
  apply n m (register_call rec) = (register machine n m rec).1
  apply n m (revoke_call uid reason) = (revoke m uid reason).1
  apply n m (derive_call uid salt name bit_length) =
      (derive_key machine n m uid salt name bit_length).1
  apply n m (set_attribute_call uid name value) = (set_custom_attribute m uid name value).1
  apply n m (delete_attribute_call uid name) = (delete_custom_attribute m uid name).1

  -- A sequence of calls, from moment n on.
  unfoldable pub run : ℕ → MemoryStore → List Call → MemoryStore
  unfolding apply
  run n m [] = m
  run n m (c ∷ cs) = run (suc n) (apply n m c) cs
