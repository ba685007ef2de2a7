-- ===== src/Kmip/Trace.antt =====
-- What KMIP requests do to the memory store: method calls at successive moments, each legal in the
-- lifecycle (internal/kmip/handler.go, internal/storage/memory.go).
use open_kmip_server.Common.{ℕ, suc, String, ◌≡◌, ◌⊎◌, some}
use open_kmip_server.External.Machine.{Machine}
use open_kmip_server.Storage.Types.{
  KeyState, KeyRecord, pre_active, active, deactivated, destroyed, destroyed_compromised, archived,
}
use open_kmip_server.Storage.Memory.{MemoryStore, get}
use open_kmip_server.Storage.Memory.Calls.{
  Call, create_call, activate_call, destroy_call, rekey_call, archive_call, recover_call,
  register_call, revoke_call, derive_call, set_attribute_call, delete_attribute_call, apply,
}
pub mod Rules
pub mod Guards
pub mod Handlers
pub mod Requests
pub mod Safety

-- The object under an identifier is visible and in one of the states.
abbrev pub Finds : MemoryStore → String → (KeyState → Type 0) → Type 0
Finds m uid P = (rec : KeyRecord) × (get m uid ≡ some rec) × P rec.state

-- A call that the lifecycle allows, given the store that it is made on.
abbrev pub IsLegal : MemoryStore → Call → Type 0
IsLegal m (activate_call uid) = Finds m uid (λ s. s ≡ pre_active)
IsLegal m (revoke_call uid reason) =
    Finds m uid (λ s. (s ≡ pre_active) ⊎ (s ≡ active) ⊎ (s ≡ deactivated))
IsLegal m (destroy_call uid) = Finds m uid (λ s. ¬ (s ≡ destroyed_compromised))
IsLegal m (archive_call uid) = Finds m uid (λ s. s ≡ deactivated)
IsLegal m (recover_call uid) = Finds m uid (λ s. s ≡ archived)
IsLegal m (rekey_call uid) = Finds m uid (λ s. s ≡ active)
IsLegal m (create_call name algorithm bit_length usage_mask owner) = Unit
IsLegal m (register_call rec) = Unit
IsLegal m (derive_call uid salt name bit_length) = Unit
IsLegal m (set_attribute_call uid name value) = Unit
IsLegal m (delete_attribute_call uid name) = Unit

-- From moment n and store m, by legal calls, with moments at which the store is only read.
pub data Trace (machine : Machine) (n : ℕ) (m : MemoryStore) : ℕ → MemoryStore → Type 0 where
  here : Trace machine n m n m
  wait : {k : ℕ} {s : MemoryStore} → Trace machine n m k s → Trace machine n m (suc k) s
  call :
      {k : ℕ} {s : MemoryStore}
      → Trace machine n m k s
      → (c : Call) → IsLegal s c
      → Trace machine n m (suc k) (apply machine k s c)

pub Trace-trans :
    {machine : Machine} {n k : ℕ} {m s : MemoryStore} {j : ℕ} {t : MemoryStore}
    → Trace machine n m k s
    → Trace machine k s j t
    → Trace machine n m j t
Trace-trans r here = r
Trace-trans r (wait q) = wait (Trace-trans r q)
Trace-trans r (call q c legal) = call (Trace-trans r q) c legal
