-- ===== src/Kmip/Trace/Guards.antt =====
-- The handlers that change an object do so behind validateStateTransition, and so legally.
use open_kmip_server.Common.{
  ℕ, suc, ◌⊎◌, String, ◌≡◌, refl, true, Option, some, List, [], ◌∷◌, arith,
}
use open_kmip_server.Common.Int.{ℤ}
use open_kmip_server.Common.Result.{Result}
use open_kmip_server.External.Libraries.{Libraries}
use open_kmip_server.Storage.Types.{
  KeyState, KeyRecord, pre_active, active, deactivated, destroyed_compromised, archived,
}
use open_kmip_server.Storage.Memory.{
  MemoryStore, memory_storage, get, activate, destroy, revoke, rekey, archive, recover,
}
use open_kmip_server.Storage.Memory.Calls.{
  Call, activate_call, destroy_call, rekey_call, archive_call, recover_call, revoke_call, apply,
}
use open_kmip_server.Kmip.Action.{
  World, Action, ◌>>=◌, ◌>>◌, pure, require, or_fail, check, read, write,
}
use open_kmip_server.Kmip.Codes.{reason_missing_data, reason_general_failure, reason_item_not_found}
use open_kmip_server.Kmip.Lifecycle.{validate_state_transition}
use open_kmip_server.Kmip.Response.{respond}
use open_kmip_server.Kmip.Handlers.Lifecycle.{
  not_found, handle_activate, handle_destroy, handle_revoke, handle_rekey, handle_archive,
  handle_recover, stated_reason,
}
use open_kmip_server.Kmip.Trace.{IsLegal}
use open_kmip_server.Kmip.Trace.Rules.{
  Steps, TraceFrom, TraceFrom-require, TraceFrom-check, TraceFrom-read, TraceFrom-write,
  Steps-respond, steps_rules,
}

module _ (l : Libraries) {A : Type 0} where
  open l use {Item, Buffer, machine, find_child, string_value, tag_unique_identifier}

  guarded_change :
      String
      → (ℕ → MemoryStore → Result A × MemoryStore)
      → (A → List Buffer)
      → String
      → Option KeyRecord
      → Action MemoryStore (List Buffer)
  guarded_change name change answer uid found = do
    rec ← require found reason_item_not_found (not_found uid)
    check (validate_state_transition rec.state name)
    result ← write change
    a ← or_fail result reason_general_failure
    pure (answer a)

  guarded :
      String
      → (Item → String → ℕ → MemoryStore → Result A × MemoryStore)
      → (String → A → List Buffer)
      → ℤ
      → Option Item
      → Action MemoryStore Buffer
  guarded name change answer op payload = respond l.lib op do
    p ← require payload reason_missing_data "missing request payload"
    uid_item ←
        require (find_child p tag_unique_identifier) reason_missing_data "missing UniqueIdentifier"
    let uid = string_value uid_item
    found ← read (λ n s. get s uid)
    guarded_change name (change p uid) (answer uid) uid found

  guarded_change-TraceFrom :
      (name : String) (change : ℕ → MemoryStore → Result A × MemoryStore) (answer : A → List Buffer)
      (c : Call) (uid : String) (found : Option KeyRecord) (w : World MemoryStore)
      → ((n : ℕ) (s : MemoryStore) → (change n s).1 ≡ apply machine n s c)
      → ((rec : KeyRecord)
          → found ≡ some rec
          → (validate_state_transition rec.state name).2 ≡ true
          → IsLegal w.store c)
      → TraceFrom machine w (guarded_change name change answer uid found)
  unfolding guarded_change
  guarded_change-TraceFrom name change answer c uid found w is_call legal =
      TraceFrom-require _ _ _ _ w λ rec e₁.
        TraceFrom-check _ _ w
          λ e₂. TraceFrom-write change c _ w is_call (legal rec e₁ e₂) λ result. search steps_rules

  guarded-Steps :
      (name : String) (change : Item → String → ℕ → MemoryStore → Result A × MemoryStore)
      (answer : String → A → List Buffer) (c : Item → String → Call) (op : ℤ)
      (payload : Option Item)
      → ((p : Item) (uid : String) (n : ℕ) (s : MemoryStore)
          → (change p uid n s).1 ≡ apply machine n s (c p uid))
      → ((p : Item) (uid : String) (s : MemoryStore) (rec : KeyRecord)
          → get s uid ≡ some rec
          → (validate_state_transition rec.state name).2 ≡ true
          → IsLegal s (c p uid))
      → Steps machine (guarded name change answer op payload)
  unfolding guarded
  guarded-Steps name change answer c op payload is_call legal = Steps-respond _ op _ (record {
    at = λ w. TraceFrom-require _ _ _ _ w λ p e₁. TraceFrom-require _ _ _ _ w λ uid_item e₂.
        TraceFrom-read _ _ w (
          guarded_change-TraceFrom name (change p (string_value uid_item))
            (answer (string_value uid_item)) (c p (string_value uid_item)) (string_value uid_item)
            (get w.store (string_value uid_item)) (record w { moment = suc w.moment })
            (is_call p (string_value uid_item)) (legal p (string_value uid_item) w.store));
  })

-- What the guard of each operation tells of the state.
activate_guard : (s : KeyState) → (validate_state_transition s "Activate").2 ≡ true → s ≡ pre_active
unfolding validate_state_transition
activate_guard s h = ground arith

revoke_guard :
    (s : KeyState)
    → (validate_state_transition s "Revoke").2 ≡ true
    → (s ≡ pre_active) ⊎ (s ≡ active) ⊎ (s ≡ deactivated)
unfolding validate_state_transition
revoke_guard s h = ground arith

destroy_guard :
    (s : KeyState)
    → (validate_state_transition s "Destroy").2 ≡ true
    → ¬ (s ≡ destroyed_compromised)
unfolding validate_state_transition
destroy_guard s h = ground arith

archive_guard : (s : KeyState) → (validate_state_transition s "Archive").2 ≡ true → s ≡ deactivated
unfolding validate_state_transition
archive_guard s h = ground arith

recover_guard : (s : KeyState) → (validate_state_transition s "Recover").2 ≡ true → s ≡ archived
unfolding validate_state_transition
recover_guard s h = ground arith

rekey_guard : (s : KeyState) → (validate_state_transition s "ReKey").2 ≡ true → s ≡ active
unfolding validate_state_transition
rekey_guard s h = ground arith

module _ (l : Libraries) (op : ℤ) (payload : Option l.Item) where
  open l use {machine, encode_text_string, tag_unique_identifier}

  pub handle_activate-Steps : Steps machine (handle_activate l (memory_storage machine) op payload)
  unfolding handle_activate guarded guarded_change apply
  handle_activate-Steps =
      guarded-Steps l "Activate" (λ p uid n s. activate s uid)
        (λ uid _. encode_text_string tag_unique_identifier uid ∷ []) (λ p uid. activate_call uid) op
        payload (λ p uid n s. refl) (λ p uid s rec e h. (rec, e, activate_guard rec.state h))

  pub handle_destroy-Steps : Steps machine (handle_destroy l (memory_storage machine) op payload)
  unfolding handle_destroy guarded guarded_change apply
  handle_destroy-Steps =
      guarded-Steps l "Destroy" (λ p uid n s. destroy s uid)
        (λ uid _. encode_text_string tag_unique_identifier uid ∷ []) (λ p uid. destroy_call uid) op
        payload (λ p uid n s. refl) (λ p uid s rec e h. (rec, e, destroy_guard rec.state h))

  pub handle_archive-Steps : Steps machine (handle_archive l (memory_storage machine) op payload)
  unfolding handle_archive guarded guarded_change apply
  handle_archive-Steps =
      guarded-Steps l "Archive" (λ p uid n s. archive s uid)
        (λ uid _. encode_text_string tag_unique_identifier uid ∷ []) (λ p uid. archive_call uid) op
        payload (λ p uid n s. refl) (λ p uid s rec e h. (rec, e, archive_guard rec.state h))

  pub handle_recover-Steps : Steps machine (handle_recover l (memory_storage machine) op payload)
  unfolding handle_recover guarded guarded_change apply
  handle_recover-Steps =
      guarded-Steps l "Recover" (λ p uid n s. recover s uid)
        (λ uid _. encode_text_string tag_unique_identifier uid ∷ []) (λ p uid. recover_call uid) op
        payload (λ p uid n s. refl) (λ p uid s rec e h. (rec, e, recover_guard rec.state h))

  pub handle_rekey-Steps : Steps machine (handle_rekey l (memory_storage machine) op payload)
  unfolding handle_rekey guarded guarded_change apply
  handle_rekey-Steps =
      guarded-Steps l "ReKey" (λ p uid n s. rekey machine n s uid)
        (λ uid rec. encode_text_string tag_unique_identifier rec.uid ∷ []) (λ p uid. rekey_call uid)
        op payload (λ p uid n s. refl) (λ p uid s rec e h. (rec, e, rekey_guard rec.state h))

  pub handle_revoke-Steps : Steps machine (handle_revoke l (memory_storage machine) op payload)
  unfolding handle_revoke guarded guarded_change apply
  handle_revoke-Steps =
      guarded-Steps l "Revoke" (λ p uid n s. revoke s uid (stated_reason l.lib p))
        (λ uid _. encode_text_string tag_unique_identifier uid ∷ [])
        (λ p uid. revoke_call uid (stated_reason l.lib p)) op payload (λ p uid n s. refl)
        (λ p uid s rec e h. (rec, e, revoke_guard rec.state h))
