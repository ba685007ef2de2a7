-- ===== src/Kmip/Trace/Safety.antt =====
-- What legal calls, and so KMIP requests, can and cannot do to an object of the memory store
-- (validateStateTransition and the handlers of internal/kmip/handler.go).
use open_kmip_server.Common.{
  ℕ, suc, ◌≤◌, String, ◌≡◌, ◌≢◌, refl, ◌⊎◌, Option, none, some, arith, eq_iff, str_eq, Bool-cases,
  Option-cases, inl, inr,
}
use open_kmip_server.Common.Dict
use open_kmip_server.Common.Dict.{get-put, get-put_inv, get-empty}
use open_kmip_server.External.Machine.{Machine, IsSound}
use open_kmip_server.Storage.Types.{
  KeyState, KeyRecord, unset, pre_active, active, deactivated, compromised, destroyed,
  destroyed_compromised, archived,
}
use open_kmip_server.Storage.Memory.{MemoryStore, get, new_memory_store}
use open_kmip_server.Storage.Memory.Calls.{
  Call, create_call, activate_call, destroy_call, rekey_call, archive_call, recover_call,
  register_call, revoke_call, derive_call, set_attribute_call, delete_attribute_call, apply,
}
use open_kmip_server.Storage.Memory.Effects.{
  Adds, quiet, made, create-Adds, register-Adds, derive_key-Adds, set_custom_attribute-Adds,
  delete_custom_attribute-Adds,
}
use open_kmip_server.Storage.Memory.Lookup.{
  lookup-activate, lookup-destroy, lookup-revoke, lookup-archive, lookup-recover, lookup-rekey,
}
use open_kmip_server.Storage.Memory.Invariant.{
  new_memory_store-IsValid, IsValid, apply-IsValid, later-IsValid,
}
use open_kmip_server.Storage.Memory.History.{
  Evolves, Evolves-refl, Evolves-trans, new_uuid_fresh, apply-Evolves,
}
use open_kmip_server.Kmip.Trace.{IsLegal, Finds, Trace, here, wait, call}

-- The order in which the states of an object can follow one another.
abbrev pub rank : KeyState → ℕ
rank unset = 0
rank pre_active = 0
rank active = 1
rank deactivated = 2
rank compromised = 3
rank destroyed_compromised = 3
rank archived = 4
rank destroyed = 5

-- The object under one identifier, before and after: its state never goes back, and an object that is
-- compromised is left exactly as it is, or destroyed.
abbrev pub Advances : Option KeyRecord → Option KeyRecord → Type 0
Advances none b = Unit
Advances (some old) none = ⊥
Advances (some old) (some new) =
    (rank old.state ≤ rank new.state)
    × (old.state ≡ compromised → (new.state ≡ destroyed) ⊎ (new ≡ old))

Advances-refl : (a : Option KeyRecord) → Advances a a
Advances-refl none = tt
Advances-refl (some rec) = (omega arith, λ _. inr refl)

Advances-trans : (a b c : Option KeyRecord) → Advances a b → Advances b c → Advances a c
Advances-trans none b c e f = tt
Advances-trans (some x) none c e f = absurd e
Advances-trans (some x) (some y) none e f = absurd f
Advances-trans (some x) (some y) (some z) e f = ground arith

-- No object is archived.
abbrev pub NeverArchived : MemoryStore → Type 0
NeverArchived m =
    (uid : String) (rec : KeyRecord) → Dict.get m.keys uid ≡ some rec → rec.state ≢ archived

-- Archive is called on a deactivated object only; of the other calls nothing is asked.
abbrev pub MayArchive : MemoryStore → Call → Type 0
MayArchive m (archive_call uid) = Finds m uid (λ s. s ≡ deactivated)
MayArchive m _ = Unit

legal-MayArchive : (m : MemoryStore) (c : Call) → IsLegal m c → MayArchive m c
legal-MayArchive m (archive_call uid) legal = legal
legal-MayArchive m (activate_call uid) legal = tt
legal-MayArchive m (revoke_call uid reason) legal = tt
legal-MayArchive m (destroy_call uid) legal = tt
legal-MayArchive m (recover_call uid) legal = tt
legal-MayArchive m (rekey_call uid) legal = tt
legal-MayArchive m (create_call name algorithm bit_length usage_mask owner) legal = tt
legal-MayArchive m (register_call rec) legal = tt
legal-MayArchive m (derive_call uid salt name bit_length) legal = tt
legal-MayArchive m (set_attribute_call uid name value) legal = tt
legal-MayArchive m (delete_attribute_call uid name) legal = tt

-- What holds of the store at a moment, between two requests.
pub record IsSafe (machine : Machine) (n : ℕ) (m : MemoryStore) : Type 0 where
  pub valid : IsValid machine n m
  pub never_archived : NeverArchived m

pub new_memory_store-IsSafe : (machine : Machine) → IsSafe machine 0 new_memory_store
unfolding new_memory_store
new_memory_store-IsSafe machine = record {
  valid = new_memory_store-IsValid machine;
  never_archived = λ uid rec h. absurd (cc (get-empty {V = KeyRecord} uid));
}

module _ (machine : Machine) (sound : IsSound machine) where
  Adds-Advances :
      (n : ℕ) (m m' : MemoryStore)
      → IsValid machine n m
      → Adds machine n m m'
      → (uid : String) → Advances (Dict.get m.keys uid) (Dict.get m'.keys uid)
  Adds-Advances n m m' v (quiet e) uid = rw e (Advances-refl (Dict.get m.keys uid))
  Adds-Advances n m m' v (made new fresh state e) uid = elim (Bool-cases (str_eq new.uid uid)) [
    | inl same ↦
        let k : new.uid ≡ uid = (eq_iff new.uid uid).0 same in
        rw (← k, fresh, new_uuid_fresh machine sound n m v) tt
    | inr other ↦ rw (e, get-put, other) (Advances-refl (Dict.get m.keys uid))
  ]

  legal-Advances :
      (n : ℕ) (m : MemoryStore) (c : Call)
      → IsValid machine n m
      → NeverArchived m
      → IsLegal m c
      → (uid : String) → Advances (Dict.get m.keys uid) (Dict.get (apply machine n m c).keys uid)
  unfolding apply get
  legal-Advances n m (create_call name algorithm bit_length usage_mask owner) v a legal j =
      Adds-Advances n m _ v (create-Adds machine n m name algorithm bit_length usage_mask owner) j
  legal-Advances n m (register_call rec) v a legal j =
      Adds-Advances n m _ v (register-Adds machine n m rec) j
  legal-Advances n m (derive_call uid salt name bit_length) v a legal j =
      Adds-Advances n m _ v (derive_key-Adds machine n m uid salt name bit_length) j
  legal-Advances n m (set_attribute_call uid name value) v a legal j =
      Adds-Advances n m _ v (set_custom_attribute-Adds machine n m uid name value) j
  legal-Advances n m (delete_attribute_call uid name) v a legal j =
      Adds-Advances n m _ v (delete_custom_attribute-Adds machine n m uid name) j
  legal-Advances n m (activate_call uid) v a (rec, found, guard) j =
      ground (arith, lookup-activate m uid j, eq_iff uid j)
  legal-Advances n m (destroy_call uid) v a (rec, found, guard) j =
      ground (arith, lookup-destroy m uid j, eq_iff uid j)
  legal-Advances n m (revoke_call uid reason) v a (rec, found, guard) j =
      ground (arith, lookup-revoke m uid j reason, eq_iff uid j)
  legal-Advances n m (archive_call uid) v a (rec, found, guard) j =
      ground (arith, lookup-archive m uid j, eq_iff uid j)
  legal-Advances n m (recover_call uid) v a (rec, found, guard) j =
      ground (arith, lookup-recover m uid j, a uid rec, eq_iff uid j)
  legal-Advances n m (rekey_call uid) v a (rec, found, guard) j =
      ground (arith, lookup-rekey machine n m uid j, eq_iff uid j)

  Adds-NeverArchived :
      (n : ℕ) (m m' : MemoryStore) → NeverArchived m → Adds machine n m m' → NeverArchived m'
  Adds-NeverArchived n m m' a (quiet e) uid rec h = a uid rec (rw e at h)
  Adds-NeverArchived n m m' a (made new fresh state e) uid rec h =
      elim (get-put_inv m.keys new.uid uid new rec (rw e at h)) [
        | inl (k, w) ↦ ground arith
        | inr old ↦ a uid rec old
      ]

  apply-NeverArchived :
      (n : ℕ) (m : MemoryStore) (c : Call)
      → IsValid machine n m
      → NeverArchived m
      → MayArchive m c
      → NeverArchived (apply machine n m c)
  unfolding apply get
  apply-NeverArchived n m (create_call name algorithm bit_length usage_mask owner) v a legal j new
        h =
      Adds-NeverArchived n m _ a
        (create-Adds machine n m name algorithm bit_length usage_mask owner) j new h
  apply-NeverArchived n m (register_call rec) v a legal j new h =
      Adds-NeverArchived n m _ a (register-Adds machine n m rec) j new h
  apply-NeverArchived n m (derive_call uid salt name bit_length) v a legal j new h =
      Adds-NeverArchived n m _ a (derive_key-Adds machine n m uid salt name bit_length) j new h
  apply-NeverArchived n m (set_attribute_call uid name value) v a legal j new h =
      Adds-NeverArchived n m _ a (set_custom_attribute-Adds machine n m uid name value) j new h
  apply-NeverArchived n m (delete_attribute_call uid name) v a legal j new h =
      Adds-NeverArchived n m _ a (delete_custom_attribute-Adds machine n m uid name) j new h
  apply-NeverArchived n m (activate_call uid) v a legal j new h =
      ground (arith, lookup-activate m uid j, eq_iff uid j, a j new)
  apply-NeverArchived n m (destroy_call uid) v a legal j new h =
      ground (arith, lookup-destroy m uid j, eq_iff uid j, a j new)
  apply-NeverArchived n m (revoke_call uid reason) v a legal j new h =
      ground (arith, lookup-revoke m uid j reason, eq_iff uid j, a j new)
  apply-NeverArchived n m (archive_call uid) v a (rec, found, guard) j new h =
      absurd ((v uid rec (ground arith)).never_deactivated guard)
  apply-NeverArchived n m (recover_call uid) v a legal j new h =
      ground (arith, lookup-recover m uid j, eq_iff uid j, a j new)
  apply-NeverArchived n m (rekey_call uid) v a legal j new h =
      elim (Option-cases (Dict.get m.keys j)) [
        | inl missing ↦
            ground (arith, missing, lookup-rekey machine n m uid j, eq_iff uid j, a j new)
        | inr (old, found) ↦
            ground (arith, found, lookup-rekey machine n m uid j, eq_iff uid j, a j new, a j old)
      ]

  -- A call that keeps a safe store safe.
  pub apply-IsSafe :
      (n : ℕ) (m : MemoryStore) (c : Call)
      → IsSafe machine n m
      → MayArchive m c
      → IsSafe machine (suc n) (apply machine n m c)
  apply-IsSafe n m c safe may = record {
    valid = apply-IsValid machine n m c safe.valid;
    never_archived = apply-NeverArchived n m c safe.valid safe.never_archived may;
  }

  pub Trace-IsSafe :
      {n : ℕ} {m : MemoryStore} {k : ℕ} {s : MemoryStore}
      → IsSafe machine n m
      → Trace machine n m k s
      → IsSafe machine k s
  Trace-IsSafe i here = i
  Trace-IsSafe i (wait {k} {s} r) =
      let j : IsSafe machine k s = Trace-IsSafe i r in
      record { valid = later-IsValid machine k s j.valid; never_archived = j.never_archived }
  Trace-IsSafe i (call {k} {s} r c legal) =
      let j : IsSafe machine k s = Trace-IsSafe i r in
      apply-IsSafe k s c j (legal-MayArchive s c legal)

  pub Trace-Advances :
      {n : ℕ} {m : MemoryStore} {k : ℕ} {s : MemoryStore}
      → IsSafe machine n m
      → Trace machine n m k s
      → (uid : String) → Advances (Dict.get m.keys uid) (Dict.get s.keys uid)
  Trace-Advances {m = m} i here uid = Advances-refl (Dict.get m.keys uid)
  Trace-Advances i (wait r) uid = Trace-Advances i r uid
  Trace-Advances {m = m} i (call {k} {s} r c legal) uid =
      let j : IsSafe machine k s = Trace-IsSafe i r in
      Advances-trans (Dict.get m.keys uid) (Dict.get s.keys uid)
        (Dict.get (apply machine k s c).keys uid) (Trace-Advances i r uid)
        (legal-Advances k s c j.valid j.never_archived legal uid)

  pub Trace-Evolves :
      {n : ℕ} {m : MemoryStore} {k : ℕ} {s : MemoryStore}
      → IsSafe machine n m
      → Trace machine n m k s
      → (uid : String) → Evolves (Dict.get m.keys uid) (Dict.get s.keys uid)
  Trace-Evolves {m = m} i here uid = Evolves-refl (Dict.get m.keys uid)
  Trace-Evolves i (wait r) uid = Trace-Evolves i r uid
  Trace-Evolves {m = m} i (call {k} {s} r c legal) uid =
      let j : IsSafe machine k s = Trace-IsSafe i r in
      Evolves-trans (Dict.get m.keys uid) (Dict.get s.keys uid)
        (Dict.get (apply machine k s c).keys uid) (Trace-Evolves i r uid)
        (apply-Evolves machine sound k s c j.valid uid)
