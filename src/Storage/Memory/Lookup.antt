-- ===== src/Storage/Memory/Lookup.antt =====
-- What stands under an identifier after each method that changes an object
-- (internal/storage/memory.go).
use open_kmip_server.Common.{
  false, refl, ℕ, ◌/◌, String, ◌≡◌, Option, none, some, arith, eq_iff, str_eq, inl, inr,
  Option-cases, if◌then◌else◌,
}
use open_kmip_server.Common.Int.{ℤ, pos_part, inc_int}
use open_kmip_server.Common.Result.{ok}
use open_kmip_server.Common.Dict
use open_kmip_server.Common.Dict.{get-put}
use open_kmip_server.External.Machine.{Machine}
use open_kmip_server.Storage.Types.{
  KeyRecord, pre_active, active, destroyed, archived, revoked, is_state,
}
use open_kmip_server.Storage.Memory.{
  MemoryStore, set_state, activate, destroy, revoke, rekey, archive, recover, bad_length, get,
  overwrite,
}

-- A change of an object that is there and not destroyed.
abbrev pub live_change : (KeyRecord → KeyRecord) → Option KeyRecord → Option KeyRecord
live_change f none = none
live_change f (some rec) = if is_state rec.state destroyed then some rec else some (f rec)

abbrev pub archived_change : (KeyRecord → KeyRecord) → Option KeyRecord → Option KeyRecord
archived_change f none = none
archived_change f (some rec) = if is_state rec.state archived then some (f rec) else some rec

abbrev At : MemoryStore → MemoryStore → String → String → Option KeyRecord → Type 0
At m' m uid j new = Dict.get m'.keys j ≡ (if str_eq uid j then new else Dict.get m.keys j)

lookup-set_state :
    (change : KeyRecord → KeyRecord) (m : MemoryStore) (uid j : String)
    → At (set_state change m uid).1 m uid j (live_change change (Dict.get m.keys uid))
unfolding set_state
lookup-set_state change m uid j = elim (Option-cases (Dict.get m.keys uid)) [
  | inl missing ↦ ground (arith, eq_iff uid j)
  | inr (rec, found) ↦ ground (arith, eq_iff uid j, get-put m.keys uid j (change rec))
]

pub lookup-activate :
    (m : MemoryStore) (uid j : String)
    → At
        (activate m uid).1
        m
        uid
        j
        (live_change (λ rec. record rec { state = active }) (Dict.get m.keys uid))
unfolding activate
lookup-activate m uid j = lookup-set_state _ m uid j

pub lookup-destroy :
    (m : MemoryStore) (uid j : String)
    → At (destroy m uid).1 m uid j (
        live_change
          (λ rec. record rec { material = none; state = destroyed })
          (Dict.get m.keys uid))
unfolding destroy
lookup-destroy m uid j = lookup-set_state _ m uid j

pub lookup-revoke :
    (m : MemoryStore) (uid j : String) (reason : ℤ)
    → At (revoke m uid reason).1 m uid j (
        live_change
          (λ rec. record rec { state = revoked; revocation_reason = reason })
          (Dict.get m.keys uid))
unfolding revoke
lookup-revoke m uid j reason = lookup-set_state _ m uid j

pub lookup-archive :
    (m : MemoryStore) (uid j : String)
    → At
        (archive m uid).1
        m
        uid
        j
        (live_change (λ rec. record rec { state = archived }) (Dict.get m.keys uid))
unfolding archive
lookup-archive m uid j = lookup-set_state _ m uid j

pub lookup-recover :
    (m : MemoryStore) (uid j : String)
    → At
        (recover m uid).1
        m
        uid
        j
        (archived_change (λ rec. record rec { state = pre_active }) (Dict.get m.keys uid))
unfolding recover
lookup-recover m uid j = elim (Option-cases (Dict.get m.keys uid)) [
  | inl missing ↦ ground (arith, eq_iff uid j)
  | inr (rec, found) ↦
      ground (arith, eq_iff uid j, get-put m.keys uid j (record rec { state = pre_active }))
]

-- The object that Rekey writes, if the machine has randomness for it.
abbrev pub rekeyed : Machine → ℕ → KeyRecord → KeyRecord
rekeyed machine n rec =
    if bad_length rec.bit_length
    then rec
    else elim (machine.rand_error n (pos_part rec.bit_length / 8)) [
      | some e ↦ rec
      | none ↦ record rec {
        material = some (machine.rand_bytes n (pos_part rec.bit_length / 8));
        version = inc_int rec.version;
      }
    ]

pub lookup-rekey :
    (machine : Machine) (n : ℕ) (m : MemoryStore) (uid j : String)
    → At (rekey machine n m uid).1 m uid j (live_change (rekeyed machine n) (Dict.get m.keys uid))
unfolding rekey
lookup-rekey machine n m uid j = elim (Option-cases (Dict.get m.keys uid)) [
  | inl missing ↦ ground (arith, eq_iff uid j)
  | inr (rec, found) ↦ ground (
    arith,
    eq_iff uid j,
    get-put m.keys uid j (record rec {
      material = some (machine.rand_bytes n (pos_part rec.bit_length / 8));
      version = inc_int rec.version;
    }),
  )
]

module _ (m : MemoryStore) (uid : String) (rec : KeyRecord) (found : get m uid ≡ some rec) where
  set_state-live :
      (change : KeyRecord → KeyRecord)
      → set_state change m uid ≡ (ok tt, overwrite m uid (change rec))
  unfolding set_state get
  set_state-live change = elim (Option-cases (Dict.get m.keys uid)) [
    | inl missing ↦ absurd (ground (arith, found))
    | inr (old, there) ↦
        let live : is_state old.state destroyed ≡ false = ground (arith, found) in
        let same : old ≡ rec = ground (arith, found) in rw (set_state, there, live, same) refl
  ]

  pub activate-live : activate m uid ≡ (ok tt, overwrite m uid (record rec { state = active }))
  unfolding activate
  activate-live = set_state-live _

  pub destroy-live :
      destroy m uid ≡ (ok tt, overwrite m uid (record rec { material = none; state = destroyed }))
  unfolding destroy
  destroy-live = set_state-live _

  pub revoke-live :
      (reason : ℤ)
      → revoke m uid reason
        ≡ (ok tt, overwrite m uid (record rec { state = revoked; revocation_reason = reason }))
  unfolding revoke
  revoke-live reason = set_state-live _
