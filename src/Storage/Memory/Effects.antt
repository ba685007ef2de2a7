-- ===== src/Storage/Memory/Effects.antt =====
-- What one call does to the map of objects: nothing, a new object under a new identifier, or a change
-- of one object that is not destroyed.
use open_kmip_server.Common.{
  ℕ, ◌/◌, String, ◌≡◌, ◌≢◌, ◌⊎◌, inl, inr, refl, not, ◌&&◌, none, some, arith, ltb, Bool-cases,
  Option-cases,
}
use open_kmip_server.Common.Bytes.{Slice, contents}
use open_kmip_server.Common.Int.{ℤ, pos, pos_part, leb_ℤ, eq_ℤ, inc_int}
use open_kmip_server.Common.Result.{Result-cases}
use open_kmip_server.Common.Dict
use open_kmip_server.External.Machine.{Machine}
use open_kmip_server.Storage.Types.{
  KeyRecord, pre_active, active, compromised, destroyed, archived, is_state, max_derived_key_bytes,
}
use open_kmip_server.Storage.Memory.{
  MemoryStore, set_state, get, create, activate, destroy, register, revoke, rekey, archive, recover,
  derive_from, derive_key, bad_length, derived_length, set_custom_attribute,
  delete_custom_attribute,
}
use open_kmip_server.Storage.Memory.Calls.{
  Call, create_call, activate_call, destroy_call, rekey_call, archive_call, recover_call,
  register_call, revoke_call, derive_call, set_attribute_call, delete_attribute_call, apply,
}

-- The fields that no method writes once the object is stored.
pub record SameIdentity (old new : KeyRecord) : Type 0 where
  pub uid : new.uid ≡ old.uid
  pub name : new.name ≡ old.name
  pub object_type : new.object_type ≡ old.object_type
  pub algorithm : new.algorithm ≡ old.algorithm
  pub bit_length : new.bit_length ≡ old.bit_length
  pub usage_mask : new.usage_mask ≡ old.usage_mask
  pub owner : new.owner ≡ old.owner
  pub created_at : new.created_at ≡ old.created_at

-- A change of one object.
pub record Change (old new : KeyRecord) : Type 0 where
  pub live : old.state ≢ destroyed
  pub same : SameIdentity old new
  pub state :
      (new.state ≡ old.state)
      ⊎ (new.state ≡ pre_active)
      ⊎ (new.state ≡ active)
      ⊎ (new.state ≡ compromised)
      ⊎ (new.state ≡ archived)
      ⊎ (new.state ≡ destroyed)
  pub wiped : new.state ≡ destroyed → new.material ≡ none

module _ (machine : Machine) (n : ℕ) where
  -- No object changes, and one may be new.
  pub data Adds (m m' : MemoryStore) : Type 0 where
    quiet : m'.keys ≡ m.keys → Adds m m'
    made :
        (rec : KeyRecord)
        → rec.uid ≡ machine.new_uuid n
        → rec.state ≡ pre_active
        → m'.keys ≡ Dict.put m.keys rec.uid rec
        → Adds m m'

  pub data Effect (m m' : MemoryStore) : Type 0 where
    added : Adds m m' → Effect m m'
    changed :
        (uid : String) (old new : KeyRecord)
        → Dict.get m.keys uid ≡ some old
        → Change old new
        → m'.keys ≡ Dict.put m.keys uid new
        → Effect m m'

  -- The methods behind the common guard.
  set_state-Effect :
      (change : KeyRecord → KeyRecord) (m : MemoryStore) (uid : String)
      → ((rec : KeyRecord) → rec.state ≢ destroyed → Change rec (change rec))
      → Effect m (set_state change m uid).1
  unfolding set_state
  set_state-Effect change m uid legal = elim (Option-cases (Dict.get m.keys uid)) [
    | inl missing ↦ added (quiet (ground arith))
    | inr (rec, found) ↦ elim (Bool-cases (is_state rec.state destroyed)) [
      | inl gone ↦ added (quiet (ground arith))
      | inr here ↦ changed uid rec (change rec) found (legal rec (ground arith)) (ground arith)
    ]
  ]

  recover-Effect : (m : MemoryStore) (uid : String) → Effect m (recover m uid).1
  unfolding recover
  recover-Effect m uid = elim (Option-cases (Dict.get m.keys uid)) [
    | inl missing ↦ added (quiet (ground arith))
    | inr (rec, found) ↦ elim (Bool-cases (is_state rec.state archived)) [
      | inl there ↦
          changed uid rec (record rec { state = pre_active }) found (ground arith) (ground arith)
      | inr other ↦ added (quiet (ground arith))
    ]
  ]

  pub create-Adds :
      (m : MemoryStore) (name : String) (algorithm bit_length usage_mask : ℤ) (owner : String)
      → Adds m (create machine n m name algorithm bit_length usage_mask owner).1
  unfolding create
  create-Adds m name algorithm bit_length usage_mask owner =
      elim (Bool-cases (bad_length bit_length)) [
        | inl bad ↦ quiet (ground arith)
        | inr good ↦ elim (Option-cases (machine.rand_error n (pos_part bit_length / 8))) [
          | inl fine ↦ rw (good, fine) (made _ refl refl refl)
          | inr (e, failed) ↦ quiet (ground arith)
        ]
      ]

  pub register-Adds : (m : MemoryStore) (given : KeyRecord) → Adds m (register machine n m given).1
  unfolding register
  register-Adds m given =
      elim (Bool-cases
        (not (eq_ℤ given.object_type (pos 1)) && not (leb_ℤ (pos 0) given.bit_length))) [
          | inl bad ↦ quiet (rw bad)
          | inr good ↦ rw good (made _ refl refl refl)
        ]

  rekey-Effect : (m : MemoryStore) (uid : String) → Effect m (rekey machine n m uid).1
  unfolding rekey
  rekey-Effect m uid = elim (Option-cases (Dict.get m.keys uid)) [
    | inl missing ↦ added (quiet (ground arith))
    | inr (rec, found) ↦ elim (Bool-cases (is_state rec.state destroyed)) [
      | inl gone ↦ added (quiet (ground arith))
      | inr here ↦ elim (Bool-cases (bad_length rec.bit_length)) [
        | inl bad ↦ added (quiet (ground arith))
        | inr good ↦ elim (Option-cases (machine.rand_error n (pos_part rec.bit_length / 8))) [
          | inl fine ↦
              changed uid rec
                (record rec {
                  material = some (machine.rand_bytes n (pos_part rec.bit_length / 8));
                  version = inc_int rec.version;
                })
                found (ground arith) (ground arith)
          | inr (e, failed) ↦ added (quiet (ground arith))
        ]
      ]
    ]
  ]

  derive_from-Adds :
      (m : MemoryStore) (src : KeyRecord) (salt : Slice) (name : String) (bit_length : ℤ)
      → Adds m (derive_from machine n m src salt name bit_length).1
  unfolding derive_from
  derive_from-Adds m src salt name bit_length =
      elim (Bool-cases (ltb max_derived_key_bytes (derived_length bit_length))) [
        | inl long ↦ quiet (ground arith)
        | inr fits ↦
            elim (Result-cases (
              machine.hkdf (contents src.material) (contents salt) "kmip-derive"
                (derived_length bit_length))) [
                  | inl (bs, e) ↦ rw (fits, e) (made _ refl refl refl)
                  | inr (x, e) ↦ quiet (rw (fits, e) refl)
                ]
      ]

  pub derive_key-Adds :
      (m : MemoryStore) (uid : String) (salt : Slice) (name : String) (bit_length : ℤ)
      → Adds m (derive_key machine n m uid salt name bit_length).1
  unfolding derive_key
  derive_key-Adds m uid salt name bit_length = elim (Option-cases (get m uid)) [
    | inl missing ↦ quiet (rw (missing, derive_key))
    | inr (src, found) ↦ rw (found, derive_key) (derive_from-Adds m src salt name bit_length)
  ]

  pub set_custom_attribute-Adds :
      (m : MemoryStore) (uid name value : String) → Adds m (set_custom_attribute m uid name value).1
  unfolding set_custom_attribute
  set_custom_attribute-Adds m uid name value = quiet (ground arith)

  pub delete_custom_attribute-Adds :
      (m : MemoryStore) (uid name : String) → Adds m (delete_custom_attribute m uid name).1
  unfolding delete_custom_attribute
  delete_custom_attribute-Adds m uid name = quiet (ground arith)

  -- Every call, whether it succeeds or not, has one of the three effects.
  pub apply-Effect : (m : MemoryStore) (c : Call) → Effect m (apply machine n m c)
  unfolding apply activate destroy revoke archive
  apply-Effect m (create_call name algorithm bit_length usage_mask owner) =
      added (create-Adds m name algorithm bit_length usage_mask owner)
  apply-Effect m (activate_call uid) = set_state-Effect _ m uid (λ rec live. ground arith)
  apply-Effect m (destroy_call uid) = set_state-Effect _ m uid (λ rec live. ground arith)
  apply-Effect m (rekey_call uid) = rekey-Effect m uid
  apply-Effect m (archive_call uid) = set_state-Effect _ m uid (λ rec live. ground arith)
  apply-Effect m (recover_call uid) = recover-Effect m uid
  apply-Effect m (register_call rec) = added (register-Adds m rec)
  apply-Effect m (revoke_call uid reason) = set_state-Effect _ m uid (λ rec live. ground arith)
  apply-Effect m (derive_call uid salt name bit_length) =
      added (derive_key-Adds m uid salt name bit_length)
  apply-Effect m (set_attribute_call uid name value) =
      added (set_custom_attribute-Adds m uid name value)
  apply-Effect m (delete_attribute_call uid name) = added (delete_custom_attribute-Adds m uid name)
