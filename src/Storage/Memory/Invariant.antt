-- ===== src/Storage/Memory/Invariant.antt =====
-- What holds of the memory store between two calls (internal/storage/memory.go).
use open_kmip_server.Common.{
  ℕ, suc, ◌+◌, ◌<◌, String, ◌≡◌, ◌≢◌, refl, none, some, List, [], ◌∷◌, arith, length, inl, inr, ◌∙◌,
}
use open_kmip_server.Common.Dict
use open_kmip_server.Common.Dict.{get-put_inv, get-empty}
use native.Mathlib.Nat.{add-zero, add-suc, suc-add}
use open_kmip_server.External.Machine.{Machine}
use open_kmip_server.Storage.Types.{
  KeyRecord, pre_active, unset, deactivated, destroyed, destroyed_compromised,
}
use open_kmip_server.Storage.Memory.{MemoryStore, new_memory_store}
use open_kmip_server.Storage.Memory.Calls.{Call, apply, run}
use open_kmip_server.Storage.Memory.Effects.{
  Effect, added, quiet, made, changed, Change, apply-Effect,
}

module _ (machine : Machine) where
  -- An object is filed under its own identifier, which was issued before moment n; it has a state that
  -- the program sets, and once destroyed it has no material.
  pub record IsFiled (n : ℕ) (uid : String) (rec : KeyRecord) : Type 0 where
    pub own_uid : rec.uid ≡ uid
    pub issued : (i : ℕ) × (i < n) × (uid ≡ machine.new_uuid i)
    pub is_set : rec.state ≢ unset
    pub never_deactivated : rec.state ≢ deactivated
    pub never_destroyed_compromised : rec.state ≢ destroyed_compromised
    pub wiped : rec.state ≡ destroyed → rec.material ≡ none

  abbrev pub IsValid : ℕ → MemoryStore → Type 0
  IsValid n m =
      (uid : String) (rec : KeyRecord) → Dict.get m.keys uid ≡ some rec → IsFiled n uid rec

  pub new_memory_store-IsValid : IsValid 0 new_memory_store
  unfolding new_memory_store
  new_memory_store-IsValid uid rec h = absurd (cc (get-empty {V = KeyRecord} uid))

  later : {n : ℕ} {uid : String} {rec : KeyRecord} → IsFiled n uid rec → IsFiled (suc n) uid rec
  later f = record {
    own_uid = f.own_uid;
    issued = (f.issued.0, omega (arith, f.issued.1), f.issued.2);
    is_set = f.is_set;
    never_deactivated = f.never_deactivated;
    never_destroyed_compromised = f.never_destroyed_compromised;
    wiped = f.wiped;
  }

  made-IsFiled :
      (n : ℕ) {new : KeyRecord}
      → new.uid ≡ machine.new_uuid n
      → new.state ≡ pre_active
      → IsFiled (suc n) new.uid new
  made-IsFiled n fresh state = record {
    own_uid = refl;
    issued = (n, omega arith, fresh);
    is_set = ground arith;
    never_deactivated = ground arith;
    never_destroyed_compromised = ground arith;
    wiped = ground arith;
  }

  Change-IsFiled :
      (n : ℕ) {uid : String} {old new : KeyRecord}
      → Change old new
      → IsFiled n uid old
      → IsFiled n uid new
  Change-IsFiled n c f = record {
    own_uid = c.same.uid ∙ f.own_uid;
    issued = f.issued;
    is_set = ground (arith, c, f);
    never_deactivated = ground (arith, c, f);
    never_destroyed_compromised = ground (arith, c, f);
    wiped = c.wiped;
  }

  Effect-IsValid :
      (n : ℕ) (m m' : MemoryStore) → IsValid n m → Effect machine n m m' → IsValid (suc n) m'
  Effect-IsValid n m m' v (added (quiet e)) uid rec h = later (v uid rec (rw e at h))
  Effect-IsValid n m m' v (added (made new fresh state e)) uid rec h =
      elim (get-put_inv m.keys new.uid uid new rec (rw e at h)) [
        | inl (k, w) ↦ rw (← k, ← w) (made-IsFiled n fresh state)
        | inr old ↦ later (v uid rec old)
      ]
  Effect-IsValid n m m' v (changed u old new found change e) uid rec h =
      elim (get-put_inv m.keys u uid new rec (rw e at h)) [
        | inl (k, w) ↦ rw (← k, ← w) (later (Change-IsFiled n change (v u old found)))
        | inr other ↦ later (v uid rec other)
      ]

  -- A store that is valid at a moment is valid later.
  pub later-IsValid : (n : ℕ) (m : MemoryStore) → IsValid n m → IsValid (suc n) m
  later-IsValid n m v uid rec h = later (v uid rec h)

  -- Every call, whatever it returns, keeps the store valid.
  pub apply-IsValid :
      (n : ℕ) (m : MemoryStore) (c : Call) → IsValid n m → IsValid (suc n) (apply machine n m c)
  apply-IsValid n m c v = Effect-IsValid n m (apply machine n m c) v (apply-Effect machine n m c)

  -- From a store that is valid at a moment, any sequence of calls leads to a store that is valid as many
  -- moments later: every object is filed under its own identifier, which was issued before, none is
  -- unset, deactivated or destroyed-compromised, and a destroyed object has no material.
  pub run-IsValid :
      (n : ℕ) (m : MemoryStore) (cs : List Call)
      → IsValid n m
      → IsValid (n + length cs) (run machine n m cs)
  unfolding run
  run-IsValid n m [] v = rw add-zero v
  run-IsValid n m (c ∷ cs) v =
      rw (add-suc, ← suc-add) (run-IsValid (suc n) (apply machine n m c) cs (apply-IsValid n m c v))
