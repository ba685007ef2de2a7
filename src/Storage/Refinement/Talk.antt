-- ===== src/Storage/Refinement/Talk.antt =====
-- A client cannot tell the database from the maps (internal/storage/sqlite.go,
-- internal/storage/memory.go).
use open_kmip_server.Common.{
  ℕ, suc, String, ◌≡◌, refl, ap, some, List, [], ◌∷◌, Option-cases, inl, inr,
}
use mathlib.Core.Path.{ap₂}
use open_kmip_server.Common.Bytes.{contents}
use open_kmip_server.Common.Result.{Result, is_ok}
use open_kmip_server.Common.Dict
use open_kmip_server.External.Machine.{Machine, IsSound}
use open_kmip_server.External.Database.{Driver, IsDriver, IsUp}
use open_kmip_server.Storage.Tables.{Database, row_with}
use open_kmip_server.Storage.Memory.{MemoryStore, memory_storage}
use open_kmip_server.Storage.Memory
use open_kmip_server.Storage.Memory.Calls.{
  Call, create_call, activate_call, destroy_call, rekey_call, archive_call, recover_call,
  register_call, revoke_call, derive_call, set_attribute_call, delete_attribute_call, apply,
}
use open_kmip_server.Storage.Memory.Invariant.{IsValid, apply-IsValid, later-IsValid}
use open_kmip_server.Storage.Sqlite
use open_kmip_server.Storage.Sqlite.{sqlite_storage}
use open_kmip_server.Storage.Conversation.{
  Ask, write, read_object, read_attributes, read_custom_attributes, finished, told_object,
  told_attributes, call, finish, make, answer, talk,
}
use open_kmip_server.Storage.Refinement.{
  Matches, Agree, get-Matches, told-reread, update_one-set_state, recover-Agree,
}
use open_kmip_server.Storage.Refinement.Making.{
  create-Agree, register-Agree, rekey-Agree, derive_key-Agree,
}

module _ (driver : Driver) where
  -- The driver binds the material that a caller registers as its bytes, and not as NULL.
  abbrev pub IsStorable : Ask → Type 0
  IsStorable (write (register_call rec)) =
      driver.bind_blob rec.material ≡ some (contents rec.material)
  IsStorable _ = Unit

  abbrev pub AllStorable : List Ask → Type 0
  AllStorable [] = Unit
  AllStorable (a ∷ asks) = IsStorable a × AllStorable asks

  finish-Agree :
      (x : Result (Unit {0}) × Database) (y : Result (Unit {0}) × MemoryStore)
      → Agree driver x y
      → Agree driver (finished (is_ok x.0), x.1) (finished (is_ok y.0), y.1)
  finish-Agree x y h = (ap (λ r. finished (is_ok r)) h.0, h.1)

  module _ (laws : IsDriver driver) (n : ℕ) (up : IsUp driver n) (db : Database) (m : MemoryStore)
      (matching : Matches driver db m) where
    set-Agree :
        (uid name value : String)
        → Agree driver
            (Sqlite.set_custom_attribute driver n db uid name value)
            (Memory.set_custom_attribute m uid name value)
    unfolding Sqlite.set_custom_attribute Memory.set_custom_attribute Sqlite.attributes_of
    set-Agree uid name value =
        rw (Sqlite.set_custom_attribute, get-Matches driver laws n up db m matching uid)
          (elim (Option-cases (Memory.get m uid)) [
            | inl missing ↦ rw (Memory.set_custom_attribute, missing) (refl, matching)
            | inr (rec, found) ↦
                rw (Memory.set_custom_attribute, found, up.writes)
                  (refl, record { keys = matching.keys; attributes = rw matching.attributes refl })
          ])

    delete-Agree :
        (uid name : String)
        → Agree driver
            (Sqlite.delete_custom_attribute driver n db uid name)
            (Memory.delete_custom_attribute m uid name)
    unfolding Sqlite.delete_custom_attribute Memory.delete_custom_attribute
    delete-Agree uid name =
        rw (Sqlite.delete_custom_attribute, get-Matches driver laws n up db m matching uid)
          (elim (Option-cases (Memory.get m uid)) [
            | inl missing ↦ rw (Memory.delete_custom_attribute, missing) (refl, matching)
            | inr (rec, found) ↦
                rw (Memory.delete_custom_attribute, found, up.writes, matching.attributes)
                  (elim (Option-cases (Dict.get m.attrs uid)) [
                    | inl bare ↦ rw bare (refl, matching)
                    | inr (a, there) ↦ rw there (
                      refl,
                      record { keys = matching.keys; attributes = rw matching.attributes refl },
                    )
                  ])
          ])

    read-Agree :
        (uid : String) → told_object (Sqlite.get driver n db uid) ≡ told_object (Memory.get m uid)
    read-Agree uid =
        rw (get-Matches driver laws n up db m matching uid)
          (elim (Option-cases (Memory.get m uid)) [
            | inl missing ↦ rw missing refl
            | inr (rec, found) ↦ rw (found, told-reread driver laws rec) refl
          ])

    attributes-Agree :
        (uid : String)
        → Sqlite.get_custom_attributes driver n db uid ≡ Memory.get_custom_attributes m uid
    unfolding Sqlite.get_custom_attributes Memory.get_custom_attributes Sqlite.attributes_of
    attributes-Agree uid =
        rw (Sqlite.get_custom_attributes, get-Matches driver laws n up db m matching uid)
          (elim (Option-cases (Memory.get m uid)) [
            | inl missing ↦ rw (Memory.get_custom_attributes, missing) refl
            | inr (rec, found) ↦
                rw (Memory.get_custom_attributes, found, up.queries, matching.attributes) refl
          ])

    module _ (machine : Machine) (sound : IsSound machine) (valid : IsValid machine n m) where
      call-Agree :
          (c : Call)
          → IsStorable (write c)
          → Agree driver
              (call (sqlite_storage driver machine) n db c)
              (call (memory_storage machine) n m c)
      unfolding call finish make Sqlite.activate Memory.activate Sqlite.destroy Memory.destroy
          Sqlite.revoke Memory.revoke Sqlite.archive Memory.archive row_with
      call-Agree (create_call name algorithm bit_length usage_mask owner) storable =
          create-Agree driver laws n up db m matching machine sound valid name algorithm bit_length
            usage_mask owner
      call-Agree (register_call rec) storable =
          register-Agree driver laws n up db m matching machine sound valid rec storable
      call-Agree (rekey_call uid) storable = rekey-Agree driver laws n up db m matching machine uid
      call-Agree (derive_call uid salt name bit_length) storable =
          derive_key-Agree driver laws n up db m matching machine sound valid uid salt name
            bit_length
      call-Agree (activate_call uid) storable =
          finish-Agree _ _ (update_one-set_state driver n up db m matching _ uid _ _ (λ rec. refl))
      call-Agree (destroy_call uid) storable =
          finish-Agree _ _ (update_one-set_state driver n up db m matching _ uid _ _ (λ rec. refl))
      call-Agree (archive_call uid) storable =
          finish-Agree _ _ (update_one-set_state driver n up db m matching _ uid _ _ (λ rec. refl))
      call-Agree (revoke_call uid reason) storable =
          finish-Agree _ _ (update_one-set_state driver n up db m matching _ uid _ _ (λ rec. refl))
      call-Agree (recover_call uid) storable =
          finish-Agree _ _ (recover-Agree driver n up db m matching uid)
      call-Agree (set_attribute_call uid name value) storable =
          finish-Agree _ _ (set-Agree uid name value)
      call-Agree (delete_attribute_call uid name) storable =
          finish-Agree _ _ (delete-Agree uid name)

      answer-Agree :
          (a : Ask)
          → IsStorable a
          → Agree driver
              (answer (sqlite_storage driver machine) n db a)
              (answer (memory_storage machine) n m a)
      unfolding answer
      answer-Agree (write c) storable = call-Agree c storable
      answer-Agree (read_object uid) storable = (read-Agree uid, matching)
      answer-Agree (read_attributes uid) storable = (read-Agree uid, matching)
      answer-Agree (read_custom_attributes uid) storable =
          (ap told_attributes (attributes-Agree uid), matching)

-- A call through the interface leaves the store that the method leaves.
call-apply :
    (machine : Machine) (n : ℕ) (m : MemoryStore) (c : Call)
    → (call (memory_storage machine) n m c).1 ≡ apply machine n m c
unfolding call finish make apply
call-apply machine n m (create_call name algorithm bit_length usage_mask owner) = refl
call-apply machine n m (register_call rec) = refl
call-apply machine n m (rekey_call uid) = refl
call-apply machine n m (derive_call uid salt name bit_length) = refl
call-apply machine n m (activate_call uid) = refl
call-apply machine n m (destroy_call uid) = refl
call-apply machine n m (archive_call uid) = refl
call-apply machine n m (revoke_call uid reason) = refl
call-apply machine n m (recover_call uid) = refl
call-apply machine n m (set_attribute_call uid name value) = refl
call-apply machine n m (delete_attribute_call uid name) = refl

answer-IsValid :
    (machine : Machine) (n : ℕ) (m : MemoryStore) (a : Ask)
    → IsValid machine n m
    → IsValid machine (suc n) (answer (memory_storage machine) n m a).1
unfolding answer
answer-IsValid machine n m (write c) valid =
    rw (call-apply machine n m c) (apply-IsValid machine n m c valid)
answer-IsValid machine n m (read_object uid) valid = later-IsValid machine n m valid
answer-IsValid machine n m (read_attributes uid) valid = later-IsValid machine n m valid
answer-IsValid machine n m (read_custom_attributes uid) valid = later-IsValid machine n m valid

module _ (driver : Driver) (laws : IsDriver driver) (up : (i : ℕ) → IsUp driver i)
    (machine : Machine) (sound : IsSound machine) where
  -- With a database whose statements all run, and a driver and a machine that keep their laws: from
  -- tables that hold what a valid memory store holds, the store on the database gives to any sequence
  -- of requests (the calls that write, and reads of an object or of its attributes) the answers of the
  -- memory store, where no call registers material that the driver binds as NULL. Answers are compared
  -- up to the text of errors and up to nil against empty material.
  pub talk-refines :
      (n : ℕ) (db : Database) (m : MemoryStore) (asks : List Ask)
      → Matches driver db m
      → IsValid machine n m
      → AllStorable driver asks
      → talk (sqlite_storage driver machine) n db asks ≡ talk (memory_storage machine) n m asks
  unfolding talk
  talk-refines n db m [] matching valid storable = refl
  talk-refines n db m (a ∷ asks) matching valid storable =
      let step = answer-Agree driver laws n (up n) db m matching machine sound valid a storable.0 in
      ap₂ ◌∷◌ step.0
        (talk-refines (suc n) _ _ asks step.1 (answer-IsValid machine n m a valid) storable.1)
