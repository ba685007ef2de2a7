-- ===== src/Kmip/Refusals.antt =====
-- Archive and Recover (internal/kmip/handler.go) on the stores that calls of their methods lead to, in
-- memory and in a database.
use native.Mathlib.Nat.{add-zero, add-suc, suc-add}
use open_kmip_server.Common.{
  ℕ, suc, ◌+◌, String, Bool, true, false, ◌≡◌, ◌≢◌, refl, sym, ◌∙◌, Option, none, some, List, [],
  ◌∷◌, length, arith,
}
use open_kmip_server.Common.Int.{ℤ}
use open_kmip_server.External.Kmiplib.{Kmiplib}
use open_kmip_server.External.Libraries.{Libraries}
use open_kmip_server.Storage.Types.{KeyState, KeyRecord, deactivated, archived, visible}
use open_kmip_server.Common.Dict
use open_kmip_server.External.Machine.{Machine, IsSound}
use open_kmip_server.External.Database.{Driver, IsDriver, IsUp}
use open_kmip_server.Storage.Interface.{Storage}
use open_kmip_server.Storage.Tables.{Database}
use open_kmip_server.Storage.Sqlite
use open_kmip_server.Storage.Sqlite.{sqlite_storage}
use open_kmip_server.Storage.Refinement.{Matches, reread_object, get-Matches}
use open_kmip_server.Storage.Memory
use open_kmip_server.Storage.Memory.Calls.{Call, apply, run}
use open_kmip_server.Storage.Memory.Invariant.{run-IsValid, new_memory_store-IsValid}
use open_kmip_server.Storage.Memory.{MemoryStore, memory_storage, new_memory_store, get}
use open_kmip_server.Kmip.Action.{World, done, fail, Action, require, check, read, ◌>>=◌}
use open_kmip_server.Kmip.Lifecycle.{validate_state_transition}
use open_kmip_server.Kmip.Response.{respond, build_batch_item_error}
use open_kmip_server.Kmip.Handlers.Lifecycle.{handle_archive, handle_recover}
use open_kmip_server.Kmip.Trace.Safety.{IsSafe, MayArchive, apply-IsSafe, new_memory_store-IsSafe}

-- Started in w, the action ends with an error for the client and leaves the store as it is.
unfoldable pub FailsFrom : {S A : Type 0} → World S → Action S A → Type 0
FailsFrom w m =
    (reason : ℕ) × (message : String) × ((m w).0 ≡ fail reason message) × ((m w).1.store ≡ w.store)

-- Started in w, the handler answers an error and leaves the store as it is.
abbrev pub RefusesFrom : {S : Type 0} → (lib : Kmiplib) → ℤ → World S → Action S lib.Buffer → Type 0
RefusesFrom lib op w m =
    (reason : ℕ) × (message : String) × ((m w).0
      ≡ done (build_batch_item_error lib op reason message))
    × ((m w).1.store ≡ w.store)

module _ {S A B : Type 0} where
  pub FailsFrom-require :
      (o : Option A) (reason : ℕ) (message : String) (f : A → Action S B) (w : World S)
      → ((a : A) → o ≡ some a → FailsFrom w (f a))
      → FailsFrom w (require o reason message >>= f)
  unfolding ◌>>=◌ FailsFrom
  FailsFrom-require none reason message f w h = (reason, message, refl, refl)
  FailsFrom-require (some a) reason message f w h = h a refl

  pub FailsFrom-read :
      (g : ℕ → S → A) (f : A → Action S B) (w : World S)
      → FailsFrom (record w { moment = suc w.moment }) (f (g w.moment w.store))
      → FailsFrom w (read g >>= f)
  unfolding ◌>>=◌ FailsFrom
  FailsFrom-read g f w h = h

module _ {S B : Type 0} where
  pub FailsFrom-check :
      (verdict : ℕ × String × Bool) (f : Unit {0} → Action S B) (w : World S)
      → verdict.2 ≡ false
      → FailsFrom w (check verdict >>= f)
  unfolding ◌>>=◌ FailsFrom
  FailsFrom-check (reason, message, true) f w h = absurd (ground arith)
  FailsFrom-check (reason, message, false) f w h = (reason, message, refl, refl)

pub RefusesFrom-respond :
    {S : Type 0}
    → (lib : Kmiplib) (op : ℤ) (m : Action S (List lib.Buffer)) (w : World S) → FailsFrom w m
    → RefusesFrom lib op w (respond lib op m)
unfolding respond FailsFrom
RefusesFrom-respond lib op m w (reason, message, e, same) = (reason, message, rw e refl, same)

archive_refused :
    (s : KeyState) → s ≢ deactivated → (validate_state_transition s "Archive").2 ≡ false
unfolding validate_state_transition
archive_refused s h = ground arith

recover_refused : (s : KeyState) → s ≢ archived → (validate_state_transition s "Recover").2 ≡ false
unfolding validate_state_transition
recover_refused s h = ground arith

-- The calls of the store that are no archiving of other than deactivated objects, one after another.
abbrev pub AllMayArchive : Machine → ℕ → MemoryStore → List Call → Type 0
AllMayArchive machine n m [] = Unit
AllMayArchive machine n m (c ∷ calls) =
    MayArchive m c × AllMayArchive machine (suc n) (apply machine n m c) calls

run-IsSafe :
    (machine : Machine) (sound : IsSound machine) (n : ℕ) (m : MemoryStore) (calls : List Call)
    → IsSafe machine n m
    → AllMayArchive machine n m calls
    → IsSafe machine (n + length calls) (run machine n m calls)
unfolding run
run-IsSafe machine sound n m [] safe may = rw add-zero safe
run-IsSafe machine sound n m (c ∷ calls) safe (may, rest) =
    rw (add-suc, ← suc-add)
      (run-IsSafe machine sound (suc n) (apply machine n m c) calls
        (apply-IsSafe machine sound n m c safe may) rest)

-- On any store.
module _ (l : Libraries) (storage : Storage) (op : ℤ) (payload : Option l.Item)
    (w : World storage.State) where
  -- No object that Get shows is in the state.
  abbrev ShowsNo : KeyState → Type 0
  ShowsNo s =
      (n : ℕ) (uid : String) (rec : KeyRecord)
      → storage.get n w.store uid ≡ some rec
      → rec.state ≢ s

  archive-RefusesFrom :
      ShowsNo deactivated → RefusesFrom l.lib op w (handle_archive l storage op payload)
  unfolding handle_archive
  archive-RefusesFrom none_shown = RefusesFrom-respond l.lib op _ w (
      FailsFrom-require _ _ _ _ w λ p e₁. FailsFrom-require _ _ _ _ w λ uid_item e₂.
        FailsFrom-read _ _ w (
          FailsFrom-require _ _ _ _ _
            λ rec e₃. FailsFrom-check _ _ _ (archive_refused rec.state (none_shown _ _ rec e₃))))

  recover-RefusesFrom :
      ShowsNo archived → RefusesFrom l.lib op w (handle_recover l storage op payload)
  unfolding handle_recover
  recover-RefusesFrom none_shown = RefusesFrom-respond l.lib op _ w (
      FailsFrom-require _ _ _ _ w λ p e₁. FailsFrom-require _ _ _ _ w λ uid_item e₂.
        FailsFrom-read _ _ w (
          FailsFrom-require _ _ _ _ _
            λ rec e₃. FailsFrom-check _ _ _ (recover_refused rec.state (none_shown _ _ rec e₃))))

found-visible : (o : Option KeyRecord) (rec : KeyRecord) → visible o ≡ some rec → o ≡ some rec
found-visible none rec h = h
found-visible (some old) rec h = ground arith

-- What Get shows has the state of an object in the map.
get-held :
    (m : MemoryStore) (uid : String) (rec : KeyRecord) (s : KeyState)
    → ((j : String) (old : KeyRecord) → Dict.get m.keys j ≡ some old → old.state ≢ s)
    → get m uid ≡ some rec
    → rec.state ≢ s
unfolding get
get-held m uid rec s none_held h = none_held uid rec (found-visible _ rec h)

module _ (driver : Driver) where
  reread-state :
      (o : Option KeyRecord) (rec : KeyRecord)
      → reread_object driver o ≡ some rec
      → (old : KeyRecord) × (o ≡ some old) × (old.state ≡ rec.state)
  reread-state none rec h = absurd (ground (arith, h))
  reread-state (some old) rec h = (old, refl, ground (arith, h))

  -- The same for a database that holds what the map holds.
  sqlite-held :
      (laws : IsDriver driver) (up : (i : ℕ) → IsUp driver i) (db : Database) (m : MemoryStore)
      (n : ℕ) (uid : String) (rec : KeyRecord) (s : KeyState)
      → Matches driver db m
      → ((j : String) (old : KeyRecord) → Dict.get m.keys j ≡ some old → old.state ≢ s)
      → Sqlite.get driver n db uid ≡ some rec
      → rec.state ≢ s
  sqlite-held laws up db m n uid rec s matching none_held h is =
      let (old, found, same) =
        reread-state (Memory.get m uid) rec
          (sym (get-Matches driver laws n (up n) db m matching uid) ∙ h) in
      get-held m uid old s none_held found (same ∙ is)

module _ (l : Libraries) (op : ℤ) (payload : Option l.Item) (driver : Driver)
    (laws : IsDriver driver) (up : (i : ℕ) → IsUp driver i) (calls : List Call) (moment : ℕ)
    (db : Database) (matching : Matches driver db (run l.machine 0 new_memory_store calls)) where
  -- In a memory store to which any calls of its methods have led, those of KMIP requests and of REST
  -- requests among them, and in a database that holds the same and whose statements run: Archive answers
  -- an error, for every payload, and leaves the store as it is.
  pub handle_archive-RefusesFrom :
      RefusesFrom l.lib op
        (record { store = run l.machine 0 new_memory_store calls; moment = moment })
        (handle_archive l (memory_storage l.machine) op payload)
      × RefusesFrom l.lib op
          (record { store = db; moment = moment })
          (handle_archive l (sqlite_storage driver l.machine) op payload)
  handle_archive-RefusesFrom =
      let valid =
        run-IsValid l.machine 0 new_memory_store calls (new_memory_store-IsValid l.machine) in
      let none_held : (j : String) (old : KeyRecord)
          → Dict.get (run l.machine 0 new_memory_store calls).keys j ≡ some old
          → old.state ≢ deactivated =
        λ j old h. (valid j old h).never_deactivated in
      (
        archive-RefusesFrom l (memory_storage l.machine) op payload _
            (λ n uid rec. get-held _ uid rec deactivated none_held),
        archive-RefusesFrom l (sqlite_storage driver l.machine) op payload _
            (λ n uid rec. sqlite-held driver laws up db _ n uid rec deactivated matching none_held),
      )

  -- With sound sources of randomness: in a memory store to which calls of its methods have led among which each Archive found its object
  -- deactivated, as the handler of KMIP tests it and REST never calls it, and in a database that holds the
  -- same and whose statements run: Recover answers an error, for every payload, and leaves the store as it
  -- is.
  pub handle_recover-RefusesFrom :
      IsSound l.machine
      → AllMayArchive l.machine 0 new_memory_store calls
      → RefusesFrom l.lib op
          (record { store = run l.machine 0 new_memory_store calls; moment = moment })
          (handle_recover l (memory_storage l.machine) op payload)
        × RefusesFrom l.lib op
            (record { store = db; moment = moment })
            (handle_recover l (sqlite_storage driver l.machine) op payload)
  handle_recover-RefusesFrom sound may =
      let safe =
        run-IsSafe l.machine sound 0 new_memory_store calls (new_memory_store-IsSafe l.machine)
          may in
      (
        recover-RefusesFrom l (memory_storage l.machine) op payload _
            (λ n uid rec. get-held _ uid rec archived safe.never_archived),
        recover-RefusesFrom l (sqlite_storage driver l.machine) op payload _ (λ n uid rec.
            sqlite-held driver laws up db _ n uid rec archived matching safe.never_archived),
      )
