-- ===== src/Kmip/Trace/Rules.antt =====
-- Every way to build an action leaves a trace, so that the actions of the handlers do.
use open_kmip_server.Common.{
  ℕ, suc, String, Bool, true, false, ◌≡◌, refl, Option, none, some, List, if◌then◌else◌,
}
use open_kmip_server.Common.Int.{ℤ}
use open_kmip_server.Common.Bytes.{Slice}
use open_kmip_server.Common.Result.{Result, ok, err}
use open_kmip_server.External.Machine.{Machine}
use open_kmip_server.External.Kmiplib.{Kmiplib}
use open_kmip_server.Storage.Types.{KeyRecord}
use open_kmip_server.Storage.Memory.{
  MemoryStore, create, register, derive_key, set_custom_attribute, delete_custom_attribute,
}
use open_kmip_server.Storage.Memory.Calls.{
  Call, create_call, register_call, derive_call, set_attribute_call, delete_attribute_call, apply,
}
use open_kmip_server.Kmip.Action.{
  World, Outcome, done, fail, panic, Action, pure, reject, require, or_fail, or_fail_as, or_panic,
  draw, read, write, reject_if, check, continue, ◌>>=◌,
}
use open_kmip_server.Kmip.Response.{respond}
use open_kmip_server.Kmip.Trace.{IsLegal, Trace, here, wait, call, Trace-trans}

-- The action, started in w, only makes legal calls.
abbrev pub TraceFrom : {A : Type 0} → Machine → World MemoryStore → Action MemoryStore A → Type 0
TraceFrom machine w m = Trace machine w.moment w.store (m w).1.moment (m w).1.store

-- The action only makes legal calls, wherever it starts.
pub record Steps {A : Type 0} (machine : Machine) (m : Action MemoryStore A) : Type 0 where
  pub at : (w : World MemoryStore) → Trace machine w.moment w.store (m w).1.moment (m w).1.store

module _ {A : Type 0} {machine : Machine} where
  pub Steps-pure : (a : A) → Steps machine (pure a)
  unfolding pure
  Steps-pure a = record { at = λ w. here }

  pub Steps-reject : (reason : ℕ) (message : String) → Steps {A = A} machine (reject reason message)
  unfolding reject
  Steps-reject reason message = record { at = λ w. here }

  pub Steps-require :
      (o : Option A) (reason : ℕ) (message : String) → Steps machine (require o reason message)
  unfolding require
  Steps-require none reason message = record { at = λ w. here }
  Steps-require (some a) reason message = record { at = λ w. here }

  pub Steps-or_fail : (r : Result A) (reason : ℕ) → Steps machine (or_fail r reason)
  unfolding or_fail
  Steps-or_fail (ok a) reason = record { at = λ w. here }
  Steps-or_fail (err e) reason = record { at = λ w. here }

  pub Steps-or_fail_as :
      (r : Result A) (reason : ℕ) (prefix : String) → Steps machine (or_fail_as r reason prefix)
  unfolding or_fail_as
  Steps-or_fail_as (ok a) reason prefix = record { at = λ w. here }
  Steps-or_fail_as (err e) reason prefix = record { at = λ w. here }

  pub Steps-or_panic : (o : Option A) → Steps machine (or_panic o)
  unfolding or_panic
  Steps-or_panic none = record { at = λ w. here }
  Steps-or_panic (some a) = record { at = λ w. here }

  pub Steps-draw : (f : ℕ → A) → Steps machine (draw f)
  unfolding draw
  Steps-draw f = record { at = λ w. wait here }

  pub Steps-read : (f : ℕ → MemoryStore → A) → Steps machine (read f)
  unfolding read
  Steps-read f = record { at = λ w. wait here }

  pub Steps-if :
      (b : Bool) (m n : Action MemoryStore A)
      → Steps machine m
      → Steps machine n
      → Steps machine (if b then m else n)
  Steps-if true m n p q = p
  Steps-if false m n p q = q

module _ {machine : Machine} where
  pub Steps-reject_if :
      (b : Bool) (reason : ℕ) (message : String) → Steps machine (reject_if b reason message)
  unfolding reject_if
  Steps-reject_if true reason message = record { at = λ w. here }
  Steps-reject_if false reason message = record { at = λ w. here }

  pub Steps-check : (verdict : ℕ × String × Bool) → Steps machine (check verdict)
  unfolding check
  Steps-check (reason, message, true) = record { at = λ w. here }
  Steps-check (reason, message, false) = record { at = λ w. here }

module _ {A B : Type 0} {machine : Machine} where
  -- The rest of the block may use what the first action returned.
  pub TraceFrom-bind :
      (m : Action MemoryStore A) (f : A → Action MemoryStore B) (w : World MemoryStore)
      → TraceFrom machine w m
      → ((a : A) → (m w).0 ≡ done a → TraceFrom machine (m w).1 (f a))
      → TraceFrom machine w (m >>= f)
  unfolding ◌>>=◌
  TraceFrom-bind m f w km kf = Trace-trans km (go (m w).0 (m w).1 kf)
    where
      go :
          (r : Outcome A) (v : World MemoryStore)
          → ((a : A) → r ≡ done a → TraceFrom machine v (f a))
          → Trace machine v.moment v.store (continue r f v).1.moment (continue r f v).1.store
      go (done a) v h = h a refl
      go (fail reason message) v h = here
      go panic v h = here

  pub Steps-bind :
      (m : Action MemoryStore A) (f : A → Action MemoryStore B)
      → Steps machine m
      → ((a : A) → Steps machine (f a))
      → Steps machine (m >>= f)
  Steps-bind m f km kf = record {
    at = λ w. TraceFrom-bind m f w (km.at w) (λ a e. (kf a).at (m w).1);
  }

module _ {A B : Type 0} {machine : Machine} where
  pub TraceFrom-require :
      (o : Option A) (reason : ℕ) (message : String) (f : A → Action MemoryStore B)
      (w : World MemoryStore)
      → ((a : A) → o ≡ some a → TraceFrom machine w (f a))
      → TraceFrom machine w (require o reason message >>= f)
  unfolding ◌>>=◌
  TraceFrom-require none reason message f w h = here
  TraceFrom-require (some a) reason message f w h = h a refl

  pub TraceFrom-read :
      (g : ℕ → MemoryStore → A) (f : A → Action MemoryStore B) (w : World MemoryStore)
      → TraceFrom machine (record w { moment = suc w.moment }) (f (g w.moment w.store))
      → TraceFrom machine w (read g >>= f)
  unfolding ◌>>=◌
  TraceFrom-read g f w h = Trace-trans (wait here) h

  pub TraceFrom-write :
      (g : ℕ → MemoryStore → Result A × MemoryStore) (c : Call)
      (f : Result A → Action MemoryStore B) (w : World MemoryStore)
      → ((n : ℕ) (s : MemoryStore) → (g n s).1 ≡ apply machine n s c)
      → IsLegal w.store c
      → ((r : Result A) → Steps machine (f r))
      → TraceFrom machine w (write g >>= f)
  unfolding ◌>>=◌
  TraceFrom-write g c f w is_call legal rest =
      Trace-trans (rw is_call (call here c legal)) ((rest (g w.moment w.store).0).at _)

module _ {B : Type 0} {machine : Machine} where
  pub TraceFrom-check :
      (verdict : ℕ × String × Bool) (f : Unit {0} → Action MemoryStore B) (w : World MemoryStore)
      → (verdict.2 ≡ true → TraceFrom machine w (f tt))
      → TraceFrom machine w (check verdict >>= f)
  unfolding ◌>>=◌
  TraceFrom-check (reason, message, true) f w h = h refl
  TraceFrom-check (reason, message, false) f w h = here

module _ {machine : Machine} where
  pub Steps-respond :
      (lib : Kmiplib) (op : ℤ) (m : Action MemoryStore (List lib.Buffer))
      → Steps machine m
      → Steps machine (respond lib op m)
  unfolding respond
  Steps-respond lib op m k = record { at = k.at }

  pub Steps-create :
      (name : String) (algorithm bit_length usage_mask : ℤ) (owner : String)
      → Steps machine (write (λ n s. create machine n s name algorithm bit_length usage_mask owner))
  unfolding write apply
  Steps-create name algorithm bit_length usage_mask owner = record {
    at = λ w. call here (create_call name algorithm bit_length usage_mask owner) tt;
  }

  pub Steps-register : (rec : KeyRecord) → Steps machine (write (λ n s. register machine n s rec))
  unfolding write apply
  Steps-register rec = record { at = λ w. call here (register_call rec) tt }

  pub Steps-derive_key :
      (uid : String) (salt : Slice) (name : String) (bit_length : ℤ)
      → Steps machine (write (λ n s. derive_key machine n s uid salt name bit_length))
  unfolding write apply
  Steps-derive_key uid salt name bit_length = record {
    at = λ w. call here (derive_call uid salt name bit_length) tt;
  }

  pub Steps-set_custom_attribute :
      (uid name value : String)
      → Steps machine (write (λ n s. set_custom_attribute s uid name value))
  unfolding write apply
  Steps-set_custom_attribute uid name value = record {
    at = λ w. call here (set_attribute_call uid name value) tt;
  }

  pub Steps-delete_custom_attribute :
      (uid name : String) → Steps machine (write (λ n s. delete_custom_attribute s uid name))
  unfolding write apply
  Steps-delete_custom_attribute uid name = record {
    at = λ w. call here (delete_attribute_call uid name) tt;
  }

pub ruleset steps_rules = (
  Steps-pure, Steps-reject, Steps-require, Steps-or_fail, Steps-or_fail_as, Steps-or_panic,
  Steps-draw, Steps-read, Steps-if, Steps-reject_if, Steps-check, Steps-bind, Steps-respond,
  Steps-create, Steps-register, Steps-derive_key, Steps-set_custom_attribute,
  Steps-delete_custom_attribute,
)
