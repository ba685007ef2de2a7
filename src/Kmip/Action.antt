-- ===== src/Kmip/Action.antt =====
-- How a handler runs: it reads and writes the store, and ends with the children of its response
-- payload, an error for the client, or a panic of the Go runtime. What was written stays written.
use open_kmip_server.Common.{ℕ, suc, String, Bool, true, false, Option, none, some}
use open_kmip_server.Common.Text.{cat}
use open_kmip_server.Common.Result.{Result, ok, err}

pub record World (S : Type 0) : Type 0 where
  pub store : S
  pub moment : ℕ

pub data Outcome (A : Type 0) : Type 0 where
  done : A → Outcome A
  fail : ℕ → String → Outcome A
  panic : Outcome A

abbrev pub Action : Type 0 → Type 0 → Type 0
Action S A = World S → Outcome A × World S

module _ {S A : Type 0} where
  unfoldable pub pure : A → Action S A
  pure a w = (done a, w)

  unfoldable pub reject : ℕ → String → Action S A
  reject reason message w = (fail reason message, w)

  -- if p == nil { return error }
  unfoldable pub require : Option A → ℕ → String → Action S A
  unfolding pure reject
  require none reason message = reject reason message
  require (some a) reason message = pure a

  -- if err != nil { return error with err.Error() }
  unfoldable pub or_fail : Result A → ℕ → Action S A
  unfolding pure reject
  or_fail (ok a) reason = pure a
  or_fail (err e) reason = reject reason e

  -- The same with a text in front of the error.
  unfoldable pub or_fail_as : Result A → ℕ → String → Action S A
  unfolding pure reject
  or_fail_as (ok a) reason prefix = pure a
  or_fail_as (err e) reason prefix = reject reason (cat prefix e)

  -- A call of a library that panics in place of a result.
  unfoldable pub or_panic : Option A → Action S A
  or_panic none w = (panic, w)
  or_panic (some a) w = (done a, w)

  -- A call that takes what the machine gives at the moment of the call.
  unfoldable pub draw : (ℕ → A) → Action S A
  draw f w = (done (f w.moment), record w { moment = suc w.moment })

  -- A call of the store that only reads.
  unfoldable pub read : (ℕ → S → A) → Action S A
  read f w = (done (f w.moment w.store), record w { moment = suc w.moment })

  -- A call of the store that can write.
  unfoldable pub write : (ℕ → S → Result A × S) → Action S (Result A)
  write f w =
      let (result, s) = f w.moment w.store in
      (done result, record { store = s; moment = suc w.moment })

module _ {S : Type 0} where
  -- if test { return error }
  unfoldable pub reject_if : Bool → ℕ → String → Action S (Unit {0})
  unfolding pure reject
  reject_if true reason message = reject reason message
  reject_if false reason message = pure tt

  -- if reason, msg, valid := verdict; !valid { return error }
  unfoldable pub check : ℕ × String × Bool → Action S (Unit {0})
  unfolding pure reject
  check (reason, message, true) = pure tt
  check (reason, message, false) = reject reason message

module _ {S A B : Type 0} where
  abbrev pub continue : Outcome A → (A → Action S B) → Action S B
  continue (done a) f w = f a w
  continue (fail reason message) f w = (fail reason message, w)
  continue panic f w = (panic, w)

  infixl 5 ◌>>=◌
  -- To unfold this is to unfold the actions above too.
  unfoldable pub ◌>>=◌ : Action S A → (A → Action S B) → Action S B
  unfolding pure reject require or_fail or_fail_as or_panic draw read write reject_if check
  ◌>>=◌ m f w = continue (m w).0 f (m w).1

infixl 5 ◌>>◌
abbrev pub ◌>>◌ : {S B : Type 0} → Action S (Unit {0}) → Action S B → Action S B
m >> k = m >>= λ _. k
