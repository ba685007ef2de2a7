-- ===== src/Kmip/Answer.antt =====
-- The handlers of internal/kmip/handler.go never panic: each ends with a response item.
use open_kmip_server.Common.{
  ℕ, suc, String, Bool, true, false, ◌≡◌, ◌≢◌, refl, Option, none, some, List, arith, length,
  if◌then◌else◌,
}
use open_kmip_server.Common.Int.{ℤ}
use open_kmip_server.Common.Result.{Result, ok, err}
use open_kmip_server.Common.Bytes.{Bytes}
use open_kmip_server.External.Kmiplib.{Kmiplib}
use open_kmip_server.External.Crypto.{IsAead}
use open_kmip_server.External.Libraries.{Libraries}
use open_kmip_server.Kmip.Action.{
  World, Outcome, done, fail, panic, Action, pure, reject, require, or_fail, or_fail_as, or_panic,
  draw, read, write, reject_if, check, continue, ◌>>=◌,
}
use open_kmip_server.Kmip.Response.{respond, item_of}
pub mod Handlers
pub mod Requests
pub mod Audited

-- The action does not panic, wherever it starts.
pub record Calm {S A : Type 0} (m : Action S A) : Type 0 where
  pub at : (w : World S) → (m w).0 ≢ panic

-- The handler ends with a response item, wherever it starts.
pub record Answers {S A : Type 0} (m : Action S A) : Type 0 where
  pub at : (w : World S) → (a : A) × ((m w).0 ≡ done a)

module _ {S A : Type 0} where
  pub Calm-pure : (a : A) → Calm {S = S} (pure a)
  unfolding pure
  Calm-pure a = record { at = λ w. ground arith }

  pub Calm-reject : (reason : ℕ) (message : String) → Calm {S = S} {A = A} (reject reason message)
  unfolding reject
  Calm-reject reason message = record { at = λ w. ground arith }

  pub Calm-require :
      (o : Option A) (reason : ℕ) (message : String) → Calm {S = S} (require o reason message)
  unfolding require
  Calm-require none reason message = record { at = λ w. ground arith }
  Calm-require (some a) reason message = record { at = λ w. ground arith }

  pub Calm-or_fail : (r : Result A) (reason : ℕ) → Calm {S = S} (or_fail r reason)
  unfolding or_fail
  Calm-or_fail (ok a) reason = record { at = λ w. ground arith }
  Calm-or_fail (err e) reason = record { at = λ w. ground arith }

  pub Calm-or_fail_as :
      (r : Result A) (reason : ℕ) (prefix : String) → Calm {S = S} (or_fail_as r reason prefix)
  unfolding or_fail_as
  Calm-or_fail_as (ok a) reason prefix = record { at = λ w. ground arith }
  Calm-or_fail_as (err e) reason prefix = record { at = λ w. ground arith }

  -- A call that does not panic.
  pub Calm-or_panic : (o : Option A) → o ≢ none → Calm {S = S} (or_panic o)
  unfolding or_panic
  Calm-or_panic none total = absurd (total refl)
  Calm-or_panic (some a) total = record { at = λ w. ground arith }

  pub Calm-draw : (f : ℕ → A) → Calm {S = S} (draw f)
  unfolding draw
  Calm-draw f = record { at = λ w. ground arith }

  pub Calm-read : (f : ℕ → S → A) → Calm {S = S} (read f)
  unfolding read
  Calm-read f = record { at = λ w. ground arith }

  pub Calm-write : (f : ℕ → S → Result A × S) → Calm (write f)
  unfolding write
  Calm-write f = record { at = λ w. ground arith }

  pub Calm-if : (b : Bool) (m n : Action S A) → Calm m → Calm n → Calm (if b then m else n)
  Calm-if true m n p q = p
  Calm-if false m n p q = q

  pub Answers-if :
      (b : Bool) (m n : Action S A) → Answers m → Answers n → Answers (if b then m else n)
  Answers-if true m n p q = p
  Answers-if false m n p q = q

module _ {S : Type 0} where
  pub Calm-reject_if :
      (b : Bool) (reason : ℕ) (message : String) → Calm {S = S} (reject_if b reason message)
  unfolding reject_if
  Calm-reject_if true reason message = record { at = λ w. ground arith }
  Calm-reject_if false reason message = record { at = λ w. ground arith }

  pub Calm-check : (verdict : ℕ × String × Bool) → Calm {S = S} (check verdict)
  unfolding check
  Calm-check (reason, message, true) = record { at = λ w. ground arith }
  Calm-check (reason, message, false) = record { at = λ w. ground arith }

module _ {S A B : Type 0} where
  continue-Calm :
      (r : Outcome A) (f : A → Action S B) (v : World S)
      → r ≢ panic
      → ((a : A) → r ≡ done a → Calm (f a))
      → (continue r f v).0 ≢ panic
  continue-Calm (done a) f v calm h = (h a refl).at v
  continue-Calm (fail reason message) f v calm h = ground arith
  continue-Calm panic f v calm h = absurd (calm refl)

  -- The rest of the block may use what the first action returned.
  pub Calm-then :
      (m : Action S A) (f : A → Action S B)
      → Calm m
      → ((w : World S) (a : A) → (m w).0 ≡ done a → Calm (f a))
      → Calm (m >>= f)
  unfolding ◌>>=◌
  Calm-then m f km kf = record { at = λ w. continue-Calm (m w).0 f (m w).1 (km.at w) (kf w) }

  pub Calm-bind :
      (m : Action S A) (f : A → Action S B) → Calm m → ((a : A) → Calm (f a)) → Calm (m >>= f)
  Calm-bind m f km kf = Calm-then m f km (λ w a e. kf a)

-- A Seal with a nonce that is drawn for it.
module _ (l : Libraries) (aead : IsAead l.crypto) where
  pub Calm-seal :
      {A : Type 0} {S : Type 0} (gcm : l.Aead) (plain : Bytes) (f : Bytes → Bytes → Action S A)
      → ((n : ℕ) → length (l.machine.rand_bytes n (l.nonce_size gcm)) ≡ l.nonce_size gcm)
      → ((nonce ciphertext : Bytes) → Calm (f nonce ciphertext))
      → Calm (
          draw (λ n. l.machine.rand_bytes n (l.nonce_size gcm)) >>= λ nonce.
          or_panic (l.seal gcm nonce plain) >>= λ ciphertext. f nonce ciphertext)
  unfolding draw
  Calm-seal gcm plain f full rest = Calm-then _ _ (Calm-draw _) λ w nonce e.
      Calm-bind _ _
        (Calm-or_panic _ (aead.seal_total gcm nonce plain (ground (arith, full w.moment))))
        (rest nonce)

item_of-done :
    (lib : Kmiplib) (op : ℤ) (o : Outcome (List lib.Buffer))
    → o ≢ panic
    → (b : lib.Buffer) × (item_of lib op o ≡ done b)
item_of-done lib op (done children) calm = (_, refl)
item_of-done lib op (fail reason message) calm = (_, refl)
item_of-done lib op panic calm = absurd (calm refl)

pub Answers-respond :
    {S : Type 0}
    → (lib : Kmiplib) (op : ℤ) (m : Action S (List lib.Buffer)) → Calm m
    → Answers (respond lib op m)
unfolding respond
Answers-respond lib op m k = record { at = λ w. item_of-done lib op (m w).0 (k.at w) }

pub ruleset calm_rules = (
  Calm-pure, Calm-reject, Calm-require, Calm-or_fail, Calm-or_fail_as, Calm-draw, Calm-read,
  Calm-write, Calm-if, Calm-reject_if, Calm-check, Calm-bind, Answers-respond,
)
