-- ===== src/Startup/Yields.antt =====
-- What holds of the steps of main that do not stop the program (cmd/open-kmip/main.go).
use mathlib.Core.Path.{subst}
use open_kmip_server.Common.{String, ◌≡◌, refl, Bool, true, false, if◌then◌else◌}
use open_kmip_server.Startup.{Boot, ◌>>=◌, ◌>>◌, booted, fatal, crashed, fatal_if}

-- What holds of the end of a step, where it does not stop the program.
pub data Yields {A : Type 0} (P : A → Type 0) : Boot A → Type 0 where
  running : (a : A) → P a → Yields P (booted a)
  stopped : (e : String) → Yields P (fatal e)
  broken : Yields P crashed

pub Yields-bind :
    {A B : Type 0} {P : B → Type 0} {Q : A → Type 0} {first : Boot A} {next : A → Boot B}
    → Yields Q first
    → ((a : A) → Q a → Yields P (next a))
    → Yields P (first >>= next)
unfolding ◌>>=◌
Yields-bind (running a h) rest = rest a h
Yields-bind (stopped e) rest = stopped e
Yields-bind broken rest = broken

pub Yields-seq :
    {A B : Type 0} {P : B → Type 0} {Q : A → Type 0} {first : Boot A} {next : Boot B}
    → Yields Q first
    → ((a : A) → Q a → Yields P next)
    → Yields P (first >> next)
unfolding ◌>>◌
Yields-seq h rest = Yields-bind h rest

pub Yields-fatal_if : (b : Bool) (message : String) → Yields (λ _. b ≡ false) (fatal_if b message)
unfolding fatal_if
Yields-fatal_if true message = stopped message
Yields-fatal_if false message = running tt refl

pub Yields-any : {A : Type 0} (first : Boot A) → Yields (λ _. Unit {0}) first
Yields-any (booted a) = running a tt
Yields-any (fatal e) = stopped e
Yields-any crashed = broken

pub Yields-map :
    {A : Type 0} {P Q : A → Type 0} {first : Boot A}
    → ((a : A) → P a → Q a)
    → Yields P first
    → Yields Q first
Yields-map weaker (running a h) = running a (weaker a h)
Yields-map weaker (stopped e) = stopped e
Yields-map weaker broken = broken

pub Yields-else :
    {A : Type 0} {P : A → Type 0} (b : Bool) (x y : Boot A)
    → b ≡ false
    → Yields P y
    → Yields P (if b then x else y)
Yields-else b x y off h = rw off h

-- By the value that a step ends with.
ValueSatisfies : {A : Type 0} → (A → Type 0) → Boot A → Type 0
ValueSatisfies P (booted a) = P a
ValueSatisfies P (fatal e) = Unit
ValueSatisfies P crashed = Unit

satisfied : {A : Type 0} {P : A → Type 0} {first : Boot A} → Yields P first → ValueSatisfies P first
unfolding ValueSatisfies
satisfied (running a h) = h
satisfied (stopped e) = tt
satisfied broken = tt

pub Yields-booted :
    {A : Type 0} (P : A → Type 0) (first : Boot A) (a : A) → first ≡ booted a → Yields P first → P a
unfolding ValueSatisfies
Yields-booted P first a same h = subst (ValueSatisfies P) same (satisfied h)
