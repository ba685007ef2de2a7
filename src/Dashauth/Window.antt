-- ===== src/Dashauth/Window.antt =====
-- The attempts of the last minute, and how a round drops the others (internal/dashauth/dashauth.go).
use open_kmip_server.Common.{
  ℕ, ◌≤◌, String, ◌≡◌, ◌⊎◌, inl, inr, refl, List, [], ◌∷◌, ◌++◌, arith, length, str_eq, eq_iff,
  Bool-cases, Option-cases, if◌then◌else◌,
}
use open_kmip_server.Common.Dict
use open_kmip_server.Common.Dict.{Dict, get-put, get-delete, get-put_inv, get-empty}
use open_kmip_server.Dashauth.{new, recent, listed, keep_attempts, clean_attempts}

pub length-recent : (now : ℕ) (times : List ℕ) → length (recent now times) ≤ length times
unfolding recent
length-recent now [] = omega arith
length-recent now (at ∷ times) = ground (arith, length-recent now times)

pub recent-append :
    (now : ℕ) (times more : List ℕ)
    → recent now (times ++ more) ≡ recent now times ++ recent now more
unfolding recent
recent-append now [] more = refl
recent-append now (at ∷ times) more = ground (arith, recent-append now times more)

-- What was recent is all that can be recent later.
recent-recent :
    (before now : ℕ) (times : List ℕ)
    → before ≤ now
    → recent now (recent before times) ≡ recent now times
unfolding recent
recent-recent before now [] h = refl
recent-recent before now (at ∷ times) h = ground (arith, recent-recent before now times h)

-- A list of attempts after a round that may drop those that are not recent.
abbrev pub Prunes : ℕ → List ℕ → List ℕ → Type 0
Prunes now old new = (new ≡ old) ⊎ (new ≡ recent now old)

pub Prunes-recent :
    (before now : ℕ) (old new : List ℕ)
    → before ≤ now
    → Prunes before old new
    → recent now new ≡ recent now old
Prunes-recent before now old new h (inl same) = rw same refl
Prunes-recent before now old new h (inr cut) = rw cut (recent-recent before now old h)

pub Prunes-length : (now : ℕ) (old new : List ℕ) → Prunes now old new → length new ≤ length old
Prunes-length now old new (inl same) = rw same (omega arith)
Prunes-length now old new (inr cut) = rw cut (length-recent now old)

listed-keep_attempts :
    (attempts : Dict (List ℕ)) (ip other : String) (kept : List ℕ)
    → listed (Dict.get (keep_attempts attempts ip kept) other)
      ≡ (if str_eq ip other then kept else listed (Dict.get attempts other))
unfolding keep_attempts
listed-keep_attempts attempts ip other [] = ground (arith, get-delete attempts ip other)
listed-keep_attempts attempts ip other (at ∷ rest) =
    ground (arith, get-put attempts ip other (at ∷ rest))

pub clean_attempts-Prunes :
    (now : ℕ) (attempts : Dict (List ℕ)) (ips : List String) (ip : String)
    → Prunes now
        (listed (Dict.get attempts ip))
        (listed (Dict.get (clean_attempts now attempts ips) ip))
unfolding clean_attempts
clean_attempts-Prunes now attempts [] ip = inl refl
clean_attempts-Prunes now attempts (other ∷ ips) ip =
    elim (Option-cases (Dict.get attempts other)) [
      | inl missing ↦ rw (clean_attempts, missing) (clean_attempts-Prunes now attempts ips ip)
      | inr (old, found) ↦
          rw
            (
              clean_attempts,
              found,
              listed-keep_attempts (clean_attempts now attempts ips) other ip (recent now old),
            )
            (elim (Bool-cases (str_eq other ip)) [
              | inl same ↦
                  let there : other ≡ ip = (eq_iff other ip).0 same in
                  rw same (inr (rw (← there, found) refl))
              | inr apart ↦ rw apart (clean_attempts-Prunes now attempts ips ip)
            ])
    ]
