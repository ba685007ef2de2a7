-- ===== src/Dashauth/Logins.antt =====
-- How often an address fails to log in (internal/dashauth/dashauth.go).
use native.Mathlib.Nat.{add-zero, add-suc, suc-add}
use open_kmip_server.Common.{
  ℕ, suc, ◌+◌, ◌≤◌, String, Bool, true, false, ◌&&◌, ◌≡◌, inl, inr, refl, ◌∙◌, List, [], ◌∷◌, ◌++◌,
  arith, ◌==◌, length, length-append, str_eq, eq_iff, Bool-cases, Option-cases, if◌then◌else◌,
}
use open_kmip_server.Common.Bytes.{Bytes}
use open_kmip_server.Common.Dict
use open_kmip_server.Common.Dict.{Dict, get-put, get-delete, get-put_inv, get-empty}
use open_kmip_server.External.Machine.{Machine}
use open_kmip_server.Web.Http.{extract_ip}
use open_kmip_server.Dashauth.{
  DashAuth, AuthRequest, Reply, reply, panicked, new, is_dev_mode, token_bytes, recent, attempts_of,
  allow_login, record_failed_login, create_session, log_in, handle_login, handle_logout,
  handle_status, require_api_auth, cookie_session, valid_session, cleanup,
}
use open_kmip_server.Dashauth.Window.{
  length-recent, recent-append, Prunes, Prunes-recent, Prunes-length, clean_attempts-Prunes,
}
use open_kmip_server.Dashauth.Sessions.{Event, login, logout, status, gate, tick, step, run}

-- The list with one more time, where it is added.
abbrev added : Bool → ℕ → List ℕ → List ℕ
added true at times = times ++ at ∷ []
added false at times = times

abbrev pub is_unauthorized : Reply → Bool
is_unauthorized (reply response) = response.status == 401
is_unauthorized (panicked e) = false

module _ (machine : Machine) (encode_hex : Bytes → String) where
  -- A login from the address that is answered with 401.
  abbrev pub is_failure : ℕ → DashAuth → String → Event → Bool
  is_failure n d ip (login r) =
      str_eq (extract_ip r.remote_addr) ip
      && is_unauthorized (handle_login machine encode_hex n d r).0
  is_failure n d ip _ = false

  -- The times of all failed logins from the address, after the times seen before.
  unfoldable pub failures : ℕ → DashAuth → List Event → String → List ℕ → List ℕ
  failures n d [] ip seen = seen
  failures n d (e ∷ events) ip seen =
      failures (suc n) (step machine encode_hex n d e) events ip
        (added (is_failure n d ip e) (machine.now n) seen)

  attempts-log_in :
      (n : ℕ) (d : DashAuth) (r : AuthRequest) (ip : String)
      → attempts_of (log_in machine encode_hex n d r).1 ip
        ≡ added
            (str_eq (extract_ip r.remote_addr) ip
              && is_unauthorized (log_in machine encode_hex n d r).0)
            (machine.now n)
            (attempts_of d ip)
  unfolding log_in create_session record_failed_login
  attempts-log_in n d r ip = elim (Option-cases r.body_api_key) [
    | inl missing ↦ rw (log_in, missing) (ground arith)
    | inr (key, given) ↦ elim (Bool-cases (str_eq key d.api_key)) [
      | inr wrong ↦
          rw (log_in, given, wrong)
            (ground (
              arith,
              eq_iff (extract_ip r.remote_addr) ip,
              get-put d.login_attempts (extract_ip r.remote_addr) ip
                  (attempts_of d (extract_ip r.remote_addr) ++ machine.now n ∷ []),
            ))
      | inl right ↦ elim (Option-cases (machine.rand_error n token_bytes)) [
        | inr (e, broken) ↦ rw (log_in, given, right, broken) (ground arith)
        | inl fine ↦ rw (log_in, given, right, fine) (ground arith)
      ]
    ]
  ]

  attempts-allow_login :
      (now : ℕ) (d : DashAuth) (own ip : String)
      → attempts_of (allow_login now d own).1 ip
        ≡ (if str_eq own ip then recent now (attempts_of d ip) else attempts_of d ip)
  unfolding allow_login
  attempts-allow_login now d own ip =
      ground
        (arith, eq_iff own ip, get-put d.login_attempts own ip (recent now (attempts_of d own)))

  allow_login-Prunes :
      (now : ℕ) (d : DashAuth) (own ip : String)
      → Prunes now (attempts_of d ip) (attempts_of (allow_login now d own).1 ip)
  allow_login-Prunes now d own ip = elim (Bool-cases (str_eq own ip)) [
    | inl same ↦ inr (rw (attempts-allow_login now d own ip, same) refl)
    | inr apart ↦ inl (rw (attempts-allow_login now d own ip, apart) refl)
  ]

  -- What an event makes of the attempts of an address.
  abbrev Moves : ℕ → DashAuth → Event → String → Type 0
  Moves n d e ip =
      (kept : List ℕ) × Prunes (machine.now n) (attempts_of d ip) kept
      × (attempts_of (step machine encode_hex n d e) ip
          ≡ added (is_failure n d ip e) (machine.now n) kept)
      × (is_failure n d ip e ≡ true → length kept ≤ 4)

  allowed-few :
      (n : ℕ) (d : DashAuth) (own ip : String) (b : Bool)
      → (allow_login (machine.now n) d own).0 ≡ true
      → (str_eq own ip && b) ≡ true
      → length (attempts_of (allow_login (machine.now n) d own).1 ip) ≤ 4
  unfolding allow_login
  allowed-few n d own ip b allowed same = ground (
    arith,
    eq_iff own ip,
    get-put d.login_attempts own ip (recent (machine.now n) (attempts_of d own)),
  )

  login-Moves : (n : ℕ) (d : DashAuth) (r : AuthRequest) (ip : String) → Moves n d (login r) ip
  unfolding step handle_login
  login-Moves n d r ip = elim (Bool-cases (is_dev_mode d)) [
    | inl dev ↦ (
      attempts_of d ip,
      inl refl,
      rw (step, handle_login, dev) (ground arith),
      rw (handle_login, dev) (λ failed. ground arith),
    )
    | inr guarded ↦ elim (Bool-cases (allow_login (machine.now n) d (extract_ip r.remote_addr)).0) [
      | inl allowed ↦ (
        attempts_of (allow_login (machine.now n) d (extract_ip r.remote_addr)).1 ip,
        allow_login-Prunes (machine.now n) d (extract_ip r.remote_addr) ip,
        rw (step, handle_login, guarded, allowed)
            (attempts-log_in n (allow_login (machine.now n) d (extract_ip r.remote_addr)).1 r ip),
        λ failed. allowed-few n d (extract_ip r.remote_addr) ip _ allowed failed,
      )
      | inr blocked ↦ (
        attempts_of (allow_login (machine.now n) d (extract_ip r.remote_addr)).1 ip,
        allow_login-Prunes (machine.now n) d (extract_ip r.remote_addr) ip,
        rw (step, handle_login, guarded, blocked) (ground arith),
        rw (handle_login, guarded, blocked) (λ failed. ground arith),
      )
    ]
  ]

  step-Moves : (n : ℕ) (d : DashAuth) (e : Event) (ip : String) → Moves n d e ip
  unfolding step handle_logout handle_status require_api_auth cookie_session valid_session cleanup
  step-Moves n d (login r) ip = login-Moves n d r ip
  step-Moves n d (logout r) ip =
      (attempts_of d ip, inl refl, ground arith, λ failed. ground (arith, failed))
  step-Moves n d (status r) ip =
      (attempts_of d ip, inl refl, ground arith, λ failed. ground (arith, failed))
  step-Moves n d (gate r) ip =
      (attempts_of d ip, inl refl, ground arith, λ failed. ground (arith, failed))
  step-Moves n d tick ip = (
    _,
    clean_attempts-Prunes (machine.now n) d.login_attempts
        (machine.map_order n (Dict.keys d.login_attempts)) ip,
    refl,
    λ failed. ground (arith, failed),
  )

  -- The attempts of an address are few, and those that can count later are its failures.
  record Counts (n : ℕ) (d : DashAuth) (ip : String) (seen : List ℕ) : Type 0 where
    few : length (attempts_of d ip) ≤ 5
    same : (now : ℕ) → machine.now n ≤ now → recent now (attempts_of d ip) ≡ recent now seen

  recent-added :
      (now : ℕ) (b : Bool) (at : ℕ) (xs ys : List ℕ)
      → recent now xs ≡ recent now ys
      → recent now (added b at xs) ≡ recent now (added b at ys)
  recent-added now true at xs ys h =
      rw (recent-append now xs (at ∷ []), recent-append now ys (at ∷ []), h) refl
  recent-added now false at xs ys h = h

  length-added :
      (b : Bool) (at : ℕ) (xs : List ℕ)
      → length xs ≤ 5
      → (b ≡ true → length xs ≤ 4)
      → length (added b at xs) ≤ 5
  length-added true at xs h few = omega (arith, length-append xs (at ∷ []), few refl)
  length-added false at xs h few = h

  module _ (steady : (i : ℕ) → machine.now i ≤ machine.now (suc i)) where
    step-Counts :
        (n : ℕ) (d : DashAuth) (e : Event) (ip : String) (seen : List ℕ)
        → Counts n d ip seen
        → Counts
            (suc n)
            (step machine encode_hex n d e)
            ip
            (added (is_failure n d ip e) (machine.now n) seen)
    step-Counts n d e ip seen c =
        let (kept, prunes, moved, room) = step-Moves n d e ip in
        record {
          few = rw moved (
              length-added (is_failure n d ip e) (machine.now n) kept
                (omega (arith, c.few, Prunes-length (machine.now n) (attempts_of d ip) kept prunes))
                room);
          same = λ now later. rw moved (
              recent-added now (is_failure n d ip e) (machine.now n) kept seen (
                Prunes-recent (machine.now n) now (attempts_of d ip) kept
                  (omega (arith, later, steady n)) prunes
                ∙ c.same now (omega (arith, later, steady n))));
        }

    run-Counts :
        (n : ℕ) (d : DashAuth) (events : List Event) (ip : String) (seen : List ℕ)
        → Counts n d ip seen
        → Counts
            (n + length events)
            (run machine encode_hex n d events)
            ip
            (failures n d events ip seen)
    unfolding run failures
    run-Counts n d [] ip seen c = rw add-zero c
    run-Counts n d (e ∷ events) ip seen c =
        rw (add-suc, ← suc-add)
          (run-Counts (suc n) (step machine encode_hex n d e) events ip _
            (step-Counts n d e ip seen c))

    -- With a clock that does not go back: after any requests and rounds of the cleanup, in any order, on
    -- a new DashAuth, at most five of the logins from one address that were answered with 401 lie in the
    -- last minute, counted from any time not before the last moment.
    pub failures-bounded :
        (key : String) (tls : Bool) (events : List Event) (ip : String) (now : ℕ)
        → machine.now (0 + length events) ≤ now
        → length (recent now (failures 0 (new key tls) events ip [])) ≤ 5
    unfolding new
    failures-bounded key tls events ip now later =
        let c = run-Counts 0 (new key tls) events ip [] (record {
          few = ground (arith, get-empty {V = List ℕ} ip);
          same = λ now since. ground (arith, get-empty {V = List ℕ} ip);
        }) in
        rw (← c.same now later) (
          omega (
            arith,
            c.few,
            length-recent now (attempts_of (run machine encode_hex 0 (new key tls) events) ip),
          ))
