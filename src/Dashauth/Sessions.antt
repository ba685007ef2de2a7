-- ===== src/Dashauth/Sessions.antt =====
-- The sessions that requests leave behind, in any order (internal/dashauth/dashauth.go).
use open_kmip_server.Common.{
  ℕ, suc, ◌+◌, ◌≤◌, String, Bool, true, false, ◌||◌, ◌≡◌, ◌⊎◌, inl, inr, refl, sym, ap, ◌∙◌, Option,
  none, some, List, [], ◌∷◌, arith, str_eq, eq_iff, Bool-cases, Option-cases,
}
use open_kmip_server.Common.Bytes.{Bytes}
use open_kmip_server.Common.Dict
use open_kmip_server.Common.Dict.{Dict, get-put, get-delete, get-put_inv, get-empty}
use open_kmip_server.External.Machine.{Machine}
use open_kmip_server.Web.Http.{extract_ip}
use open_kmip_server.Dashauth.{
  DashAuth, Session, AuthRequest, new, is_dev_mode, bearer_matches, session_duration, token_bytes,
  token_at, allow_login, record_failed_login, create_session, log_in, handle_login, handle_logout,
  handle_status, require_api_auth, cookie_session, valid_session, clean_sessions, cleanup,
}

-- What happens at one moment: a request to a handler or through the gate, or a round of the cleanup.
pub data Event : Type 0 where
  login logout status gate : AuthRequest → Event
  tick : Event

module _ (machine : Machine) (encode_hex : Bytes → String) where
  unfoldable pub step : ℕ → DashAuth → Event → DashAuth
  step n d (login r) = (handle_login machine encode_hex n d r).1
  step n d (logout r) = (handle_logout d r).1
  step n d (status r) = (handle_status (machine.now n) d r).1
  step n d (gate r) = (require_api_auth (machine.now n) d r).1
  step n d tick = cleanup machine n d

  -- The events from moment n on.
  unfoldable pub run : ℕ → DashAuth → List Event → DashAuth
  unfolding step
  run n d [] = d
  run n d (e ∷ events) = run (suc n) (step n d e) events

  -- A login with the API key at moment n, which makes the token and its expiry.
  abbrev IsLogin : ℕ → String → Event → String → ℕ → Type 0
  IsLogin n key (login r) token expires =
      (r.body_api_key ≡ some key)
      × (token ≡ token_at machine encode_hex n)
      × (expires ≡ machine.now n + session_duration)
  IsLogin n key _ token expires = ⊥

  abbrev StaysIn : String → Event → Type 0
  StaysIn token (logout r) = r.cookie ≡ some token → ⊥
  StaysIn token _ = Unit

  -- No event logs the token out.
  abbrev NoLogout : String → List Event → Type 0
  NoLogout token [] = Unit
  NoLogout token (e ∷ events) = StaysIn token e × NoLogout token events

  -- One of the events, from moment n on, is a login with the key that made the token, and none after it
  -- logs the token out.
  abbrev pub LoggedIn : ℕ → String → List Event → String → ℕ → Type 0
  LoggedIn n key [] token expires = ⊥
  LoggedIn n key (e ∷ events) token expires =
      (IsLogin n key e token expires × NoLogout token events)
      ⊎ LoggedIn (suc n) key events token expires

  -- Where a session under a token comes from.
  abbrev From : ℕ → DashAuth → Event → String → Session → Type 0
  From n d e token session =
      ((Dict.get d.sessions token ≡ some session) × StaysIn token e)
      ⊎ IsLogin n d.api_key e token session.expires_at

  kept-cookie_session :
      (now : ℕ) (d : DashAuth) (cookie : Option String) (token : String) (session : Session)
      → Dict.get (cookie_session now d cookie).1.sessions token ≡ some session
      → Dict.get d.sessions token ≡ some session
  unfolding cookie_session valid_session
  kept-cookie_session now d none token session h = h
  kept-cookie_session now d (some other) token session h =
      ground (arith, eq_iff other token, get-delete d.sessions other token)

  kept-clean_sessions :
      (now : ℕ) (sessions : Dict Session) (tokens : List String) (token : String)
      (session : Session)
      → Dict.get (clean_sessions now sessions tokens) token ≡ some session
      → Dict.get sessions token ≡ some session
  unfolding clean_sessions
  kept-clean_sessions now sessions [] token session h = h
  kept-clean_sessions now sessions (t ∷ tokens) token session h =
      kept-clean_sessions now sessions tokens token session
        (ground (arith, eq_iff t token, get-delete (clean_sessions now sessions tokens) t token))

  From-log_in :
      (n : ℕ) (d : DashAuth) (r : AuthRequest) (token : String) (session : Session)
      → Dict.get (log_in machine encode_hex n d r).1.sessions token ≡ some session
      → From n d (login r) token session
  unfolding log_in create_session record_failed_login
  From-log_in n d r token session h = elim (Option-cases r.body_api_key) [
    | inl missing ↦ inl (ground arith, tt)
    | inr (key, given) ↦ elim (Bool-cases (str_eq key d.api_key)) [
      | inr wrong ↦ inl (ground arith, tt)
      | inl right ↦ elim (Option-cases (machine.rand_error n token_bytes)) [
        | inr (e, broken) ↦ inl (ground arith, tt)
        | inl fine ↦
            elim (get-put_inv d.sessions _ token _ session (rw (log_in, given, right, fine) at h)) [
              | inl (same, made) ↦ inr (
                ground (arith, eq_iff key d.api_key),
                ground arith,
                sym (ap (λ s. Session.expires_at s) made),
              )
              | inr old ↦ inl (old, tt)
            ]
      ]
    ]
  ]

  From-handle_login :
      (n : ℕ) (d : DashAuth) (r : AuthRequest) (token : String) (session : Session)
      → Dict.get (handle_login machine encode_hex n d r).1.sessions token ≡ some session
      → From n d (login r) token session
  unfolding handle_login allow_login
  From-handle_login n d r token session h = elim (Bool-cases (is_dev_mode d)) [
    | inl dev ↦ inl (rw (handle_login, dev) at h, tt)
    | inr guarded ↦ elim (Bool-cases (allow_login (machine.now n) d (extract_ip r.remote_addr)).0) [
      | inl allowed ↦
          From-log_in n (allow_login (machine.now n) d (extract_ip r.remote_addr)).1 r token session
            (rw (handle_login, guarded, allowed) at h)
      | inr blocked ↦ inl (rw (handle_login, guarded, blocked) at h, tt)
    ]
  ]

  From-step :
      (n : ℕ) (d : DashAuth) (e : Event) (token : String) (session : Session)
      → Dict.get (step n d e).sessions token ≡ some session
      → From n d e token session
  unfolding step handle_logout handle_status require_api_auth cleanup
  From-step n d (login r) token session h = From-handle_login n d r token session h
  From-step n d (logout r) token session h = elim (Option-cases r.cookie) [
    | inl bare ↦ inl (rw (step, handle_logout, bare) at h, λ there. ground arith)
    | inr (other, sent) ↦ inl (
      ground (arith, eq_iff other token, get-delete d.sessions other token),
      λ there. ground (arith, eq_iff other token, get-delete d.sessions other token),
    )
  ]
  From-step n d (status r) token session h = elim (Bool-cases (is_dev_mode d)) [
    | inl dev ↦ inl (rw (step, handle_status, dev) at h, tt)
    | inr guarded ↦ inl (
      kept-cookie_session _ d r.cookie token session (rw (step, handle_status, guarded) at h),
      tt,
    )
  ]
  From-step n d (gate r) token session h =
      elim (Bool-cases (is_dev_mode d || bearer_matches d.api_key r.authorization)) [
        | inl open_gate ↦ inl (rw (step, require_api_auth, open_gate) at h, tt)
        | inr guarded ↦ inl (
          kept-cookie_session _ d r.cookie token session
              (rw (step, require_api_auth, guarded) at h),
          tt,
        )
      ]
  From-step n d tick token session h = inl (kept-clean_sessions _ d.sessions _ token session h, tt)

  step-api_key : (n : ℕ) (d : DashAuth) (e : Event) → (step n d e).api_key ≡ d.api_key
  unfolding step handle_login log_in allow_login record_failed_login create_session handle_logout
      handle_status require_api_auth cleanup cookie_session valid_session
  step-api_key n d (login r) = ground arith
  step-api_key n d (logout r) = ground arith
  step-api_key n d (status r) = ground arith
  step-api_key n d (gate r) = ground arith
  step-api_key n d tick = refl

  step-dev_mode : (n : ℕ) (d : DashAuth) (e : Event) → (step n d e).dev_mode ≡ d.dev_mode
  unfolding step handle_login log_in allow_login record_failed_login create_session handle_logout
      handle_status require_api_auth cleanup cookie_session valid_session
  step-dev_mode n d (login r) = ground arith
  step-dev_mode n d (logout r) = ground arith
  step-dev_mode n d (status r) = ground arith
  step-dev_mode n d (gate r) = ground arith
  step-dev_mode n d tick = refl

  -- A session that is held after the events was held before them, or was made by a login among them;
  -- and no logout followed.
  run-sessions :
      (n : ℕ) (d : DashAuth) (events : List Event) (token : String) (session : Session)
      → Dict.get (run n d events).sessions token ≡ some session
      → ((Dict.get d.sessions token ≡ some session) × NoLogout token events)
        ⊎ LoggedIn n d.api_key events token session.expires_at
  unfolding run
  run-sessions n d [] token session h = inl (h, tt)
  run-sessions n d (e ∷ events) token session h =
      elim (run-sessions (suc n) (step n d e) events token session h) [
        | inl (held, quiet) ↦ elim (From-step n d e token session held) [
          | inl (before, stays) ↦ inl (before, (stays, quiet))
          | inr made ↦ inr (inl (made, quiet))
        ]
        | inr later ↦ inr (inr (rw (step-api_key n d e) at later))
      ]

  -- A cookie that the gate takes: its token was made by a login, no logout followed, and the eight hours
  -- have not passed.
  abbrev pub IsAdmitted : String → List Event → ℕ → Option String → Type 0
  IsAdmitted key events now none = ⊥
  IsAdmitted key events now (some token) =
      (expires : ℕ) × LoggedIn 0 key events token expires × (now ≤ expires)

  valid_session-held :
      (now : ℕ) (d : DashAuth) (token : String)
      → (valid_session now d token).0 ≡ true
      → (session : Session) × (Dict.get d.sessions token ≡ some session)
        × (now ≤ session.expires_at)
  unfolding valid_session
  valid_session-held now d token h = elim (Option-cases (Dict.get d.sessions token)) [
    | inl missing ↦ absurd (ground arith)
    | inr (session, found) ↦ (session, found, ground arith)
  ]

  cookie-IsAdmitted :
      (key : String) (tls : Bool) (events : List Event) (now : ℕ) (cookie : Option String)
      → (cookie_session now (run 0 (new key tls) events) cookie).0 ≡ true
      → IsAdmitted key events now cookie
  unfolding cookie_session new
  cookie-IsAdmitted key tls events now none h = absurd (ground (arith, h))
  cookie-IsAdmitted key tls events now (some token) h =
      let (session, found, fresh) = valid_session-held now (run 0 (new key tls) events) token h in
      elim (run-sessions 0 (new key tls) events token session found) [
        | inl (before, quiet) ↦ absurd (ground (arith, get-empty {V = Session} token, before))
        | inr made ↦ (session.expires_at, made, fresh)
      ]

  cookie_needed :
      (now : ℕ) (d : DashAuth) (r : AuthRequest)
      → d.dev_mode ≡ false
      → str_eq d.api_key "" ≡ false
      → bearer_matches d.api_key r.authorization ≡ false
      → (require_api_auth now d r).0 ≡ none
      → (cookie_session now d r.cookie).0 ≡ true
  unfolding require_api_auth
  cookie_needed now d r guarded keyed other passed = ground arith

  run-mode :
      (n : ℕ) (d : DashAuth) (events : List Event)
      → ((run n d events).api_key ≡ d.api_key) × ((run n d events).dev_mode ≡ d.dev_mode)
  unfolding run
  run-mode n d [] = (refl, refl)
  run-mode n d (e ∷ events) =
      let (key, mode) = run-mode (suc n) (step n d e) events in
      (key ∙ step-api_key n d e, mode ∙ step-dev_mode n d e)

  -- After any requests and rounds of the cleanup, in any order, on a new DashAuth with a key: where
  -- RequireAPIAuth lets a request through, its Bearer token is the key, or its cookie was made by one
  -- of those requests, a login with the key, which no logout of the cookie followed, and eight hours
  -- after that login have not passed.
  pub require_api_auth-IsAdmitted :
      (key : String) (tls : Bool) (events : List Event) (now : ℕ) (r : AuthRequest)
      → str_eq key "" ≡ false
      → (require_api_auth now (run 0 (new key tls) events) r).0 ≡ none
      → (bearer_matches key r.authorization ≡ true) ⊎ IsAdmitted key events now r.cookie
  unfolding new
  require_api_auth-IsAdmitted key tls events now r keyed passed =
      let d = run 0 (new key tls) events in
      let (same_key, same_mode) = run-mode 0 (new key tls) events in
      elim (Bool-cases (bearer_matches key r.authorization)) [
        | inl bearer ↦ inl bearer
        | inr other ↦ inr (
            cookie-IsAdmitted key tls events now r.cookie (
              cookie_needed now d r (rw same_mode refl) (rw same_key keyed) (rw same_key other)
                passed))
      ]
