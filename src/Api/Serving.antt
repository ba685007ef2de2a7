-- ===== src/Api/Serving.antt =====
-- Which requests to the HTTP server can panic (internal/api/api.go, internal/dashauth/dashauth.go).
use open_kmip_server.Common.{
  ℕ, String, Bool, true, false, ◌≡◌, ◌≢◌, ◌⊎◌, inl, inr, refl, Option, none, some, arith, str_eq,
  Bool-cases, Option-cases,
}
use open_kmip_server.Common.Bytes.{Bytes}
use open_kmip_server.External.Machine.{Machine, IsSound}
use open_kmip_server.External.Crypto.{IsAead}
use open_kmip_server.External.Libraries.{Libraries}
use open_kmip_server.External.Formats.{Formats}
use open_kmip_server.Storage.Interface.{Storage}
use open_kmip_server.Kmip.Action.{World, Outcome, done, fail, panic}
use open_kmip_server.Kmip.Answer.{Calm}
use open_kmip_server.Kmip.Connections.{ConnectionTracker}
use open_kmip_server.Web.Http.{Response, extract_ip}
use open_kmip_server.Dashauth.{
  DashAuth, AuthRequest, is_dev_mode, token_bytes, allow_login, log_in, handle_login,
  require_api_auth,
}
use open_kmip_server.Api.{Backend, Answered}
use open_kmip_server.Api.Reports.{handle_healthz, handle_metrics}
use open_kmip_server.Api.Inventory.{Inventory}
use open_kmip_server.Api.Panics.{is_opening, route-Calm, api_rules}
use open_kmip_server.Api.Mux.{
  Endpoint, guarded, healthz, metrics, login, logout, auth_status, answered, plain, replied, Front,
  behind_auth, serve_mux, has_panicked,
}

clash : (b : Bool) → b ≡ true → b ≡ false → ⊥
clash b one other = ground (arith, one, other)

answered-calm : (o : Outcome Answered) → o ≢ panic → has_panicked (answered o) ≡ false
answered-calm (done a) calm = refl
answered-calm (fail status message) calm = refl
answered-calm panic calm = absurd (calm refl)

plain-calm : (o : Outcome String) → o ≢ panic → has_panicked (plain o) ≡ false
plain-calm (done a) calm = refl
plain-calm (fail status message) calm = refl
plain-calm panic calm = absurd (calm refl)

behind_auth_lem :
    {S : Type 0} (w : World (Backend S)) (gate : Option Response × DashAuth)
    (next : World (Backend S) → Outcome Answered × World (Backend S))
    → Calm next
    → has_panicked (behind_auth w gate next).0 ≡ false
unfolding behind_auth
behind_auth_lem w (none, d) next calm = answered-calm (next _).0 (calm.at _)
behind_auth_lem w (some refusal, d) next calm = refl

-- A route that opens sealed bytes.
abbrev pub opens : Endpoint → Bool
opens (guarded route) = is_opening route
opens _ = false

-- The draw of a session's token failed.
abbrev pub NoToken : Machine → ℕ → Type 0
NoToken machine n = (e : String) × (machine.rand_error n token_bytes ≡ some e)

module _ (machine : Machine) (encode_hex : Bytes → String) (n : ℕ) where
  module _ (drawn : machine.rand_error n token_bytes ≡ none) (r : AuthRequest) where
    log_in-calm :
        (d : DashAuth) → has_panicked (replied (log_in machine encode_hex n d r).0) ≡ false
    unfolding log_in
    log_in-calm d = elim (Option-cases r.body_api_key) [
      | inl missing ↦ rw (log_in, missing) refl
      | inr (key, given) ↦ elim (Bool-cases (str_eq key d.api_key)) [
        | inr wrong ↦ rw (log_in, given, wrong) refl
        | inl right ↦ rw (log_in, given, right, drawn) refl
      ]
    ]

    handle_login-calm :
        (d : DashAuth) → has_panicked (replied (handle_login machine encode_hex n d r).0) ≡ false
    unfolding handle_login
    handle_login-calm d = elim (Bool-cases (is_dev_mode d)) [
      | inl dev ↦ rw (handle_login, dev) refl
      | inr keyed ↦ elim (Bool-cases (allow_login (machine.now n) d (extract_ip r.remote_addr)).0) [
        | inl allowed ↦
            rw (handle_login, keyed, allowed)
              (log_in-calm (allow_login (machine.now n) d (extract_ip r.remote_addr)).1)
        | inr blocked ↦ rw (handle_login, keyed, blocked) refl
      ]
    ]

  handle_login-panics :
      (d : DashAuth) (r : AuthRequest)
      → has_panicked (replied (handle_login machine encode_hex n d r).0) ≡ true
      → NoToken machine n
  handle_login-panics d r broke = elim (Option-cases (machine.rand_error n token_bytes)) [
    | inl drawn ↦ absurd (ground (arith, broke, handle_login-calm drawn r d))
    | inr failed ↦ failed
  ]

module _ (l : Libraries) (formats : Formats l.crypto) (api_key : String) (storage : Storage)
    (start : ℕ) (tracker : Option ConnectionTracker) (listing : Inventory) where
  healthz-Calm : Calm (handle_healthz l formats storage)
  unfolding handle_healthz
  healthz-Calm = record { at = λ w. ground arith }

  metrics-Calm : Calm (handle_metrics l formats storage tracker)
  unfolding handle_metrics
  metrics-Calm = search api_rules depth 20

  -- With an AEAD that panics only on a nonce of the wrong length and randomness of the length asked for,
  -- on any store: where a request to an endpoint of the HTTP server makes a handler panic, the endpoint
  -- is the Decrypt or the Unwrap of a key, or it is the login and the draw of a session's token failed.
  pub serve_mux-panics :
      IsAead l.crypto
      → IsSound l.machine
      → (r : AuthRequest) (e : Endpoint) (f : Front storage.State)
      → has_panicked (serve_mux l formats api_key storage start tracker listing r e f).0 ≡ true
      → (opens e ≡ true) ⊎ ((e ≡ login) × NoToken l.machine f.world.moment)
  unfolding serve_mux
  serve_mux-panics aead sound r (guarded route) f broke = elim (Bool-cases (is_opening route)) [
    | inl opening ↦ inl opening
    | inr other ↦ absurd (
        clash _ broke (
          behind_auth_lem f.world (require_api_auth (l.machine.now f.world.moment) f.dash_auth r) _
            (route-Calm l formats api_key storage start tracker listing aead sound
              (record { authorization = r.authorization; remote_addr = r.remote_addr }) route
              other)))
  ]
  serve_mux-panics aead sound r healthz f broke =
      absurd (clash _ broke (answered-calm _ (healthz-Calm.at f.world)))
  serve_mux-panics aead sound r metrics f broke =
      absurd (clash _ broke (plain-calm _ (metrics-Calm.at f.world)))
  serve_mux-panics aead sound r login f broke =
      inr
        (refl, handle_login-panics l.machine formats.hex_encode f.world.moment f.dash_auth r broke)
  serve_mux-panics aead sound r logout f broke = absurd (ground (arith, broke))
  serve_mux-panics aead sound r auth_status f broke = absurd (ground (arith, broke))
