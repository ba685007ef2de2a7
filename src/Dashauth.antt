-- ===== src/Dashauth.antt =====
-- internal/dashauth/dashauth.go: the sessions of the dashboard, its logins, and the gate before the
-- REST handlers. A request is handled at one moment, at which its reads of the clock are the same.
pub mod Sessions
pub mod Window
pub mod Logins
use open_kmip_server.Common.{
  ℕ, ◌+◌, ◌*◌, String, Bool, true, false, not, ◌&&◌, ◌||◌, Option, none, some, List, [], ◌∷◌, ◌++◌,
  ltb, length, str_eq, if◌then◌else◌,
}
use open_kmip_server.Common.Int.{pos, negsuc}
use open_kmip_server.Common.Text.{cat}
use open_kmip_server.Common.Bytes.{Bytes}
use open_kmip_server.Common.Dict
use open_kmip_server.Common.Dict.{Dict}
use open_kmip_server.External.Machine.{Machine}
use open_kmip_server.Web.Http.{
  Json, words, flag, json_map, Cookie, Response, trim_prefix, extract_ip,
}

abbrev pub second : ℕ
second = 1000000000

abbrev pub minute : ℕ
minute = 60 * second

abbrev pub session_duration : ℕ
session_duration = 8 * (60 * minute)

abbrev pub max_login_per_min : ℕ
max_login_per_min = 5

abbrev pub token_bytes : ℕ
token_bytes = 32

pub record Session : Type 0 where
  pub token : String
  pub created_at : ℕ
  pub expires_at : ℕ
  pub remote_ip : String

-- The times of the failed logins of an address are its attempts, oldest first.
pub record DashAuth : Type 0 where
  pub api_key : String
  pub dev_mode : Bool
  pub tls : Bool
  pub sessions : Dict Session
  pub login_attempts : Dict (List ℕ)

-- What the handlers read of a request: its Authorization header, the cookie cyphera_session, the
-- address of the client, and the api_key of its JSON body, where the body decodes.
pub record AuthRequest : Type 0 where
  pub authorization : String
  pub cookie : Option String
  pub remote_addr : String
  pub body_api_key : Option String

-- A handler answers, or panics.
pub data Reply : Type 0 where
  reply : Response → Reply
  panicked : String → Reply

unfoldable pub new : String → Bool → DashAuth
new api_key tls = record {
  api_key = api_key;
  dev_mode = false;
  tls = tls;
  sessions = Dict.empty;
  login_attempts = Dict.empty;
}

unfoldable pub new_dev_mode : DashAuth
new_dev_mode = record {
  api_key = "";
  dev_mode = true;
  tls = false;
  sessions = Dict.empty;
  login_attempts = Dict.empty;
}

abbrev pub is_dev_mode : DashAuth → Bool
is_dev_mode d = d.dev_mode || str_eq d.api_key ""

abbrev answer : ℕ → List (String × String) → List Cookie → List (String × Json) → Response
answer status headers cookies fields = record {
  status = status;
  headers = ("Content-Type", "application/json") ∷ headers;
  cookies = cookies;
  body = json_map fields;
}

-- a.at.After(cutoff), with cutoff a minute before now
abbrev pub is_recent : ℕ → ℕ → Bool
is_recent now at = ltb now (at + minute)

-- The attempts of the last minute.
unfoldable pub recent : ℕ → List ℕ → List ℕ
recent now [] = []
recent now (at ∷ attempts) =
    let rest = recent now attempts in if is_recent now at then at ∷ rest else rest

-- A missing entry of a map of slices reads as nil.
abbrev pub listed : Option (List ℕ) → List ℕ
listed none = []
listed (some times) = times

-- d.loginAttempts[ip]
abbrev pub attempts_of : DashAuth → String → List ℕ
attempts_of d ip = listed (Dict.get d.login_attempts ip)

unfoldable pub allow_login : ℕ → DashAuth → String → Bool × DashAuth
unfolding recent
allow_login now d ip =
    let kept = recent now (attempts_of d ip) in
    (
      ltb (length kept) max_login_per_min,
      record d { login_attempts = Dict.put d.login_attempts ip kept },
    )

unfoldable pub record_failed_login : ℕ → DashAuth → String → DashAuth
record_failed_login now d ip = record d {
  login_attempts = Dict.put d.login_attempts ip (attempts_of d ip ++ now ∷ []);
}

unfoldable pub valid_session : ℕ → DashAuth → String → Bool × DashAuth
valid_session now d token = elim (Dict.get d.sessions token) [
  | none ↦ (false, d)
  | some session ↦
      if ltb session.expires_at now
      then (false, record d { sessions = Dict.delete d.sessions token })
      else (true, d)
]

-- r.Cookie(cookieName), then validSession
unfoldable pub cookie_session : ℕ → DashAuth → Option String → Bool × DashAuth
unfolding valid_session
cookie_session now d none = (false, d)
cookie_session now d (some token) = valid_session now d token

-- The Bearer token is the key.
unfoldable pub bearer_matches : String → String → Bool
bearer_matches api_key auth =
    not (str_eq auth "")
    && (let token = trim_prefix auth "Bearer " in not (str_eq token auth) && str_eq token api_key)

-- RequireAPIAuth: `none` where the request passes to the next handler.
unfoldable pub require_api_auth : ℕ → DashAuth → AuthRequest → Option Response × DashAuth
unfolding bearer_matches cookie_session valid_session
require_api_auth now d r =
    if is_dev_mode d || bearer_matches d.api_key r.authorization then (none, d) else (
      if (cookie_session now d r.cookie).0
          then none
          else some (answer 401 [] [] (("error", words "unauthorized") ∷ [])),
      (cookie_session now d r.cookie).1,
    )

unfoldable pub handle_logout : DashAuth → AuthRequest → Response × DashAuth
handle_logout d r = (
  answer 200 [] (record { value = ""; max_age = negsuc 0; secure = false } ∷ [])
      (("ok", words "logged out") ∷ []),
  elim r.cookie [ none ↦ d | some token ↦ record d { sessions = Dict.delete d.sessions token } ],
)

unfoldable pub handle_status : ℕ → DashAuth → AuthRequest → Response × DashAuth
unfolding cookie_session valid_session
handle_status now d r =
    if is_dev_mode d
    then (answer 200 [] [] (("authenticated", flag true) ∷ ("dev_mode", flag true) ∷ []), d)
    else (
      answer 200 [] [] (
          ("authenticated", flag (cookie_session now d r.cookie).0)
          ∷ ("dev_mode", flag false)
          ∷ []),
      (cookie_session now d r.cookie).1,
    )

-- sessions.Range, which deletes the sessions that have expired.
clean_sessions : ℕ → Dict Session → List String → Dict Session
clean_sessions now sessions [] = sessions
clean_sessions now sessions (token ∷ tokens) =
    let rest = clean_sessions now sessions tokens in
    elim (Dict.get sessions token) [
      | none ↦ rest
      | some session ↦ if ltb session.expires_at now then Dict.delete rest token else rest
    ]

-- What an address keeps of its attempts.
unfoldable pub keep_attempts : Dict (List ℕ) → String → List ℕ → Dict (List ℕ)
keep_attempts attempts ip [] = Dict.delete attempts ip
keep_attempts attempts ip (at ∷ rest) = Dict.put attempts ip (at ∷ rest)

unfoldable pub clean_attempts : ℕ → Dict (List ℕ) → List String → Dict (List ℕ)
unfolding keep_attempts recent
clean_attempts now attempts [] = attempts
clean_attempts now attempts (ip ∷ ips) =
    let rest = clean_attempts now attempts ips in
    elim (Dict.get attempts ip) [ none ↦ rest | some old ↦ keep_attempts rest ip (recent now old) ]

module _ (machine : Machine) (encode_hex : Bytes → String) where
  -- The token that createSession makes at a moment.
  abbrev pub token_at : ℕ → String
  token_at n = encode_hex (machine.rand_bytes n token_bytes)

  unfoldable pub create_session : ℕ → DashAuth → String → DashAuth
  create_session n d ip = record d {
    sessions = Dict.put d.sessions (token_at n) (record {
      token = token_at n;
      created_at = machine.now n;
      expires_at = machine.now n + session_duration;
      remote_ip = ip;
    });
  }

  -- handleLogin, once the address may log in.
  unfoldable pub log_in : ℕ → DashAuth → AuthRequest → Reply × DashAuth
  unfolding create_session record_failed_login
  log_in n d r = elim r.body_api_key [
    | none ↦ (reply (answer 400 [] [] (("error", words "invalid request") ∷ [])), d)
    | some key ↦
        if not (str_eq key d.api_key)
        then (
          reply (answer 401 [] [] (("error", words "invalid API key") ∷ [])),
          record_failed_login (machine.now n) d (extract_ip r.remote_addr),
        )
        else elim (machine.rand_error n token_bytes) [
          | some e ↦ (panicked (cat "crypto/rand.Read failed: " e), d)
          | none ↦ (
            reply (
                answer 200 []
                  (record { value = token_at n; max_age = pos 28800; secure = d.tls } ∷ [])
                  (("ok", flag true) ∷ [])),
            create_session n d (extract_ip r.remote_addr),
          )
        ]
  ]

  unfoldable pub handle_login : ℕ → DashAuth → AuthRequest → Reply × DashAuth
  unfolding log_in allow_login
  handle_login n d r =
      if is_dev_mode d
      then (reply (answer 200 [] [] (("ok", flag true) ∷ ("dev_mode", flag true) ∷ [])), d)
      else if not (allow_login (machine.now n) d (extract_ip r.remote_addr)).0
      then (
        reply (
            answer 429 (("Retry-After", "60") ∷ []) []
              (("error", words "too many login attempts") ∷ [])),
        (allow_login (machine.now n) d (extract_ip r.remote_addr)).1,
      )
      else log_in n (allow_login (machine.now n) d (extract_ip r.remote_addr)).1 r

-- One round of cleanupLoop. The loop deletes what it has visited, and no visit reads what another
-- writes.
unfoldable pub cleanup : Machine → ℕ → DashAuth → DashAuth
unfolding clean_sessions clean_attempts
cleanup machine n d = record d {
  sessions = clean_sessions (machine.now n) d.sessions (machine.map_order n (Dict.keys d.sessions));
  login_attempts =
      clean_attempts (machine.now n) d.login_attempts
        (machine.map_order n (Dict.keys d.login_attempts));
}
