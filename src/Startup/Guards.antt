-- ===== src/Startup/Guards.antt =====
-- What the checks of main guarantee of a server that runs (cmd/open-kmip/main.go).
use mathlib.Core.Path.{subst}
use open_kmip_server.Common.{
  ℕ, String, ◌≡◌, refl, ◌∙◌, true, false, not, ◌&&◌, none, some, arith, str_eq, eq_iff, Bool-cases,
  Option-cases, inl, inr, ◌⊎◌, if◌then◌else◌,
}
use open_kmip_server.Common.Int.{pos, leb_ℤ}
use open_kmip_server.Audit.{Logger, new_logger}
use open_kmip_server.Web.Http.{trim_prefix}
use open_kmip_server.Dashauth
use open_kmip_server.Dashauth.{AuthRequest, require_api_auth, bearer_matches, cookie_session}
use open_kmip_server.Startup.{
  Config, Host, booted, KmipServer, sqlite, Running, open_store, new_server, new_api, check_flags,
  with_env_key, start, main, Api, open_audit_log,
}
use open_kmip_server.Startup.Yields.{
  Yields, running, stopped, Yields-bind, Yields-seq, Yields-fatal_if, Yields-any, Yields-booted,
  Yields-map, Yields-else,
}

-- The gate of the REST side lets no request without a cookie and without a token pass.
abbrev pub IsGuarded : Api → Type 0
IsGuarded api =
    (now : ℕ) (r : AuthRequest)
    → r.cookie ≡ none
    → trim_prefix r.authorization "Bearer " ≡ ""
    → ¬ ((require_api_auth now api.dash_auth r).0 ≡ none)

-- The audit log is missing only where its table could not be created.
pub record IsSecured (system : Host) (c : Config) (s : Running) : Type 0 where
  pub stored : s.store ≡ sqlite
  pub audited :
      ((log : Logger) × (s.audit_log ≡ some log) × (log.rows ≡ system.audit_rows))
      ⊎ ((e : String) × (system.audit_table_error ≡ some e) × (s.audit_log ≡ none))
  pub verified : (s.server.verifies_clients ≡ true) ⊎ (c.insecure_no_mtls ≡ true)
  pub guarded : (api : Api) → s.api ≡ some api → IsGuarded api

bearer_matches-empty :
    (key auth : String)
    → str_eq key "" ≡ false
    → trim_prefix auth "Bearer " ≡ ""
    → bearer_matches key auth ≡ false
unfolding bearer_matches
bearer_matches-empty key auth keyed empty =
    rw (bearer_matches, empty) (ground (arith, eq_iff key "", eq_iff "" key))

new-refuses :
    (key : String) (now : ℕ) (r : AuthRequest)
    → str_eq key "" ≡ false
    → r.cookie ≡ none
    → trim_prefix r.authorization "Bearer " ≡ ""
    → ¬ ((require_api_auth now (Dashauth.new key true) r).0 ≡ none)
unfolding require_api_auth cookie_session Dashauth.new
new-refuses key now r keyed bare empty passes =
    ground (arith, bearer_matches-empty key r.authorization keyed empty)

new_api-IsGuarded :
    (address : String) (c : Config)
    → c.dev_mode ≡ false
    → str_eq c.api_key "" ≡ false
    → IsGuarded (new_api address c)
unfolding new_api
new_api-IsGuarded address c production keyed now r bare empty =
    rw production (new-refuses c.api_key now r keyed bare empty)

api-IsGuarded :
    (address : String) (c : Config) (api : Api)
    → c.dev_mode ≡ false
    → (str_eq c.api_key "" && not (leb_ℤ c.api_port (pos 0))) ≡ false
    → (if leb_ℤ c.api_port (pos 0) then none else some (new_api address c)) ≡ some api
    → IsGuarded api
api-IsGuarded address c api production key there = elim (Bool-cases (leb_ℤ c.api_port (pos 0))) [
  | inl off ↦ absurd (ground (arith, off, there))
  | inr on ↦
      let same : new_api address c ≡ api = ground (arith, on, there) in
      let keyed : str_eq c.api_key "" ≡ false = ground (arith, key, on) in
      subst IsGuarded same (new_api-IsGuarded address c production keyed)
]

module _ (system : Host) where
  open_audit_log-sqlite :
      ((log : Logger) × (open_audit_log system sqlite ≡ some log) × (log.rows ≡ system.audit_rows))
      ⊎ ((e : String) × (system.audit_table_error ≡ some e) × (open_audit_log system sqlite ≡ none))
  unfolding open_audit_log new_logger
  open_audit_log-sqlite = elim (Option-cases system.audit_table_error) [
    | inl created ↦ inl (rw created (_, refl, refl))
    | inr (e, broken) ↦ inr (e, broken, rw broken refl)
  ]

  Yields-open_store :
      (c : Config)
      → str_eq c.storage_type "memory" ≡ false
      → Yields (λ store. store ≡ sqlite) (open_store system c)
  unfolding open_store
  Yields-open_store c other = rw other (elim (Bool-cases (str_eq c.storage_type "sqlite")) [
    | inl is ↦ rw is (Yields-seq (Yields-any _) (λ _ _. running sqlite refl))
    | inr unknown ↦ rw unknown (stopped _)
  ])

  Yields-new_server :
      (c : Config)
      → Yields
          (λ server. KmipServer.verifies_clients server ≡ not (str_eq c.ca_file ""))
          (new_server system c)
  unfolding new_server
  Yields-new_server c =
      Yields-seq (Yields-any _) (λ _ _. Yields-seq (Yields-any _) (λ _ _. running _ refl))

  Yields-start :
      (c : Config)
      → c.dev_mode ≡ false
      → (str_eq c.ca_file "" && not c.insecure_no_mtls) ≡ false
      → (str_eq c.api_key "" && not (leb_ℤ c.api_port (pos 0))) ≡ false
      → Yields (IsSecured system c) (start system c)
  unfolding start
  Yields-start c production ca key = Yields-seq (Yields-fatal_if _ _) (λ _ allowed.
      Yields-bind (Yields-open_store c (ground (arith, allowed, production))) (λ store opened.
        Yields-bind (Yields-new_server c) (λ server made. running _ (record {
          stored = opened;
          audited = rw opened open_audit_log-sqlite;
          verified = elim (Bool-cases (str_eq c.ca_file "")) [
            | inl open_ca ↦ inr (ground (arith, ca, open_ca))
            | inr has_ca ↦ inl (rw (made, has_ca) refl)
          ];
          guarded = λ api there. api-IsGuarded _ c api production key there;
        }))))

  -- The flags that pass the checks.
  abbrev IsChecked : Config → Config → Type 0
  IsChecked flags c =
      (c.dev_mode ≡ flags.dev_mode)
      × (c.insecure_no_mtls ≡ flags.insecure_no_mtls)
      × ((str_eq c.ca_file "" && not c.insecure_no_mtls) ≡ false)
      × ((str_eq c.api_key "" && not (leb_ℤ c.api_port (pos 0))) ≡ false)

  Yields-check_flags :
      (flags c : Config)
      → c.dev_mode ≡ flags.dev_mode
      → c.insecure_no_mtls ≡ flags.insecure_no_mtls
      → Yields (IsChecked flags) (check_flags system c)
  unfolding check_flags
  Yields-check_flags flags c dev insecure = Yields-seq (Yields-fatal_if _ _) (λ _ ca.
      Yields-seq (Yields-fatal_if _ _)
        (λ _ certs. Yields-seq (Yields-fatal_if _ _) (λ _ key. running c (dev, insecure, ca, key))))

  with_env_key-keeps :
      (c : Config)
      → ((with_env_key system c).dev_mode ≡ c.dev_mode)
        × ((with_env_key system c).insecure_no_mtls ≡ c.insecure_no_mtls)
  unfolding with_env_key
  with_env_key-keeps c =
      elim (Bool-cases (not (str_eq (Host.kmip_api_key system) "") && str_eq c.api_key "")) [
        | inl taken ↦ rw taken (refl, refl)
        | inr kept ↦ rw kept (refl, refl)
      ]

  IsSecured-flags :
      (flags c : Config) (s : Running)
      → c.insecure_no_mtls ≡ flags.insecure_no_mtls
      → IsSecured system c s
      → IsSecured system flags s
  IsSecured-flags flags c s same h = record {
    stored = h.stored;
    audited = h.audited;
    verified = rw (← same) h.verified;
    guarded = h.guarded;
  }

  Yields-main :
      (flags : Config)
      → flags.dev_mode ≡ false
      → Yields (IsSecured system flags) (main system flags)
  unfolding main
  Yields-main flags production =
      let (dev, insecure) = with_env_key-keeps flags in
      Yields-bind {Q = IsChecked flags}
        (Yields-else _ _ _ (dev ∙ production)
          (Yields-check_flags flags (with_env_key system flags) dev insecure))
        (λ c (same_dev, same_insecure, ca, key).
          Yields-map (λ s. IsSecured-flags flags c s same_insecure)
            (Yields-start c (same_dev ∙ production) ca key))

  -- Whatever the flags, the environment and the files: where main gets as far as to run outside dev
  -- mode, the store is the database, and it has an audit log, unless the table of that log could not be
  -- created; the KMIP server verifies its clients' certificates, or --insecure-no-mtls was given; and
  -- where the REST API is started, its gate refuses each request that has no cookie and no token behind
  -- Bearer.
  pub main-IsSecured :
      (flags : Config) (s : Running)
      → flags.dev_mode ≡ false
      → main system flags ≡ booted s
      → IsSecured system flags s
  main-IsSecured flags s production started =
      Yields-booted (IsSecured system flags) (main system flags) s started
        (Yields-main flags production)
