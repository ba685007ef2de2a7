-- ===== src/Startup.antt =====
-- cmd/open-kmip/main.go: what main decides from its flags before it listens, with NewServer of
-- internal/kmip/server.go and NewAPI of internal/api/api.go. Log lines are left out, and of a fatal
-- message all but the first line.
pub mod Yields
pub mod Guards
use open_kmip_server.Common.{
  String, Bool, true, false, not, ◌&&◌, ◌||◌, Option, none, some, List, [], ◌∷◌, str_eq,
  if◌then◌else◌,
}
use open_kmip_server.Common.Int.{ℤ, pos, leb_ℤ}
use open_kmip_server.Common.Text.{cat, dec}
use open_kmip_server.Common.Bytes.{Bytes}
use open_kmip_server.Common.Result.{Result, ok, err}
use open_kmip_server.Audit
use open_kmip_server.Audit.{Logger, Entry}
use open_kmip_server.Dashauth
use open_kmip_server.Dashauth.{DashAuth}

-- The flags.
pub record Config : Type 0 where
  pub dev_mode : Bool
  pub host : String
  pub port : ℤ
  pub api_port : ℤ
  pub api_key : String
  pub cors_origin : String
  pub cert_file : String
  pub key_file : String
  pub ca_file : String
  pub insecure_no_mtls : Bool
  pub storage_type : String
  pub db_path : String

-- What internal/devcerts/devcerts.go writes, by the paths of the files, and the key that it draws.
pub record Certs : Type 0 where
  pub ca_cert : String
  pub server_cert : String
  pub server_key : String
  pub client_cert : String
  pub client_key : String
  pub api_key : String

-- The system that main runs on: the environment, the file system, and the libraries that open the
-- database, generate certificates and read them.
pub record Host : Type 0 where
  pub kmip_api_key : String
  pub home_dir : Result String
  pub temp_dir : String
  pub join : List String → String
  pub is_missing : String → Bool
  pub generate : String → Result Certs
  pub open_database : String → Option String
  -- why audit_log cannot be created in that database, and the rows that it has already
  pub audit_table_error : Option String
  pub audit_rows : List Entry
  pub load_key_pair : String → String → Option String
  pub read_file : String → Result Bytes
  pub has_certificates : Bytes → Bool

-- The end of a step of main: `fatal` is log.Fatal, `crashed` a panic of the Go runtime.
pub data Boot (A : Type 0) : Type 0 where
  booted : A → Boot A
  fatal : String → Boot A
  crashed : Boot A

infixl 20 ◌>>=◌
unfoldable pub ◌>>=◌ : {A B : Type 0} → Boot A → (A → Boot B) → Boot B
booted a >>= next = next a
fatal e >>= next = fatal e
crashed >>= next = crashed

infixl 20 ◌>>◌
unfoldable pub ◌>>◌ : {A B : Type 0} → Boot A → Boot B → Boot B
unfolding ◌>>=◌
first >> next = first >>= (λ _. next)

-- if … { log.Fatal(…) }
unfoldable pub fatal_if : Bool → String → Boot (Unit {0})
fatal_if true message = fatal message
fatal_if false message = booted tt

unfoldable pub or_fatal : String → Option String → Boot (Unit {0})
or_fatal what none = booted tt
or_fatal what (some e) = fatal (cat what e)

-- The stores that main can make.
pub data Backing : Type 0 where
  memory : Backing
  sqlite : Backing

-- The KMIP server: whether its tls.Config has RequireAndVerifyClientCert.
pub record KmipServer : Type 0 where
  pub host : String
  pub port : ℤ
  pub verifies_clients : Bool

pub record Api : Type 0 where
  pub address : String
  pub api_key : String
  pub cors_origin : String
  pub dash_auth : DashAuth

-- What main runs: `audit_log` can be nil, `api` is there where the REST API is started.
pub record Running : Type 0 where
  pub store : Backing
  pub audit_log : Option Logger
  pub api : Option Api
  pub server : KmipServer

-- var da, in NewAPI
unfoldable pub new_api : String → Config → Api
unfolding Dashauth.new Dashauth.new_dev_mode
new_api address c = record {
  address = address;
  api_key = c.api_key;
  cors_origin = c.cors_origin;
  dash_auth = if c.dev_mode then Dashauth.new_dev_mode else Dashauth.new c.api_key true;
}

module _ (system : Host) where
  open system use {
    kmip_api_key, home_dir, temp_dir, join, is_missing, generate, open_database, audit_table_error,
    audit_rows, load_key_pair, read_file, has_certificates,
  }

  -- envKey != "" && *apiKey == ""
  unfoldable pub with_env_key : Config → Config
  with_env_key c =
      if not (str_eq kmip_api_key "") && str_eq c.api_key ""
      then record c { api_key = kmip_api_key }
      else c

  -- home, or the directory for temporary files where it has an error
  abbrev home_or_temp : Result String → String
  home_or_temp (ok home) = home
  home_or_temp (err e) = temp_dir

  abbrev pub cert_dir : String
  cert_dir = join (home_or_temp home_dir ∷ ".open-kmip" ∷ "certs" ∷ [])

  -- The flags with new certificates.
  abbrev with_new_certs : Config → Certs → Config
  with_new_certs c certs = record c {
    cert_file = certs.server_cert;
    key_file = certs.server_key;
    ca_file = certs.ca_cert;
    api_key = if str_eq c.api_key "" then certs.api_key else c.api_key;
  }

  abbrev or_fatal_certs : Result Certs → Boot Certs
  or_fatal_certs (ok certs) = booted certs
  or_fatal_certs (err e) = fatal (cat "failed to generate dev certs: " e)

  -- certs, _ := devcerts.Generate(os.TempDir()): certs is nil where there was an error.
  abbrev key_of_certs : Result Certs → Boot String
  key_of_certs (ok certs) = booted certs.api_key
  key_of_certs (err e) = crashed

  unfoldable pub setup_dev_mode : Config → Boot Config
  setup_dev_mode c =
      let reused = record c {
        cert_file = join (cert_dir ∷ "server.pem" ∷ []);
        key_file = join (cert_dir ∷ "server-key.pem" ∷ []);
        ca_file = join (cert_dir ∷ "ca.pem" ∷ []);
      } in
      if is_missing (join (cert_dir ∷ "ca.pem" ∷ []))
      then or_fatal_certs (generate cert_dir) >>= (λ certs. booted (with_new_certs c certs))
      else if str_eq c.api_key ""
      then key_of_certs (generate temp_dir) >>= (λ key. booted (record reused { api_key = key }))
      else booted reused

  -- The checks outside dev mode.
  unfoldable pub check_flags : Config → Boot Config
  unfolding fatal_if
  check_flags c = do
    fatal_if (str_eq c.ca_file "" && not c.insecure_no_mtls) "FATAL: --ca is required for mTLS."
    fatal_if (str_eq c.cert_file "" || str_eq c.key_file "") "FATAL: --cert and --key are required."
    fatal_if (str_eq c.api_key "" && not (leb_ℤ c.api_port (pos 0)))
        "FATAL: --api-key (or KMIP_API_KEY) is required when REST API is enabled."
    booted c

  -- switch *storageType
  unfoldable pub open_store : Config → Boot Backing
  unfolding or_fatal
  open_store c =
      if str_eq c.storage_type "memory"
      then booted memory
      else if str_eq c.storage_type "sqlite"
      then or_fatal "failed to open SQLite store: " (open_database c.db_path) >> booted sqlite
      else fatal (cat "unknown storage type: " c.storage_type)

  -- auditLog, nil for the memory store, and what NewLogger returns for the database.
  unfoldable pub open_audit_log : Backing → Option Logger
  unfolding Audit.new_logger
  open_audit_log memory = none
  open_audit_log sqlite = Audit.new_logger audit_table_error audit_rows

  -- The certificates that clients are verified with.
  abbrev check_ca : Result Bytes → Option String
  check_ca (ok pem) = if has_certificates pem then none else some "parse CA certificate failed"
  check_ca (err e) = some (cat "read CA certificate: " e)

  unfoldable pub new_server : Config → Boot KmipServer
  unfolding or_fatal
  new_server c = do
    or_fatal "failed to create KMIP server: load server certificate: "
        (load_key_pair c.cert_file c.key_file)
    or_fatal "failed to create KMIP server: "
        (if str_eq c.ca_file "" then none else check_ca (read_file c.ca_file))
    booted (record { host = c.host; port = c.port; verifies_clients = not (str_eq c.ca_file "") })

  -- From the storage on.
  unfoldable pub start : Config → Boot Running
  unfolding fatal_if open_store open_audit_log new_api new_server
  start c = do
    fatal_if (str_eq c.storage_type "memory" && not c.dev_mode)
        "FATAL: --storage memory disables audit and is only allowed with --dev."
    store ← open_store c
    server ← new_server c
    booted (record {
      store = store;
      audit_log = open_audit_log store;
      api =
          if leb_ℤ c.api_port (pos 0)
          then none
          else some (new_api (cat c.host (cat ":" (dec c.api_port))) c);
      server = server;
    })

  unfoldable pub main : Config → Boot Running
  unfolding with_env_key setup_dev_mode check_flags start
  main flags = do
    c ← (let c = with_env_key flags in if c.dev_mode then setup_dev_mode c else check_flags c)
    start c
