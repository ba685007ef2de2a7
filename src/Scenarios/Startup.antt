-- ===== src/Scenarios/Startup.antt =====
-- The program started with certificates and a key.
use open_kmip_server.Common.{◌≡◌, refl, true, false, none, some, []}
use open_kmip_server.Common.Int.{pos}
use open_kmip_server.Common.Text.{dec}
use open_kmip_server.Common.Result.{ok, err}
use open_kmip_server.Scenarios.World.{empty_logger}
use open_kmip_server.Audit.{new_logger}
use open_kmip_server.Startup.{
  open_audit_log, Config, Host, booted, sqlite, Running, new_api, main, fatal_if, or_fatal,
  with_env_key, check_flags, start, open_store, new_server, ◌>>=◌, ◌>>◌,
}
use open_kmip_server.Startup.Guards.{IsSecured, main-IsSecured}

abbrev system : Host
system = record {
  kmip_api_key = "secret";
  home_dir = ok "/root";
  temp_dir = "/tmp";
  join = λ parts. "";
  is_missing = λ path. true;
  generate = λ dir. err "permission denied";
  open_database = λ path. none;
  audit_table_error = none;
  audit_rows = [];
  load_key_pair = λ cert key. none;
  read_file = λ path. ok [];
  has_certificates = λ pem. true;
}

abbrev flags : Config
flags = record {
  dev_mode = false;
  host = "0.0.0.0";
  port = pos 5696;
  api_port = pos 8200;
  api_key = "";
  cors_origin = "";
  cert_file = "server.pem";
  key_file = "server-key.pem";
  ca_file = "ca.pem";
  insecure_no_mtls = false;
  storage_type = "sqlite";
  db_path = "open-kmip.db";
}

abbrev running : Running
running = record {
  store = sqlite;
  audit_log = some empty_logger;
  api = some (new_api "0.0.0.0:8200" (record flags { api_key = "secret" }));
  server = record { host = "0.0.0.0"; port = pos 5696; verifies_clients = true };
}

is_started : main system flags ≡ booted running
unfolding main with_env_key check_flags start open_store open_audit_log new_logger new_server
    fatal_if or_fatal ◌>>=◌ ◌>>◌ dec
is_started = refl

main-IsSecured_example : IsSecured system flags running
main-IsSecured_example = main-IsSecured system flags running refl is_started
