-- ===== src/Api/Routes.antt =====
-- internal/api/api.go: the routes of Serve that stand behind RequireAPIAuth.
use open_kmip_server.Common.{ℕ, String, Bool, Option}
use open_kmip_server.Common.Int.{ℤ}
use open_kmip_server.Common.Bytes.{Bytes}
use open_kmip_server.External.Libraries.{Libraries}
use open_kmip_server.External.Formats.{Formats}
use open_kmip_server.Storage.Interface.{Storage}
use open_kmip_server.Kmip.Connections.{ConnectionTracker}
use open_kmip_server.Api.{ApiRequest, Handler}
use open_kmip_server.Api.Keys.{
  CreateBody, handle_list_keys, handle_create_key, handle_get_key, handle_activate_key,
  handle_revoke_key, handle_destroy_key, handle_rekey_key, handle_upload_certificate,
}
use open_kmip_server.Api.Cryptographic.{
  DecryptBody, WrapBody, UnwrapBody, VerifyBody, handle_encrypt_key, handle_decrypt_key,
  handle_sign_key, handle_verify_key, handle_mac_key, handle_wrap_key, handle_unwrap_key,
}
use open_kmip_server.Storage.AssetGraph.{AssetTables}
use open_kmip_server.Api.Inventory.{Inventory, handle_inventory}
use open_kmip_server.Api.Reports.{AuditQuery, handle_connections, handle_status, handle_audit_log}

-- A request by its route, with the uid of its path and its decoded body; for the inventory, with the
-- asset tables where the store is a SQLite store.
pub data Route : Type 0 where
  list_keys connections server_status : Route
  create_key : Option CreateBody → Route
  get_key activate_key destroy_key rekey_key : String → Route
  revoke_key : String → Option ℤ → Route
  encrypt_key sign_key mac_key : String → Option String → Route
  decrypt_key : String → Option DecryptBody → Route
  verify_key : String → Option VerifyBody → Route
  wrap_key : String → Option WrapBody → Route
  unwrap_key : Option UnwrapBody → Route
  upload_certificate : Option Bytes → String → Route
  audit_log : AuditQuery → Bool → Bool → Route
  inventory : Option AssetTables → Route

module _ (l : Libraries) (formats : Formats l.crypto) (api_key : String) (storage : Storage)
    (start : ℕ) (tracker : Option ConnectionTracker) (listing : Inventory) where
  unfoldable pub serve_route : ApiRequest → Route → Handler storage.State
  serve_route r list_keys = handle_list_keys l formats api_key storage r
  serve_route r connections = handle_connections l formats storage tracker
  serve_route r server_status = handle_status l formats storage start tracker
  serve_route r (create_key body) = handle_create_key l formats api_key storage r body
  serve_route r (get_key uid) = handle_get_key l formats api_key storage r uid
  serve_route r (activate_key uid) = handle_activate_key l formats api_key storage r uid
  serve_route r (destroy_key uid) = handle_destroy_key l formats api_key storage r uid
  serve_route r (rekey_key uid) = handle_rekey_key l formats api_key storage r uid
  serve_route r (revoke_key uid reason) = handle_revoke_key l formats api_key storage r uid reason
  serve_route r (encrypt_key uid body) = handle_encrypt_key l formats api_key storage r uid body
  serve_route r (sign_key uid body) = handle_sign_key l formats api_key storage r uid body
  serve_route r (mac_key uid body) = handle_mac_key l formats api_key storage r uid body
  serve_route r (decrypt_key uid body) = handle_decrypt_key l formats api_key storage r uid body
  serve_route r (verify_key uid body) = handle_verify_key l formats api_key storage r uid body
  serve_route r (wrap_key uid body) = handle_wrap_key l formats api_key storage r uid body
  serve_route r (unwrap_key body) = handle_unwrap_key l formats api_key storage r body
  serve_route r (upload_certificate body name) =
      handle_upload_certificate l formats api_key storage r body name
  serve_route r (audit_log q counts selects) = handle_audit_log l formats storage q counts selects
  serve_route r (inventory tables) = handle_inventory listing tables
