-- ===== src/Kmip/Batch.antt =====
-- internal/kmip/handler.go: processBatchItem with its audit entry and its counter, and HandleRequest.
use open_kmip_server.Common.{
  suc, String, Bool, false, not, Option, none, some, str_eq, if◌then◌else◌,
}
use open_kmip_server.Common.Int.{pos, eq_ℤ}
use open_kmip_server.Common.Result.{ok, err}
use open_kmip_server.External.Libraries.{Libraries}
use open_kmip_server.Storage.Interface.{Storage}
use open_kmip_server.Audit
use open_kmip_server.Audit.{Logger, Entry}
use open_kmip_server.Kmip.Connections
use open_kmip_server.Kmip.Connections.{ConnectionTracker}
use open_kmip_server.Kmip.Action.{World, Outcome, done, fail, panic}
use open_kmip_server.Kmip.Codes.{operation_name, reason_invalid_message}
use open_kmip_server.Kmip.Fields.{child_of, string_of}
use open_kmip_server.Kmip.Response.{build_batch_item_error}
use open_kmip_server.Kmip.Dispatch.{dispatch}

-- The handler's store, audit log and tracker; the last two can be nil.
pub record Server (S : Type 0) : Type 0 where
  pub world : World S
  pub audit : Option Logger
  pub tracker : Option ConnectionTracker

-- Who sent the request.
pub record Client : Type 0 where
  pub common_name : String
  pub remote_addr : String
  pub conn_id : String

-- What the audit entry says of a response.
pub record Report : Type 0 where
  pub status : String
  pub message : String
  pub object_uid : String

module _ (l : Libraries) (storage : Storage) where
  open l use {
    Item, Buffer, decode_ttlv, tag, find_child, find_children, int_value, string_value,
    tag_operation, tag_request_payload, tag_unique_identifier, tag_result_status,
    tag_result_message, tag_response_payload, result_status_success, tag_request_message,
    tag_request_header, tag_protocol_version, tag_protocol_version_major,
    tag_protocol_version_minor, tag_batch_item,
  }

  -- logOperation of the KMIP handler. The time is taken at a moment of its own.
  unfoldable pub log_operation :
      String → String → Report → Client → Server storage.State → Server storage.State
  log_operation source operation report client srv = elim srv.audit [
    | none ↦ srv
    | some a ↦ record srv {
      world = record (srv.world) { moment = suc srv.world.moment };
      audit = some (
          Audit.log (l.machine.now srv.world.moment) a (record {
            timestamp = l.machine.now srv.world.moment;
            source = source;
            operation = operation;
            client_id = client.common_name;
            object_uid = report.object_uid;
            object_name = "";
            status = report.status;
            message = report.message;
            remote_addr = client.remote_addr;
          }));
    }
  ]

  unfoldable pub count_operation : String → Client → Server storage.State → Server storage.State
  count_operation operation client srv = elim srv.tracker [
    | none ↦ srv
    | some ct ↦ record srv {
      world = record (srv.world) { moment = suc srv.world.moment };
      tracker =
          some (Connections.record_op (l.machine.now srv.world.moment) ct client.conn_id operation);
    }
  ]

  -- rs != nil && rs.IntValue() != ResultStatusSuccess
  is_failure : Option Item → Bool
  is_failure none = false
  is_failure (some rs) = not (eq_ℤ (int_value rs) (pos result_status_success))

  report_item : String → Item → Report
  unfolding child_of string_of is_failure
  report_item request_uid item =
      let failed = is_failure (find_child item tag_result_status) in
      record {
        status = if failed then "failure" else "success";
        message = if failed then string_of l.lib (find_child item tag_result_message) "" else "";
        object_uid =
            if str_eq request_uid ""
            then string_of l.lib
                (child_of l.lib (find_child item tag_response_payload) tag_unique_identifier) ""
            else request_uid;
      }

  -- What is read back from the response for the audit entry.
  unfoldable pub report_of : String → Buffer → Report
  unfolding report_item
  report_of request_uid response = elim (decode_ttlv response) [
    | err e ↦ record { status = "success"; message = ""; object_uid = request_uid }
    | ok item ↦ report_item request_uid item
  ]

  -- After the switch: a panic of the handler leaves neither an entry nor a count.
  unfoldable pub conclude :
      String
      → String
      → Client
      → Server storage.State
      → Outcome Buffer
      → Outcome Buffer × Server storage.State
  conclude operation request_uid client srv (done response) = (
    done response,
    count_operation operation client
        (log_operation "kmip" operation (report_of request_uid response) client srv),
  )
  conclude operation request_uid client srv (fail reason message) = (fail reason message, srv)
  conclude operation request_uid client srv panic = (panic, srv)

  -- processBatchItem, given its Operation item.
  unfoldable pub process_operation :
      Option Item → Item → Client → Server storage.State → Outcome Buffer × Server storage.State
  unfolding child_of string_of
  process_operation none batch_item client srv = (
    done (build_batch_item_error l.lib (pos 0) reason_invalid_message "no Operation in BatchItem"),
    srv,
  )
  process_operation (some op_item) batch_item client srv =
      let payload = find_child batch_item tag_request_payload in
      let (outcome, world) =
        dispatch l storage (int_value op_item) payload client.common_name srv.world in
      conclude (operation_name l.lib (int_value op_item))
        (string_of l.lib (child_of l.lib payload tag_unique_identifier) "") client
        (record srv { world = world }) outcome

  unfoldable pub process_batch_item :
      Item → Client → Server storage.State → Outcome Buffer × Server storage.State
  process_batch_item batch_item client srv =
      process_operation (find_child batch_item tag_operation) batch_item client srv
