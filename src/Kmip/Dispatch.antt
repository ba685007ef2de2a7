-- ===== src/Kmip/Dispatch.antt =====
-- internal/kmip/handler.go: the switch of processBatchItem.
use open_kmip_server.Common.{String, Option, if◌then◌else◌}
use open_kmip_server.Common.Int.{ℤ, pos, eq_ℤ}
use open_kmip_server.Common.Text.{cat, hex}
use open_kmip_server.External.Libraries.{Libraries}
use open_kmip_server.Storage.Interface.{Storage}
use open_kmip_server.Kmip.Action.{Action, reject}
use open_kmip_server.Kmip.Codes.{
  operation_create_key_pair, operation_register, operation_rekey, op_derive_key,
  operation_get_attributes, operation_get_attribute_list, op_add_attribute, op_modify_attribute,
  op_delete_attribute, op_obtain_lease, operation_revoke, op_archive, op_recover, operation_query,
  op_poll, operation_discover_versions, operation_encrypt, operation_decrypt, operation_sign,
  operation_signature_verify, operation_mac, reason_operation_not_supported,
}
use open_kmip_server.Kmip.Response.{respond}
use open_kmip_server.Kmip.Handlers.Objects.{handle_create, handle_register, handle_derive_key}
use open_kmip_server.Kmip.Handlers.Keys.{handle_create_key_pair}
use open_kmip_server.Kmip.Handlers.Lifecycle.{
  handle_get, handle_locate, handle_destroy, handle_activate, handle_check, handle_revoke,
  handle_rekey, handle_obtain_lease, handle_archive, handle_recover,
}
use open_kmip_server.Kmip.Handlers.Attributes.{
  handle_get_attributes, handle_get_attribute_list, handle_add_attribute, handle_modify_attribute,
  handle_delete_attribute,
}
use open_kmip_server.Kmip.Handlers.Cryptographic.{
  handle_encrypt, handle_decrypt, handle_sign, handle_signature_verify, handle_mac,
}
use open_kmip_server.Kmip.Handlers.Information.{handle_query, handle_discover_versions, handle_poll}

module _ (l : Libraries) (storage : Storage) where
  open l use {
    Item, Buffer, decode_ttlv, find_child, int_value, string_value, tag_operation,
    tag_request_payload, tag_unique_identifier, tag_result_status, tag_result_message,
    tag_response_payload, result_status_success, operation_create, operation_get, operation_locate,
    operation_destroy, operation_activate, operation_check,
  }

  unfoldable pub dispatch : ℤ → Option Item → String → Action storage.State Buffer
  dispatch op payload client_cn =
      if eq_ℤ op (pos operation_create)
      then handle_create l storage op payload client_cn
      else if eq_ℤ op (pos operation_create_key_pair)
      then handle_create_key_pair l storage op payload
      else if eq_ℤ op (pos operation_get)
      then handle_get l storage op payload
      else if eq_ℤ op (pos operation_locate)
      then handle_locate l storage op payload
      else if eq_ℤ op (pos operation_destroy)
      then handle_destroy l storage op payload
      else if eq_ℤ op (pos operation_activate)
      then handle_activate l storage op payload
      else if eq_ℤ op (pos operation_check)
      then handle_check l storage op payload
      else if eq_ℤ op (pos operation_register)
      then handle_register l storage op payload
      else if eq_ℤ op (pos operation_revoke)
      then handle_revoke l storage op payload
      else if eq_ℤ op (pos operation_get_attributes)
      then handle_get_attributes l storage op payload
      else if eq_ℤ op (pos operation_query)
      then handle_query l storage op payload
      else if eq_ℤ op (pos operation_discover_versions)
      then handle_discover_versions l storage op payload
      else if eq_ℤ op (pos operation_encrypt)
      then handle_encrypt l storage op payload
      else if eq_ℤ op (pos operation_decrypt)
      then handle_decrypt l storage op payload
      else if eq_ℤ op (pos operation_sign)
      then handle_sign l storage op payload
      else if eq_ℤ op (pos operation_signature_verify)
      then handle_signature_verify l storage op payload
      else if eq_ℤ op (pos operation_mac)
      then handle_mac l storage op payload
      else if eq_ℤ op (pos operation_rekey)
      then handle_rekey l storage op payload
      else if eq_ℤ op (pos operation_get_attribute_list)
      then handle_get_attribute_list l storage op payload
      else if eq_ℤ op (pos op_add_attribute)
      then handle_add_attribute l storage op payload
      else if eq_ℤ op (pos op_modify_attribute)
      then handle_modify_attribute l storage op payload
      else if eq_ℤ op (pos op_delete_attribute)
      then handle_delete_attribute l storage op payload
      else if eq_ℤ op (pos op_derive_key)
      then handle_derive_key l storage op payload
      else if eq_ℤ op (pos op_obtain_lease)
      then handle_obtain_lease l storage op payload
      else if eq_ℤ op (pos op_poll)
      then handle_poll l storage op payload
      else if eq_ℤ op (pos op_archive)
      then handle_archive l storage op payload
      else if eq_ℤ op (pos op_recover)
      then handle_recover l storage op payload
      else respond l.lib op
          (reject reason_operation_not_supported (cat "unsupported: 0x" (hex 8 op)))
