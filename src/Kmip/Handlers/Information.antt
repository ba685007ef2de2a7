-- ===== src/Kmip/Handlers/Information.antt =====
-- internal/kmip/handler.go: the handlers that describe the server.
use open_kmip_server.Common.{ℕ, Option, List, [], ◌∷◌, ◌++◌, map}
use open_kmip_server.Common.Int.{ℤ, pos, to_int32}
use open_kmip_server.External.Libraries.{Libraries}
use open_kmip_server.Storage.Interface.{Storage}
use open_kmip_server.Kmip.Action.{Action, pure}
use open_kmip_server.Kmip.Codes.{
  supported_major, supported_minor, operation_create_key_pair, operation_register, operation_rekey,
  op_derive_key, operation_get_attributes, operation_get_attribute_list, op_add_attribute,
  op_modify_attribute, op_delete_attribute, op_obtain_lease, operation_revoke, op_archive,
  op_recover, operation_query, op_poll, operation_discover_versions, operation_encrypt,
  operation_decrypt, operation_sign, operation_signature_verify, operation_mac,
}
use open_kmip_server.Kmip.Response.{respond}

module _ (l : Libraries) (storage : Storage) where
  open l use {
    Item, Buffer, encode_enum, encode_integer, encode_structure, tag_operation, tag_object_type,
    tag_protocol_version, tag_protocol_version_major, tag_protocol_version_minor, operation_create,
    operation_locate, operation_check, operation_get, operation_activate, operation_destroy,
    object_type_certificate, object_type_symmetric_key, object_type_public_key,
    object_type_private_key,
  }

  -- The operations that Query lists, in its order.
  unfoldable pub query_operations : List ℕ
  query_operations =
      operation_create ∷ operation_create_key_pair ∷ operation_register ∷ operation_rekey
      ∷ op_derive_key ∷ operation_locate ∷ operation_check ∷ operation_get
      ∷ operation_get_attributes ∷ operation_get_attribute_list ∷ op_add_attribute
      ∷ op_modify_attribute ∷ op_delete_attribute ∷ op_obtain_lease ∷ operation_activate
      ∷ operation_revoke ∷ operation_destroy ∷ op_archive ∷ op_recover ∷ operation_query ∷ op_poll
      ∷ operation_discover_versions ∷ operation_encrypt ∷ operation_decrypt ∷ operation_sign
      ∷ operation_signature_verify ∷ operation_mac ∷ []

  object_types : List ℕ
  object_types =
      object_type_certificate ∷ object_type_symmetric_key ∷ object_type_public_key
      ∷ object_type_private_key ∷ []

  unfoldable pub handle_query : ℤ → Option Item → Action storage.State Buffer
  unfolding query_operations object_types
  handle_query op payload = respond l.lib op (
      pure (
        map (λ o. encode_enum tag_operation (pos o)) query_operations
        ++ map (λ t. encode_enum tag_object_type (pos t)) object_types))

  unfoldable pub handle_discover_versions : ℤ → Option Item → Action storage.State Buffer
  handle_discover_versions op payload = respond l.lib op (
      pure (
        encode_structure tag_protocol_version (
          encode_integer tag_protocol_version_major (to_int32 (pos supported_major))
          ∷ encode_integer tag_protocol_version_minor (to_int32 (pos supported_minor))
          ∷ [])
        ∷ []))

  unfoldable pub handle_poll : ℤ → Option Item → Action storage.State Buffer
  handle_poll op payload = respond l.lib op (pure [])
