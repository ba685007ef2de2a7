-- ===== src/Kmip/Handlers/Attributes.antt =====
-- internal/kmip/handler.go: the handlers of attributes.
use open_kmip_server.Common.{ℕ, ◌/◌, ◌^◌, String, Option, [], ◌∷◌}
use open_kmip_server.Common.Int.{ℤ, pos, to_int32}
use open_kmip_server.External.Libraries.{Libraries}
use open_kmip_server.Storage.Types.{state_code}
use open_kmip_server.Storage.Interface.{Storage}
use open_kmip_server.Kmip.Action.{Action, ◌>>=◌, ◌>>◌, pure, require, or_fail, read, write}
use open_kmip_server.Kmip.Codes.{reason_missing_data, reason_general_failure, reason_item_not_found}
use open_kmip_server.Kmip.Response.{respond}
use open_kmip_server.Kmip.Handlers.Lifecycle.{not_found}

module _ (l : Libraries) (storage : Storage) where
  open l use {
    Item, Buffer, find_child, string_value, encode_enum, encode_integer, encode_text_string,
    encode_date_time, encode_structure, tag_attribute, tag_attribute_name, tag_attribute_value,
    tag_name_value, tag_name_type, tag_unique_identifier, name_type_uninterpreted_text_string,
  }

  attribute : String → Buffer → Buffer
  attribute name value =
      encode_structure tag_attribute (encode_text_string tag_attribute_name name ∷ value ∷ [])

  -- rec.CreatedAt.Unix()
  abbrev unix : ℕ → ℤ
  unix nanoseconds = pos (nanoseconds / 10 ^ 9)

  unfoldable pub handle_get_attributes : ℤ → Option Item → Action storage.State Buffer
  unfolding attribute
  handle_get_attributes op payload = respond l.lib op do
    p ← require payload reason_missing_data "missing request payload"
    uid_item ←
        require (find_child p tag_unique_identifier) reason_missing_data "missing UniqueIdentifier"
    found ← read (λ n s. storage.get_attributes n s (string_value uid_item))
    rec ← require found reason_item_not_found (not_found (string_value uid_item))
    pure (
        encode_text_string tag_unique_identifier rec.uid
        ∷ attribute "Name" (
            encode_structure tag_attribute_value (
              encode_text_string tag_name_value rec.name
              ∷ encode_enum tag_name_type (pos name_type_uninterpreted_text_string)
              ∷ []))
        ∷ attribute "Object Type" (encode_enum tag_attribute_value rec.object_type)
        ∷ attribute "Cryptographic Algorithm" (encode_enum tag_attribute_value rec.algorithm)
        ∷ attribute "Cryptographic Length" (encode_integer tag_attribute_value rec.bit_length)
        ∷ attribute "Cryptographic Usage Mask"
            (encode_integer tag_attribute_value (to_int32 rec.usage_mask))
        ∷ attribute "State" (encode_enum tag_attribute_value (pos (state_code rec.state)))
        ∷ attribute "Initial Date" (encode_date_time tag_attribute_value (unix rec.created_at))
        ∷ [])

  unfoldable pub handle_get_attribute_list : ℤ → Option Item → Action storage.State Buffer
  handle_get_attribute_list op payload = respond l.lib op do
    p ← require payload reason_missing_data "missing request payload"
    uid_item ←
        require (find_child p tag_unique_identifier) reason_missing_data "missing UniqueIdentifier"
    let uid = string_value uid_item
    found ← read (λ n s. storage.get n s uid)
    rec ← require found reason_item_not_found (not_found uid)
    pure (
        encode_text_string tag_unique_identifier uid
        ∷ encode_text_string tag_attribute_name "Object Type"
        ∷ encode_text_string tag_attribute_name "Name"
        ∷ encode_text_string tag_attribute_name "Cryptographic Algorithm"
        ∷ encode_text_string tag_attribute_name "Cryptographic Length"
        ∷ encode_text_string tag_attribute_name "Cryptographic Usage Mask"
        ∷ encode_text_string tag_attribute_name "State"
        ∷ [])

  unfoldable pub handle_add_attribute : ℤ → Option Item → Action storage.State Buffer
  handle_add_attribute op payload = respond l.lib op do
    p ← require payload reason_missing_data "missing request payload"
    uid_item ←
        require (find_child p tag_unique_identifier) reason_missing_data "missing UniqueIdentifier"
    attr ← require (find_child p tag_attribute) reason_missing_data "missing Attribute"
    name_item ←
        require (find_child attr tag_attribute_name) reason_missing_data
          "missing attribute name or value"
    value_item ←
        require (find_child attr tag_attribute_value) reason_missing_data
          "missing attribute name or value"
    result ← write (λ n s.
        storage.set_custom_attribute n s (string_value uid_item) (string_value name_item)
          (string_value value_item))
    or_fail result reason_general_failure
    pure (encode_text_string tag_unique_identifier (string_value uid_item) ∷ [])

  unfoldable pub handle_modify_attribute : ℤ → Option Item → Action storage.State Buffer
  unfolding handle_add_attribute
  handle_modify_attribute op payload = handle_add_attribute op payload

  unfoldable pub handle_delete_attribute : ℤ → Option Item → Action storage.State Buffer
  handle_delete_attribute op payload = respond l.lib op do
    p ← require payload reason_missing_data "missing request payload"
    uid_item ←
        require (find_child p tag_unique_identifier) reason_missing_data "missing UniqueIdentifier"
    attr ← require (find_child p tag_attribute) reason_missing_data "missing Attribute"
    name_item ←
        require (find_child attr tag_attribute_name) reason_missing_data "missing attribute name"
    result ← write (λ n s.
        storage.delete_custom_attribute n s (string_value uid_item) (string_value name_item))
    or_fail result reason_general_failure
    pure (encode_text_string tag_unique_identifier (string_value uid_item) ∷ [])
