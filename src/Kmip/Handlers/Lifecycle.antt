-- ===== src/Kmip/Handlers/Lifecycle.antt =====
-- internal/kmip/handler.go: the handlers that look an object up or change its state.
use open_kmip_server.Common.{ℕ, String, Option, [], ◌∷◌, map, if◌then◌else◌}
use open_kmip_server.Common.Int.{ℤ, pos, eq_ℤ}
use open_kmip_server.Common.Text.{cat}
use open_kmip_server.External.Libraries.{Libraries}
use open_kmip_server.Storage.Types.{KeyRecord}
use open_kmip_server.Storage.Interface.{Storage}
use open_kmip_server.Kmip.Action.{Action, ◌>>=◌, ◌>>◌, pure, require, or_fail, check, read, write}
use open_kmip_server.Kmip.Codes.{
  reason_missing_data, reason_general_failure, reason_item_not_found, tag_public_key,
  tag_private_key, tag_certificate, tag_certificate_type, tag_certificate_value,
  tag_revocation_reason,
}
use open_kmip_server.Kmip.Lifecycle.{validate_state_transition}
use open_kmip_server.Kmip.Fields.{child_of, int_of, string_of}
use open_kmip_server.Kmip.Response.{respond}
use open_kmip_server.External.Kmiplib.{Kmiplib}

-- The literal 0x420083 of handleRevoke.
abbrev pub tag_revocation_reason_code : ℕ
tag_revocation_reason_code = 0x420083

abbrev pub not_found : String → String
not_found uid = cat "object not found: " uid

module _ (lib : Kmiplib) where
  open lib use {Item, find_child}

  -- The code of the revocation reason in the payload, or 0.
  unfoldable pub stated_reason : Item → ℤ
  unfolding child_of int_of
  stated_reason p =
      int_of lib (child_of lib (find_child p tag_revocation_reason) tag_revocation_reason_code)
        (pos 0)

module _ (l : Libraries) (storage : Storage) where
  open l use {
    Item, Buffer, find_child, int_value, string_value, encode_enum, encode_integer,
    encode_text_string, encode_byte_string, encode_structure, tag_attribute, tag_attribute_value,
    tag_name_value, tag_object_type, tag_unique_identifier, tag_symmetric_key, tag_key_block,
    tag_key_format_type, tag_key_value, tag_key_material, tag_cryptographic_algorithm,
    tag_cryptographic_length, tag_lease_time, object_type_public_key, object_type_private_key,
    object_type_certificate, key_format_raw, key_format_x509, key_format_pkcs8,
  }

  key_block : ℕ → KeyRecord → Buffer
  key_block format rec = encode_structure tag_key_block (
      encode_enum tag_key_format_type (pos format)
      ∷ encode_structure tag_key_value (encode_byte_string tag_key_material rec.material ∷ [])
      ∷ encode_enum tag_cryptographic_algorithm rec.algorithm
      ∷ encode_integer tag_cryptographic_length rec.bit_length
      ∷ [])

  unfoldable pub object_data : KeyRecord → Buffer
  unfolding key_block
  object_data rec =
      if eq_ℤ rec.object_type (pos object_type_public_key)
      then encode_structure tag_public_key (key_block key_format_x509 rec ∷ [])
      else if eq_ℤ rec.object_type (pos object_type_private_key)
      then encode_structure tag_private_key (key_block key_format_pkcs8 rec ∷ [])
      else if eq_ℤ rec.object_type (pos object_type_certificate)
      then encode_structure tag_certificate (
          encode_enum tag_certificate_type (pos 1)
          ∷ encode_byte_string tag_certificate_value rec.material
          ∷ [])
      else encode_structure tag_symmetric_key (key_block key_format_raw rec ∷ [])

  unfoldable pub handle_get : ℤ → Option Item → Action storage.State Buffer
  unfolding object_data
  handle_get op payload = respond l.lib op do
    p ← require payload reason_missing_data "missing request payload"
    uid_item ←
        require (find_child p tag_unique_identifier) reason_missing_data "missing UniqueIdentifier"
    let uid = string_value uid_item
    found ← read (λ n s. storage.get n s uid)
    rec ← require found reason_item_not_found (not_found uid)
    check (validate_state_transition rec.state "Get")
    pure (
        encode_enum tag_object_type rec.object_type
        ∷ encode_text_string tag_unique_identifier rec.uid
        ∷ object_data rec
        ∷ [])

  unfoldable pub handle_locate : ℤ → Option Item → Action storage.State Buffer
  unfolding child_of string_of
  handle_locate op payload = respond l.lib op do
    let attr_value = child_of l.lib (child_of l.lib payload tag_attribute) tag_attribute_value
    let name = string_of l.lib (child_of l.lib attr_value tag_name_value) ""
    uids ← read (λ n s. storage.locate n s name)
    pure (map (encode_text_string tag_unique_identifier) uids)

  unfoldable pub handle_destroy : ℤ → Option Item → Action storage.State Buffer
  handle_destroy op payload = respond l.lib op do
    p ← require payload reason_missing_data "missing request payload"
    uid_item ←
        require (find_child p tag_unique_identifier) reason_missing_data "missing UniqueIdentifier"
    let uid = string_value uid_item
    found ← read (λ n s. storage.get n s uid)
    rec ← require found reason_item_not_found (not_found uid)
    check (validate_state_transition rec.state "Destroy")
    result ← write (λ n s. storage.destroy n s uid)
    or_fail result reason_general_failure
    pure (encode_text_string tag_unique_identifier uid ∷ [])

  unfoldable pub handle_activate : ℤ → Option Item → Action storage.State Buffer
  handle_activate op payload = respond l.lib op do
    p ← require payload reason_missing_data "missing request payload"
    uid_item ←
        require (find_child p tag_unique_identifier) reason_missing_data "missing UniqueIdentifier"
    let uid = string_value uid_item
    found ← read (λ n s. storage.get n s uid)
    rec ← require found reason_item_not_found (not_found uid)
    check (validate_state_transition rec.state "Activate")
    result ← write (λ n s. storage.activate n s uid)
    or_fail result reason_general_failure
    pure (encode_text_string tag_unique_identifier uid ∷ [])

  unfoldable pub handle_check : ℤ → Option Item → Action storage.State Buffer
  handle_check op payload = respond l.lib op do
    p ← require payload reason_missing_data "missing request payload"
    uid_item ←
        require (find_child p tag_unique_identifier) reason_missing_data "missing UniqueIdentifier"
    found ← read (λ n s. storage.get n s (string_value uid_item))
    rec ← require found reason_item_not_found (not_found (string_value uid_item))
    pure (encode_text_string tag_unique_identifier rec.uid ∷ [])

  unfoldable pub handle_revoke : ℤ → Option Item → Action storage.State Buffer
  unfolding stated_reason
  handle_revoke op payload = respond l.lib op do
    p ← require payload reason_missing_data "missing request payload"
    uid_item ←
        require (find_child p tag_unique_identifier) reason_missing_data "missing UniqueIdentifier"
    let uid = string_value uid_item
    found ← read (λ n s. storage.get n s uid)
    rec ← require found reason_item_not_found (not_found uid)
    check (validate_state_transition rec.state "Revoke")
    let reason = stated_reason l.lib p
    result ← write (λ n s. storage.revoke n s uid reason)
    or_fail result reason_general_failure
    pure (encode_text_string tag_unique_identifier uid ∷ [])

  unfoldable pub handle_rekey : ℤ → Option Item → Action storage.State Buffer
  handle_rekey op payload = respond l.lib op do
    p ← require payload reason_missing_data "missing request payload"
    uid_item ←
        require (find_child p tag_unique_identifier) reason_missing_data "missing UniqueIdentifier"
    let uid = string_value uid_item
    found ← read (λ n s. storage.get n s uid)
    rec ← require found reason_item_not_found (not_found uid)
    check (validate_state_transition rec.state "ReKey")
    result ← write (λ n s. storage.rekey n s uid)
    rekeyed ← or_fail result reason_general_failure
    pure (encode_text_string tag_unique_identifier rekeyed.uid ∷ [])

  unfoldable pub handle_obtain_lease : ℤ → Option Item → Action storage.State Buffer
  handle_obtain_lease op payload = respond l.lib op do
    p ← require payload reason_missing_data "missing request payload"
    uid_item ←
        require (find_child p tag_unique_identifier) reason_missing_data "missing UniqueIdentifier"
    found ← read (λ n s. storage.get n s (string_value uid_item))
    rec ← require found reason_item_not_found (not_found (string_value uid_item))
    pure (
        encode_text_string tag_unique_identifier (string_value uid_item)
        ∷ encode_integer tag_lease_time (pos 3600)
        ∷ [])

  unfoldable pub handle_archive : ℤ → Option Item → Action storage.State Buffer
  handle_archive op payload = respond l.lib op do
    p ← require payload reason_missing_data "missing request payload"
    uid_item ←
        require (find_child p tag_unique_identifier) reason_missing_data "missing UniqueIdentifier"
    let uid = string_value uid_item
    found ← read (λ n s. storage.get n s uid)
    rec ← require found reason_item_not_found (not_found uid)
    check (validate_state_transition rec.state "Archive")
    result ← write (λ n s. storage.archive n s uid)
    or_fail result reason_general_failure
    pure (encode_text_string tag_unique_identifier uid ∷ [])

  unfoldable pub handle_recover : ℤ → Option Item → Action storage.State Buffer
  handle_recover op payload = respond l.lib op do
    p ← require payload reason_missing_data "missing request payload"
    uid_item ←
        require (find_child p tag_unique_identifier) reason_missing_data "missing UniqueIdentifier"
    let uid = string_value uid_item
    found ← read (λ n s. storage.get n s uid)
    rec ← require found reason_item_not_found (not_found uid)
    check (validate_state_transition rec.state "Recover")
    result ← write (λ n s. storage.recover n s uid)
    or_fail result reason_general_failure
    pure (encode_text_string tag_unique_identifier uid ∷ [])
