-- ===== src/Kmip/Handlers/Objects.antt =====
-- internal/kmip/handler.go: the handlers that make objects of what the client sends or asks for.
use Prim.Native.Nat.{bit_or}
use open_kmip_server.Common.{String, Option, none, some, [], ◌∷◌, if◌then◌else◌}
use open_kmip_server.Common.Int.{ℤ, pos, eq_ℤ}
use open_kmip_server.Common.Bytes.{Bytes, Slice}
use open_kmip_server.External.Libraries.{Libraries}
use open_kmip_server.Storage.Types.{unregistered}
use open_kmip_server.Storage.Interface.{Storage}
use open_kmip_server.Kmip.Action.{Action, ◌>>=◌, pure, require, or_fail, write}
use open_kmip_server.Kmip.Codes.{
  reason_missing_data, reason_general_failure, tag_public_key, tag_private_key, tag_certificate,
  tag_certificate_value,
}
use open_kmip_server.Kmip.Fields.{child_of, int_of, bytes_of}
use open_kmip_server.Kmip.Response.{respond}
use open_kmip_server.Kmip.Handlers.Template.{
  read_template, create_attribute, register_attribute, derive_attribute,
}

module _ (l : Libraries) (storage : Storage) where
  open l use {
    Item, Buffer, find_child, int_value, string_value, bytes_value, encode_enum, encode_text_string,
    tag_object_type, tag_unique_identifier, tag_symmetric_key, tag_key_block, tag_key_value,
    tag_key_material, tag_cryptographic_algorithm, tag_cryptographic_length,
    tag_derivation_parameters, tag_derivation_data, object_type_symmetric_key,
    object_type_public_key, object_type_private_key, object_type_certificate, algorithm_aes,
    usage_mask_encrypt, usage_mask_decrypt,
  }

  unfoldable pub handle_create : ℤ → Option Item → String → Action storage.State Buffer
  handle_create op payload client_cn = respond l.lib op do
    p ← require payload reason_missing_data "missing request payload"
    let t = read_template l.lib (create_attribute l.lib) p (record {
      name = "";
      algorithm = pos algorithm_aes;
      bit_length = pos 256;
      usage_mask = pos (bit_or usage_mask_encrypt usage_mask_decrypt);
    })
    created ←
        write (λ n s. storage.create n s t.name t.algorithm t.bit_length t.usage_mask client_cn)
    rec ← or_fail created reason_general_failure
    pure (
        encode_enum tag_object_type rec.object_type
        ∷ encode_text_string tag_unique_identifier rec.uid
        ∷ [])

  -- keyWrapper, where the object type has one; for a certificate the material is read instead.
  key_wrapper : ℤ → Item → Option Item
  key_wrapper object_type p =
      if eq_ℤ object_type (pos object_type_public_key)
      then find_child p tag_public_key
      else if eq_ℤ object_type (pos object_type_private_key)
      then find_child p tag_private_key
      else if eq_ℤ object_type (pos object_type_certificate)
      then none
      else find_child p tag_symmetric_key

  certificate_material : ℤ → Item → Slice
  unfolding bytes_of child_of
  certificate_material object_type p =
      if eq_ℤ object_type (pos object_type_public_key)
      then none
      else if eq_ℤ object_type (pos object_type_private_key)
      then none
      else if eq_ℤ object_type (pos object_type_certificate)
      then bytes_of l.lib (child_of l.lib (find_child p tag_certificate) tag_certificate_value) none
      else none

  -- `material == nil`
  require_material : Slice → Action storage.State Bytes
  require_material material = require material reason_missing_data "missing key material"

  unfoldable pub handle_register : ℤ → Option Item → Action storage.State Buffer
  unfolding key_wrapper bytes_of int_of child_of certificate_material require_material
  handle_register op payload = respond l.lib op do
    p ← require payload reason_missing_data "missing request payload"
    let object_type = int_of l.lib (find_child p tag_object_type) (pos object_type_symmetric_key)
    let kb = child_of l.lib (key_wrapper object_type p) tag_key_block
    let algorithm = int_of l.lib (child_of l.lib kb tag_cryptographic_algorithm) (pos algorithm_aes)
    let bit_length = int_of l.lib (child_of l.lib kb tag_cryptographic_length) (pos 256)
    let key_material = child_of l.lib (child_of l.lib kb tag_key_value) tag_key_material
    bytes ← require_material (bytes_of l.lib key_material (certificate_material object_type p))
    let t = read_template l.lib (register_attribute l.lib) p (record {
      name = "";
      algorithm = algorithm;
      bit_length = bit_length;
      usage_mask = pos (bit_or usage_mask_encrypt usage_mask_decrypt);
    })
    registered ← write (λ n s.
        storage.register n s
          (unregistered object_type t.name algorithm bit_length (some bytes) t.usage_mask))
    rec ← or_fail registered reason_general_failure
    pure (encode_text_string tag_unique_identifier rec.uid ∷ [])

  unfoldable pub handle_derive_key : ℤ → Option Item → Action storage.State Buffer
  unfolding bytes_of child_of
  handle_derive_key op payload = respond l.lib op do
    p ← require payload reason_missing_data "missing request payload"
    uid_item ←
        require (find_child p tag_unique_identifier) reason_missing_data "missing UniqueIdentifier"
    let derivation_data =
        bytes_of l.lib (child_of l.lib (find_child p tag_derivation_parameters) tag_derivation_data)
          none
    let t =
        read_template l.lib (derive_attribute l.lib) p
          (record { name = ""; algorithm = pos 0; bit_length = pos 256; usage_mask = pos 0 })
    derived ←
        write (λ n s.
          storage.derive_key n s (string_value uid_item) derivation_data t.name t.bit_length)
    rec ← or_fail derived reason_general_failure
    pure (encode_text_string tag_unique_identifier rec.uid ∷ [])
