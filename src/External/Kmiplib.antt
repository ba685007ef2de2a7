-- ===== src/External/Kmiplib.antt =====
-- github.com/cyphera-labs/kmip-go: items of a TTLV message, their encoders, and the names of the KMIP
-- numbers. None of it is in the repository.
use open_kmip_server.Common.{ℕ, String, Option, List}
use open_kmip_server.Common.Int.{ℤ}
use open_kmip_server.Common.Bytes.{Slice}
use open_kmip_server.Common.Result.{Result}

pub record Names : Type 0 where
  pub tag_request_message : ℕ
  pub tag_request_header : ℕ
  pub tag_request_payload : ℕ
  pub tag_response_message : ℕ
  pub tag_response_header : ℕ
  pub tag_response_payload : ℕ
  pub tag_protocol_version : ℕ
  pub tag_protocol_version_major : ℕ
  pub tag_protocol_version_minor : ℕ
  pub tag_batch_count : ℕ
  pub tag_batch_item : ℕ
  pub tag_operation : ℕ
  pub tag_result_status : ℕ
  pub tag_result_reason : ℕ
  pub tag_result_message : ℕ
  pub tag_unique_identifier : ℕ
  pub tag_template_attribute : ℕ
  pub tag_attribute : ℕ
  pub tag_attribute_name : ℕ
  pub tag_attribute_value : ℕ
  pub tag_name_value : ℕ
  pub tag_name_type : ℕ
  pub tag_object_type : ℕ
  pub tag_symmetric_key : ℕ
  pub tag_key_block : ℕ
  pub tag_key_format_type : ℕ
  pub tag_key_value : ℕ
  pub tag_key_material : ℕ
  pub tag_cryptographic_algorithm : ℕ
  pub tag_cryptographic_length : ℕ
  pub tag_derivation_parameters : ℕ
  pub tag_derivation_data : ℕ
  pub tag_lease_time : ℕ
  pub operation_create : ℕ
  pub operation_get : ℕ
  pub operation_locate : ℕ
  pub operation_destroy : ℕ
  pub operation_activate : ℕ
  pub operation_check : ℕ
  pub algorithm_aes : ℕ
  pub algorithm_rsa : ℕ
  pub algorithm_ecdsa : ℕ
  pub object_type_certificate : ℕ
  pub object_type_symmetric_key : ℕ
  pub object_type_public_key : ℕ
  pub object_type_private_key : ℕ
  pub key_format_raw : ℕ
  pub key_format_x509 : ℕ
  pub key_format_pkcs8 : ℕ
  pub name_type_uninterpreted_text_string : ℕ
  pub result_status_success : ℕ
  pub result_status_operation_failed : ℕ
  pub usage_mask_encrypt : ℕ
  pub usage_mask_decrypt : ℕ
  pub usage_mask_sign : ℕ
  pub usage_mask_verify : ℕ

-- A `Buffer` is a []byte that holds one TTLV item. `find_child` is nil where there is no such child.
pub record Kmiplib : Type 1 where
  pub Item : Type 0
  pub Buffer : Type 0
  pub names : Names
  pub open names use *
  pub decode_ttlv : Buffer → Result Item
  pub tag : Item → ℕ
  pub find_child : Item → ℕ → Option Item
  pub find_children : Item → ℕ → List Item
  pub int_value : Item → ℤ
  pub string_value : Item → String
  pub bytes_value : Item → Slice
  pub encode_enum : ℕ → ℤ → Buffer
  pub encode_integer : ℕ → ℤ → Buffer
  pub encode_text_string : ℕ → String → Buffer
  pub encode_byte_string : ℕ → Slice → Buffer
  pub encode_date_time : ℕ → ℤ → Buffer
  pub encode_structure : ℕ → List Buffer → Buffer
