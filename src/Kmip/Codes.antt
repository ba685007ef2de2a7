-- ===== src/Kmip/Codes.antt =====
-- internal/kmip/handler.go: the operation codes, tags and result reasons that it declares itself, and
-- the names of the operations.
use open_kmip_server.Common.{ℕ, String, if◌then◌else◌}
use open_kmip_server.Common.Int.{ℤ, pos, eq_ℤ}
use open_kmip_server.Common.Text.{cat, hex}
use open_kmip_server.External.Kmiplib.{Kmiplib}

abbrev pub operation_create_key_pair : ℕ
operation_create_key_pair = 0x2

abbrev pub operation_register : ℕ
operation_register = 0x3

abbrev pub operation_rekey : ℕ
operation_rekey = 0x4

abbrev pub operation_get_attributes : ℕ
operation_get_attributes = 0xB

abbrev pub operation_get_attribute_list : ℕ
operation_get_attribute_list = 0xC

abbrev pub operation_revoke : ℕ
operation_revoke = 0x13

abbrev pub operation_query : ℕ
operation_query = 0x18

abbrev pub operation_discover_versions : ℕ
operation_discover_versions = 0x1E

abbrev pub operation_encrypt : ℕ
operation_encrypt = 0x1F

abbrev pub operation_decrypt : ℕ
operation_decrypt = 0x20

abbrev pub operation_sign : ℕ
operation_sign = 0x21

abbrev pub operation_signature_verify : ℕ
operation_signature_verify = 0x22

abbrev pub operation_mac : ℕ
operation_mac = 0x23

abbrev pub tag_revocation_reason : ℕ
tag_revocation_reason = 0x420082

abbrev pub tag_query_function : ℕ
tag_query_function = 0x420074

abbrev pub tag_state : ℕ
tag_state = 0x42008D

abbrev pub tag_private_key_unique_identifier : ℕ
tag_private_key_unique_identifier = 0x420066

abbrev pub tag_public_key_unique_identifier : ℕ
tag_public_key_unique_identifier = 0x42006F

abbrev pub tag_public_key : ℕ
tag_public_key = 0x42004E

abbrev pub tag_private_key : ℕ
tag_private_key = 0x42004D

abbrev pub tag_certificate : ℕ
tag_certificate = 0x420021

abbrev pub tag_certificate_type : ℕ
tag_certificate_type = 0x42001D

abbrev pub tag_certificate_value : ℕ
tag_certificate_value = 0x42001E

abbrev pub tag_data : ℕ
tag_data = 0x420033

abbrev pub tag_iv_counter_nonce : ℕ
tag_iv_counter_nonce = 0x420047

abbrev pub tag_signature_data : ℕ
tag_signature_data = 0x42004F

abbrev pub tag_mac_data : ℕ
tag_mac_data = 0x420051

abbrev pub tag_validity_indicator : ℕ
tag_validity_indicator = 0x420098

abbrev pub op_add_attribute : ℕ
op_add_attribute = 0xD

abbrev pub op_modify_attribute : ℕ
op_modify_attribute = 0xE

abbrev pub op_delete_attribute : ℕ
op_delete_attribute = 0xF

abbrev pub op_derive_key : ℕ
op_derive_key = 0x5

abbrev pub op_obtain_lease : ℕ
op_obtain_lease = 0x10

abbrev pub op_poll : ℕ
op_poll = 0x1A

abbrev pub op_archive : ℕ
op_archive = 0x15

abbrev pub op_recover : ℕ
op_recover = 0x16

abbrev pub reason_item_not_found : ℕ
reason_item_not_found = 0x1

abbrev pub reason_response_too_large : ℕ
reason_response_too_large = 0x2

abbrev pub reason_auth_not_successful : ℕ
reason_auth_not_successful = 0x3

abbrev pub reason_invalid_message : ℕ
reason_invalid_message = 0x4

abbrev pub reason_operation_not_supported : ℕ
reason_operation_not_supported = 0x5

abbrev pub reason_missing_data : ℕ
reason_missing_data = 0x6

abbrev pub reason_invalid_field : ℕ
reason_invalid_field = 0x7

abbrev pub reason_feature_not_supported : ℕ
reason_feature_not_supported = 0x8

abbrev pub reason_cryptographic_failure : ℕ
reason_cryptographic_failure = 0xA

abbrev pub reason_illegal_operation : ℕ
reason_illegal_operation = 0xB

abbrev pub reason_permission_denied : ℕ
reason_permission_denied = 0xC

abbrev pub reason_general_failure : ℕ
reason_general_failure = 0x100

abbrev pub supported_major : ℕ
supported_major = 1

abbrev pub supported_minor : ℕ
supported_minor = 4

module _ (lib : Kmiplib) where
  unfoldable pub operation_name : ℤ → String
  operation_name op =
      if eq_ℤ op (pos lib.operation_create)
      then "Create"
      else if eq_ℤ op (pos operation_create_key_pair)
      then "CreateKeyPair"
      else if eq_ℤ op (pos lib.operation_get)
      then "Get"
      else if eq_ℤ op (pos lib.operation_locate)
      then "Locate"
      else if eq_ℤ op (pos lib.operation_destroy)
      then "Destroy"
      else if eq_ℤ op (pos lib.operation_activate)
      then "Activate"
      else if eq_ℤ op (pos lib.operation_check)
      then "Check"
      else if eq_ℤ op (pos operation_register)
      then "Register"
      else if eq_ℤ op (pos operation_revoke)
      then "Revoke"
      else if eq_ℤ op (pos operation_rekey)
      then "ReKey"
      else if eq_ℤ op (pos operation_get_attributes)
      then "GetAttributes"
      else if eq_ℤ op (pos operation_get_attribute_list)
      then "GetAttributeList"
      else if eq_ℤ op (pos operation_query)
      then "Query"
      else if eq_ℤ op (pos operation_discover_versions)
      then "DiscoverVersions"
      else if eq_ℤ op (pos operation_encrypt)
      then "Encrypt"
      else if eq_ℤ op (pos operation_decrypt)
      then "Decrypt"
      else if eq_ℤ op (pos operation_sign)
      then "Sign"
      else if eq_ℤ op (pos operation_signature_verify)
      then "SignatureVerify"
      else if eq_ℤ op (pos operation_mac)
      then "MAC"
      else if eq_ℤ op (pos op_add_attribute)
      then "AddAttribute"
      else if eq_ℤ op (pos op_modify_attribute)
      then "ModifyAttribute"
      else if eq_ℤ op (pos op_delete_attribute)
      then "DeleteAttribute"
      else if eq_ℤ op (pos op_derive_key)
      then "DeriveKey"
      else if eq_ℤ op (pos op_obtain_lease)
      then "ObtainLease"
      else if eq_ℤ op (pos op_poll)
      then "Poll"
      else if eq_ℤ op (pos op_archive)
      then "Archive"
      else if eq_ℤ op (pos op_recover)
      then "Recover"
      else cat "Unknown(0x" (cat (hex 8 op) ")")
