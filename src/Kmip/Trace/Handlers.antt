-- ===== src/Kmip/Trace/Handlers.antt =====
-- Every handler of internal/kmip/handler.go leaves a trace on the memory store.
use open_kmip_server.Common.{String, Option}
use open_kmip_server.Common.Int.{ℤ}
use open_kmip_server.Common.Bytes.{Bytes}
use open_kmip_server.External.Crypto.{Key, other_key}
use open_kmip_server.External.Libraries.{Libraries}
use open_kmip_server.Storage.Memory.{memory_storage}
use open_kmip_server.Kmip.Handlers.Objects.{handle_create, handle_register, handle_derive_key}
use open_kmip_server.Kmip.Handlers.Keys.{handle_create_key_pair}
use open_kmip_server.Kmip.Handlers.Lifecycle.{
  handle_get, handle_locate, handle_check, handle_obtain_lease,
}
use open_kmip_server.Kmip.Handlers.Attributes.{
  handle_get_attributes, handle_get_attribute_list, handle_add_attribute, handle_modify_attribute,
  handle_delete_attribute,
}
use open_kmip_server.Kmip.Handlers.Cryptographic.{
  handle_encrypt, handle_decrypt, handle_sign, handle_signature_verify, handle_mac, sign_with,
  verify_with,
}
use open_kmip_server.Kmip.Handlers.Information.{handle_query, handle_discover_versions, handle_poll}
use open_kmip_server.Kmip.Dispatch.{dispatch}
use open_kmip_server.Kmip.Trace.Rules.{Steps, Steps-if, Steps-reject, Steps-respond, steps_rules}
use open_kmip_server.Kmip.Trace.Guards.{
  handle_activate-Steps, handle_destroy-Steps, handle_revoke-Steps, handle_rekey-Steps,
  handle_archive-Steps, handle_recover-Steps,
}

module _ (l : Libraries) (op : ℤ) (payload : Option l.Item) where
  handle_create-Steps :
      (client_cn : String)
      → Steps l.machine (handle_create l (memory_storage l.machine) op payload client_cn)
  unfolding handle_create
  handle_create-Steps client_cn = search steps_rules depth 15

  handle_register-Steps : Steps l.machine (handle_register l (memory_storage l.machine) op payload)
  unfolding handle_register
  handle_register-Steps = search steps_rules depth 15

  handle_derive_key-Steps :
      Steps l.machine (handle_derive_key l (memory_storage l.machine) op payload)
  unfolding handle_derive_key
  handle_derive_key-Steps = search steps_rules depth 15

  handle_create_key_pair-Steps :
      Steps l.machine (handle_create_key_pair l (memory_storage l.machine) op payload)
  unfolding handle_create_key_pair
  handle_create_key_pair-Steps = search steps_rules depth 15

  handle_get-Steps : Steps l.machine (handle_get l (memory_storage l.machine) op payload)
  unfolding handle_get
  handle_get-Steps = search steps_rules depth 15

  handle_locate-Steps : Steps l.machine (handle_locate l (memory_storage l.machine) op payload)
  unfolding handle_locate
  handle_locate-Steps = search steps_rules depth 15

  handle_check-Steps : Steps l.machine (handle_check l (memory_storage l.machine) op payload)
  unfolding handle_check
  handle_check-Steps = search steps_rules depth 15

  handle_obtain_lease-Steps :
      Steps l.machine (handle_obtain_lease l (memory_storage l.machine) op payload)
  unfolding handle_obtain_lease
  handle_obtain_lease-Steps = search steps_rules depth 15

  handle_get_attributes-Steps :
      Steps l.machine (handle_get_attributes l (memory_storage l.machine) op payload)
  unfolding handle_get_attributes
  handle_get_attributes-Steps = search steps_rules depth 15

  handle_get_attribute_list-Steps :
      Steps l.machine (handle_get_attribute_list l (memory_storage l.machine) op payload)
  unfolding handle_get_attribute_list
  handle_get_attribute_list-Steps = search steps_rules depth 15

  handle_add_attribute-Steps :
      Steps l.machine (handle_add_attribute l (memory_storage l.machine) op payload)
  unfolding handle_add_attribute
  handle_add_attribute-Steps = search steps_rules depth 15

  handle_delete_attribute-Steps :
      Steps l.machine (handle_delete_attribute l (memory_storage l.machine) op payload)
  unfolding handle_delete_attribute
  handle_delete_attribute-Steps = search steps_rules depth 15

  handle_encrypt-Steps : Steps l.machine (handle_encrypt l (memory_storage l.machine) op payload)
  unfolding handle_encrypt
  handle_encrypt-Steps = search steps_rules depth 15

  handle_decrypt-Steps : Steps l.machine (handle_decrypt l (memory_storage l.machine) op payload)
  unfolding handle_decrypt
  handle_decrypt-Steps = search steps_rules depth 15

  sign_with-Steps :
      (key : Key l.RsaPrivate l.EcdsaPrivate) (hash : Bytes)
      → Steps l.machine (sign_with l (memory_storage l.machine) key hash)
  unfolding sign_with
  sign_with-Steps other_key hash = search steps_rules
  sign_with-Steps _ hash = search steps_rules

  handle_sign-Steps : Steps l.machine (handle_sign l (memory_storage l.machine) op payload)
  unfolding handle_sign
  handle_sign-Steps = search (steps_rules, sign_with-Steps) depth 15

  verify_with-Steps :
      (key : Key l.RsaPublic l.EcdsaPublic) (hash signature : Bytes)
      → Steps l.machine (verify_with l (memory_storage l.machine) key hash signature)
  unfolding verify_with
  verify_with-Steps other_key hash signature = search steps_rules
  verify_with-Steps _ hash signature = search steps_rules

  handle_signature_verify-Steps :
      Steps l.machine (handle_signature_verify l (memory_storage l.machine) op payload)
  unfolding handle_signature_verify
  handle_signature_verify-Steps = search (steps_rules, verify_with-Steps) depth 15

  handle_mac-Steps : Steps l.machine (handle_mac l (memory_storage l.machine) op payload)
  unfolding handle_mac
  handle_mac-Steps = search steps_rules depth 15

  handle_query-Steps : Steps l.machine (handle_query l (memory_storage l.machine) op payload)
  unfolding handle_query
  handle_query-Steps = search steps_rules depth 15

  handle_discover_versions-Steps :
      Steps l.machine (handle_discover_versions l (memory_storage l.machine) op payload)
  unfolding handle_discover_versions
  handle_discover_versions-Steps = search steps_rules depth 15

  handle_poll-Steps : Steps l.machine (handle_poll l (memory_storage l.machine) op payload)
  unfolding handle_poll
  handle_poll-Steps = search steps_rules depth 15

  handle_modify_attribute-Steps :
      Steps l.machine (handle_modify_attribute l (memory_storage l.machine) op payload)
  unfolding handle_modify_attribute
  handle_modify_attribute-Steps = search steps_rules depth 15

  ruleset handler_rules = (
    handle_create-Steps, handle_register-Steps, handle_derive_key-Steps,
    handle_create_key_pair-Steps, handle_get-Steps, handle_locate-Steps, handle_check-Steps,
    handle_obtain_lease-Steps, handle_get_attributes-Steps, handle_get_attribute_list-Steps,
    handle_add_attribute-Steps, handle_modify_attribute-Steps, handle_delete_attribute-Steps,
    handle_encrypt-Steps, handle_decrypt-Steps, handle_sign-Steps, handle_signature_verify-Steps,
    handle_mac-Steps, handle_query-Steps, handle_discover_versions-Steps, handle_poll-Steps,
    handle_activate-Steps, handle_destroy-Steps, handle_revoke-Steps, handle_rekey-Steps,
    handle_archive-Steps, handle_recover-Steps,
  )

  -- Whatever the operation and its payload.
  pub dispatch-Steps :
      (client_cn : String)
      → Steps l.machine (dispatch l (memory_storage l.machine) op payload client_cn)
  unfolding dispatch
  dispatch-Steps client_cn = search (Steps-if, Steps-reject, Steps-respond, handler_rules) depth 40
