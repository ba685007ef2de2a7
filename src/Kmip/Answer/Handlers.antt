-- ===== src/Kmip/Answer/Handlers.antt =====
-- Every handler of internal/kmip/handler.go ends with a response item, on any store.
use open_kmip_server.Common.{ℕ, String, Option, not, ◌==◌, length, arith}
use open_kmip_server.Common.Int.{ℤ}
use open_kmip_server.Common.Bytes.{Bytes}
use open_kmip_server.Common.Result.{Result}
use open_kmip_server.External.Machine.{IsSound}
use open_kmip_server.External.Crypto.{Key, other_key, IsAead}
use open_kmip_server.External.Libraries.{Libraries}
use open_kmip_server.Storage.Interface.{Storage}
use open_kmip_server.Kmip.Action.{Action, reject_if, or_panic, ◌>>=◌, ◌>>◌}
use open_kmip_server.Kmip.Handlers.Objects.{handle_create, handle_register, handle_derive_key}
use open_kmip_server.Kmip.Handlers.Keys.{handle_create_key_pair}
use open_kmip_server.Kmip.Handlers.Lifecycle.{
  handle_get, handle_locate, handle_check, handle_obtain_lease, handle_activate, handle_destroy,
  handle_revoke, handle_rekey, handle_archive, handle_recover,
}
use open_kmip_server.Kmip.Handlers.Attributes.{
  handle_get_attributes, handle_get_attribute_list, handle_add_attribute, handle_modify_attribute,
  handle_delete_attribute,
}
use open_kmip_server.Kmip.Handlers.Cryptographic.{
  handle_encrypt, handle_decrypt, handle_sign, handle_signature_verify, handle_mac, sign_with,
  verify_with,
}
use open_kmip_server.Kmip.Handlers.Information.{handle_query, handle_discover_versions, handle_poll}
use open_kmip_server.Kmip.Dispatch.{dispatch}
use open_kmip_server.Kmip.Answer.{
  Calm, Answers, Calm-seal, Calm-bind, Calm-then, Calm-or_panic, Calm-reject_if, Answers-if,
  calm_rules,
}

module _ (l : Libraries) (storage : Storage) (op : ℤ) (payload : Option l.Item) where
  handle_create-Answers :
      (client_cn : String) → Answers (handle_create l storage op payload client_cn)
  unfolding handle_create
  handle_create-Answers client_cn = search calm_rules depth 15

  handle_register-Answers : Answers (handle_register l storage op payload)
  unfolding handle_register
  handle_register-Answers = search calm_rules depth 15

  handle_derive_key-Answers : Answers (handle_derive_key l storage op payload)
  unfolding handle_derive_key
  handle_derive_key-Answers = search calm_rules depth 15

  handle_create_key_pair-Answers : Answers (handle_create_key_pair l storage op payload)
  unfolding handle_create_key_pair
  handle_create_key_pair-Answers = search calm_rules depth 15

  handle_get-Answers : Answers (handle_get l storage op payload)
  unfolding handle_get
  handle_get-Answers = search calm_rules depth 15

  handle_locate-Answers : Answers (handle_locate l storage op payload)
  unfolding handle_locate
  handle_locate-Answers = search calm_rules depth 15

  handle_check-Answers : Answers (handle_check l storage op payload)
  unfolding handle_check
  handle_check-Answers = search calm_rules depth 15

  handle_obtain_lease-Answers : Answers (handle_obtain_lease l storage op payload)
  unfolding handle_obtain_lease
  handle_obtain_lease-Answers = search calm_rules depth 15

  handle_activate-Answers : Answers (handle_activate l storage op payload)
  unfolding handle_activate
  handle_activate-Answers = search calm_rules depth 15

  handle_destroy-Answers : Answers (handle_destroy l storage op payload)
  unfolding handle_destroy
  handle_destroy-Answers = search calm_rules depth 15

  handle_revoke-Answers : Answers (handle_revoke l storage op payload)
  unfolding handle_revoke
  handle_revoke-Answers = search calm_rules depth 15

  handle_rekey-Answers : Answers (handle_rekey l storage op payload)
  unfolding handle_rekey
  handle_rekey-Answers = search calm_rules depth 15

  handle_archive-Answers : Answers (handle_archive l storage op payload)
  unfolding handle_archive
  handle_archive-Answers = search calm_rules depth 15

  handle_recover-Answers : Answers (handle_recover l storage op payload)
  unfolding handle_recover
  handle_recover-Answers = search calm_rules depth 15

  handle_get_attributes-Answers : Answers (handle_get_attributes l storage op payload)
  unfolding handle_get_attributes
  handle_get_attributes-Answers = search calm_rules depth 15

  handle_get_attribute_list-Answers : Answers (handle_get_attribute_list l storage op payload)
  unfolding handle_get_attribute_list
  handle_get_attribute_list-Answers = search calm_rules depth 15

  handle_add_attribute-Answers : Answers (handle_add_attribute l storage op payload)
  unfolding handle_add_attribute
  handle_add_attribute-Answers = search calm_rules depth 15

  handle_modify_attribute-Answers : Answers (handle_modify_attribute l storage op payload)
  unfolding handle_modify_attribute
  handle_modify_attribute-Answers = search calm_rules depth 15

  handle_delete_attribute-Answers : Answers (handle_delete_attribute l storage op payload)
  unfolding handle_delete_attribute
  handle_delete_attribute-Answers = search calm_rules depth 15

  handle_mac-Answers : Answers (handle_mac l storage op payload)
  unfolding handle_mac
  handle_mac-Answers = search calm_rules depth 15

  handle_query-Answers : Answers (handle_query l storage op payload)
  unfolding handle_query
  handle_query-Answers = search calm_rules depth 15

  handle_discover_versions-Answers : Answers (handle_discover_versions l storage op payload)
  unfolding handle_discover_versions
  handle_discover_versions-Answers = search calm_rules depth 15

  handle_poll-Answers : Answers (handle_poll l storage op payload)
  unfolding handle_poll
  handle_poll-Answers = search calm_rules depth 15

  sign_with-Calm :
      (key : Key l.RsaPrivate l.EcdsaPrivate) (hash : Bytes) → Calm (sign_with l storage key hash)
  unfolding sign_with
  sign_with-Calm other_key hash = search calm_rules
  sign_with-Calm _ hash = search calm_rules

  handle_sign-Answers : Answers (handle_sign l storage op payload)
  unfolding handle_sign
  handle_sign-Answers = search (calm_rules, sign_with-Calm) depth 15

  verify_with-Calm :
      (key : Key l.RsaPublic l.EcdsaPublic) (hash signature : Bytes)
      → Calm (verify_with l storage key hash signature)
  unfolding verify_with
  verify_with-Calm other_key hash signature = search calm_rules
  verify_with-Calm _ hash signature = search calm_rules

  handle_signature_verify-Answers : Answers (handle_signature_verify l storage op payload)
  unfolding handle_signature_verify
  handle_signature_verify-Answers = search (calm_rules, verify_with-Calm) depth 15

  module _ (aead : IsAead l.crypto) where
    handle_encrypt-Answers : IsSound l.machine → Answers (handle_encrypt l storage op payload)
    unfolding handle_encrypt
    handle_encrypt-Answers sound =
        search (calm_rules, Calm-seal l aead, sound.length-rand_bytes) depth 15

    unseal-Calm :
        {A : Type 0} {S : Type 0} (gcm : l.Aead) (nonce sealed : Bytes) (reason : ℕ)
        (message : String) (f : Result Bytes → Action S A)
        → ((opened : Result Bytes) → Calm (f opened))
        → Calm (
            reject_if (not (length nonce == l.nonce_size gcm)) reason message
            >> (or_panic (l.unseal gcm nonce sealed) >>= f))
    unfolding reject_if
    unseal-Calm gcm nonce sealed reason message f rest =
        Calm-then _ _ (Calm-reject_if _ reason message) λ w u e.
          Calm-bind _ _ (Calm-or_panic _ (aead.unseal_total gcm nonce sealed (ground arith))) rest

    handle_decrypt-Answers : Answers (handle_decrypt l storage op payload)
    unfolding handle_decrypt
    handle_decrypt-Answers = search (calm_rules, unseal-Calm) depth 20

    module _ (sound : IsSound l.machine) where
      ruleset handler_rules = (
        handle_create-Answers, handle_register-Answers, handle_derive_key-Answers,
        handle_create_key_pair-Answers, handle_get-Answers, handle_locate-Answers,
        handle_check-Answers, handle_obtain_lease-Answers, handle_activate-Answers,
        handle_destroy-Answers, handle_revoke-Answers, handle_rekey-Answers, handle_archive-Answers,
        handle_recover-Answers, handle_get_attributes-Answers, handle_get_attribute_list-Answers,
        handle_add_attribute-Answers, handle_modify_attribute-Answers,
        handle_delete_attribute-Answers, handle_mac-Answers, handle_query-Answers,
        handle_discover_versions-Answers, handle_poll-Answers, handle_sign-Answers,
        handle_signature_verify-Answers, handle_encrypt-Answers, handle_decrypt-Answers,
      )

      -- Whatever the operation and its payload.
      pub dispatch-Answers :
          (client_cn : String) → Answers (dispatch l storage op payload client_cn)
      unfolding dispatch
      dispatch-Answers client_cn = search (Answers-if, calm_rules, handler_rules) depth 40
