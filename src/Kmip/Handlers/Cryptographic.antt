-- ===== src/Kmip/Handlers/Cryptographic.antt =====
-- internal/kmip/handler.go: the handlers that use a key.
use open_kmip_server.Common.{ℕ, Bool, not, Option, none, some, [], ◌∷◌, ◌==◌, length, if◌then◌else◌}
use open_kmip_server.Common.Int.{ℤ, pos, eq_ℤ}
use open_kmip_server.Common.Text.{cat, dec}
use open_kmip_server.Common.Bytes.{Bytes, contents}
use open_kmip_server.External.Crypto.{Key, rsa_key, ecdsa_key, other_key}
use open_kmip_server.External.Libraries.{Libraries}
use open_kmip_server.Storage.Types.{KeyRecord}
use open_kmip_server.Storage.Interface.{Storage}
use open_kmip_server.Kmip.Action.{
  Action, ◌>>=◌, ◌>>◌, pure, reject, require, or_fail, or_fail_as, or_panic, reject_if, check, draw,
  read,
}
use open_kmip_server.Kmip.Codes.{
  reason_missing_data, reason_item_not_found, reason_invalid_field, reason_cryptographic_failure,
  tag_data, tag_iv_counter_nonce, tag_signature_data, tag_mac_data, tag_validity_indicator,
}
use open_kmip_server.Kmip.Lifecycle.{validate_state_transition}
use open_kmip_server.Kmip.Response.{respond}
use open_kmip_server.Kmip.Handlers.Lifecycle.{not_found}

module _ (l : Libraries) (storage : Storage) where
  open l use {
    Item, Buffer, find_child, string_value, bytes_value, encode_enum, encode_text_string,
    encode_byte_string, tag_unique_identifier, object_type_symmetric_key, object_type_public_key,
    object_type_private_key, RsaPrivate, EcdsaPrivate, RsaPublic, EcdsaPublic, aes_new_cipher,
    new_gcm, nonce_size, seal, unseal, parse_pkcs8, parse_pkix, sha256, rsa_sign, ecdsa_sign,
    rsa_verify, ecdsa_verify, hmac_sha256,
  }

  -- rec.ObjectType != wanted
  abbrev is_other : KeyRecord → ℕ → Bool
  is_other rec wanted = not (eq_ℤ rec.object_type (pos wanted))

  unfoldable pub handle_encrypt : ℤ → Option Item → Action storage.State Buffer
  handle_encrypt op payload = respond l.lib op do
    p ← require payload reason_missing_data "missing request payload"
    uid_item ←
        require (find_child p tag_unique_identifier) reason_missing_data "missing UniqueIdentifier"
    data_item ← require (find_child p tag_data) reason_missing_data "missing Data"
    found ← read (λ n s. storage.get n s (string_value uid_item))
    rec ← require found reason_item_not_found (not_found (string_value uid_item))
    check (validate_state_transition rec.state "Encrypt")
    reject_if (is_other rec object_type_symmetric_key) reason_invalid_field
        "encrypt requires a symmetric key"
    block ← or_fail (aes_new_cipher (contents rec.material)) reason_cryptographic_failure
    gcm ← or_fail (new_gcm block) reason_cryptographic_failure
    nonce ← draw (λ n. l.machine.rand_bytes n (nonce_size gcm))
    ciphertext ← or_panic (seal gcm nonce (contents (bytes_value data_item)))
    pure (
        encode_text_string tag_unique_identifier rec.uid
        ∷ encode_byte_string tag_data (some ciphertext)
        ∷ encode_byte_string tag_iv_counter_nonce (some nonce)
        ∷ [])

  unfoldable pub handle_decrypt : ℤ → Option Item → Action storage.State Buffer
  handle_decrypt op payload = respond l.lib op do
    p ← require payload reason_missing_data "missing request payload"
    uid_item ←
        require (find_child p tag_unique_identifier) reason_missing_data "missing UniqueIdentifier"
    data_item ← require (find_child p tag_data) reason_missing_data "missing Data"
    nonce_item ←
        require (find_child p tag_iv_counter_nonce) reason_missing_data "missing IVCounterNonce"
    let nonce = contents (bytes_value nonce_item)
    found ← read (λ n s. storage.get n s (string_value uid_item))
    rec ← require found reason_item_not_found (not_found (string_value uid_item))
    check (validate_state_transition rec.state "Decrypt")
    reject_if (is_other rec object_type_symmetric_key) reason_invalid_field
        "decrypt requires a symmetric key"
    block ← or_fail (aes_new_cipher (contents rec.material)) reason_cryptographic_failure
    gcm ← or_fail (new_gcm block) reason_cryptographic_failure
    reject_if (not (length nonce == nonce_size gcm)) reason_invalid_field (
        cat "invalid nonce length: got "
          (cat (dec (pos (length nonce))) (cat ", expected " (dec (pos (nonce_size gcm))))))
    opened ← or_panic (unseal gcm nonce (contents (bytes_value data_item)))
    plaintext ← or_fail_as opened reason_cryptographic_failure "decryption failed: "
    pure (
        encode_text_string tag_unique_identifier rec.uid
        ∷ encode_byte_string tag_data (some plaintext)
        ∷ [])

  unfoldable pub sign_with : Key RsaPrivate EcdsaPrivate → Bytes → Action storage.State Bytes
  sign_with (rsa_key key) hash = do
    signed ← draw (λ n. rsa_sign n key hash)
    or_fail signed reason_cryptographic_failure
  sign_with (ecdsa_key key) hash = do
    signed ← draw (λ n. ecdsa_sign n key hash)
    or_fail signed reason_cryptographic_failure
  sign_with other_key hash = reject reason_cryptographic_failure "unsupported key type"

  unfoldable pub handle_sign : ℤ → Option Item → Action storage.State Buffer
  unfolding sign_with
  handle_sign op payload = respond l.lib op do
    p ← require payload reason_missing_data "missing request payload"
    uid_item ←
        require (find_child p tag_unique_identifier) reason_missing_data "missing UniqueIdentifier"
    data_item ← require (find_child p tag_data) reason_missing_data "missing Data"
    found ← read (λ n s. storage.get n s (string_value uid_item))
    rec ← require found reason_item_not_found (not_found (string_value uid_item))
    check (validate_state_transition rec.state "Sign")
    reject_if (is_other rec object_type_private_key) reason_invalid_field
        "sign requires a private key"
    key ← or_fail (parse_pkcs8 (contents rec.material)) reason_cryptographic_failure
    signature ← sign_with key (sha256 (contents (bytes_value data_item)))
    pure (
        encode_text_string tag_unique_identifier rec.uid
        ∷ encode_byte_string tag_signature_data (some signature)
        ∷ [])

  -- The validity indicator: 0 is valid and 1 is not.
  unfoldable pub verify_with : Key RsaPublic EcdsaPublic → Bytes → Bytes → Action storage.State ℤ
  verify_with (rsa_key key) hash signature =
      pure (elim (rsa_verify key hash signature) [ none ↦ pos 0 | some e ↦ pos 1 ])
  verify_with (ecdsa_key key) hash signature =
      pure (if ecdsa_verify key hash signature then pos 0 else pos 1)
  verify_with other_key hash signature = reject reason_cryptographic_failure "unsupported key type"

  unfoldable pub handle_signature_verify : ℤ → Option Item → Action storage.State Buffer
  unfolding verify_with
  handle_signature_verify op payload = respond l.lib op do
    p ← require payload reason_missing_data "missing request payload"
    uid_item ←
        require (find_child p tag_unique_identifier) reason_missing_data "missing UniqueIdentifier"
    data_item ← require (find_child p tag_data) reason_missing_data "missing Data"
    sig_item ← require (find_child p tag_signature_data) reason_missing_data "missing SignatureData"
    found ← read (λ n s. storage.get n s (string_value uid_item))
    rec ← require found reason_item_not_found (not_found (string_value uid_item))
    check (validate_state_transition rec.state "SignatureVerify")
    reject_if (is_other rec object_type_public_key) reason_invalid_field
        "verify requires a public key"
    key ← or_fail (parse_pkix (contents rec.material)) reason_cryptographic_failure
    valid ←
        verify_with key (sha256 (contents (bytes_value data_item)))
          (contents (bytes_value sig_item))
    pure (
        encode_text_string tag_unique_identifier rec.uid
        ∷ encode_enum tag_validity_indicator valid
        ∷ [])

  unfoldable pub handle_mac : ℤ → Option Item → Action storage.State Buffer
  handle_mac op payload = respond l.lib op do
    p ← require payload reason_missing_data "missing request payload"
    uid_item ←
        require (find_child p tag_unique_identifier) reason_missing_data "missing UniqueIdentifier"
    data_item ← require (find_child p tag_data) reason_missing_data "missing Data"
    found ← read (λ n s. storage.get n s (string_value uid_item))
    rec ← require found reason_item_not_found (not_found (string_value uid_item))
    check (validate_state_transition rec.state "MAC")
    reject_if (is_other rec object_type_symmetric_key) reason_invalid_field
        "MAC requires a symmetric key"
    pure (
        encode_text_string tag_unique_identifier rec.uid
        ∷ encode_byte_string tag_mac_data
            (some (hmac_sha256 (contents rec.material) (contents (bytes_value data_item))))
        ∷ [])
