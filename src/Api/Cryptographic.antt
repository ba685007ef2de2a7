-- ===== src/Api/Cryptographic.antt =====
-- internal/api/api.go: the handlers that use a key.
use Prim.Native.Nat.{bit_or}
use open_kmip_server.Common.{
  ℕ, ◌*◌, String, Bool, true, false, not, ◌||◌, Option, none, some, [], ◌∷◌, length, str_eq,
  if◌then◌else◌,
}
use open_kmip_server.Common.Int.{ℤ, pos, leb_ℤ, eq_ℤ, to_int32}
use open_kmip_server.Common.Bytes.{Bytes, contents}
use open_kmip_server.External.Crypto.{Key, rsa_key, ecdsa_key, other_key}
use open_kmip_server.External.Libraries.{Libraries}
use open_kmip_server.External.Formats.{Formats}
use open_kmip_server.Storage.Types.{KeyRecord, unregistered, pre_active, active, is_state}
use open_kmip_server.Storage.Interface.{Storage}
use open_kmip_server.Kmip.Action.{
  Action, ◌>>=◌, ◌>>◌, pure, reject, require, or_fail, or_fail_as, or_panic, reject_if, draw,
}
use open_kmip_server.Web.Http.{words, number, flag, json_map}
use open_kmip_server.Api.{
  Backend, ApiRequest, Handler, status_ok, status_created, status_bad_request, status_not_found,
  status_conflict, status_internal_server_error, state_string, stored, storing, resolve_algorithm,
  create_aead, create_aead_from_material, log_audit,
}

-- The JSON bodies.
pub record DecryptBody : Type 0 where
  pub data_text : String
  pub nonce : String

pub record WrapBody : Type 0 where
  pub wrapping_key_uid : String
  pub method : String

pub record UnwrapBody : Type 0 where
  pub wrapping_key_uid : String
  pub wrapped_key : String
  pub nonce : String
  pub method : String
  pub name : String
  pub algorithm : String
  pub bit_length : ℤ

pub record VerifyBody : Type 0 where
  pub data_text : String
  pub signature : String

module _ (l : Libraries) (formats : Formats l.crypto) (api_key : String) (storage : Storage) where
  open l use {
    object_type_symmetric_key, object_type_public_key, object_type_private_key, usage_mask_encrypt,
    usage_mask_decrypt, RsaPrivate, EcdsaPrivate, RsaPublic, EcdsaPublic, nonce_size, seal, unseal,
    parse_pkcs8, parse_pkix, sha256, rsa_sign, ecdsa_sign, rsa_verify, ecdsa_verify, hmac_sha256,
  }
  open formats use {base64_encode, base64_decode, hex_encode, hex_decode}

  -- rec.ObjectType != wanted
  abbrev is_other : KeyRecord → ℕ → Bool
  is_other rec wanted = not (eq_ℤ rec.object_type (pos wanted))

  unfoldable pub handle_encrypt_key : ApiRequest → String → Option String → Handler storage.State
  handle_encrypt_key r uid decoded = do
    data_text ← require decoded status_bad_request "invalid JSON body"
    plaintext ← require (base64_decode data_text) status_bad_request "invalid base64 data"
    found ← stored (λ n s. storage.get n s uid)
    rec ← require found status_not_found "key not found"
    reject_if (is_other rec object_type_symmetric_key) status_bad_request
        "encrypt requires a symmetric key"
    reject_if (not (is_state rec.state active)) status_conflict "key must be Active to encrypt"
    aead ← or_fail (create_aead l formats rec) status_internal_server_error
    nonce ← draw (λ n. l.machine.rand_bytes n (nonce_size aead))
    ciphertext ← or_panic (seal aead nonce plaintext)
    _ ← log_audit l api_key r "Encrypt" uid rec.name "success" ""
    pure (
      status_ok,
      json_map
          (("data", words (base64_encode ciphertext)) ∷ ("nonce", words (hex_encode nonce)) ∷ []),
    )

  unfoldable pub handle_decrypt_key :
      ApiRequest → String → Option DecryptBody → Handler storage.State
  handle_decrypt_key r uid decoded = do
    body ← require decoded status_bad_request "invalid JSON body"
    ciphertext ←
        require (base64_decode (DecryptBody.data_text body)) status_bad_request
          "invalid base64 data"
    nonce ← require (hex_decode (DecryptBody.nonce body)) status_bad_request "invalid hex nonce"
    found ← stored (λ n s. storage.get n s uid)
    rec ← require found status_not_found "key not found"
    reject_if (is_other rec object_type_symmetric_key) status_bad_request
        "decrypt requires a symmetric key"
    reject_if (not (is_state rec.state active)) status_conflict "key must be Active to decrypt"
    aead ← or_fail (create_aead l formats rec) status_internal_server_error
    opened ← or_panic (unseal aead nonce ciphertext)
    plaintext ← or_fail_as opened status_bad_request "decryption failed: "
    _ ← log_audit l api_key r "Decrypt" uid rec.name "success" ""
    pure (status_ok, json_map (("data", words (base64_encode plaintext)) ∷ []))

  unfoldable pub handle_wrap_key : ApiRequest → String → Option WrapBody → Handler storage.State
  handle_wrap_key r uid decoded = do
    body ← require decoded status_bad_request "invalid JSON body"
    reject_if (str_eq (WrapBody.wrapping_key_uid body) "") status_bad_request
        "wrapping_key_uid required"
    found_target ← stored (λ n s. storage.get n s uid)
    target_rec ← require found_target status_not_found "target key not found"
    found_wrap ← stored (λ n s. storage.get n s (WrapBody.wrapping_key_uid body))
    wrap_rec ← require found_wrap status_not_found "wrapping key not found"
    reject_if (is_other wrap_rec object_type_symmetric_key) status_bad_request
        "wrapping key must be symmetric"
    aead ←
        or_fail
          (create_aead_from_material l formats (KeyRecord.material wrap_rec)
            (KeyRecord.algorithm wrap_rec) (WrapBody.method body))
          status_internal_server_error
    nonce ← draw (λ n. l.machine.rand_bytes n (nonce_size aead))
    wrapped ← or_panic (seal aead nonce (contents (KeyRecord.material target_rec)))
    _ ← log_audit l api_key r "WrapKey" uid (KeyRecord.name target_rec) "success" ""
    pure (
      status_ok,
      json_map (
          ("wrapped_key", words (base64_encode wrapped))
          ∷ ("nonce", words (hex_encode nonce))
          ∷ []),
    )

  unfoldable pub handle_unwrap_key : ApiRequest → Option UnwrapBody → Handler storage.State
  handle_unwrap_key r decoded = do
    body ← require decoded status_bad_request "invalid JSON body"
    wrapped_key ←
        require (base64_decode (UnwrapBody.wrapped_key body)) status_bad_request
          "invalid base64 wrapped_key"
    nonce ← require (hex_decode (UnwrapBody.nonce body)) status_bad_request "invalid hex nonce"
    found ← stored (λ n s. storage.get n s (UnwrapBody.wrapping_key_uid body))
    wrap_rec ← require found status_not_found "wrapping key not found"
    aead ←
        or_fail
          (create_aead_from_material l formats (KeyRecord.material wrap_rec)
            (KeyRecord.algorithm wrap_rec) (UnwrapBody.method body))
          status_internal_server_error
    opened ← or_panic (unseal aead nonce wrapped_key)
    key_material ← or_fail_as opened status_bad_request "unwrap failed: "
    let name = if str_eq (UnwrapBody.name body) "" then "unwrapped-key" else UnwrapBody.name body
    let algorithm = resolve_algorithm l formats (UnwrapBody.algorithm body)
    reject_if (not (leb_ℤ (pos 0) algorithm)) status_bad_request "unsupported algorithm"
    let bit_length =
        if eq_ℤ (UnwrapBody.bit_length body) (pos 0)
        then to_int32 (pos (length key_material * 8))
        else UnwrapBody.bit_length body
    created_at ← draw (λ n. l.machine.now n)
    registered ← storing (λ n s.
        storage.register n s
          (record (unregistered (pos object_type_symmetric_key) name algorithm bit_length
            (some key_material) (pos (bit_or usage_mask_encrypt usage_mask_decrypt))) {
              state = pre_active;
              created_at = created_at;
            }))
    rec ← or_fail registered status_internal_server_error
    _ ← log_audit l api_key r "UnwrapKey" rec.uid name "success" ""
    pure (
      status_created,
      json_map (
          ("uid", words rec.uid)
          ∷ ("name", words name)
          ∷ ("algorithm", number algorithm)
          ∷ ("length", number bit_length)
          ∷ ("state", words (state_string rec.state))
          ∷ []),
    )

  unfoldable pub sign_hash :
      Key RsaPrivate EcdsaPrivate → Bytes → Action (Backend storage.State) Bytes
  sign_hash (rsa_key key) hash = do
    signed ← draw (λ n. rsa_sign n key hash)
    or_fail signed status_internal_server_error
  sign_hash (ecdsa_key key) hash = do
    signed ← draw (λ n. ecdsa_sign n key hash)
    or_fail signed status_internal_server_error
  sign_hash other_key hash = reject status_bad_request "unsupported key type"

  unfoldable pub handle_sign_key : ApiRequest → String → Option String → Handler storage.State
  unfolding sign_hash
  handle_sign_key r uid decoded = do
    data_text ← require decoded status_bad_request "invalid JSON body"
    bytes ← require (base64_decode data_text) status_bad_request "invalid base64 data"
    found ← stored (λ n s. storage.get n s uid)
    rec ← require found status_not_found "key not found"
    reject_if (not (is_state rec.state active) || is_other rec object_type_private_key)
        status_bad_request "sign requires an active private key"
    key ← or_fail (parse_pkcs8 (contents rec.material)) status_internal_server_error
    signature ← sign_hash key (sha256 bytes)
    _ ← log_audit l api_key r "Sign" uid rec.name "success" ""
    pure (status_ok, json_map (("signature", words (base64_encode signature)) ∷ []))

  no_error : Option String → Bool
  no_error none = true
  no_error (some e) = false

  -- `valid` stays true for a key of another type.
  is_valid : Key RsaPublic EcdsaPublic → Bytes → Bytes → Bool
  unfolding no_error
  is_valid (rsa_key key) hash sig = no_error (rsa_verify key hash sig)
  is_valid (ecdsa_key key) hash sig = ecdsa_verify key hash sig
  is_valid other_key hash sig = true

  unfoldable pub handle_verify_key : ApiRequest → String → Option VerifyBody → Handler storage.State
  unfolding is_valid
  handle_verify_key r uid decoded = do
    body ← require decoded status_bad_request "invalid JSON body"
    bytes ←
        require (base64_decode (VerifyBody.data_text body)) status_bad_request "invalid base64 data"
    sig ←
        require (base64_decode (VerifyBody.signature body)) status_bad_request
          "invalid base64 signature"
    found ← stored (λ n s. storage.get n s uid)
    rec ← require found status_not_found "key not found"
    reject_if (is_other rec object_type_public_key) status_bad_request
        "verify requires a public key"
    key ← or_fail (parse_pkix (contents rec.material)) status_internal_server_error
    let valid = is_valid key (sha256 bytes) sig
    _ ←
        log_audit l api_key r "Verify" uid rec.name "success"
          (if valid then "valid=true" else "valid=false")
    pure (status_ok, json_map (("valid", flag valid) ∷ []))

  unfoldable pub handle_mac_key : ApiRequest → String → Option String → Handler storage.State
  handle_mac_key r uid decoded = do
    data_text ← require decoded status_bad_request "invalid JSON body"
    bytes ← require (base64_decode data_text) status_bad_request "invalid base64 data"
    found ← stored (λ n s. storage.get n s uid)
    rec ← require found status_not_found "key not found"
    reject_if (not (is_state rec.state active) || is_other rec object_type_symmetric_key)
        status_bad_request "MAC requires an active symmetric key"
    _ ← log_audit l api_key r "MAC" uid rec.name "success" ""
    pure (
      status_ok,
      json_map (("mac", words (base64_encode (hmac_sha256 (contents rec.material) bytes))) ∷ []),
    )
