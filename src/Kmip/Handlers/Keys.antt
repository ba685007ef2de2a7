-- ===== src/Kmip/Handlers/Keys.antt =====
-- internal/kmip/handler.go: handleCreateKeyPair.
use Prim.Native.Nat.{bit_or}
use open_kmip_server.Common.{Option, some, [], ◌∷◌, if◌then◌else◌}
use open_kmip_server.Common.Int.{ℤ, pos, eq_ℤ}
use open_kmip_server.Common.Text.{cat, hex}
use open_kmip_server.Common.Bytes.{Bytes}
use open_kmip_server.External.Crypto.{Curve, p256, p384, p521, rsa_key, ecdsa_key}
use open_kmip_server.External.Libraries.{Libraries}
use open_kmip_server.Storage.Types.{unregistered}
use open_kmip_server.Storage.Interface.{Storage}
use open_kmip_server.Kmip.Action.{
  Action, ◌>>=◌, pure, reject, require, or_fail, or_fail_as, draw, write,
}
use open_kmip_server.Kmip.Codes.{
  reason_missing_data, reason_general_failure, reason_cryptographic_failure, reason_invalid_field,
  tag_private_key_unique_identifier, tag_public_key_unique_identifier,
}
use open_kmip_server.Kmip.Response.{respond}
use open_kmip_server.Kmip.Handlers.Template.{read_template, create_attribute}

-- The two encodings and the length that the objects get.
pub record Pair : Type 0 where
  pub private_der : Bytes
  pub public_der : Bytes
  pub bit_length : ℤ

-- switch length: an unknown length gets P-256, and the objects its length.
unfoldable pub curve_of : ℤ → Curve × ℤ
curve_of bit_length =
    if eq_ℤ bit_length (pos 256)
    then (p256, bit_length)
    else if eq_ℤ bit_length (pos 384)
    then (p384, bit_length)
    else if eq_ℤ bit_length (pos 521)
    then (p521, bit_length)
    else (p256, pos 256)

module _ (l : Libraries) (storage : Storage) where
  open l use {
    Item, Buffer, encode_text_string, algorithm_rsa, algorithm_ecdsa, object_type_public_key,
    object_type_private_key, usage_mask_sign, usage_mask_verify, rsa_generate, ecdsa_generate,
    rsa_public, ecdsa_public, marshal_pkcs8, marshal_pkix,
  }

  rsa_pair : ℤ → Action storage.State Pair
  rsa_pair bit_length = do
    generated ← draw (λ n. rsa_generate n bit_length)
    key ← or_fail_as generated reason_cryptographic_failure "RSA keygen: "
    private_der ← or_fail (marshal_pkcs8 (rsa_key key)) reason_cryptographic_failure
    public_der ← or_fail (marshal_pkix (rsa_key (rsa_public key))) reason_cryptographic_failure
    pure (record { private_der = private_der; public_der = public_der; bit_length = bit_length })

  ecdsa_pair : Curve × ℤ → Action storage.State Pair
  ecdsa_pair (curve, bit_length) = do
    generated ← draw (λ n. ecdsa_generate n curve)
    key ← or_fail_as generated reason_cryptographic_failure "EC keygen: "
    private_der ← or_fail (marshal_pkcs8 (ecdsa_key key)) reason_cryptographic_failure
    public_der ← or_fail (marshal_pkix (ecdsa_key (ecdsa_public key))) reason_cryptographic_failure
    pure (record { private_der = private_der; public_der = public_der; bit_length = bit_length })

  generate_pair : ℤ → ℤ → Action storage.State Pair
  unfolding rsa_pair ecdsa_pair curve_of
  generate_pair algorithm bit_length =
      if eq_ℤ algorithm (pos algorithm_rsa)
      then rsa_pair bit_length
      else if eq_ℤ algorithm (pos algorithm_ecdsa)
      then ecdsa_pair (curve_of bit_length)
      else reject reason_invalid_field (cat "unsupported algorithm: 0x" (hex 8 algorithm))

  unfoldable pub handle_create_key_pair : ℤ → Option Item → Action storage.State Buffer
  unfolding generate_pair
  handle_create_key_pair op payload = respond l.lib op do
    p ← require payload reason_missing_data "missing request payload"
    let t = read_template l.lib (create_attribute l.lib) p (record {
      name = "";
      algorithm = pos algorithm_rsa;
      bit_length = pos 2048;
      usage_mask = pos (bit_or usage_mask_sign usage_mask_verify);
    })
    pair ← generate_pair t.algorithm t.bit_length
    private_registered ← write (λ n s. storage.register n s (
        unregistered (pos object_type_private_key) t.name t.algorithm pair.bit_length
          (some pair.private_der) t.usage_mask))
    private_rec ← or_fail private_registered reason_general_failure
    public_registered ← write (λ n s. storage.register n s (
        unregistered (pos object_type_public_key) t.name t.algorithm pair.bit_length
          (some pair.public_der) t.usage_mask))
    public_rec ← or_fail public_registered reason_general_failure
    pure (
        encode_text_string tag_private_key_unique_identifier private_rec.uid
        ∷ encode_text_string tag_public_key_unique_identifier public_rec.uid
        ∷ [])
