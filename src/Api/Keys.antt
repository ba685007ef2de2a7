-- ===== src/Api/Keys.antt =====
-- internal/api/api.go: the handlers that list, make, show and change the managed objects.
use Prim.Native.Nat.{bit_or}
use open_kmip_server.Common.{
  ℕ, String, not, ◌||◌, Option, none, some, [], ◌∷◌, length, map, str_eq, ltb, if◌then◌else◌,
}
use open_kmip_server.Common.Int.{ℤ, pos, leb_ℤ, eq_ℤ}
use open_kmip_server.Common.Text.{cat, dec}
use open_kmip_server.Common.Bytes.{Bytes, Slice}
use open_kmip_server.Common.Result.{Result, ok, err}
use open_kmip_server.External.Crypto.{Curve, p256, p384, p521, rsa_key, ecdsa_key}
use open_kmip_server.External.Libraries.{Libraries}
use open_kmip_server.External.Formats.{Formats, Certificate}
use open_kmip_server.Storage.Types.{KeyRecord, unregistered, active, is_state}
use open_kmip_server.Storage.Interface.{Storage}
use open_kmip_server.Kmip.Action.{
  Action, ◌>>=◌, ◌>>◌, pure, require, or_fail, or_fail_as, reject_if, draw,
}
use open_kmip_server.Web.Http.{Json, words, number, array, items_of, json_map}
use open_kmip_server.Api.{
  Backend, ApiRequest, Handler, status_ok, status_created, status_bad_request, status_not_found,
  status_conflict, status_internal_server_error, state_string, stored, storing, resolve_algorithm,
  log_audit, or_log,
}

-- The body of POST /v1/keys.
pub record CreateBody : Type 0 where
  pub name : String
  pub algorithm : String
  pub bit_length : ℤ
  pub key_type : String

-- The encodings of a key pair, `nil` where it has none, and the length that its objects get.
pub record Pair : Type 0 where
  pub private_der : Slice
  pub public_der : Slice
  pub algorithm : ℕ
  pub bit_length : ℤ

-- der, _ = …
abbrev der_or_nil : Result Bytes → Slice
der_or_nil (ok der) = some der
der_or_nil (err e) = none

-- err.Error()
abbrev error_text : Result KeyRecord → String
error_text (ok rec) = ""
error_text (err e) = e

-- switch length, for an elliptic curve
abbrev pub curve_of : ℤ → Curve × ℤ
curve_of bit_length =
    if eq_ℤ bit_length (pos 384)
    then (p384, bit_length)
    else if eq_ℤ bit_length (pos 521)
    then (p521, bit_length)
    else (p256, pos 256)

abbrev default_length : ℤ → ℕ → ℤ
default_length bit_length otherwise = if eq_ℤ bit_length (pos 0) then pos otherwise else bit_length

-- block, _ := pem.Decode(body): the bytes of a certificate, or the body itself.
abbrev certificate_der : Option (String × Bytes) → Bytes → Bytes
certificate_der none body = body
certificate_der (some (block_type, bytes)) body =
    if str_eq block_type "CERTIFICATE" then bytes else body

module _ (l : Libraries) (formats : Formats l.crypto) (api_key : String) (storage : Storage) where
  open l use {
    object_type_symmetric_key, object_type_public_key, object_type_private_key,
    object_type_certificate, algorithm_rsa, algorithm_ecdsa, usage_mask_sign, usage_mask_verify,
    usage_mask_encrypt, usage_mask_decrypt, rsa_generate, ecdsa_generate, rsa_public, ecdsa_public,
    marshal_pkcs8, marshal_pkix,
  }
  open formats use {to_lower, format_rfc3339, pem_decode, parse_certificate}

  unfoldable pub key_item : KeyRecord → Json
  key_item rec = json_map (
      ("uid", words rec.uid)
      ∷ ("name", words rec.name)
      ∷ ("object_type", number rec.object_type)
      ∷ ("algorithm", number rec.algorithm)
      ∷ ("length", number rec.bit_length)
      ∷ ("state", words (state_string rec.state))
      ∷ ("usage_mask", number rec.usage_mask)
      ∷ ("created_at", words (format_rfc3339 rec.created_at))
      ∷ [])

  unfoldable pub handle_list_keys : ApiRequest → Handler storage.State
  unfolding key_item
  handle_list_keys r = do
    records ← stored storage.list
    _ ← log_audit l api_key r "List" "" "" "success" (cat (dec (pos (length records))) " keys")
    pure (
      status_ok,
      json_map (
          ("keys", array (items_of (map key_item records)))
          ∷ ("total", number (pos (length records)))
          ∷ []),
    )

  unfoldable pub generate_rsa : ℤ → Action (Backend storage.State) Pair
  generate_rsa bit_length = do
    generated ← draw (λ n. rsa_generate n bit_length)
    key ← or_fail generated status_internal_server_error
    pure (record {
      private_der = der_or_nil (marshal_pkcs8 (rsa_key key));
      public_der = der_or_nil (marshal_pkix (rsa_key (rsa_public key)));
      algorithm = algorithm_rsa;
      bit_length = bit_length;
    })

  unfoldable pub generate_ec : Curve × ℤ → Action (Backend storage.State) Pair
  generate_ec (curve, bit_length) = do
    generated ← draw (λ n. ecdsa_generate n curve)
    key ← or_fail generated status_internal_server_error
    pure (record {
      private_der = der_or_nil (marshal_pkcs8 (ecdsa_key key));
      public_der = der_or_nil (marshal_pkix (ecdsa_key (ecdsa_public key)));
      algorithm = algorithm_ecdsa;
      bit_length = bit_length;
    })

  -- switch keyType: it is "rsa" or "ec".
  unfoldable pub generate_pair : String → ℤ → Action (Backend storage.State) Pair
  unfolding generate_rsa generate_ec
  generate_pair key_type bit_length =
      if str_eq key_type "rsa"
      then generate_rsa (default_length bit_length 2048)
      else generate_ec (curve_of bit_length)

  unfoldable pub handle_create_key_pair : ApiRequest → String → String → ℤ → Handler storage.State
  unfolding generate_pair
  handle_create_key_pair r name key_type bit_length = do
    pair ← generate_pair key_type bit_length
    let usage_mask = pos (bit_or usage_mask_sign usage_mask_verify)
    private_registered ← storing (λ n s. storage.register n s (
        unregistered (pos object_type_private_key) name (pos pair.algorithm) pair.bit_length
          pair.private_der usage_mask))
    private_rec ← or_fail private_registered status_internal_server_error
    public_registered ← storing (λ n s. storage.register n s (
        unregistered (pos object_type_public_key) name (pos pair.algorithm) pair.bit_length
          pair.public_der usage_mask))
    public_rec ← or_fail public_registered status_internal_server_error
    _ ← log_audit l api_key r "CreateKeyPair" private_rec.uid name "success" ""
    pure (
      status_created,
      json_map (
          ("private_key_uid", words private_rec.uid)
          ∷ ("public_key_uid", words public_rec.uid)
          ∷ ("name", words name)
          ∷ ("algorithm", number (pos pair.algorithm))
          ∷ ("length", number pair.bit_length)
          ∷ ("state", words (state_string private_rec.state))
          ∷ ("created_at", words (format_rfc3339 private_rec.created_at))
          ∷ []),
    )

  -- The symmetric keys of handleCreateKey.
  unfoldable pub create_symmetric : ApiRequest → CreateBody → Handler storage.State
  create_symmetric r body = do
    let algorithm = resolve_algorithm l formats body.algorithm
    reject_if (not (leb_ℤ (pos 0) algorithm)) status_bad_request "unsupported algorithm"
    created ← storing (λ n s.
        storage.create n s body.name algorithm (default_length body.bit_length 256)
          (pos (bit_or usage_mask_encrypt usage_mask_decrypt)) "rest")
    rec ←
        or_log (log_audit l api_key r "CreateKey" "" body.name "failure" (error_text created))
          created status_internal_server_error
    _ ← log_audit l api_key r "CreateKey" rec.uid body.name "success" ""
    pure (
      status_created,
      json_map (
          ("uid", words rec.uid)
          ∷ ("name", words rec.name)
          ∷ ("object_type", number rec.object_type)
          ∷ ("algorithm", number rec.algorithm)
          ∷ ("length", number rec.bit_length)
          ∷ ("state", words (state_string rec.state))
          ∷ ("created_at", words (format_rfc3339 rec.created_at))
          ∷ []),
    )

  -- `none` is a body that does not decode.
  unfoldable pub handle_create_key : ApiRequest → Option CreateBody → Handler storage.State
  unfolding create_symmetric
  handle_create_key r decoded = do
    body ← require decoded status_bad_request "invalid JSON body"
    reject_if (str_eq body.name "") status_bad_request "name is required"
    let lower = to_lower body.key_type
    let key_type = if str_eq lower "" then "symmetric" else lower
    if str_eq key_type "rsa" || str_eq key_type "ec"
        then handle_create_key_pair r body.name key_type body.bit_length
        else create_symmetric r body

  -- `none` is a body that cannot be read; `query_name` is the name of the URL's query.
  unfoldable pub handle_upload_certificate :
      ApiRequest → Option Bytes → String → Handler storage.State
  handle_upload_certificate r sent query_name = do
    body ← require sent status_bad_request "empty or invalid body"
    reject_if (not (ltb 0 (length body))) status_bad_request "empty or invalid body"
    let der = certificate_der (pem_decode body) body
    cert ← or_fail_as (parse_certificate der) status_bad_request "invalid certificate: "
    let name = if str_eq query_name "" then Certificate.common_name cert else query_name
    registered ← storing (λ n s.
        storage.register n s
          (unregistered (pos object_type_certificate) name (pos 0) (pos 0) (some der) (pos 0)))
    rec ← or_fail registered status_internal_server_error
    _ ← log_audit l api_key r "UploadCertificate" rec.uid name "success" ""
    pure (
      status_created,
      json_map (
          ("uid", words rec.uid)
          ∷ ("name", words name)
          ∷ ("subject", words (Certificate.subject cert))
          ∷ ("issuer", words (Certificate.issuer cert))
          ∷ ("not_after", words (format_rfc3339 (Certificate.not_after cert)))
          ∷ []),
    )

  unfoldable pub handle_get_key : ApiRequest → String → Handler storage.State
  handle_get_key r uid = do
    found ← stored (λ n s. storage.get n s uid)
    rec ← require found status_not_found "key not found"
    _ ← log_audit l api_key r "Get" rec.uid rec.name "success" ""
    pure (
      status_ok,
      json_map (
          ("uid", words rec.uid)
          ∷ ("name", words rec.name)
          ∷ ("object_type", number rec.object_type)
          ∷ ("algorithm", number rec.algorithm)
          ∷ ("length", number rec.bit_length)
          ∷ ("state", words (state_string rec.state))
          ∷ ("usage_mask", number rec.usage_mask)
          ∷ ("created_at", words (format_rfc3339 rec.created_at))
          ∷ []),
    )

  -- What the handlers that change the state of an object answer.
  unfoldable pub changed_to : String → String → Json
  changed_to uid state = json_map (("uid", words uid) ∷ ("state", words state) ∷ [])

  unfoldable pub handle_activate_key : ApiRequest → String → Handler storage.State
  unfolding changed_to
  handle_activate_key r uid = do
    changed ← storing (λ n s. storage.activate n s uid)
    _ ← or_fail changed status_not_found
    _ ← log_audit l api_key r "Activate" uid "" "success" ""
    pure (status_ok, changed_to uid "active")

  -- `reason` is that of the JSON body, where it decodes.
  unfoldable pub handle_revoke_key : ApiRequest → String → Option ℤ → Handler storage.State
  unfolding changed_to
  handle_revoke_key r uid decoded = do
    reason ← require decoded status_bad_request "invalid JSON body"
    changed ← storing (λ n s. storage.revoke n s uid reason)
    _ ← or_fail changed status_not_found
    _ ← log_audit l api_key r "Revoke" uid "" "success" ""
    pure (status_ok, changed_to uid "revoked")

  unfoldable pub handle_destroy_key : ApiRequest → String → Handler storage.State
  unfolding changed_to
  handle_destroy_key r uid = do
    changed ← storing (λ n s. storage.destroy n s uid)
    _ ← or_fail changed status_not_found
    _ ← log_audit l api_key r "Destroy" uid "" "success" ""
    pure (status_ok, changed_to uid "destroyed")

  unfoldable pub handle_rekey_key : ApiRequest → String → Handler storage.State
  handle_rekey_key r uid = do
    found ← stored (λ n s. storage.get n s uid)
    existing ← require found status_not_found "key not found"
    reject_if (not (is_state existing.state active)) status_conflict "key must be Active to rekey"
    rekeyed ← storing (λ n s. storage.rekey n s uid)
    rec ← or_fail rekeyed status_not_found
    _ ← log_audit l api_key r "Rekey" uid rec.name "success" ""
    pure (
      status_ok,
      json_map (
          ("uid", words rec.uid)
          ∷ ("name", words rec.name)
          ∷ ("version", number rec.version)
          ∷ ("state", words (state_string rec.state))
          ∷ []),
    )
