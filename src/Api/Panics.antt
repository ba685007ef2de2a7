-- ===== src/Api/Panics.antt =====
-- Which REST handlers can panic (internal/api/api.go).
use open_kmip_server.Common.{
  ℕ, String, Bool, true, false, ◌≡◌, ◌≢◌, refl, Option, none, some, arith, length,
}
use open_kmip_server.Common.Int.{ℤ, pos, eq_ℤ-refl}
use open_kmip_server.Common.Bytes.{Bytes}
use open_kmip_server.Common.Result.{Result, ok, err}
use open_kmip_server.External.Machine.{IsSound}
use open_kmip_server.External.Crypto.{Key, rsa_key, ecdsa_key, other_key, IsAead}
use open_kmip_server.External.Libraries.{Libraries}
use open_kmip_server.External.Formats.{Formats}
use open_kmip_server.Storage.Types.{KeyRecord, active}
use open_kmip_server.Storage.Interface.{Storage}
use open_kmip_server.Kmip.Action.{Action, World, panic, ◌>>=◌}
use open_kmip_server.Kmip.Connections.{ConnectionTracker}
use open_kmip_server.Kmip.Answer.{
  Calm, Calm-bind, Calm-reject, Calm-pure, Calm-read, Calm-write, Calm-seal, calm_rules,
}
use open_kmip_server.Api.{Backend, ApiRequest, stored, storing, log_audit, or_log, create_aead}
use open_kmip_server.Api.Keys.{
  CreateBody, generate_rsa, generate_ec, generate_pair, handle_create_key_pair, create_symmetric,
  handle_list_keys, handle_create_key, handle_get_key, handle_activate_key, handle_revoke_key,
  handle_destroy_key, handle_rekey_key, handle_upload_certificate,
}
use open_kmip_server.Api.Cryptographic.{
  VerifyBody, WrapBody, sign_hash, handle_encrypt_key, handle_sign_key, handle_verify_key,
  handle_mac_key, handle_wrap_key, handle_decrypt_key, DecryptBody,
}
use open_kmip_server.Api.Reports.{handle_connections, handle_status, handle_audit_log, AuditQuery}
use open_kmip_server.Storage.AssetGraph.{AssetTables}
use open_kmip_server.Api.Inventory.{Inventory, handle_inventory}
use open_kmip_server.Api.Routes.{
  Route, list_keys, connections, server_status, inventory, create_key, get_key, activate_key,
  destroy_key, rekey_key, revoke_key, encrypt_key, sign_key, mac_key, decrypt_key, verify_key,
  wrap_key, unwrap_key, upload_certificate, audit_log, serve_route,
}

module _ {S A : Type 0} where
  pub Calm-stored : (f : ℕ → S → A) → Calm (stored f)
  unfolding stored
  Calm-stored f = Calm-read _

  pub Calm-storing : (f : ℕ → S → Result A × S) → Calm (storing f)
  unfolding storing
  Calm-storing f = Calm-write _

pub Calm-log_audit :
    {S : Type 0} (l : Libraries) (api_key : String) (r : ApiRequest)
    (operation uid name status message : String)
    → Calm {S = Backend S} (log_audit l api_key r operation uid name status message)
unfolding log_audit
Calm-log_audit l api_key r operation uid name status message = record { at = λ w. ground arith }

pub Calm-or_log :
    {S A : Type 0} (entry : Action (Backend S) (Unit {0})) (r : Result A) (status : ℕ)
    → Calm entry
    → Calm (or_log entry r status)
unfolding or_log
Calm-or_log entry (ok a) status calm = Calm-pure a
Calm-or_log entry (err e) status calm = Calm-bind _ _ calm (λ _. Calm-reject status e)

pub ruleset api_rules = (calm_rules, Calm-stored, Calm-storing, Calm-log_audit, Calm-or_log)

module _ (l : Libraries) (formats : Formats l.crypto) (api_key : String) (storage : Storage)
    (r : ApiRequest) where
  list_keys-Calm : Calm (handle_list_keys l formats api_key storage r)
  unfolding handle_list_keys
  list_keys-Calm = search api_rules depth 20

  generate_pair-Calm :
      (key_type : String) (bit_length : ℤ)
      → Calm (generate_pair l formats api_key storage key_type bit_length)
  unfolding generate_pair generate_rsa generate_ec
  generate_pair-Calm key_type bit_length = search api_rules depth 20

  handle_create_key_pair-Calm :
      (name key_type : String) (bit_length : ℤ)
      → Calm (handle_create_key_pair l formats api_key storage r name key_type bit_length)
  unfolding handle_create_key_pair
  handle_create_key_pair-Calm name key_type bit_length =
      search (api_rules, generate_pair-Calm) depth 30

  create_symmetric-Calm :
      (body : CreateBody) → Calm (create_symmetric l formats api_key storage r body)
  unfolding create_symmetric
  create_symmetric-Calm body = search api_rules depth 20

  create_key-Calm :
      (body : Option CreateBody) → Calm (handle_create_key l formats api_key storage r body)
  unfolding handle_create_key
  create_key-Calm body =
      search (api_rules, handle_create_key_pair-Calm, create_symmetric-Calm) depth 20

  upload_certificate-Calm :
      (body : Option Bytes) (name : String)
      → Calm (handle_upload_certificate l formats api_key storage r body name)
  unfolding handle_upload_certificate
  upload_certificate-Calm body name = search api_rules depth 20

  get_key-Calm : (uid : String) → Calm (handle_get_key l formats api_key storage r uid)
  unfolding handle_get_key
  get_key-Calm uid = search api_rules depth 20

  activate_key-Calm : (uid : String) → Calm (handle_activate_key l formats api_key storage r uid)
  unfolding handle_activate_key
  activate_key-Calm uid = search api_rules depth 20

  destroy_key-Calm : (uid : String) → Calm (handle_destroy_key l formats api_key storage r uid)
  unfolding handle_destroy_key
  destroy_key-Calm uid = search api_rules depth 20

  rekey_key-Calm : (uid : String) → Calm (handle_rekey_key l formats api_key storage r uid)
  unfolding handle_rekey_key
  rekey_key-Calm uid = search api_rules depth 20

  revoke_key-Calm :
      (uid : String) (reason : Option ℤ)
      → Calm (handle_revoke_key l formats api_key storage r uid reason)
  unfolding handle_revoke_key
  revoke_key-Calm uid reason = search api_rules depth 20

  mac_key-Calm :
      (uid : String) (body : Option String)
      → Calm (handle_mac_key l formats api_key storage r uid body)
  unfolding handle_mac_key
  mac_key-Calm uid body = search api_rules depth 20

  sign_hash-Calm :
      (key : Key l.RsaPrivate l.EcdsaPrivate) (hash : Bytes)
      → Calm (sign_hash l formats api_key storage key hash)
  unfolding sign_hash
  sign_hash-Calm (rsa_key key) hash = search api_rules
  sign_hash-Calm (ecdsa_key key) hash = search api_rules
  sign_hash-Calm other_key hash = search api_rules

  sign_key-Calm :
      (uid : String) (body : Option String)
      → Calm (handle_sign_key l formats api_key storage r uid body)
  unfolding handle_sign_key
  sign_key-Calm uid body = search (api_rules, sign_hash-Calm) depth 20

  verify_key-Calm :
      (uid : String) (body : Option VerifyBody)
      → Calm (handle_verify_key l formats api_key storage r uid body)
  unfolding handle_verify_key
  verify_key-Calm uid body = search api_rules depth 20

  module _ (aead : IsAead l.crypto) (sound : IsSound l.machine) where
    encrypt_key-Calm :
        (uid : String) (body : Option String)
        → Calm (handle_encrypt_key l formats api_key storage r uid body)
    unfolding handle_encrypt_key
    encrypt_key-Calm uid body =
        search (api_rules, Calm-seal l aead, sound.length-rand_bytes) depth 20

    wrap_key-Calm :
        (uid : String) (body : Option WrapBody)
        → Calm (handle_wrap_key l formats api_key storage r uid body)
    unfolding handle_wrap_key
    wrap_key-Calm uid body = search (api_rules, Calm-seal l aead, sound.length-rand_bytes) depth 20

-- The routes whose handler opens sealed bytes with a nonce of the client.
abbrev pub is_opening : Route → Bool
is_opening (decrypt_key uid body) = true
is_opening (unwrap_key body) = true
is_opening _ = false

module _ (l : Libraries) (formats : Formats l.crypto) (api_key : String) (storage : Storage)
    (start : ℕ) (tracker : Option ConnectionTracker) (listing : Inventory) (aead : IsAead l.crypto)
    (sound : IsSound l.machine) where
  no_query : AuditQuery
  no_query = record { limit = ""; offset = ""; operation = ""; status = "" }

  reports-Calm :
      (q : AuditQuery) (counts selects : Bool)
      → Calm (handle_connections l formats storage tracker)
        × Calm (handle_status l formats storage start tracker)
        × Calm (handle_audit_log l formats storage q counts selects)
  unfolding handle_connections handle_status handle_audit_log
  reports-Calm q counts selects =
      (search api_rules depth 20, search api_rules depth 20, record { at = λ w. ground arith })

  inventory-Calm :
      (tables : Option AssetTables)
      → Calm {S = Backend storage.State} (handle_inventory listing tables)
  unfolding handle_inventory
  inventory-Calm none = search api_rules
  inventory-Calm (some tables) = search api_rules depth 20

  pub route-Calm :
      (r : ApiRequest) (route : Route)
      → is_opening route ≡ false
      → Calm (serve_route l formats api_key storage start tracker listing r route)
  unfolding serve_route
  route-Calm r list_keys h = list_keys-Calm l formats api_key storage r
  route-Calm r connections h = (reports-Calm no_query true true).0
  route-Calm r server_status h = (reports-Calm no_query true true).1
  route-Calm r (audit_log q counts selects) h = (reports-Calm q counts selects).2
  route-Calm r (inventory tables) h = inventory-Calm tables
  route-Calm r (create_key body) h = create_key-Calm l formats api_key storage r body
  route-Calm r (get_key uid) h = get_key-Calm l formats api_key storage r uid
  route-Calm r (activate_key uid) h = activate_key-Calm l formats api_key storage r uid
  route-Calm r (destroy_key uid) h = destroy_key-Calm l formats api_key storage r uid
  route-Calm r (rekey_key uid) h = rekey_key-Calm l formats api_key storage r uid
  route-Calm r (revoke_key uid reason) h = revoke_key-Calm l formats api_key storage r uid reason
  route-Calm r (encrypt_key uid body) h =
      encrypt_key-Calm l formats api_key storage r aead sound uid body
  route-Calm r (sign_key uid body) h = sign_key-Calm l formats api_key storage r uid body
  route-Calm r (mac_key uid body) h = mac_key-Calm l formats api_key storage r uid body
  route-Calm r (decrypt_key uid body) h = absurd (ground (arith, h))
  route-Calm r (verify_key uid body) h = verify_key-Calm l formats api_key storage r uid body
  route-Calm r (wrap_key uid body) h = wrap_key-Calm l formats api_key storage r aead sound uid body
  route-Calm r (unwrap_key body) h = absurd (ground (arith, h))
  route-Calm r (upload_certificate body name) h =
      upload_certificate-Calm l formats api_key storage r body name

-- The object under the identifier is an active symmetric key with a cipher.
pub record IsCipherKey (l : Libraries) (formats : Formats l.crypto) (storage : Storage)
    (uid : String) (w : World (Backend storage.State)) (rec : KeyRecord) (aead : l.Aead)
    : Type 0 where
  pub found : storage.get w.moment w.store.store uid ≡ some rec
  pub is_active : rec.state ≡ active
  pub is_symmetric : rec.object_type ≡ pos l.object_type_symmetric_key
  pub has_aead : create_aead l formats rec ≡ ok aead

-- Where Open panics on a nonce of the wrong length: a Decrypt over REST with an active symmetric key,
-- whose nonce decodes to a text of another length than the cipher's, panics in place of an answer.
pub handle_decrypt_key-panics :
    (l : Libraries) (formats : Formats l.crypto) (api_key : String) (storage : Storage)
    (panics : (a : l.Aead) (nonce sealed : Bytes)
      → length nonce ≢ l.nonce_size a
      → l.unseal a nonce sealed ≡ none)
    (r : ApiRequest) (uid : String) (body : DecryptBody) (w : World (Backend storage.State))
    (rec : KeyRecord) (aead : l.Aead) (nonce sealed : Bytes)
    → IsCipherKey l formats storage uid w rec aead
    → formats.base64_decode body.data_text ≡ some sealed
    → formats.hex_decode body.nonce ≡ some nonce
    → length nonce ≢ l.nonce_size aead
    → (handle_decrypt_key l formats api_key storage r uid (some body) w).0 ≡ panic
unfolding handle_decrypt_key ◌>>=◌ stored create_aead
handle_decrypt_key-panics l formats api_key storage panics r uid body w rec aead nonce sealed key d
      n h =
    rw
      (
        d,
        n,
        key.found,
        key.is_symmetric,
        eq_ℤ-refl,
        key.is_active,
        key.has_aead,
        panics aead nonce sealed h,
      )
      refl
