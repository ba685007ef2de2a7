-- ===== src/Kmip/Secrecy.antt =====
-- The handlers that use a key (internal/kmip/handler.go): only an active key is used, and Decrypt
-- restores what Encrypt was given.
use open_kmip_server.Common.{
  same_number, suc, true, false, ◌≡◌, ◌≢◌, refl, Option, some, [], ◌∷◌, arith,
}
use open_kmip_server.Common.Int.{ℤ, pos, eq_ℤ-refl}
use open_kmip_server.Common.Bytes.{Bytes, contents}
use open_kmip_server.Common.Result.{ok}
use open_kmip_server.External.Machine.{IsSound}
use open_kmip_server.External.Crypto.{IsAead}
use open_kmip_server.External.Libraries.{Libraries}
use open_kmip_server.Storage.Types.{KeyState, KeyRecord, active}
use open_kmip_server.Storage.Memory.{MemoryStore, memory_storage, get}
use open_kmip_server.Kmip.Action.{World, done, ◌>>=◌}
use open_kmip_server.Kmip.Codes.{tag_data, tag_iv_counter_nonce}
use open_kmip_server.Kmip.Lifecycle.{validate_state_transition}
use open_kmip_server.Kmip.Response.{respond, build_batch_item_success}
use open_kmip_server.Kmip.Handlers.Cryptographic.{
  handle_encrypt, handle_decrypt, handle_sign, handle_signature_verify, handle_mac,
}
use open_kmip_server.Kmip.Refusals.{
  RefusesFrom, RefusesFrom-respond, FailsFrom-require, FailsFrom-read, FailsFrom-check,
}

inactive_refused :
    (s : KeyState)
    → s ≢ active
    → ((validate_state_transition s "Encrypt").2 ≡ false)
      × ((validate_state_transition s "Decrypt").2 ≡ false)
      × ((validate_state_transition s "Sign").2 ≡ false)
      × ((validate_state_transition s "SignatureVerify").2 ≡ false)
      × ((validate_state_transition s "MAC").2 ≡ false)
unfolding validate_state_transition
inactive_refused s h = (ground arith, ground arith, ground arith, ground arith, ground arith)

module _ (l : Libraries) (op : ℤ) (payload : Option l.Item) (w : World MemoryStore)
    (inactive : (p uid_item : l.Item) (rec : KeyRecord)
      → payload ≡ some p
      → l.find_child p l.tag_unique_identifier ≡ some uid_item
      → get w.store (l.string_value uid_item) ≡ some rec
      → rec.state ≢ active) where
  open l use {lib, machine}

  encrypt_refused : RefusesFrom lib op w (handle_encrypt l (memory_storage machine) op payload)
  unfolding handle_encrypt
  encrypt_refused = RefusesFrom-respond lib op _ w (
      FailsFrom-require _ _ _ _ w λ p e₁. FailsFrom-require _ _ _ _ w λ uid_item e₂.
        FailsFrom-require _ _ _ _ w λ data_item d0. FailsFrom-read _ _ w (
          FailsFrom-require _ _ _ _ _ λ rec e₄.
            FailsFrom-check _ _ _
              (inactive_refused rec.state (inactive p uid_item rec e₁ e₂ e₄)).0))

  decrypt_refused : RefusesFrom lib op w (handle_decrypt l (memory_storage machine) op payload)
  unfolding handle_decrypt
  decrypt_refused = RefusesFrom-respond lib op _ w (
      FailsFrom-require _ _ _ _ w λ p e₁. FailsFrom-require _ _ _ _ w λ uid_item e₂.
        FailsFrom-require _ _ _ _ w λ data_item d0. FailsFrom-require _ _ _ _ w λ nonce_item d1.
          FailsFrom-read _ _ w (
            FailsFrom-require _ _ _ _ _ λ rec e₄.
              FailsFrom-check _ _ _
                (inactive_refused rec.state (inactive p uid_item rec e₁ e₂ e₄)).1))

  sign_refused : RefusesFrom lib op w (handle_sign l (memory_storage machine) op payload)
  unfolding handle_sign
  sign_refused = RefusesFrom-respond lib op _ w (
      FailsFrom-require _ _ _ _ w λ p e₁. FailsFrom-require _ _ _ _ w λ uid_item e₂.
        FailsFrom-require _ _ _ _ w λ data_item d0. FailsFrom-read _ _ w (
          FailsFrom-require _ _ _ _ _ λ rec e₄.
            FailsFrom-check _ _ _
              (inactive_refused rec.state (inactive p uid_item rec e₁ e₂ e₄)).2))

  signature_verify_refused :
      RefusesFrom lib op w (handle_signature_verify l (memory_storage machine) op payload)
  unfolding handle_signature_verify
  signature_verify_refused = RefusesFrom-respond lib op _ w (
      FailsFrom-require _ _ _ _ w λ p e₁. FailsFrom-require _ _ _ _ w λ uid_item e₂.
        FailsFrom-require _ _ _ _ w λ data_item d0. FailsFrom-require _ _ _ _ w λ sig_item d1.
          FailsFrom-read _ _ w (
            FailsFrom-require _ _ _ _ _ λ rec e₄.
              FailsFrom-check _ _ _
                (inactive_refused rec.state (inactive p uid_item rec e₁ e₂ e₄)).3))

  mac_refused : RefusesFrom lib op w (handle_mac l (memory_storage machine) op payload)
  unfolding handle_mac
  mac_refused = RefusesFrom-respond lib op _ w (
      FailsFrom-require _ _ _ _ w λ p e₁. FailsFrom-require _ _ _ _ w λ uid_item e₂.
        FailsFrom-require _ _ _ _ w λ data_item d0. FailsFrom-read _ _ w (
          FailsFrom-require _ _ _ _ _ λ rec e₄.
            FailsFrom-check _ _ _
              (inactive_refused rec.state (inactive p uid_item rec e₁ e₂ e₄)).4))

  -- Where no object that the payload names in the memory store is active: Encrypt, Decrypt, Sign,
  -- SignatureVerify and MAC each answer an error and leave the store as it is.
  pub inactive-RefusesFrom :
      RefusesFrom lib op w (handle_encrypt l (memory_storage machine) op payload)
      × RefusesFrom lib op w (handle_decrypt l (memory_storage machine) op payload)
      × RefusesFrom lib op w (handle_sign l (memory_storage machine) op payload)
      × RefusesFrom lib op w (handle_signature_verify l (memory_storage machine) op payload)
      × RefusesFrom lib op w (handle_mac l (memory_storage machine) op payload)
  inactive-RefusesFrom =
      (encrypt_refused, decrypt_refused, sign_refused, signature_verify_refused, mac_refused)

active_allowed :
    (validate_state_transition active "Encrypt" ≡ (0, "", true))
    × (validate_state_transition active "Decrypt" ≡ (0, "", true))
unfolding validate_state_transition
active_allowed = (refl, refl)

module _ (l : Libraries) where
  open l use {machine, Item, find_child, string_value, tag_unique_identifier}

  -- The nonce that Encrypt draws, after it has read the key.
  abbrev pub drawn_nonce : l.Aead → World MemoryStore → Bytes
  drawn_nonce gcm w = machine.rand_bytes (suc w.moment) (l.nonce_size gcm)

  -- The key of the payload is an active AES key.
  pub record IsAesKey (w : World MemoryStore) (p : Item) (rec : KeyRecord) (gcm : l.Aead)
      : Type 0 where
    pub uid_item : Item
    pub block : l.Block
    pub named : find_child p tag_unique_identifier ≡ some uid_item
    pub found : get w.store (string_value uid_item) ≡ some rec
    pub is_active : rec.state ≡ active
    pub is_symmetric : rec.object_type ≡ pos l.object_type_symmetric_key
    pub has_block : l.aes_new_cipher (contents rec.material) ≡ ok block
    pub has_gcm : l.new_gcm block ≡ ok gcm

module _ (l : Libraries) (aead : IsAead l.crypto) (sound : IsSound l.machine) (op : ℤ) where
  open l use {lib, machine, Item, find_child, bytes_value, tag_unique_identifier}

  module _ (w v : World MemoryStore) (p q data_item sealed_item nonce_item : Item) (rec : KeyRecord)
      (gcm : l.Aead) (sealed : Bytes) (key_p : IsAesKey l w p rec gcm)
      (key_q : IsAesKey l v q rec gcm) (p_data : find_child p tag_data ≡ some data_item)
      (is_sealed : l.seal gcm (drawn_nonce l gcm w) (contents (bytes_value data_item))
        ≡ some sealed)
      (q_data : find_child q tag_data ≡ some sealed_item)
      (q_nonce : find_child q tag_iv_counter_nonce ≡ some nonce_item)
      (sealed_value : bytes_value sealed_item ≡ some sealed)
      (nonce_value : bytes_value nonce_item ≡ some (drawn_nonce l gcm w)) where
    encrypt-answer :
        (handle_encrypt l (memory_storage machine) op (some p) w).0
        ≡ done (
            build_batch_item_success lib op (
              l.encode_text_string tag_unique_identifier rec.uid
              ∷ l.encode_byte_string tag_data (some sealed)
              ∷ l.encode_byte_string tag_iv_counter_nonce (some (drawn_nonce l gcm w))
              ∷ []))
    unfolding handle_encrypt ◌>>=◌ respond
    encrypt-answer =
        rw
          (
            key_p.named, p_data, key_p.found, key_p.is_active, active_allowed.0, key_p.is_symmetric,
            eq_ℤ-refl, key_p.has_block, key_p.has_gcm, is_sealed,
          )
          refl

    decrypt-answer :
        (handle_decrypt l (memory_storage machine) op (some q) v).0
        ≡ done (
            build_batch_item_success lib op (
              l.encode_text_string tag_unique_identifier rec.uid
              ∷ l.encode_byte_string tag_data (some (contents (bytes_value data_item)))
              ∷ []))
    unfolding handle_decrypt ◌>>=◌ respond
    decrypt-answer =
        rw
          (
            key_q.named,
            q_data,
            q_nonce,
            key_q.found,
            key_q.is_active,
            active_allowed.1,
            key_q.is_symmetric,
            eq_ℤ-refl,
            key_q.has_block,
            key_q.has_gcm,
            nonce_value,
            sealed_value,
            sound.length-rand_bytes,
            same_number,
            aead.unseal-seal gcm (drawn_nonce l gcm w) (contents (bytes_value data_item)) is_sealed,
          )
          refl

    -- With an AEAD whose Open undoes its Seal and randomness of the length asked for: where both
    -- payloads name the same active AES key, Seal succeeds on the data of the first with the nonce drawn
    -- for it, and the second carries the sealed data and that nonce, Encrypt answers the sealed data and
    -- the nonce, and Decrypt answers the data of the first.
    pub decrypt-encrypt :
        ((handle_encrypt l (memory_storage machine) op (some p) w).0
          ≡ done (
              build_batch_item_success lib op (
                l.encode_text_string tag_unique_identifier rec.uid
                ∷ l.encode_byte_string tag_data (some sealed)
                ∷ l.encode_byte_string tag_iv_counter_nonce (some (drawn_nonce l gcm w))
                ∷ [])))
        × ((handle_decrypt l (memory_storage machine) op (some q) v).0
            ≡ done (
                build_batch_item_success lib op (
                  l.encode_text_string tag_unique_identifier rec.uid
                  ∷ l.encode_byte_string tag_data (some (contents (bytes_value data_item)))
                  ∷ [])))
    decrypt-encrypt = (encrypt-answer, decrypt-answer)
