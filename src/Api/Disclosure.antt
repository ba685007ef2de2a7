-- ===== src/Api/Disclosure.antt =====
-- What the REST handlers tell of a key (internal/api/api.go): Decrypt restores what Encrypt was given,
-- and no report has the material.
use open_kmip_server.Common.{
  suc, String, ◌≡◌, refl, sym, ap, ◌∙◌, Option, none, some, List, [], ◌∷◌, map, length,
  Option-cases, inl, inr,
}
use open_kmip_server.Common.Int.{pos, eq_ℤ-refl}
use open_kmip_server.Common.Bytes.{Bytes}
use open_kmip_server.External.Machine.{IsSound}
use open_kmip_server.External.Crypto.{IsAead}
use open_kmip_server.External.Libraries.{Libraries}
use open_kmip_server.External.Formats.{Formats, IsFormats}
use open_kmip_server.Storage.Types.{KeyRecord}
use open_kmip_server.Storage.Interface.{Storage}
use open_kmip_server.Kmip.Action.{World, Outcome, done, fail, ◌>>=◌}
use open_kmip_server.Web.Http.{Json, words, json_map, array, number, items_of}
use open_kmip_server.Api.{
  Answered, Backend, ApiRequest, stored, log_audit, create_aead, status_ok, status_not_found,
  state_string,
}
use open_kmip_server.Api.Keys.{key_item, handle_list_keys, handle_get_key}
use open_kmip_server.Api.Cryptographic.{DecryptBody, handle_encrypt_key, handle_decrypt_key}
use open_kmip_server.Api.Panics.{IsCipherKey}

module _ (l : Libraries) (formats : Formats l.crypto) (api_key : String) (storage : Storage)
    (r : ApiRequest) (uid : String) where
  open formats use {base64_encode, base64_decode, hex_encode, hex_decode}

  -- The nonce that Encrypt draws, after it has read the key.
  abbrev pub drawn_nonce : l.Aead → World (Backend storage.State) → Bytes
  drawn_nonce aead w = l.machine.rand_bytes (suc w.moment) (l.nonce_size aead)

  -- The body for Decrypt that the answer of Encrypt gives.
  abbrev pub sealed_body : Bytes → Bytes → DecryptBody
  sealed_body sealed nonce = record { data_text = base64_encode sealed; nonce = hex_encode nonce }

  module _ (aead_laws : IsAead l.crypto) (sound : IsSound l.machine) (laws : IsFormats formats)
      (w v : World (Backend storage.State)) (rec : KeyRecord) (aead : l.Aead) (plain : Bytes)
      (key_w : IsCipherKey l formats storage uid w rec aead)
      (key_v : IsCipherKey l formats storage uid v rec aead) where
    encrypt-answer :
        (sealed : Bytes)
        → l.seal aead (drawn_nonce aead w) plain ≡ some sealed
        → (handle_encrypt_key l formats api_key storage r uid (some (base64_encode plain)) w).0
          ≡ done (
            status_ok,
            json_map (
                ("data", words (base64_encode sealed))
                ∷ ("nonce", words (hex_encode (drawn_nonce aead w)))
                ∷ []),
          )
    unfolding handle_encrypt_key ◌>>=◌ stored create_aead log_audit
    encrypt-answer sealed is_sealed =
        rw
          (
            laws.base64_decode-base64_encode plain,
            key_w.found,
            key_w.is_symmetric,
            eq_ℤ-refl,
            key_w.is_active,
            key_w.has_aead,
            is_sealed,
          )
          refl

    decrypt-answer :
        (sealed : Bytes)
        → l.seal aead (drawn_nonce aead w) plain ≡ some sealed
        → (handle_decrypt_key l formats api_key storage r uid
            (some (sealed_body sealed (drawn_nonce aead w)))
            v).0
          ≡ done (status_ok, json_map (("data", words (base64_encode plain)) ∷ []))
    unfolding handle_decrypt_key ◌>>=◌ stored create_aead log_audit
    decrypt-answer sealed is_sealed =
        rw
          (
            laws.base64_decode-base64_encode sealed,
            laws.hex_decode-hex_encode (drawn_nonce aead w),
            key_v.found,
            key_v.is_symmetric,
            eq_ℤ-refl,
            key_v.is_active,
            key_v.has_aead,
            aead_laws.unseal-seal aead (drawn_nonce aead w) plain is_sealed,
          )
          refl

    -- With an AEAD whose Open undoes its Seal, randomness of the length asked for and encodings that are
    -- undone by their decodings: where the identifier names the same active symmetric key with a cipher
    -- at two moments, Encrypt over REST on the base64 text of some bytes answers 200 with a text and a
    -- nonce, and Decrypt over REST on these two answers 200 with the base64 text of the bytes.
    pub decrypt_key-encrypt_key :
        (sealed : Bytes) × ((handle_encrypt_key l formats api_key storage r uid
            (some (base64_encode plain))
            w).0
          ≡ done (
            status_ok,
            json_map (
                ("data", words (base64_encode sealed))
                ∷ ("nonce", words (hex_encode (drawn_nonce aead w)))
                ∷ []),
          ))
        × ((handle_decrypt_key l formats api_key storage r uid
              (some (sealed_body sealed (drawn_nonce aead w)))
              v).0
            ≡ done (status_ok, json_map (("data", words (base64_encode plain)) ∷ [])))
    decrypt_key-encrypt_key = elim (Option-cases (l.seal aead (drawn_nonce aead w) plain)) [
      | inl panics ↦ absurd (
          aead_laws.seal_total aead (drawn_nonce aead w) plain
            (sound.length-rand_bytes (suc w.moment) (l.nonce_size aead)) panics)
      | inr (sealed, is_sealed) ↦
          (sealed, encrypt-answer sealed is_sealed, decrypt-answer sealed is_sealed)
    ]

-- The record without its material.
abbrev pub hidden : KeyRecord → KeyRecord
hidden rec = record rec { material = none }

abbrev pub hidden_object : Option KeyRecord → Option KeyRecord
hidden_object none = none
hidden_object (some rec) = some (hidden rec)

module _ (l : Libraries) (formats : Formats l.crypto) (api_key : String) (storage : Storage)
    (r : ApiRequest) where
  abbrev items : List KeyRecord → List Json
  items records = map (key_item l formats api_key storage) records

  items-hidden : (records : List KeyRecord) → items (map hidden records) ≡ items records
  unfolding key_item
  items-hidden [] = refl
  items-hidden (rec ∷ records) =
      ap (λ rest. key_item l formats api_key storage rec ∷ rest) (items-hidden records)

  length-hidden : (records : List KeyRecord) → length (map hidden records) ≡ length records
  length-hidden [] = refl
  length-hidden (rec ∷ records) = ap suc (length-hidden records)

  list-answer :
      (w : World (Backend storage.State))
      → (handle_list_keys l formats api_key storage r w).0
        ≡ done (
          status_ok,
          json_map (
              ("keys", array (items_of (items (map hidden (storage.list w.moment w.store.store)))))
              ∷ ("total", number (pos (length (map hidden (storage.list w.moment w.store.store)))))
              ∷ []),
        )
  unfolding handle_list_keys ◌>>=◌ stored log_audit
  list-answer w =
      rw
        (
          items-hidden (storage.list w.moment w.store.store),
          length-hidden (storage.list w.moment w.store.store),
        )
        refl

  get_reply : Option KeyRecord → Outcome Answered
  get_reply none = fail status_not_found "key not found"
  get_reply (some rec) = done (
    status_ok,
    json_map (
        ("uid", words rec.uid)
        ∷ ("name", words rec.name)
        ∷ ("object_type", number rec.object_type)
        ∷ ("algorithm", number rec.algorithm)
        ∷ ("length", number rec.bit_length)
        ∷ ("state", words (state_string rec.state))
        ∷ ("usage_mask", number rec.usage_mask)
        ∷ ("created_at", words (formats.format_rfc3339 rec.created_at))
        ∷ []),
  )

  get-answer :
      (uid : String) (w : World (Backend storage.State))
      → (handle_get_key l formats api_key storage r uid w).0
        ≡ get_reply (hidden_object (storage.get w.moment w.store.store uid))
  unfolding handle_get_key ◌>>=◌ stored log_audit get_reply
  get-answer uid w = elim (Option-cases (storage.get w.moment w.store.store uid)) [
    | inl missing ↦ rw missing refl
    | inr (rec, found) ↦ rw found refl
  ]

  list_reply : List KeyRecord → Outcome Answered
  list_reply records = done (
    status_ok,
    json_map (
        ("keys", array (items_of (items records))) ∷ ("total", number (pos (length records))) ∷ []),
  )

  -- On any store, for two moments: where the store lists the same records up to their material, GET
  -- /v1/keys answers the same at both, and where it has the same object under an identifier up to its
  -- material, or none at both, GET /v1/keys/{uid} answers the same at both.
  pub list_keys-get_key-hidden :
      (w v : World (Backend storage.State)) (uid : String)
      → map hidden (storage.list w.moment w.store.store)
        ≡ map hidden (storage.list v.moment v.store.store)
      → hidden_object (storage.get w.moment w.store.store uid)
        ≡ hidden_object (storage.get v.moment v.store.store uid)
      → ((handle_list_keys l formats api_key storage r w).0
          ≡ (handle_list_keys l formats api_key storage r v).0)
        × ((handle_get_key l formats api_key storage r uid w).0
            ≡ (handle_get_key l formats api_key storage r uid v).0)
  unfolding list_reply
  list_keys-get_key-hidden w v uid listed shown = (
    list-answer w ∙ ap list_reply listed ∙ sym (list-answer v),
    get-answer uid w ∙ ap get_reply shown ∙ sym (get-answer uid v),
  )
