-- ===== src/Scenarios/Keys.antt =====
-- One AES key in the memory store, and the handlers that change or use it.
use open_kmip_server.Common.{
  ◌≡◌, ◌≢◌, refl, Option, none, some, List, [], ◌∷◌, ◌⊎◌, arith, replicate,
}
use open_kmip_server.Common.Int.{pos}
use open_kmip_server.Common.Dict
use open_kmip_server.Storage.Types.{
  KeyState, KeyRecord, pre_active, active, deactivated, compromised, destroyed, unregistered,
  revoked,
}
use open_kmip_server.Storage.Memory.{MemoryStore, memory_storage, new_memory_store, overwrite, get}
use open_kmip_server.Kmip.Action.{World, done}
use open_kmip_server.Kmip.Codes.{tag_data, tag_iv_counter_nonce, operation_revoke}
use open_kmip_server.Kmip.Response.{build_batch_item_success}
use open_kmip_server.Kmip.Handlers.Lifecycle.{
  handle_activate, handle_destroy, handle_revoke, stated_reason,
}
use open_kmip_server.Kmip.Handlers.Cryptographic.{
  handle_encrypt, handle_decrypt, handle_sign, handle_signature_verify, handle_mac,
}
use open_kmip_server.Kmip.Refusals.{RefusesFrom}
use open_kmip_server.Kmip.Handlers.Objects.{handle_create}
use open_kmip_server.Kmip.Creation.{handle_create-answer}
use open_kmip_server.Kmip.Changes.{
  handle_activate-answer, handle_revoke-answer, handle_destroy-answer,
}
use open_kmip_server.Kmip.Secrecy.{inactive-RefusesFrom, decrypt-encrypt, IsAesKey}
use open_kmip_server.Scenarios.World.{
  Tree, forest_of, words, bytes, structure, libraries, lib, machine, machine-IsSound, crypto-IsAead,
  number,
}

abbrev pub key : KeyState → KeyRecord
key state = record (unregistered (pos 2) "k" (pos 3) (pos 128) (some (replicate 16 7)) (pos 12)) {
  uid = "k1";
  state = state;
  version = pos 1;
}

abbrev pub world : KeyState → World MemoryStore
world state = record { store = overwrite new_memory_store "k1" (key state); moment = 9 }

abbrev on_key : List Tree → Tree
on_key rest = structure 0x420079 (forest_of (words 0x420094 "k1" ∷ rest))

pub found : (state : KeyState) → state ≢ destroyed → get (world state).store "k1" ≡ some (key state)
unfolding get Dict.get Dict.put Dict.empty new_memory_store
found state live = ground (arith, live)

handle_activate-answer_example :
    (((key pre_active).state ≡ pre_active)
      × (handle_activate libraries
            (memory_storage machine)
            (pos 0x12)
            (some (on_key []))
            (world pre_active)
          ≡ (
            done (build_batch_item_success lib (pos 0x12) (words 0x420094 "k1" ∷ [])),
            record {
              store =
                  overwrite
                    (world pre_active).store
                    "k1"
                    (record (key pre_active) { state = active });
              moment = 11;
            },
          )))
    ⊎ (((key pre_active).state ≢ pre_active)
        × RefusesFrom lib
            (pos 0x12)
            (world pre_active)
            (handle_activate libraries (memory_storage machine) (pos 0x12) (some (on_key []))))
handle_activate-answer_example =
    handle_activate-answer libraries (pos 0x12) (on_key []) (words 0x420094 "k1") (world pre_active)
      (key pre_active) refl (found pre_active (ground arith))

handle_revoke-answer_example :
    ((((key active).state ≡ pre_active)
        ⊎ ((key active).state ≡ active)
        ⊎ ((key active).state ≡ deactivated))
      × (handle_revoke libraries
            (memory_storage machine)
            (pos operation_revoke)
            (some (on_key []))
            (world active)
          ≡ (
            done (build_batch_item_success lib (pos operation_revoke) (words 0x420094 "k1" ∷ [])),
            record {
              store = overwrite (world active).store "k1" (record (key active) {
                state = revoked;
                revocation_reason = stated_reason lib (on_key []);
              });
              moment = 11;
            },
          )))
    ⊎ (¬ (
          ((key active).state ≡ pre_active)
          ⊎ ((key active).state ≡ active)
          ⊎ ((key active).state ≡ deactivated))
        × RefusesFrom lib (pos operation_revoke) (world active) (
            handle_revoke libraries
              (memory_storage machine)
              (pos operation_revoke)
              (some (on_key []))))
handle_revoke-answer_example =
    handle_revoke-answer libraries (pos operation_revoke) (on_key []) (words 0x420094 "k1")
      (world active) (key active) refl (found active (ground arith))

handle_destroy-answer_example :
    ((handle_destroy libraries
        (memory_storage machine)
        (pos 0x14)
        (some (on_key []))
        (world compromised)).0
      ≡ done (build_batch_item_success lib (pos 0x14) (words 0x420094 "k1" ∷ [])))
    × (Dict.get
          (handle_destroy libraries
            (memory_storage machine)
            (pos 0x14)
            (some (on_key []))
            (world compromised)).1.store.keys
          "k1"
        ≡ some (record (key compromised) { material = none; state = destroyed }))
    × (get
          (handle_destroy libraries
            (memory_storage machine)
            (pos 0x14)
            (some (on_key []))
            (world compromised)).1.store
          "k1"
        ≡ none)
handle_destroy-answer_example =
    handle_destroy-answer libraries (pos 0x14) (on_key []) (words 0x420094 "k1") (world compromised)
      (key compromised) refl (found compromised (ground arith)) (ground arith)

compromised_inactive :
    (p uid_item : Tree) (rec : KeyRecord)
    → ◌≡◌ {A = Option Tree} (some (on_key (bytes tag_data (some (1 ∷ [])) ∷ []))) (some p)
    → lib.find_child p 0x420094 ≡ some uid_item
    → get (world compromised).store (lib.string_value uid_item) ≡ some rec
    → rec.state ≢ active
unfolding get Dict.get Dict.put Dict.empty new_memory_store
compromised_inactive p uid_item rec e f g h = ground arith

inactive-RefusesFrom_example :
    RefusesFrom lib (pos 0x1F) (world compromised) (
      handle_encrypt libraries
        (memory_storage machine)
        (pos 0x1F)
        (some (on_key (bytes tag_data (some (1 ∷ [])) ∷ []))))
    × RefusesFrom lib (pos 0x1F) (world compromised) (
        handle_decrypt libraries
          (memory_storage machine)
          (pos 0x1F)
          (some (on_key (bytes tag_data (some (1 ∷ [])) ∷ []))))
    × RefusesFrom lib (pos 0x1F) (world compromised) (
        handle_sign libraries
          (memory_storage machine)
          (pos 0x1F)
          (some (on_key (bytes tag_data (some (1 ∷ [])) ∷ []))))
    × RefusesFrom lib (pos 0x1F) (world compromised) (
        handle_signature_verify libraries
          (memory_storage machine)
          (pos 0x1F)
          (some (on_key (bytes tag_data (some (1 ∷ [])) ∷ []))))
    × RefusesFrom lib (pos 0x1F) (world compromised) (
        handle_mac libraries
          (memory_storage machine)
          (pos 0x1F)
          (some (on_key (bytes tag_data (some (1 ∷ [])) ∷ []))))
inactive-RefusesFrom_example =
    inactive-RefusesFrom libraries (pos 0x1F) (some (on_key (bytes tag_data (some (1 ∷ [])) ∷ [])))
      (world compromised) compromised_inactive

abbrev plain_request : Tree
plain_request = on_key (bytes tag_data (some (1 ∷ 2 ∷ 3 ∷ [])) ∷ [])

abbrev sealed_request : Tree
sealed_request = on_key (
    bytes tag_data (some (1 ∷ 2 ∷ 3 ∷ []))
    ∷ bytes tag_iv_counter_nonce (some (replicate 12 7))
    ∷ [])

aes_key :
    (p : Tree)
    → lib.find_child p 0x420094 ≡ some (words 0x420094 "k1")
    → IsAesKey libraries (world active) p (key active) (replicate 16 7)
aes_key p named = record {
  uid_item = words 0x420094 "k1";
  block = replicate 16 7;
  named = named;
  found = found active (ground arith);
  is_active = refl;
  is_symmetric = refl;
  has_block = refl;
  has_gcm = refl;
}

decrypt-encrypt_example :
    ((handle_encrypt libraries
        (memory_storage machine)
        (pos 0x1F)
        (some plain_request)
        (world active)).0
      ≡ done (
          build_batch_item_success lib (pos 0x1F) (
            words 0x420094 "k1"
            ∷ bytes tag_data (some (1 ∷ 2 ∷ 3 ∷ []))
            ∷ bytes tag_iv_counter_nonce (some (replicate 12 7))
            ∷ [])))
    × ((handle_decrypt libraries
          (memory_storage machine)
          (pos 0x1F)
          (some sealed_request)
          (world active)).0
        ≡ done (
            build_batch_item_success lib
              (pos 0x1F)
              (words 0x420094 "k1" ∷ bytes tag_data (some (1 ∷ 2 ∷ 3 ∷ [])) ∷ [])))
decrypt-encrypt_example =
    decrypt-encrypt libraries crypto-IsAead machine-IsSound (pos 0x1F) (world active) (world active)
      plain_request sealed_request (bytes tag_data (some (1 ∷ 2 ∷ 3 ∷ [])))
      (bytes tag_data (some (1 ∷ 2 ∷ 3 ∷ []))) (bytes tag_iv_counter_nonce (some (replicate 12 7)))
      (key active) (replicate 16 7) (1 ∷ 2 ∷ 3 ∷ []) (aes_key plain_request refl)
      (aes_key sealed_request refl) refl refl refl refl refl refl

handle_create-answer_example :
    ((rec : KeyRecord) × ((handle_create libraries
          (memory_storage machine)
          (pos 1)
          (some (on_key []))
          "app"
          (world active)).0
        ≡ done (
            build_batch_item_success lib
              (pos 1)
              (number 0x420057 rec.object_type ∷ words 0x420094 rec.uid ∷ [])))
      × (get
            (handle_create libraries
              (memory_storage machine)
              (pos 1)
              (some (on_key []))
              "app"
              (world active)).1.store
            rec.uid
          ≡ some rec)
      × (rec.owner ≡ "app")
      × (rec.state ≡ pre_active))
    ⊎ RefusesFrom lib
        (pos 1)
        (world active)
        (handle_create libraries (memory_storage machine) (pos 1) (some (on_key [])) "app")
handle_create-answer_example =
    handle_create-answer libraries (pos 1) (on_key []) "app" (world active)
