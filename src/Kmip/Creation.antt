-- ===== src/Kmip/Creation.antt =====
-- What Create of internal/kmip/handler.go answers, and what it leaves in the memory store.
use Prim.Native.Nat.{bit_or}
use open_kmip_server.Common.Text.{cat, dec}
use open_kmip_server.Common.{
  ℕ, ◌/◌, String, ◌≡◌, refl, ◌⊎◌, inl, inr, some, [], ◌∷◌, eq_refl, Bool-cases, Option-cases,
}
use open_kmip_server.Common.Int.{ℤ, pos_part, pos}
use open_kmip_server.Common.Dict.{get-put}
use open_kmip_server.Common.Result.{ok, err}
use open_kmip_server.External.Machine.{Machine}
use open_kmip_server.External.Libraries.{Libraries}
use open_kmip_server.Storage.Types.{KeyRecord, pre_active}
use open_kmip_server.Storage.Memory.{MemoryStore, memory_storage, create, get, save, bad_length}
use open_kmip_server.Kmip.Action.{World, done, ◌>>=◌}
use open_kmip_server.Kmip.Response.{respond, build_batch_item_success}
use open_kmip_server.Kmip.Handlers.Objects.{handle_create}
use open_kmip_server.Kmip.Handlers.Template.{Template, read_template, create_attribute}
use open_kmip_server.Kmip.Codes.{reason_general_failure}
use open_kmip_server.Kmip.Refusals.{RefusesFrom}

create_cases :
    (machine : Machine) (n : ℕ) (m : MemoryStore) (name : String)
    (algorithm bit_length usage_mask : ℤ) (owner : String)
    → ((rec : KeyRecord) × (create machine n m name algorithm bit_length usage_mask owner
          ≡ (ok rec, save m rec))
        × (rec.owner ≡ owner)
        × (rec.state ≡ pre_active))
      ⊎ ((e : String) × (create machine n m name algorithm bit_length usage_mask owner
            ≡ (err e, m)))
unfolding create
create_cases machine n m name algorithm bit_length usage_mask owner =
    elim (Bool-cases (bad_length bit_length)) [
      | inl bad ↦ inr (cat "invalid key length: " (dec bit_length), rw (create, bad) refl)
      | inr good ↦ elim (Option-cases (machine.rand_error n (pos_part bit_length / 8))) [
        | inl fine ↦ inl (
          (record {
            uid = machine.new_uuid n;
            name = name;
            object_type = pos 2;
            algorithm = algorithm;
            bit_length = bit_length;
            material = some (machine.rand_bytes n (pos_part bit_length / 8));
            usage_mask = usage_mask;
            state = pre_active;
            revocation_reason = pos 0;
            owner = owner;
            created_at = machine.now n;
            version = pos 1;
          }),
          rw (create, good, fine) refl,
          refl,
          refl,
        )
        | inr (e, failed) ↦ inr (e, rw (create, good, failed) refl)
      ]
    ]

get-save :
    (m : MemoryStore) (rec : KeyRecord)
    → rec.state ≡ pre_active
    → get (save m rec) rec.uid ≡ some rec
unfolding get
get-save m rec state = rw (get-put, eq_refl, state) refl

module _ (l : Libraries) (op : ℤ) (p : l.Item) (client_cn : String) (w : World MemoryStore) where
  open l use {lib, machine, encode_enum, encode_text_string, tag_object_type, tag_unique_identifier}

  -- What the template of the payload asks for.
  abbrev asked : Template
  asked = read_template lib (create_attribute lib) p (record {
    name = "";
    algorithm = pos l.algorithm_aes;
    bit_length = pos 256;
    usage_mask = pos (bit_or l.usage_mask_encrypt l.usage_mask_decrypt);
  })

  -- For every payload: Create answers success with the type and the identifier of an object that Get
  -- then shows, pre-active and owned by the client, or it answers an error and the store is as it was.
  pub handle_create-answer :
      ((rec : KeyRecord) × ((handle_create l (memory_storage machine) op (some p) client_cn w).0
          ≡ done (
              build_batch_item_success lib op (
                encode_enum tag_object_type rec.object_type
                ∷ encode_text_string tag_unique_identifier rec.uid
                ∷ [])))
        × (get (handle_create l (memory_storage machine) op (some p) client_cn w).1.store rec.uid
            ≡ some rec)
        × (rec.owner ≡ client_cn)
        × (rec.state ≡ pre_active))
      ⊎ RefusesFrom lib op w (handle_create l (memory_storage machine) op (some p) client_cn)
  unfolding handle_create ◌>>=◌ respond
  handle_create-answer =
      elim (create_cases machine w.moment w.store asked.name asked.algorithm asked.bit_length
        asked.usage_mask client_cn) [
          | inl (rec, made, owner, state) ↦
              inl (rec, rw made refl, rw made (get-save w.store rec state), owner, state)
          | inr (e, failed) ↦ inr (reason_general_failure, e, rw failed refl, rw failed refl)
        ]
