-- ===== src/Storage/Memory/Material.antt =====
-- The objects that Create, DeriveKey and Rekey make (internal/storage/memory.go).
use open_kmip_server.Common.{
  ℕ, ◌/◌, ◌≤◌, String, ◌≡◌, some, arith, length, eq_refl, Option-cases, inl, inr,
}
use open_kmip_server.Common.Int.{ℤ, pos_part}
use open_kmip_server.Common.Bytes.{Slice, contents}
use open_kmip_server.Common.Result.{ok, Result-cases}
use open_kmip_server.Common.Dict.{get-put}
use open_kmip_server.External.Machine.{Machine, IsSound}
use open_kmip_server.Storage.Types.{KeyRecord, pre_active}
use open_kmip_server.Storage.Memory.{
  MemoryStore, create, derive_key, derive_from, get, derived_length,
}

module _ (machine : Machine) (sound : IsSound machine) (now : ℕ) (m : MemoryStore) where
  -- With randomness of the length asked for: a record that Create returns is what Get then shows under
  -- its identifier; it is pre-active, and its material has an eighth of the length in bits, at most 4096
  -- bytes.
  pub create-Makes :
      (name : String) (algorithm bit_length usage_mask : ℤ) (owner : String) (rec : KeyRecord)
      → (create machine now m name algorithm bit_length usage_mask owner).0 ≡ ok rec
      → (get (create machine now m name algorithm bit_length usage_mask owner).1 rec.uid ≡ some rec)
        × (rec.state ≡ pre_active)
        × (length (contents rec.material) ≡ pos_part bit_length / 8)
        × (length (contents rec.material) ≤ 4096)
  unfolding create get
  create-Makes name algorithm bit_length usage_mask owner rec h = ground (
    arith,
    eq_refl (machine.new_uuid now),
    get-put m.keys (machine.new_uuid now) (machine.new_uuid now) rec,
    sound.length-rand_bytes now (pos_part bit_length / 8),
  )

  derive_from-Makes :
      (src : KeyRecord) (salt : Slice) (name : String) (bit_length : ℤ) (rec : KeyRecord)
      → (derive_from machine now m src salt name bit_length).0 ≡ ok rec
      → (get (derive_from machine now m src salt name bit_length).1 rec.uid ≡ some rec)
        × (rec.state ≡ pre_active)
        × (length (contents rec.material) ≡ derived_length bit_length)
        × (length (contents rec.material) ≤ 512)
  unfolding derive_from get
  derive_from-Makes src salt name bit_length rec h =
      elim (Result-cases (
        machine.hkdf (contents src.material) (contents salt) "kmip-derive"
          (derived_length bit_length))) [
            | inl (bs, e) ↦ ground (
              arith,
              eq_refl (machine.new_uuid now),
              get-put m.keys (machine.new_uuid now) (machine.new_uuid now) rec,
              sound.length-hkdf (contents src.material) (contents salt) "kmip-derive"
                  (derived_length bit_length) e,
            )
            | inr (x, e) ↦ ground arith
          ]

  -- With HKDF output of the length asked for: a record that DeriveKey returns is what Get then shows
  -- under its identifier; it is pre-active, and its material has the length that the code computes from
  -- the length in bits (32 where that is not positive), at most 512 bytes.
  pub derive_key-Makes :
      (source_uid : String) (salt : Slice) (name : String) (bit_length : ℤ) (rec : KeyRecord)
      → (derive_key machine now m source_uid salt name bit_length).0 ≡ ok rec
      → (get (derive_key machine now m source_uid salt name bit_length).1 rec.uid ≡ some rec)
        × (rec.state ≡ pre_active)
        × (length (contents rec.material) ≡ derived_length bit_length)
        × (length (contents rec.material) ≤ 512)
  unfolding derive_key
  derive_key-Makes source_uid salt name bit_length rec h = elim (Option-cases (get m source_uid)) [
    | inl missing ↦ ground arith
    | inr (src, found) ↦
        rw (derive_key, found)
          (derive_from-Makes src salt name bit_length rec (rw (derive_key, found) at h))
  ]
