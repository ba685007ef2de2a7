-- ===== src/Storage/Memory.antt =====
-- internal/storage/memory.go: the store that keeps its objects in a map. The map holds pointers, and
-- a write through one is a write of the map's entry; the mutex makes each method one step.
pub mod Search
pub mod Material
pub mod Attributes
pub mod Cases
pub mod Calls
pub mod Effects
pub mod Lookup
pub mod Invariant
pub mod History
use open_kmip_server.Common.{
  ℕ, ◌/◌, String, Bool, true, false, not, ◌&&◌, ◌||◌, Option, none, some, List, [], ◌∷◌, ltb,
  str_eq, if◌then◌else◌,
}
use open_kmip_server.Common.Int.{ℤ, pos, leb_ℤ, eq_ℤ, pos_part, quot, inc_int}
use open_kmip_server.Common.Text.{cat, dec}
use open_kmip_server.Common.Bytes.{Bytes, Slice, contents}
use open_kmip_server.Common.Result.{Result, ok, err}
use open_kmip_server.Common.Dict
use open_kmip_server.Common.Dict.{Dict}
use open_kmip_server.External.Machine.{Machine}
use open_kmip_server.Storage.Types.{
  KeyRecord, pre_active, active, destroyed, archived, revoked, is_state, visible,
  max_key_length_bits, max_derived_key_bytes,
}
use open_kmip_server.Storage.Interface.{Storage}

pub record MemoryStore : Type 0 where
  pub keys : Dict KeyRecord
  pub attrs : Dict (Dict String)

unfoldable pub new_memory_store : MemoryStore
new_memory_store = record { keys = Dict.empty; attrs = Dict.empty }

-- length <= 0 || length > MaxKeyLengthBits
abbrev pub bad_length : ℤ → Bool
bad_length n = leb_ℤ n (pos 0) || not (leb_ℤ n (pos max_key_length_bits))

-- m.keys[rec.UID] = rec
abbrev pub save : MemoryStore → KeyRecord → MemoryStore
save m rec = record m { keys = Dict.put m.keys rec.uid rec }

-- A write through the pointer that the map holds under uid.
abbrev pub overwrite : MemoryStore → String → KeyRecord → MemoryStore
overwrite m uid rec = record m { keys = Dict.put m.keys uid rec }

abbrev pub not_found : String → String
not_found uid = cat "object not found: " uid

unfoldable pub get : MemoryStore → String → Option KeyRecord
get m uid = visible (Dict.get m.keys uid)

-- for _, rec := range m.keys: the records in the order in which the loop visits their keys.
records_at : Dict KeyRecord → List String → List KeyRecord
records_at keys [] = []
records_at keys (k ∷ ks) =
    let rest = records_at keys ks in elim (Dict.get keys k) [ none ↦ rest | some rec ↦ rec ∷ rest ]

locate_loop : String → List KeyRecord → List String
locate_loop name [] = []
locate_loop name (rec ∷ recs) =
    let rest = locate_loop name recs in
    if str_eq rec.name name && not (is_state rec.state destroyed) then rec.uid ∷ rest else rest

list_loop : List KeyRecord → List KeyRecord
list_loop [] = []
list_loop (rec ∷ recs) =
    let rest = list_loop recs in if not (is_state rec.state destroyed) then rec ∷ rest else rest

abbrev pub done : Result (Unit {0})
done = ok tt

-- The body of the methods that only change an object, behind their common guard.
unfoldable pub set_state :
    (KeyRecord → KeyRecord) → MemoryStore → String → Result (Unit {0}) × MemoryStore
set_state change m uid = elim (Dict.get m.keys uid) [
  | none ↦ (err (not_found uid), m)
  | some rec ↦
      if is_state rec.state destroyed
      then (err (not_found uid), m)
      else (done, overwrite m uid (change rec))
]

unfoldable pub activate : MemoryStore → String → Result (Unit {0}) × MemoryStore
unfolding set_state
activate m uid = set_state (λ rec. record rec { state = active }) m uid

-- The material is overwritten with zeros and dropped.
unfoldable pub destroy : MemoryStore → String → Result (Unit {0}) × MemoryStore
unfolding set_state
destroy m uid = set_state (λ rec. record rec { material = none; state = destroyed }) m uid

unfoldable pub revoke : MemoryStore → String → ℤ → Result (Unit {0}) × MemoryStore
unfolding set_state
revoke m uid reason =
    set_state (λ rec. record rec { state = revoked; revocation_reason = reason }) m uid

unfoldable pub archive : MemoryStore → String → Result (Unit {0}) × MemoryStore
unfolding set_state
archive m uid = set_state (λ rec. record rec { state = archived }) m uid

unfoldable pub recover : MemoryStore → String → Result (Unit {0}) × MemoryStore
recover m uid = elim (Dict.get m.keys uid) [
  | none ↦ (err (cat "object not found or not archived: " uid), m)
  | some rec ↦
      if not (is_state rec.state archived)
      then (err (cat "object not found or not archived: " uid), m)
      else (done, overwrite m uid (record rec { state = pre_active }))
]

-- keyLen := int(length / 8), and 32 where that is not positive
abbrev pub derived_length : ℤ → ℕ
derived_length bit_length =
    if leb_ℤ (quot bit_length 8) (pos 0) then 32 else pos_part (quot bit_length 8)

module _ (machine : Machine) where
  unfoldable pub create :
      ℕ → MemoryStore → String → ℤ → ℤ → ℤ → String → Result KeyRecord × MemoryStore
  create now m name algorithm bit_length usage_mask owner =
      if bad_length bit_length
      then (err (cat "invalid key length: " (dec bit_length)), m)
      else elim (machine.rand_error now (pos_part bit_length / 8)) [
        | some e ↦ (err e, m)
        | none ↦ (ok rec, save m rec)
      ]
    where
      rec : KeyRecord
      rec = record {
        uid = machine.new_uuid now;
        name = name;
        object_type = pos 0x00000002;
        algorithm = algorithm;
        bit_length = bit_length;
        material = some (machine.rand_bytes now (pos_part bit_length / 8));
        usage_mask = usage_mask;
        state = pre_active;
        revocation_reason = pos 0;
        owner = owner;
        created_at = machine.now now;
        version = pos 1;
      }

  unfoldable pub locate : ℕ → MemoryStore → String → List String
  unfolding records_at locate_loop
  locate now m name =
      locate_loop name (records_at m.keys (machine.map_order now (Dict.keys m.keys)))

  unfoldable pub list : ℕ → MemoryStore → List KeyRecord
  unfolding records_at list_loop
  list now m = list_loop (records_at m.keys (machine.map_order now (Dict.keys m.keys)))

  unfoldable pub register : ℕ → MemoryStore → KeyRecord → Result KeyRecord × MemoryStore
  register now m given =
      if not (eq_ℤ given.object_type (pos 0x00000001)) && not (leb_ℤ (pos 0) given.bit_length)
      then (err (cat "invalid key length: " (dec given.bit_length)), m)
      else (ok rec, save m rec)
    where
      rec : KeyRecord
      rec = record given {
        uid = machine.new_uuid now;
        created_at = machine.now now;
        state = pre_active;
        version = if eq_ℤ given.version (pos 0) then pos 1 else given.version;
      }

  unfoldable pub rekey : ℕ → MemoryStore → String → Result KeyRecord × MemoryStore
  rekey now m uid = elim (Dict.get m.keys uid) [
    | none ↦ (err (not_found uid), m)
    | some rec ↦
        if is_state rec.state destroyed
        then (err (not_found uid), m)
        else if bad_length rec.bit_length
        then (err (cat "invalid key length: " (dec rec.bit_length)), m)
        else elim (machine.rand_error now (pos_part rec.bit_length / 8)) [
          | some e ↦ (err (cat "generate key material: " e), m)
          | none ↦
              let fresh = record rec {
                material = some (machine.rand_bytes now (pos_part rec.bit_length / 8));
                version = inc_int rec.version;
              } in
              (ok fresh, overwrite m uid fresh)
        ]
  ]

  -- DeriveKey from the source key that it has read.
  unfoldable pub derive_from :
      ℕ → MemoryStore → KeyRecord → Slice → String → ℤ → Result KeyRecord × MemoryStore
  derive_from now m src derivation_data name bit_length =
      if ltb max_derived_key_bytes key_len
      then (
        err (
            cat "derived key length "
              (cat (dec (pos key_len)) (cat " exceeds max " (dec (pos max_derived_key_bytes))))),
        m,
      )
      else elim (machine.hkdf (contents src.material) (contents derivation_data) "kmip-derive"
          key_len) [
            | err e ↦ (err (cat "HKDF derivation failed: " e), m)
            | ok derived ↦ (ok (rec derived), save m (rec derived))
          ]
    where
      key_len : ℕ
      key_len = derived_length bit_length

      rec : Bytes → KeyRecord
      rec derived = record {
        uid = machine.new_uuid now;
        name = name;
        object_type = pos 0x00000002;
        algorithm = src.algorithm;
        bit_length = bit_length;
        material = some derived;
        usage_mask = src.usage_mask;
        state = pre_active;
        revocation_reason = pos 0;
        owner = src.owner;
        created_at = machine.now now;
        version = pos 1;
      }

  unfoldable pub derive_key :
      ℕ → MemoryStore → String → Slice → String → ℤ → Result KeyRecord × MemoryStore
  derive_key now m source_uid derivation_data name bit_length = elim (get m source_uid) [
    | none ↦ (err (cat "source key not found: " source_uid), m)
    | some src ↦ derive_from now m src derivation_data name bit_length
  ]

-- The attributes of one object; a `nil` map reads as an empty one.
abbrev attributes_of : MemoryStore → String → Dict String
attributes_of m uid = elim (Dict.get m.attrs uid) [ none ↦ Dict.empty | some a ↦ a ]

unfoldable pub get_custom_attributes : MemoryStore → String → Result (Dict String)
unfolding get
get_custom_attributes m uid = elim (get m uid) [
  | none ↦ err (not_found uid)
  | some rec ↦ ok (attributes_of m uid)
]

unfoldable pub set_custom_attribute :
    MemoryStore → String → String → String → Result (Unit {0}) × MemoryStore
unfolding get
set_custom_attribute m uid name value = elim (get m uid) [
  | none ↦ (err (not_found uid), m)
  | some rec ↦
      (done, record m { attrs = Dict.put m.attrs uid (Dict.put (attributes_of m uid) name value) })
]

-- `delete` on a nil map does nothing: no entry is made for the object.
unfoldable pub delete_custom_attribute :
    MemoryStore → String → String → Result (Unit {0}) × MemoryStore
unfolding get
delete_custom_attribute m uid name = elim (get m uid) [
  | none ↦ (err (not_found uid), m)
  | some rec ↦ elim (Dict.get m.attrs uid) [
    | none ↦ (done, m)
    | some a ↦ (done, record m { attrs = Dict.put m.attrs uid (Dict.delete a name) })
  ]
]

-- The store as a value of the interface.
abbrev pub memory_storage : Machine → Storage
memory_storage machine = record {
  State = MemoryStore;
  create = create machine;
  get = λ now. get;
  locate = locate machine;
  list = list machine;
  activate = λ now. activate;
  destroy = λ now. destroy;
  register = register machine;
  revoke = λ now. revoke;
  get_attributes = λ now. get;
  rekey = rekey machine;
  archive = λ now. archive;
  recover = λ now. recover;
  derive_key = derive_key machine;
  get_custom_attributes = λ now. get_custom_attributes;
  set_custom_attribute = λ now. set_custom_attribute;
  delete_custom_attribute = λ now. delete_custom_attribute;
}
