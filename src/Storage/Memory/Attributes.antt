-- ===== src/Storage/Memory/Attributes.antt =====
-- Custom attributes of an object (internal/storage/memory.go).
use open_kmip_server.Common.{String, ◌≡◌, Option, none, some, arith, eq_iff, str_eq, if◌then◌else◌}
use open_kmip_server.Common.Result.{ok, err}
use open_kmip_server.Common.Dict
use open_kmip_server.Common.Dict.{get-put, get-delete, get-empty}
use open_kmip_server.Storage.Types.{KeyRecord}
use open_kmip_server.Storage.Memory.{
  MemoryStore, get, attributes_of, get_custom_attributes, set_custom_attribute,
}

-- What the object has under the attribute name, where the object is visible.
abbrev pub attribute : MemoryStore → String → String → Option String
attribute m uid name = elim (get_custom_attributes m uid) [
  | err e ↦ none
  | ok attrs ↦ Dict.get attrs name
]

module _ (m : MemoryStore) (uid : String) (rec : KeyRecord) (found : get m uid ≡ some rec)
    (name : String) where
  -- On an object that the store shows: after SetCustomAttribute the attribute of that object has the
  -- value that was set, and every other attribute, of it and of every other object, is as it was.
  pub set_custom_attribute_lem :
      (value other_uid other : String)
      → attribute (set_custom_attribute m uid name value).1 other_uid other ≡ (
          if str_eq uid other_uid
          then (if str_eq name other then some value else attribute m uid other)
          else attribute m other_uid other)
  unfolding get_custom_attributes set_custom_attribute
  set_custom_attribute_lem value other_uid other = ground (
    arith,
    eq_iff uid other_uid,
    eq_iff name other,
    get-put m.attrs uid other_uid (Dict.put (attributes_of m uid) name value),
    get-put (attributes_of m uid) name other value,
  )
