-- ===== src/Kmip/Handlers/Template.antt =====
-- internal/kmip/handler.go: the loops over the attributes of a TemplateAttribute, in handleCreate and
-- handleCreateKeyPair, handleRegister and handleDeriveKey.
use open_kmip_server.Common.{String, Option, none, some, List, [], ◌∷◌, str_eq, if◌then◌else◌}
use open_kmip_server.Common.Int.{ℤ}
use open_kmip_server.External.Kmiplib.{Kmiplib}

-- The variables that the loops set.
pub record Template : Type 0 where
  pub name : String
  pub algorithm : ℤ
  pub bit_length : ℤ
  pub usage_mask : ℤ

module _ (lib : Kmiplib) where
  open lib use {
    Item, find_child, find_children, int_value, string_value, tag_attribute, tag_attribute_name,
    tag_attribute_value, tag_name_value, tag_template_attribute,
  }

  -- An attribute with no name or no value is passed over.
  visit : (String → Item → Template → Template) → Option Item → Option Item → Template → Template
  visit body (some attr_name) (some attr_value) t = body (string_value attr_name) attr_value t
  visit body _ _ t = t

  loop : (String → Item → Template → Template) → List Item → Template → Template
  unfolding visit
  loop body [] t = t
  loop body (attr ∷ attrs) t =
      loop body attrs
        (visit body (find_child attr tag_attribute_name) (find_child attr tag_attribute_value) t)

  -- if tmpl := FindChild(payload, TagTemplateAttribute); tmpl != nil { for … }
  unfoldable pub read_template : (String → Item → Template → Template) → Item → Template → Template
  unfolding loop
  read_template body payload t = elim (find_child payload tag_template_attribute) [
    | none ↦ t
    | some tmpl ↦ loop body (find_children tmpl tag_attribute) t
  ]

  set_name : Item → Template → Template
  set_name attr_value t = elim (find_child attr_value tag_name_value) [
    | none ↦ t
    | some nv ↦ record t { name = string_value nv }
  ]

  unfoldable pub create_attribute : String → Item → Template → Template
  unfolding set_name
  create_attribute name attr_value t =
      if str_eq name "Name"
      then set_name attr_value t
      else if str_eq name "Cryptographic Algorithm"
      then record t { algorithm = int_value attr_value }
      else if str_eq name "Cryptographic Length"
      then record t { bit_length = int_value attr_value }
      else if str_eq name "Cryptographic Usage Mask"
      then record t { usage_mask = int_value attr_value }
      else t

  unfoldable pub register_attribute : String → Item → Template → Template
  unfolding set_name
  register_attribute name attr_value t =
      if str_eq name "Name"
      then set_name attr_value t
      else if str_eq name "Cryptographic Usage Mask"
      then record t { usage_mask = int_value attr_value }
      else t

  unfoldable pub derive_attribute : String → Item → Template → Template
  unfolding set_name
  derive_attribute name attr_value t =
      if str_eq name "Cryptographic Length"
      then record t { bit_length = int_value attr_value }
      else if str_eq name "Name"
      then set_name attr_value t
      else t
