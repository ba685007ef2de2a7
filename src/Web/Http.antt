-- ===== src/Web/Http.antt =====
-- The requests and the responses of package net/http and the values of package encoding/json, as far
-- as the handlers of internal/dashauth/dashauth.go and internal/api/api.go use them.
use Prim.Native.String.{slice, len}
use text.Mathlib.Text.{starts_with}
use open_kmip_server.Common.{
  ℕ, String, Bool, Option, none, some, List, [], ◌∷◌, ◌≡◌, refl, str_eq, if◌then◌else◌,
}
use open_kmip_server.Common.Int.{ℤ}

-- A value that json.NewEncoder is given; an object is the list of its fields.
mutual
  pub data Json : Type 0 where
    words : String → Json
    number : ℤ → Json
    flag : Bool → Json
    null : Json
    object : Fields → Json
    array : Items → Json

  pub data Fields : Type 0 where
    no_fields : Fields
    field : String → Json → Fields → Fields

  pub data Items : Type 0 where
    no_items : Items
    item : Json → Items → Items

abbrev pub fields_of : List (String × Json) → Fields
fields_of [] = no_fields
fields_of ((name, value) ∷ rest) = field name value (fields_of rest)

abbrev pub items_of : List Json → Items
items_of [] = no_items
items_of (value ∷ rest) = item value (items_of rest)

-- A slice that may be nil, which is written as null.
abbrev pub slice_json : List Json → Json
slice_json [] = null
slice_json (value ∷ rest) = array (items_of (value ∷ rest))

-- map[string]any{…}
abbrev pub json_map : List (String × Json) → Json
json_map fields = object (fields_of fields)

-- The cookie that a response sets. A max_age below 0 removes it.
pub record Cookie : Type 0 where
  pub value : String
  pub max_age : ℤ
  pub secure : Bool

pub record Response : Type 0 where
  pub status : ℕ
  pub headers : List (String × String)
  pub cookies : List Cookie
  pub body : Json

-- strings.TrimPrefix(s, prefix)
unfoldable pub trim_prefix : String → String → String
trim_prefix s prefix = if starts_with s prefix then slice s (len prefix) (len s) else s

-- addr[:strings.LastIndex(addr, ":")], where addr has a colon
before_last_colon : String → Option String
before_last_colon Prim.Native.String.[] = none
before_last_colon (Prim.Native.String.◌∷◌ c s) =
    let rest = before_last_colon s in
    elim rest [
      | some t ↦ some (Prim.Native.String.◌∷◌ c t)
      | none ↦ if str_eq (Prim.Native.String.◌∷◌ c "") ":" then some "" else none
    ]

-- extractIP
unfoldable pub extract_ip : String → String
unfolding before_last_colon
extract_ip addr = elim (before_last_colon addr) [ some ip ↦ ip | none ↦ addr ]

with_port : extract_ip "[::1]:4711" ≡ "[::1]"
unfolding extract_ip before_last_colon
with_port = refl

bearer : trim_prefix "Bearer abc" "Bearer " ≡ "abc"
unfolding trim_prefix
bearer = refl
