-- ===== src/Storage/Types.antt =====
-- internal/storage/types.go: the lifecycle states, the record of a managed object, the limits.
use open_kmip_server.Common.{
  arith, ℕ, ◌≡◌, Bool, true, Option, none, some, ◌==◌, String, if◌then◌else◌,
}
use open_kmip_server.Common.Bytes.{Slice}
use open_kmip_server.Common.Int.{ℤ, pos}

-- `KeyState`. No code of the program makes an integer other than its constants and the zero value
-- of a record that has not been registered, `unset`.
pub data KeyState : Type 0 where
  unset pre_active active deactivated compromised destroyed destroyed_compromised archived :
      KeyState

abbrev pub revoked : KeyState
revoked = compromised

-- `int(state)`
abbrev pub state_code : KeyState → ℕ
state_code unset = 0
state_code pre_active = 1
state_code active = 2
state_code deactivated = 3
state_code compromised = 4
state_code destroyed = 5
state_code destroyed_compromised = 6
state_code archived = 100

-- `==` on states.
abbrev pub is_state : KeyState → KeyState → Bool
is_state a b = state_code a == state_code b

pub is_state→eq : (a b : KeyState) → is_state a b ≡ true → a ≡ b
is_state→eq a b h = ground arith

-- `KeyRecord`. `created_at` is the time in nanoseconds since the epoch.
pub record KeyRecord : Type 0 where
  pub uid : String
  pub name : String
  pub object_type : ℤ
  pub algorithm : ℤ
  pub bit_length : ℤ
  pub material : Slice
  pub usage_mask : ℤ
  pub state : KeyState
  pub revocation_reason : ℤ
  pub owner : String
  pub created_at : ℕ
  pub version : ℤ

-- `&KeyRecord{…}` with the fields that a caller of Register leaves at their zero values.
abbrev pub unregistered : ℤ → String → ℤ → ℤ → Slice → ℤ → KeyRecord
unregistered object_type name algorithm bit_length material usage_mask = record {
  uid = "";
  name = name;
  object_type = object_type;
  algorithm = algorithm;
  bit_length = bit_length;
  material = material;
  usage_mask = usage_mask;
  state = unset;
  revocation_reason = pos 0;
  owner = "";
  created_at = 0;
  version = pos 0;
}

-- Get hides the objects that are destroyed.
abbrev pub visible : Option KeyRecord → Option KeyRecord
visible none = none
visible (some rec) = if is_state rec.state destroyed then none else some rec

abbrev pub max_key_length_bits : ℕ
max_key_length_bits = 32768

abbrev pub max_derived_key_bytes : ℕ
max_derived_key_bytes = 512
