-- ===== src/Storage/Interface.antt =====
-- The interface `Storage` of internal/storage/types.go. A method takes the moment of its call, the
-- state of the store and its arguments, and returns its result with the new state.
use open_kmip_server.Common.{ℕ, String, Option, List}
use open_kmip_server.Common.Int.{ℤ}
use open_kmip_server.Common.Bytes.{Slice}
use open_kmip_server.Common.Result.{Result}
use open_kmip_server.Common.Dict.{Dict}
use open_kmip_server.Storage.Types.{KeyRecord}

pub record Storage : Type 1 where
  pub State : Type 0
  pub create : ℕ → State → String → ℤ → ℤ → ℤ → String → Result KeyRecord × State
  pub get : ℕ → State → String → Option KeyRecord
  pub locate : ℕ → State → String → List String
  pub list : ℕ → State → List KeyRecord
  pub activate : ℕ → State → String → Result (Unit {0}) × State
  pub destroy : ℕ → State → String → Result (Unit {0}) × State
  pub register : ℕ → State → KeyRecord → Result KeyRecord × State
  pub revoke : ℕ → State → String → ℤ → Result (Unit {0}) × State
  pub get_attributes : ℕ → State → String → Option KeyRecord
  pub rekey : ℕ → State → String → Result KeyRecord × State
  pub archive : ℕ → State → String → Result (Unit {0}) × State
  pub recover : ℕ → State → String → Result (Unit {0}) × State
  pub derive_key : ℕ → State → String → Slice → String → ℤ → Result KeyRecord × State
  pub get_custom_attributes : ℕ → State → String → Result (Dict String)
  pub set_custom_attribute : ℕ → State → String → String → String → Result (Unit {0}) × State
  pub delete_custom_attribute : ℕ → State → String → String → Result (Unit {0}) × State
