-- ===== src/External/Machine.antt =====
-- The sources of identifiers, time, randomness and map order. Every call from the outside into the
-- store happens at a moment of its own, and takes what it needs at that moment.
use mathlib.Core.List.{Mem}
use open_kmip_server.Common.{ℕ, String, ◌≡◌, ◌↔◌, Option, List, length}
use open_kmip_server.Common.Result.{Result, ok}
use open_kmip_server.Common.Bytes.{Bytes}

pub record Machine : Type 0 where
  -- uuid.New().String()
  pub new_uuid : ℕ → String
  -- time.Now(), in nanoseconds since the epoch
  pub now : ℕ → ℕ
  -- rand.Read(make([]byte, n)): what the buffer holds afterwards, and the error
  pub rand_bytes : ℕ → ℕ → Bytes
  pub rand_error : ℕ → ℕ → Option String
  -- the order in which a range loop visits the keys of a map
  pub map_order : ℕ → List String → List String
  -- io.ReadFull(hkdf.New(sha256.New, secret, salt, info), make([]byte, n))
  pub hkdf : Bytes → Bytes → String → ℕ → Result Bytes

-- What the libraries document: identifiers are never given twice, a buffer keeps its length, and a
-- range loop visits the keys of the map and nothing else.
pub record IsSound (m : Machine) : Type 0 where
  pub uuid_unique : (i j : ℕ) → m.new_uuid i ≡ m.new_uuid j → i ≡ j
  pub length-rand_bytes : (i n : ℕ) → length (m.rand_bytes i n) ≡ n
  pub mem-map_order : (i : ℕ) (ks : List String) (k : String) → Mem k (m.map_order i ks) ↔ Mem k ks
  pub length-hkdf :
      (secret salt : Bytes) (info : String) (n : ℕ) {bs : Bytes}
      → m.hkdf secret salt info n ≡ ok bs
      → length bs ≡ n
