-- ===== src/Common/Dict.antt =====
-- Go's `map[string]V`: an association list behind its laws. The order of the entries is never
-- observed but through `keys`, whose order a range loop permutes.
use Prim.Native.Nat.{ℕ, ◌+◌}
use Prim.Native.String.{String}
use mathlib.Core.Path.{◌≡◌, refl, sym}
use mathlib.Core.Logic.{◌⊎◌, inl, inr}
use mathlib.Core.Option.{Option, none, some}
use mathlib.Core.List.{List, [], ◌∷◌, Memᴰ}
use native.Mathlib.Omega.{arith}
use text.Mathlib.TextEquality.{eq_iff}
use open_kmip_server.Common.Tests.{Bool-cases, str_eq, length, if◌then◌else◌}

pub record Dict {ℓ} (V : Type ℓ) : Type ℓ where
  entries : List (String × V)

module _ {ℓ} {V : Type ℓ} where
  read_row : List (String × V) → String → Option V
  read_row [] key = none
  read_row ((name, old) ∷ rows) key =
      let below = read_row rows key in if str_eq name key then some old else below

  write_row : List (String × V) → String → V → List (String × V)
  write_row [] key new = (key, new) ∷ []
  write_row ((name, old) ∷ rows) key new =
      let below = write_row rows key new in
      if str_eq name key then (key, new) ∷ rows else (name, old) ∷ below

  drop_row : List (String × V) → String → List (String × V)
  drop_row [] key = []
  drop_row ((name, old) ∷ rows) key =
      let below = drop_row rows key in if str_eq name key then below else (name, old) ∷ below

  names : List (String × V) → List String
  names [] = []
  names ((name, old) ∷ rows) = name ∷ names rows

  -- make(map[string]V)
  unfoldable pub empty : Dict V
  empty = record { entries = [] }

  -- v, ok := m[k]
  unfoldable pub get : Dict V → String → Option V
  unfolding read_row
  get d k = read_row d.entries k

  -- m[k] = v
  unfoldable pub put : Dict V → String → V → Dict V
  unfolding write_row
  put d k v = record { entries = write_row d.entries k v }

  -- delete(m, k)
  unfoldable pub delete : Dict V → String → Dict V
  unfolding drop_row
  delete d k = record { entries = drop_row d.entries k }

  -- the keys that a range loop visits, in some order
  unfoldable pub keys : Dict V → List String
  unfolding names
  keys d = names d.entries

  -- len(m)
  unfoldable pub size : Dict V → ℕ
  size d = length d.entries

  read_row-write_row :
      (rows : List (String × V)) (key other : String) (new : V)
      → read_row (write_row rows key new) other
        ≡ (if str_eq key other then some new else read_row rows other)
  unfolding read_row write_row
  read_row-write_row [] key other new = refl
  read_row-write_row ((name, old) ∷ rows) key other new = ground (
    arith,
    read_row-write_row rows key other new,
    eq_iff name key,
    eq_iff name other,
    eq_iff key other,
  )

  read_row-drop_row :
      (rows : List (String × V)) (key other : String)
      → read_row (drop_row rows key) other
        ≡ (if str_eq key other then none else read_row rows other)
  unfolding read_row drop_row
  read_row-drop_row [] key other = ground arith
  read_row-drop_row ((name, old) ∷ rows) key other = ground (
    arith,
    read_row-drop_row rows key other,
    eq_iff name key,
    eq_iff name other,
    eq_iff key other,
  )

  -- What a read finds after a write.
  pub get-put :
      (dict : Dict V) (key other : String) (new : V)
      → get (put dict key new) other ≡ (if str_eq key other then some new else get dict other)
  unfolding get put
  get-put dict key other new = read_row-write_row dict.entries key other new

  -- What a read finds after a key is taken out.
  pub get-delete :
      (dict : Dict V) (key other : String)
      → get (delete dict key) other ≡ (if str_eq key other then none else get dict other)
  unfolding get delete
  get-delete dict key other = read_row-drop_row dict.entries key other

  -- What stands under a key after a write is the value written, or stood there before.
  pub get-put_inv :
      (dict : Dict V) (key other : String) (new found : V)
      → get (put dict key new) other ≡ some found
      → ((key ≡ other) × (new ≡ found)) ⊎ (get dict other ≡ some found)
  get-put_inv dict key other new found h =
      ground (arith, get-put dict key other new, eq_iff key other)

  names-read_row :
      (rows : List (String × V)) (key : String) (found : V)
      → read_row rows key ≡ some found
      → Memᴰ key (names rows)
  unfolding read_row names
  names-read_row [] key found h = absurd (ground arith)
  names-read_row ((name, old) ∷ rows) key found h = elim (Bool-cases (str_eq name key)) [
    | inl same ↦ Memᴰ.head (sym ((eq_iff name key).0 same))
    | inr other ↦ Memᴰ.tail (names-read_row rows key found (ground arith))
  ]

  -- A key that is in the map is visited by a range loop.
  pub mem-keys :
      (dict : Dict V) (key : String) (found : V) → get dict key ≡ some found → Memᴰ key (keys dict)
  unfolding get keys
  mem-keys dict key found h = names-read_row dict.entries key found h

  size-write_row :
      (rows : List (String × V)) (key : String) (new : V)
      → length (write_row rows key new)
        ≡ (elim (read_row rows key) [ none ↦ length rows + 1 | some _ ↦ length rows ])
  unfolding read_row write_row
  size-write_row [] key new = refl
  size-write_row ((name, old) ∷ rows) key new = ground (arith, size-write_row rows key new)

  pub size-put :
      (d : Dict V) (k : String) (v : V)
      → size (put d k v) ≡ (elim (get d k) [ none ↦ size d + 1 | some _ ↦ size d ])
  unfolding size put get
  size-put d k v = size-write_row d.entries k v

-- The empty map has nothing.
pub get-empty {ℓ} : {V : Type ℓ} (key : String) → get (empty {V = V}) key ≡ none
unfolding empty get
get-empty key = refl
