-- ===== src/Storage/Memory/Search.antt =====
-- Locate finds the objects that Get shows (internal/storage/memory.go).
use mathlib.Core.Bool.{Bool-set}
use mathlib.Core.List.{Mem, Memᴰ}
use mathlib.Core.List.Memᴰ
use mathlib.Core.Logic.{∥∥₁_elim, ∥∥₁_map}
use open_kmip_server.Common.{
  ℕ, String, ◌≡◌, ◌∙◌, ◌↔◌, sym, Bool, true, false, none, some, List, [], ◌∷◌, arith, str_eq,
  Bool-cases, Option-cases, inl, inr, not, ◌&&◌,
}
use open_kmip_server.Common.Dict
use open_kmip_server.Common.Dict.{mem-keys}
use open_kmip_server.External.Machine.{Machine, IsSound}
use open_kmip_server.Storage.Types.{KeyRecord, is_state, destroyed}
use open_kmip_server.Storage.Memory.{MemoryStore, get, locate, records_at, locate_loop}
use open_kmip_server.Storage.Memory.Invariant.{IsValid}

-- Get shows an object under the identifier, and it has the name.
unfoldable pub shows : MemoryStore → String → String → Bool
shows m name uid = elim (get m uid) [ none ↦ false | some rec ↦ str_eq rec.name name ]

module _ (machine : Machine) (n : ℕ) (m : MemoryStore) (valid : IsValid machine n m)
    (name : String) where
  located-shown :
      (ks : List String) (uid : String)
      → Memᴰ uid (locate_loop name (records_at m.keys ks))
      → shows m name uid ≡ true
  unfolding locate_loop records_at shows get
  located-shown [] uid h = absurd (Memᴰ.not-nil h)
  located-shown (k ∷ ks) uid h = elim (Option-cases (Dict.get m.keys k)) [
    | inl missing ↦ located-shown ks uid (rw (locate_loop, records_at, missing) at h)
    | inr (rec, found) ↦
        elim (Bool-cases (str_eq rec.name name && not (is_state rec.state destroyed))) [
          | inl wanted ↦ elim (Memᴰ.cases_cons (rw (locate_loop, records_at, found, wanted) at h)) [
            | inl same ↦
                let k≡uid : k ≡ uid = sym (same ∙ (valid k rec found).own_uid) in
                rw (← k≡uid, shows, get, found) (ground arith)
            | inr later ↦ located-shown ks uid later
          ]
          | inr other ↦ located-shown ks uid (rw (locate_loop, records_at, found, other) at h)
        ]
  ]

  shown-located :
      (ks : List String) (uid : String) (rec : KeyRecord)
      → Memᴰ uid ks
      → Dict.get m.keys uid ≡ some rec
      → (str_eq rec.name name && not (is_state rec.state destroyed)) ≡ true
      → Memᴰ uid (locate_loop name (records_at m.keys ks))
  unfolding locate_loop records_at
  shown-located [] uid rec h found wanted = absurd (Memᴰ.not-nil h)
  shown-located (k ∷ ks) uid rec h found wanted = elim (Memᴰ.cases_cons h) [
    | inl same ↦
        rw (← same, locate_loop, records_at, found, wanted)
          (Memᴰ.head (sym (valid uid rec found).own_uid))
    | inr later ↦ elim (Option-cases (Dict.get m.keys k)) [
      | inl missing ↦
          rw (locate_loop, records_at, missing) (shown-located ks uid rec later found wanted)
      | inr (other, there) ↦
          elim (Bool-cases (str_eq other.name name && not (is_state other.state destroyed))) [
            | inl fits ↦
                rw (locate_loop, records_at, there, fits)
                  (Memᴰ.tail (shown-located ks uid rec later found wanted))
            | inr unfit ↦
                rw (locate_loop, records_at, there, unfit)
                  (shown-located ks uid rec later found wanted)
          ]
    ]
  ]

  shows_inv :
      (uid : String)
      → shows m name uid ≡ true
      → (rec : KeyRecord) × (Dict.get m.keys uid ≡ some rec)
        × ((str_eq rec.name name && not (is_state rec.state destroyed)) ≡ true)
  unfolding shows get
  shows_inv uid h = elim (Option-cases (Dict.get m.keys uid)) [
    | inl missing ↦ absurd (ground arith)
    | inr (rec, found) ↦ (rec, found, ground arith)
  ]

  -- With a range loop that visits the keys of the map, and from a valid store: Locate returns an
  -- identifier just where Get shows an object under it that has the name.
  pub locate-shows :
      IsSound machine
      → (uid : String) → Mem uid (locate machine n m name) ↔ (shows m name uid ≡ true)
  unfolding locate
  locate-shows sound uid = (
    λ h. ∥∥₁_elim h (Bool-set _ _) (located-shown _ uid),
    λ h.
        let (rec, found, wanted) = shows_inv uid h in
        ∥∥₁_map
          ((sound.mem-map_order n (Dict.keys m.keys) uid).1 ∣ mem-keys m.keys uid rec found ∣₁)
          (λ d. shown-located _ uid rec d found wanted),
  )
