-- ===== src/Storage/Memory/History.antt =====
-- What sequences of calls can do to one object of the memory store (internal/storage/memory.go).
use open_kmip_server.Common.{
  ℕ, suc, String, ◌≡◌, refl, ◌∙◌, inl, inr, Option, none, some, List, [], ◌∷◌, arith, eq_iff,
  str_eq, eq_refl, Bool-cases, Option-cases,
}
use open_kmip_server.Common.Dict
use open_kmip_server.Common.Dict.{get-put}
use open_kmip_server.External.Machine.{Machine, IsSound}
use open_kmip_server.Storage.Types.{KeyRecord, destroyed}
use open_kmip_server.Storage.Memory.{MemoryStore}
use open_kmip_server.Storage.Memory.Calls.{Call, apply, run}
use open_kmip_server.Storage.Memory.Effects.{
  SameIdentity, Effect, added, quiet, made, changed, apply-Effect,
}
use open_kmip_server.Storage.Memory.Invariant.{IsValid, apply-IsValid}

-- The object under one identifier, before and after: an object stays, keeps what identifies it, and is
-- final once it is destroyed.
abbrev pub Evolves : Option KeyRecord → Option KeyRecord → Type 0
Evolves none b = Unit
Evolves (some old) none = ⊥
Evolves (some old) (some new) = SameIdentity old new × (old.state ≡ destroyed → new ≡ old)

pub Evolves-refl : (a : Option KeyRecord) → Evolves a a
Evolves-refl none = tt
Evolves-refl (some rec) = (
  record {
    uid = refl;
    name = refl;
    object_type = refl;
    algorithm = refl;
    bit_length = refl;
    usage_mask = refl;
    owner = refl;
    created_at = refl;
  },
  λ gone. refl,
)

SameIdentity-trans : {a b c : KeyRecord} → SameIdentity a b → SameIdentity b c → SameIdentity a c
SameIdentity-trans s t = record {
  uid = t.uid ∙ s.uid;
  name = t.name ∙ s.name;
  object_type = t.object_type ∙ s.object_type;
  algorithm = t.algorithm ∙ s.algorithm;
  bit_length = t.bit_length ∙ s.bit_length;
  usage_mask = t.usage_mask ∙ s.usage_mask;
  owner = t.owner ∙ s.owner;
  created_at = t.created_at ∙ s.created_at;
}

pub Evolves-trans : (a b c : Option KeyRecord) → Evolves a b → Evolves b c → Evolves a c
Evolves-trans none b c e f = tt
Evolves-trans (some x) none c e f = absurd e
Evolves-trans (some x) (some y) none e f = absurd f
Evolves-trans (some x) (some y) (some z) e f =
    (SameIdentity-trans e.0 f.0, λ gone. final gone (e.1 gone))
  where
    final : x.state ≡ destroyed → y ≡ x → z ≡ x
    final gone same = f.1 (rw same gone) ∙ same

module _ (machine : Machine) (sound : IsSound machine) where
  -- An identifier that is issued at moment n is not in a store that is valid at moment n.
  pub new_uuid_fresh :
      (n : ℕ) (m : MemoryStore) → IsValid machine n m → Dict.get m.keys (machine.new_uuid n) ≡ none
  new_uuid_fresh n m v = elim (Option-cases (Dict.get m.keys (machine.new_uuid n))) [
    | inl missing ↦ missing
    | inr (rec, found) ↦
        let filed = v (machine.new_uuid n) rec found in
        absurd (omega (arith, filed.issued.1, sound.uuid_unique n filed.issued.0 filed.issued.2))
  ]

  Effect-Evolves :
      (n : ℕ) (m m' : MemoryStore)
      → IsValid machine n m
      → Effect machine n m m'
      → (uid : String) → Evolves (Dict.get m.keys uid) (Dict.get m'.keys uid)
  Effect-Evolves n m m' v (added (quiet e)) uid = rw e (Evolves-refl (Dict.get m.keys uid))
  Effect-Evolves n m m' v (added (made new fresh state e)) uid =
      elim (Bool-cases (str_eq new.uid uid)) [
        | inl here ↦
            let k : new.uid ≡ uid = (eq_iff new.uid uid).0 here in
            rw (← k, fresh, new_uuid_fresh n m v) tt
        | inr other ↦ rw (e, get-put, other) (Evolves-refl (Dict.get m.keys uid))
      ]
  Effect-Evolves n m m' v (changed u old new found change e) uid =
      elim (Bool-cases (str_eq u uid)) [
        | inl here ↦
            let k : u ≡ uid = (eq_iff u uid).0 here in
            rw (← k, found, e, get-put, eq_refl) (change.same, λ gone. absurd (change.live gone))
        | inr other ↦ rw (e, get-put, other) (Evolves-refl (Dict.get m.keys uid))
      ]

  -- One call, from a valid store.
  pub apply-Evolves :
      (n : ℕ) (m : MemoryStore) (c : Call)
      → IsValid machine n m
      → (uid : String) → Evolves (Dict.get m.keys uid) (Dict.get (apply machine n m c).keys uid)
  apply-Evolves n m c v = Effect-Evolves n m (apply machine n m c) v (apply-Effect machine n m c)

  -- With identifiers that are never given twice, from a valid store, whatever the calls and their
  -- results, and for every identifier: an object that is there stays, with the same identifier, name,
  -- type, algorithm, length, usage mask, owner and creation time, and an object that is destroyed stays
  -- exactly as it is.
  pub run-Evolves :
      (n : ℕ) (m : MemoryStore) (cs : List Call)
      → IsValid machine n m
      → (uid : String) → Evolves (Dict.get m.keys uid) (Dict.get (run machine n m cs).keys uid)
  unfolding run
  run-Evolves n m [] v uid = Evolves-refl (Dict.get m.keys uid)
  run-Evolves n m (c ∷ cs) v uid =
      Evolves-trans (Dict.get m.keys uid) (Dict.get (apply machine n m c).keys uid)
        (Dict.get (run machine n m (c ∷ cs)).keys uid) (apply-Evolves n m c v uid)
        (run-Evolves (suc n) (apply machine n m c) cs (apply-IsValid machine n m c v) uid)
