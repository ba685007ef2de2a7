-- ===== src/Storage/Assets/Growth.antt =====
-- Tables of the asset graph that only grow (internal/storage/assets.go).
use mathlib.Core.List.{append_assoc}
use open_kmip_server.Common.{
  String, ◌≡◌, refl, sym, ap, ◌∙◌, some, List, [], ◌++◌, str_eq, eq_iff, inl, inr, Bool-cases,
}
use open_kmip_server.Common.Slices.{append_nil}
use open_kmip_server.Common.Dict
use open_kmip_server.Common.Dict.{Dict, get-put}
use open_kmip_server.Storage.AssetGraph.{Asset, AssetTables}

-- A list with more behind it.
abbrev pub Extends : {A : Type 0} → List A → List A → Type 0
Extends {A} xs ys = (more : List A) × (ys ≡ xs ++ more)

pub Extends-same : {A : Type 0} {xs : List A} → Extends xs xs
Extends-same {A} {xs} = ([], sym (append_nil xs))

Extends-trans : {A : Type 0} (xs ys zs : List A) → Extends xs ys → Extends ys zs → Extends xs zs
Extends-trans xs ys zs (more, p) (last, q) =
    (more ++ last, q ∙ ap (λ l. l ++ last) p ∙ append_assoc xs more last)

-- The asset is still the one that was registered.
abbrev pub HasOrigin : Asset → Asset → Type 0
HasOrigin a b =
    (Asset.id b ≡ Asset.id a)
    × (Asset.asset_type b ≡ Asset.asset_type a)
    × (Asset.native_id b ≡ Asset.native_id a)
    × (Asset.created_at b ≡ Asset.created_at a)

-- Nothing is taken from the tables.
pub record Grows (t u : AssetTables) : Type 0 where
  pub assets :
      (id : String) (a : Asset)
      → Dict.get t.assets id ≡ some a
      → (b : Asset) × (Dict.get u.assets id ≡ some b) × HasOrigin a b
  pub tags : Extends t.tags u.tags
  pub asset_tags : Extends t.asset_tags u.asset_tags
  pub relationships : Extends t.asset_relationships u.asset_relationships
  pub events : Extends t.asset_lifecycle_events u.asset_lifecycle_events

-- The assets stay as they are.
pub appended-Grows :
    (t u : AssetTables)
    → u.assets ≡ t.assets
    → Extends t.tags u.tags
    → Extends t.asset_tags u.asset_tags
    → Extends t.asset_relationships u.asset_relationships
    → Extends t.asset_lifecycle_events u.asset_lifecycle_events
    → Grows t u
appended-Grows t u same tags asset_tags relationships events = record {
  assets = λ id a found. (a, rw same found, (refl, refl, refl, refl));
  tags = tags;
  asset_tags = asset_tags;
  relationships = relationships;
  events = events;
}

pub Grows-same : (t : AssetTables) → Grows t t
Grows-same t = appended-Grows t t refl Extends-same Extends-same Extends-same Extends-same

pub Grows-trans : {t u v : AssetTables} → Grows t u → Grows u v → Grows t v
Grows-trans g h = record {
  assets = λ id a found.
      let (b, there, (p1, p2, p3, p4)) = g.assets id a found in
      let (c, at, (q1, q2, q3, q4)) = h.assets id b there in
      (c, at, (q1 ∙ p1, q2 ∙ p2, q3 ∙ p3, q4 ∙ p4));
  tags = Extends-trans _ _ _ g.tags h.tags;
  asset_tags = Extends-trans _ _ _ g.asset_tags h.asset_tags;
  relationships = Extends-trans _ _ _ g.relationships h.relationships;
  events = Extends-trans _ _ _ g.events h.events;
}

-- An asset is written that keeps the origin of the one that it takes the place of.
pub put_asset-Grows :
    (t : AssetTables) (id : String) (new : Asset)
    → ((a : Asset) → Dict.get t.assets id ≡ some a → HasOrigin a new)
    → Grows t (record t { assets = Dict.put t.assets id new })
put_asset-Grows t id new kept = record {
  assets = λ other a found. elim (Bool-cases (str_eq id other)) [
    | inl same ↦ (
      new,
      rw (get-put t.assets id other new, same) refl,
      kept a (rw ((eq_iff id other).0 same) found),
    )
    | inr apart ↦ (a, rw (get-put t.assets id other new, apart) found, (refl, refl, refl, refl))
  ];
  tags = Extends-same;
  asset_tags = Extends-same;
  relationships = Extends-same;
  events = Extends-same;
}
