-- ===== src/Memory/AssetStore/Index.antt =====
-- The index of a session's assets: one record for each id, whatever the order.
use genkit_cowork.Base.{
  true, false, Option, none, some, List, [], ◌∷◌, ◌≡◌, refl, ◌∙◌, sym, inl, inr, arith,
  if◌then◌else◌, Bool-cases, subst,
}
use genkit_cowork.Base.Bytes.{Bytes, eqb, eqb_iff, eqb_refl}
use genkit_cowork.Memory.Types.{SessionAsset}
use genkit_cowork.Memory.AssetStore.{
  insert_asset, sort_assets, find_asset_by_id, upsert_asset_by_id,
}

-- no two records with one id
abbrev pub Unique : List SessionAsset → Type 0
Unique [] = Unit
Unique (a ∷ bs) = (find_asset_by_id bs a.asset_id ≡ none) × Unique bs

-- two ids that equal a third one
both_same : (a b id : Bytes) → eqb a id ≡ true → eqb b id ≡ true → eqb b a ≡ true
both_same a b id h k = (eqb_iff b a).1 ((eqb_iff b id).0 k ∙ sym ((eqb_iff a id).0 h))

-- a search behind two records of different ids, in either order
swapped :
    (a b : SessionAsset) (rest : Option SessionAsset) (id : Bytes)
    → eqb b.asset_id a.asset_id ≡ false
    → (if eqb b.asset_id id then some b else if eqb a.asset_id id then some a else rest)
      ≡ (if eqb a.asset_id id then some a else if eqb b.asset_id id then some b else rest)
swapped a b rest id apart = ground (arith, both_same a.asset_id b.asset_id id)

find-insert_asset :
    (a : SessionAsset) (bs : List SessionAsset) (id : Bytes)
    → find_asset_by_id bs a.asset_id ≡ none
    → find_asset_by_id (insert_asset a bs) id
      ≡ (if eqb a.asset_id id then some a else find_asset_by_id bs id)
unfolding find_asset_by_id insert_asset
find-insert_asset a [] id h = refl
find-insert_asset a (b ∷ bs) id h =
    ground (arith, find-insert_asset a bs id, swapped a b (find_asset_by_id bs id) id)

insert_asset-Unique :
    (a : SessionAsset) (bs : List SessionAsset)
    → find_asset_by_id bs a.asset_id ≡ none
    → Unique bs
    → Unique (insert_asset a bs)
unfolding find_asset_by_id insert_asset
insert_asset-Unique a [] h u = (refl, tt)
insert_asset-Unique a (b ∷ bs) h u = ground (
  arith,
  insert_asset-Unique a bs,
  find-insert_asset a bs b.asset_id,
  both_same a.asset_id b.asset_id b.asset_id,
  eqb_refl b.asset_id,
)

-- The sorted index holds for each id what the index holds, and again no id twice.
pub sort_assets-Unique :
    (as' : List SessionAsset)
    → Unique as'
    → ((id : Bytes) → find_asset_by_id (sort_assets as') id ≡ find_asset_by_id as' id)
      × Unique (sort_assets as')
unfolding find_asset_by_id sort_assets
sort_assets-Unique [] u = (λ id. refl, tt)
sort_assets-Unique (a ∷ as') u =
    let (same, unique) = sort_assets-Unique as' u.1 in
    let new = same a.asset_id ∙ u.0 in
    (
      λ id. rw (find-insert_asset a (sort_assets as') id new, same id) refl,
      insert_asset-Unique a (sort_assets as') new unique,
    )

pub find-upsert_asset_by_id :
    (as' : List SessionAsset) (a : SessionAsset) (id : Bytes)
    → find_asset_by_id (upsert_asset_by_id as' a) id
      ≡ (if eqb a.asset_id id then some a else find_asset_by_id as' id)
unfolding find_asset_by_id upsert_asset_by_id
find-upsert_asset_by_id [] a id = refl
find-upsert_asset_by_id (b ∷ bs) a id = ground (
  arith,
  find-upsert_asset_by_id bs a id,
  swapped a b (find_asset_by_id bs id) id,
  both_same a.asset_id id b.asset_id,
  (eqb_iff b.asset_id a.asset_id).0,
)

pub upsert_asset_by_id-Unique :
    (as' : List SessionAsset) (a : SessionAsset) → Unique as' → Unique (upsert_asset_by_id as' a)
unfolding find_asset_by_id upsert_asset_by_id
upsert_asset_by_id-Unique [] a u = (refl, tt)
upsert_asset_by_id-Unique (b ∷ bs) a u = elim (Bool-cases (eqb b.asset_id a.asset_id)) [
  | inl same ↦ rw same (
    subst (λ id. find_asset_by_id bs id ≡ none) ((eqb_iff b.asset_id a.asset_id).0 same) u.0,
    u.1,
  )
  | inr apart ↦ rw apart (
    find-upsert_asset_by_id bs a b.asset_id
        ∙ ground (arith, u.0, both_same a.asset_id b.asset_id b.asset_id, eqb_refl b.asset_id),
    upsert_asset_by_id-Unique bs a u.1,
  )
]
