-- ===== src/Memory/AssetStore/Inside.antt =====
-- The check of an asset's path: what `Load` reads is a file below the session's assets directory.
use genkit_cowork.Base.{
  Bool, true, false, List, [], ◌∷◌, ◌++◌, ◌≡◌, ◌≢◌, refl, ◌∙◌, sym, ap, arith, reverse,
}
use genkit_cowork.Base.Bytes.{Bytes, eqb, eqb_iff, has_prefix}
use genkit_cowork.Base.Result.{ok, fail_if}
use genkit_cowork.Os.Path.{dot_dot, parts_of, with_slashes}
use genkit_cowork.Memory.AssetStore.{
  Outside, AssetError, outside, without_shared, ups, joined_parts, rel, is_outside, absolute,
  assets_dir, ensure_asset_path_in_session,
}
use mathlib.Core.List.{reverse-append, reverse-reverse}

shared_all :
    (bs ts : List Bytes) → (without_shared bs ts).0 ≡ [] → ts ≡ bs ++ (without_shared bs ts).1
unfolding without_shared
shared_all [] ts h = refl
shared_all (b ∷ bs) [] h = cc
shared_all (b ∷ bs) (t ∷ ts) h = ground (arith, shared_all bs ts, (eqb_iff b t).0)

has_prefix-with_slashes : (ps : List Bytes) → has_prefix (with_slashes dot_dot ps) dot_dot ≡ true
unfolding with_slashes has_prefix
has_prefix-with_slashes [] = refl
has_prefix-with_slashes (p ∷ ps) = refl

-- A relative path that is accepted goes down only.
goes_down :
    (bs ts : List Bytes) → is_outside (joined_parts (ups bs ts)) ≡ false → (bs ≡ []) × (ts ≢ [])
unfolding is_outside joined_parts ups eqb
goes_down [] [] h = cc
goes_down [] (t ∷ ts) h = (refl, λ e. cc)
goes_down (b ∷ bs) ts h = let up = has_prefix-with_slashes (ups bs ts) in ground arith

-- A path below another one; the parts of a path are listed from its end.
abbrev pub Below : Bytes → Bytes → Type 0
Below dir p = (names : List Bytes) × (names ≢ []) × (parts_of p ≡ names ++ parts_of dir)

rel-Below : (base target : Bytes) → is_outside (rel base target) ≡ false → Below base target
unfolding rel
rel-Below base target h =
    let bs = reverse (parts_of base) in
    let ts = reverse (parts_of target) in
    let left = without_shared bs ts in
    let (none_left, some_left) = goes_down left.0 left.1 h in
    let split : ts ≡ bs ++ left.1 = shared_all bs ts none_left in
    (
      reverse left.1,
      λ empty. some_left (sym (reverse-reverse left.1) ∙ ap reverse empty),
      sym (reverse-reverse (parts_of target))
          ∙ ap reverse split
          ∙ reverse-append bs left.1
          ∙ ap (λ l. reverse left.1 ++ l) (reverse-reverse (parts_of base)),
    )

-- A path that passes the check of `Load` lies below the session's assets directory.
pub ensure_asset_path_in_session-Below :
    (o : Outside) (root tenant session path : Bytes)
    → ensure_asset_path_in_session o root tenant session path ≡ ok tt
    → Below (absolute o root (assets_dir o root tenant session)) path
unfolding ensure_asset_path_in_session
ensure_asset_path_in_session-Below o root tenant session path h =
    rel-Below (absolute o root (assets_dir o root tenant session)) path
      (accepted _ (outside path) h)
  where
    accepted : (b : Bool) (e : AssetError) → fail_if b e ≡ ok tt → b ≡ false
    accepted true e h = cc
    accepted false e h = refl
