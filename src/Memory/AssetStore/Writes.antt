-- ===== src/Memory/AssetStore/Writes.antt =====
-- What the writes of an asset store leave behind when they return no error.
use genkit_cowork.Base.{
  ℕ, ◌==◌, Bool, true, false, Option, none, some, List, [], ◌∷◌, ◌++◌, ◌≡◌, ◌≢◌, refl, ◌∙◌, sym, ap,
  inl, inr, arith, subst, if◌then◌else◌,
}
use genkit_cowork.Base.Bytes.{Bytes, eqb}
use genkit_cowork.Base.Dict.{lookup}
use genkit_cowork.Base.Result.{Result, err, ok}
use genkit_cowork.Os.Disk.{
  Disk, DiskError, not_exist, failed, stopped, Tree, Outcome, works, fails, stops, end_with,
  first_outcome, call, nothing, found, read_file, make_directory,
}
use genkit_cowork.Os.Io.{wrapped}
use genkit_cowork.Os.Io.Ensures.{Ensures, Ensures-map, continue-Ensures}
use genkit_cowork.Memory.Types.{SessionAsset}
use genkit_cowork.Memory.AtomicWrite.{WriteStep, WriteError, write_failed, atomic_write_file}
use genkit_cowork.Memory.AtomicWrite.Kept.{
  file_at, call-cases, call-file_at, at_once-keeps, Ends, NotTemp, atomic_write_file-Ends,
}
use genkit_cowork.Memory.AssetStore.{
  Outside, sort_assets, upsert_asset_by_id, of_assets, write_ended, or_error, assets_dir,
  index_path, index_result, read_assets_index, write_assets_index, upsert_asset_record,
  make_assets_dir, write_index, marshal_index,
}

-- two disks with the same files
abbrev pub SameFiles : Disk → Disk → Type 0
SameFiles d after = (q : Bytes) → file_at q after ≡ file_at q d

-- a disk after files were changed that do not read as `q`
abbrev pub Elsewhere : Bytes → Disk → Disk → Type 0
Elsewhere p d after = (q : Bytes) → NotTemp q → eqb p q ≡ false → file_at q after ≡ file_at q d

wrapped-Ensures :
    {E A : Type 0} (P : A → Disk → Type 0) (wrap : DiskError → E) (r : Result DiskError A × Disk)
    → Ensures P r
    → Ensures P (wrapped wrap r)
unfolding Ensures wrapped
wrapped-Ensures P wrap (err e, d) h = tt
wrapped-Ensures P wrap (ok x, d) h = h

pub any_result :
    {E A : Type 0} (P : Disk → Type 0) (r : Result E A × Disk) → P r.1 → Ensures (λ x. P) r
unfolding Ensures
any_result P (err e, d) h = tt
any_result P (ok x, d) h = h

pub make_directory-Ensures :
    {E : Type 0} (wrap : DiskError → E) (p : Bytes) (d : Disk)
    → Ensures (λ u. SameFiles d) (wrapped wrap (make_directory p d))
make_directory-Ensures wrap p d =
    wrapped-Ensures (λ u. SameFiles d) wrap (make_directory p d)
      (any_result (SameFiles d) (make_directory p d)
        (λ q. call-file_at q _ d (λ o. at_once-keeps q _ d.tree o (same_files q p d.tree))))
  where
    same_files :
        (q p : Bytes) (t : Tree)
        → lookup q
            (if genkit_cowork.Base.Dict.contains p t.directories
              then t
              else record t { directories = t.directories ++ p ∷ [] }).files
          ≡ lookup q t.files
    same_files q p t = ground arith

write_ended-Ensures :
    {E : Type 0} (wrap : WriteStep → DiskError → E) (p content : Bytes) (before : Option Bytes)
    (r : Result WriteError (Unit {0}) × Disk)
    → Ends p before content r
    → Ensures (λ u after. file_at p after ≡ some content) (write_ended wrap r)
unfolding Ensures write_ended
write_ended-Ensures wrap p content before (err (write_failed step e), d) h = tt
write_ended-Ensures wrap p content before (ok u, d) (inl h) = absurd (h.0 refl)
write_ended-Ensures wrap p content before (ok u, d) (inr h) = h.1

write_ended-any :
    {E : Type 0} (wrap : WriteStep → DiskError → E) (P : Disk → Type 0)
    (r : Result WriteError (Unit {0}) × Disk)
    → P r.1
    → Ensures (λ u. P) (write_ended wrap r)
unfolding Ensures write_ended
write_ended-any wrap P (err (write_failed step e), d) h = tt
write_ended-any wrap P (ok u, d) h = h

both_ensured :
    {E A : Type 0} (P Q : A → Disk → Type 0) (r : Result E A × Disk)
    → Ensures P r
    → Ensures Q r
    → Ensures (λ x d. P x d × Q x d) r
unfolding Ensures
both_ensured P Q (err e, d) h k = tt
both_ensured P Q (ok x, d) h k = (h, k)

-- A write that returns no error: the content is there, and the other files are as before.
pub atomic_write_file-Ensures :
    {E : Type 0} (wrap : WriteStep → DiskError → E) (p content : Bytes) (d : Disk)
    → NotTemp p
    → Ensures
        (λ u after. (file_at p after ≡ some content) × Elsewhere p d after)
        (write_ended wrap (atomic_write_file p content d))
atomic_write_file-Ensures wrap p content d named =
    both_ensured (λ u after. file_at p after ≡ some content) (λ u. Elsewhere p d) _
      (write_ended-Ensures wrap p content (file_at p d) (atomic_write_file p content d)
        (atomic_write_file-Ends p content p d named).0)
      (write_ended-any wrap (Elsewhere p d) (atomic_write_file p content d)
        (λ q. (atomic_write_file-Ends p content q d named).1))

end_with-not_exist :
    (effect : Outcome → Tree → Tree) (d : Disk) (o : Outcome)
    → (end_with d o effect).0 ≢ err not_exist
unfolding end_with
end_with-not_exist effect d works h = cc
end_with-not_exist effect d (fails k) h = cc
end_with-not_exist effect d (stops k) h = cc

-- A call never says that a file is missing.
call-not_exist : (effect : Outcome → Tree → Tree) (d : Disk) → (call effect d).0 ≢ err not_exist
call-not_exist effect d h = elim (call-cases effect d) [
  | inl halted ↦ let e = ap (λ (r : Result DiskError (Unit {0}) × Disk). r.0) halted in cc
  | inr made ↦
      end_with-not_exist effect d (first_outcome d.outcomes)
        (ap (λ (r : Result DiskError (Unit {0}) × Disk). r.0) (sym made) ∙ h)
]

unfoldable pub sorted : Option (List SessionAsset) → Option (List SessionAsset)
sorted none = none
sorted (some l) = some (sort_assets l)

of_assets-sorted :
    (m : Option (List SessionAsset)) (d after : Disk)
    → SameFiles d after
    → Ensures (λ l later. (sorted m ≡ some l) × SameFiles d later) (of_assets m, after)
unfolding Ensures of_assets sorted
of_assets-sorted none d after h = tt
of_assets-sorted (some l) d after h = (refl, h)

or_error-Ensures :
    {E A : Type 0} (e : E) (m : Option A) (d : Disk)
    → Ensures (λ x after. (m ≡ some x) × (after ≡ d)) (or_error e m d)
unfolding Ensures or_error
or_error-Ensures e none d = tt
or_error-Ensures e (some x) d = (refl, refl)

module _ (o : Outside) where
  -- what the text of an index lists; none if it is not an index
  unfoldable pub assets_in : Option Bytes → Option (List SessionAsset)
  assets_in none = some []
  assets_in (some text) = sorted (o.unmarshal_assets text)

  module _ (root t n : Bytes) where
    abbrev pub assets_on : Disk → Option (List SessionAsset)
    assets_on d = assets_in (file_at (index_path o root t n) d)

    read_found :
        (text : Option Bytes) (d after : Disk)
        → SameFiles d after
        → Ensures
            (λ l later. (assets_in text ≡ some l) × SameFiles d later)
            (index_result o root (found text, after))
    unfolding Ensures assets_in index_result found of_assets
    read_found none d after h = (refl, h)
    read_found (some text) d after h = of_assets-sorted (o.unmarshal_assets text) d after h

    read_after :
        (text : Option Bytes) (d : Disk) (r : Result DiskError (Unit {0}) × Disk)
        → r.0 ≢ err not_exist
        → SameFiles d r.1
        → Ensures
            (λ l later. (assets_in text ≡ some l) × SameFiles d later)
            (index_result o root (elim r.0 [ err e ↦ (err e, r.1) | ok _ ↦ (found text, r.1) ]))
    unfolding Ensures index_result
    read_after text d (err not_exist, after) made h = absurd (made refl)
    read_after text d (err failed, after) made h = tt
    read_after text d (err stopped, after) made h = tt
    read_after text d (ok u, after) made h = read_found text d after h

    read_assets_index-Ensures :
        (d : Disk)
        → Ensures
            (λ l after. (assets_on d ≡ some l) × SameFiles d after)
            (read_assets_index o root t n d)
    unfolding read_assets_index read_file
    read_assets_index-Ensures d =
        read_after (file_at (index_path o root t n) d) d (call nothing d) (call-not_exist nothing d)
          (λ q. call-file_at q nothing d (λ e. refl))

    module _ (named : NotTemp (index_path o root t n))
        (round : (l : List SessionAsset) (text : Bytes)
          → o.marshal_assets l ≡ some text
          → o.unmarshal_assets text ≡ some l) where
      abbrev pub Written : List SessionAsset → Disk → Disk → Type 0
      Written l d after =
          (assets_on after ≡ some (sort_assets (sort_assets l)))
          × Elsewhere (index_path o root t n) d after

      write_assets_index-Ensures :
          (l : List SessionAsset) (d : Disk)
          → Ensures (λ u. Written l d) (write_assets_index o root t n l d)
      unfolding write_assets_index assets_in sorted
      write_assets_index-Ensures l d =
          continue-Ensures
            (λ text after. (o.marshal_assets (sort_assets l) ≡ some text) × (after ≡ d))
            (λ u. Written l d) _ _
            (or_error-Ensures marshal_index (o.marshal_assets (sort_assets l)) d)
            (λ text d1 marshalled.
              continue-Ensures (λ u. SameFiles d1) (λ u. Written l d) _ _
                (make_directory-Ensures make_assets_dir (assets_dir o root t n) d1)
                (λ u d2 same.
                  Ensures-map _ (λ u. Written l d) _
                    (atomic_write_file-Ensures write_index (index_path o root t n) text d2 named)
                    (λ u after wrote. (
                      rw (wrote.0, round (sort_assets l) text marshalled.0) refl,
                      λ q other away. wrote.1 q other away ∙ same q ∙ ap (file_at q) marshalled.1,
                    ))))

      -- an update of the index
      abbrev pub Updated : SessionAsset → Disk → Disk → Type 0
      Updated a d after =
          (before : List SessionAsset) × (assets_on d ≡ some before)
          × Written (upsert_asset_by_id before a) d after

      pub upsert_asset_record-Ensures :
          (a : SessionAsset) (d : Disk)
          → Ensures (λ u. Updated a d) (upsert_asset_record o root t n a d)
      unfolding upsert_asset_record
      upsert_asset_record-Ensures a d =
          continue-Ensures (λ l after. (assets_on d ≡ some l) × SameFiles d after)
            (λ u. Updated a d) _ _ (read_assets_index-Ensures d)
            (λ l d1 read.
              Ensures-map _ (λ u. Updated a d) _
                (write_assets_index-Ensures (upsert_asset_by_id l a) d1)
                (λ u after wrote.
                  (l, read.0, (wrote.0, λ q other away. wrote.1 q other away ∙ read.1 q))))
