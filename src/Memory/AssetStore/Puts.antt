-- ===== src/Memory/AssetStore/Puts.antt =====
-- What `Put` leaves behind when it returns a path, whatever the disk does.
use genkit_cowork.Base.{ℕ, false, some, List, ◌∷◌, ◌++◌, ◌≡◌, if◌then◌else◌}
use genkit_cowork.Base.Bytes.{Bytes, eqb}
use genkit_cowork.Base.Result.{Result}
use genkit_cowork.Os.Disk.{Disk}
use genkit_cowork.Os.Io.Ensures.{Ensures}
use genkit_cowork.Memory.Types.{SessionAsset}
use genkit_cowork.Memory.AtomicWrite.Kept.{file_at, NotTemp}
use genkit_cowork.Memory.AssetStore.{
  Outside, find_asset_by_id, first_extension, absolute, index_path, asset_path, new_record,
}
use genkit_cowork.Memory.AssetStore.Index.{Unique}
use genkit_cowork.Memory.AssetStore.Writes.{assets_on}

-- an index that holds one more record, or one record changed
abbrev pub Holds : SessionAsset → List SessionAsset → List SessionAsset → Type 0
Holds a before later =
    Unique later
    × ((k : Bytes)
        → find_asset_by_id later k
          ≡ (if eqb a.asset_id k then some a else find_asset_by_id before k))

module _ (o : Outside) (c : ℕ) (root t n : Bytes) where
  module _ (id mime content : Bytes) (now : ℕ) where
    abbrev pub file_name : Bytes
    file_name = id ++ first_extension (o.extensions_by_type mime)

    abbrev pub put_path : Bytes
    put_path = asset_path o (c ∷ root) t n id mime

    abbrev pub put_record : SessionAsset
    put_record = new_record o (c ∷ root) id mime (absolute o (c ∷ root) put_path) content now

    -- what a `Put` that returns `path` did to the disk `d`
    pub record Puts (d : Disk) (path : Bytes) (after : Disk) : Type 0 where
      pub returned : path ≡ absolute o (c ∷ root) put_path
      pub written : file_at put_path after ≡ some content
      pub indexed :
          (before later : List SessionAsset) × (assets_on o (c ∷ root) t n d ≡ some before)
          × (assets_on o (c ∷ root) t n after ≡ some later)
          × (Unique before → Holds put_record before later)
      pub others :
          (q : Bytes)
          → NotTemp q
          → eqb put_path q ≡ false
          → eqb (index_path o (c ∷ root) t n) q ≡ false
          → file_at q after ≡ file_at q d
