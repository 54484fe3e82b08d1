-- ===== src/Memory/AssetStore.antt =====
-- `FileMediaAssetStore` of genkit-cowork/memory/file_assets.go: the media of a session in files, with
-- an index. The lock of the index makes each of its updates one step. The JSON of the two indexes,
-- the hash and the table of MIME types are parameters.
pub mod Index
pub mod Names
pub mod Writes
pub mod Puts
pub mod Inside
use genkit_cowork.Base.{
  ℕ, zero, suc, ◌+◌, ◌==◌, Bool, true, false, not, ◌&&◌, ◌||◌, Option, none, some, List, [], ◌∷◌,
  ◌++◌, length, ltb, if◌then◌else◌, reverse,
}
use genkit_cowork.Base.Int.{ℤ, pos}
use genkit_cowork.Base.Bytes.{Bytes, codes, eqb, has_prefix}
use genkit_cowork.Base.Dict.{Dict, lookup, insert}
use genkit_cowork.Base.Result.{Result, err, ok, fail_if}
use genkit_cowork.Base.Sort.{le_bytes}
use genkit_cowork.Os.Path.{
  slash, dot, dot_dot, clean, join, parts_of, is_rooted, with_slashes, SegmentError,
  validate_path_segment,
}
use genkit_cowork.Os.Disk.{Disk, DiskError, not_exist, read_file, make_directory, remove_all}
use genkit_cowork.Os.Io.{Io, pure, fail, or_fail, continue, ◌>>=◌, ◌>>◌}
use genkit_cowork.Tools.Trim.{trim_space}
use genkit_cowork.Media.Registry.{
  ProcessError, not_supported, ProcessorRegistry, get, process_file, process_document,
}
use genkit_cowork.Memory.Types.{SessionAsset, AssetIngestStatus, pending, completed, Part}
use genkit_cowork.Memory.Assets.{path_base}
use genkit_cowork.Memory.AtomicWrite.{WriteStep, WriteError, write_failed, atomic_write_file}

pub data MetaValue : Type 0 where
  -- an int, int32 or int64, and a float with its integer part
  whole real : ℤ → MetaValue
  str : Bytes → MetaValue
  other : MetaValue

-- `ai.Document`; a missing map is an empty one.
pub record AssetDoc : Type 0 where
  pub content : List Part
  pub metadata : Dict MetaValue

pub record ChunkIndexRecord : Type 0 where
  pub asset_id : Bytes
  pub chunk_index : ℕ
  pub chunk_count : ℕ
  pub char_start : ℤ
  pub char_end : ℤ
  pub mime_type : Bytes

-- What the store uses from outside: `mime.ExtensionsByType` (none on an error), the hex form of
-- `sha256.Sum256`, `os.Getwd`, `json.Marshal` and `json.Unmarshal` of the two indexes, and
-- `http.DetectContentType`.
pub record Outside : Type 0 where
  pub extensions_by_type : Bytes → List Bytes
  pub sha256_hex : Bytes → Bytes
  pub working_directory : Bytes
  pub marshal_assets : List SessionAsset → Option Bytes
  pub unmarshal_assets : Bytes → Option (List SessionAsset)
  pub marshal_chunks : List ChunkIndexRecord → Option Bytes
  pub detect_content_type : Bytes → Bytes

pub data AssetError : Type 0 where
  context_cancelled unmarshal_index marshal_index marshal_chunk_index : AssetError
  bad_segment : SegmentError → AssetError
  make_assets_dir read_index delete_assets : DiskError → AssetError
  write_asset write_index write_chunks : WriteStep → DiskError → AssetError
  not_found outside : Bytes → AssetError
  unsupported : AssetError
  process_failed : ProcessError → AssetError

-- the order of an index: by time, then by id
unfoldable pub is_before : SessionAsset → SessionAsset → Bool
is_before a b =
    if a.uploaded_at == b.uploaded_at
    then not (le_bytes b.asset_id a.asset_id)
    else ltb a.uploaded_at b.uploaded_at

unfoldable pub insert_asset : SessionAsset → List SessionAsset → List SessionAsset
insert_asset a [] = a ∷ []
insert_asset a (b ∷ bs) =
    let rest = insert_asset a bs in if is_before b a then b ∷ rest else a ∷ b ∷ bs

-- `sort.SliceStable`: equal elements keep their order, so every stable sort gives the same list.
unfoldable pub sort_assets : List SessionAsset → List SessionAsset
sort_assets [] = []
sort_assets (a ∷ as') = insert_asset a (sort_assets as')

unfoldable pub find_asset_by_id : List SessionAsset → Bytes → Option SessionAsset
find_asset_by_id [] id = none
find_asset_by_id (a ∷ as') id =
    let rest = find_asset_by_id as' id in if eqb a.asset_id id then some a else rest

unfoldable pub upsert_asset_by_id : List SessionAsset → SessionAsset → List SessionAsset
upsert_asset_by_id [] asset = asset ∷ []
upsert_asset_by_id (a ∷ as') asset =
    let rest = upsert_asset_by_id as' asset in
    if eqb a.asset_id asset.asset_id then asset ∷ as' else a ∷ rest

unfoldable pub int_of : Option MetaValue → ℤ
int_of (some (whole n)) = n
int_of (some (real n)) = n
int_of _ = pos 0

abbrev pub int_from_metadata : Dict MetaValue → Bytes → ℤ
int_from_metadata metadata key = int_of (lookup key metadata)

unfoldable pub string_of : Option MetaValue → Bytes
string_of (some (str s)) = s
string_of _ = []

abbrev pub string_from_metadata : Dict MetaValue → Bytes → Bytes
string_from_metadata metadata key = string_of (lookup key metadata)

-- `chunkIndexRecord`s of the documents from the `i`-th on, of `count` in all
unfoldable pub chunk_records : Bytes → ℕ → ℕ → List AssetDoc → List ChunkIndexRecord
chunk_records id count i [] = []
chunk_records id count i (doc ∷ docs) =
    record {
      asset_id = id;
      chunk_index = i;
      chunk_count = count;
      char_start = int_from_metadata doc.metadata (codes "charStart");
      char_end = int_from_metadata doc.metadata (codes "charEnd");
      mime_type = string_from_metadata doc.metadata (codes "mimeType");
    }
    ∷ chunk_records id count (i + 1) docs

-- what is left of two paths behind the parts that they share
unfoldable pub without_shared : List Bytes → List Bytes → List Bytes × List Bytes
without_shared [] ts = ([], ts)
without_shared (b ∷ bs) [] = (b ∷ bs, [])
without_shared (b ∷ bs) (t ∷ ts) =
    let rest = without_shared bs ts in if eqb b t then rest else (b ∷ bs, t ∷ ts)

-- a step up for each part of the base
unfoldable pub ups : List Bytes → List Bytes → List Bytes
ups [] ts = ts
ups (b ∷ bs) ts = dot_dot ∷ ups bs ts

unfoldable pub joined_parts : List Bytes → Bytes
joined_parts [] = dot
joined_parts (p ∷ ps) = with_slashes p ps

-- `filepath.Rel` of two absolute paths
unfoldable pub rel : Bytes → Bytes → Bytes
rel base target =
    let (bs, ts) = without_shared (reverse (parts_of base)) (reverse (parts_of target)) in
    joined_parts (ups bs ts)

unfoldable pub is_outside : Bytes → Bool
is_outside r = eqb r dot || eqb r [] || has_prefix r dot_dot

unfoldable pub kept_docs : List (Option AssetDoc) → List AssetDoc
kept_docs [] = []
kept_docs (none ∷ docs) = kept_docs docs
kept_docs (some doc ∷ docs) = doc ∷ kept_docs docs

unfoldable pub of_assets : Option (List SessionAsset) → Result AssetError (List SessionAsset)
of_assets none = err unmarshal_index
of_assets (some assets) = ok (sort_assets assets)

unfoldable pub first_extension : List Bytes → Bytes
first_extension [] = []
first_extension (e ∷ es) = e

module _ {E : Type 0} where
  unfoldable pub write_ended :
      (WriteStep → DiskError → E) → Result WriteError (Unit {0}) × Disk → Result E (Unit {0}) × Disk
  write_ended wrap (err (write_failed step e), d) = (err (wrap step e), d)
  write_ended wrap (ok _, d) = (ok tt, d)

  unfoldable pub or_error : {A : Type 0} → E → Option A → Io E A
  or_error e none = fail e
  or_error e (some x) = pure x

  unfoldable pub check : Result SegmentError (Unit {0}) → (SegmentError → E) → Io E (Unit {0})
  check (err e) wrap = fail (wrap e)
  check (ok _) wrap = pure tt

module _ (o : Outside) (root : Bytes) where
  -- `filepath.Abs`
  unfoldable pub absolute : Bytes → Bytes
  absolute p = if is_rooted p then clean p else join (o.working_directory ∷ p ∷ [])

  unfoldable pub assets_dir : Bytes → Bytes → Bytes
  assets_dir tenant session = join (root ∷ tenant ∷ session ∷ codes "assets" ∷ [])

  unfoldable pub index_path : Bytes → Bytes → Bytes
  index_path tenant session = join (assets_dir tenant session ∷ codes "index.json" ∷ [])

  unfoldable pub chunk_index_path : Bytes → Bytes → Bytes → Bytes
  chunk_index_path tenant session id =
      join (assets_dir tenant session ∷ (id ++ codes ".index.json") ∷ [])

  unfoldable pub asset_path : Bytes → Bytes → Bytes → Bytes → Bytes
  asset_path tenant session id mime_type =
      join
        (assets_dir tenant session ∷ (id ++ first_extension (o.extensions_by_type mime_type)) ∷ [])

  unfoldable pub index_result :
      Result DiskError Bytes × Disk → Result AssetError (List SessionAsset) × Disk
  index_result (err not_exist, d) = (ok [], d)
  index_result (err e, d) = (err (read_index e), d)
  index_result (ok text, d) = (of_assets (o.unmarshal_assets text), d)

  unfoldable pub read_assets_index : Bytes → Bytes → Io AssetError (List SessionAsset)
  read_assets_index tenant session d = index_result (read_file (index_path tenant session) d)

  unfoldable pub write_assets_index : Bytes → Bytes → List SessionAsset → Io AssetError (Unit {0})
  write_assets_index tenant session assets = do
    text ← or_error marshal_index (o.marshal_assets (sort_assets assets))
    or_fail make_assets_dir (make_directory (assets_dir tenant session))
    λ d. write_ended write_index (atomic_write_file (index_path tenant session) text d)

  unfoldable pub upsert_asset_record : Bytes → Bytes → SessionAsset → Io AssetError (Unit {0})
  upsert_asset_record tenant session asset = do
    assets ← read_assets_index tenant session
    write_assets_index tenant session (upsert_asset_by_id assets asset)

  unfoldable pub write_chunk_index :
      Bytes → Bytes → Bytes → List AssetDoc → Io AssetError (Unit {0})
  write_chunk_index tenant session id docs = do
    text ← or_error marshal_chunk_index (o.marshal_chunks (chunk_records id (length docs) 0 docs))
    λ d. write_ended write_chunks (atomic_write_file (chunk_index_path tenant session id) text d)

  -- the record of media that were just written to `path`
  unfoldable pub new_record : Bytes → Bytes → Bytes → Bytes → ℕ → SessionAsset
  new_record id mime_type path content now = record {
    asset_id = id;
    message_id = [];
    name = path_base path;
    part_index = 0;
    mime_type = mime_type;
    size_bytes = length content;
    sha256 = o.sha256_hex content;
    path = path;
    uploaded_at = now;
    ingest_status = pending;
    ingested_at = 0;
    metadata = [];
  }

  unfoldable pub check_ids : List (Bytes × Bytes) → Result SegmentError (Unit {0})
  check_ids [] = ok tt
  check_ids ((name, value) ∷ ids) =
      let rest = check_ids ids in
      elim (validate_path_segment name value) [ err e ↦ err e | ok _ ↦ rest ]

  abbrev pub session_ids : Bytes → Bytes → List (Bytes × Bytes)
  session_ids tenant session = (codes "tenantID", tenant) ∷ (codes "sessionID", session) ∷ []

  abbrev pub asset_ids : Bytes → Bytes → Bytes → List (Bytes × Bytes)
  asset_ids tenant session id = session_ids tenant session ++ (codes "assetID", id) ∷ []

  -- what `Put` does behind its checks
  unfoldable pub store_asset : Bytes → Bytes → Bytes → Bytes → Bytes → ℕ → Io AssetError Bytes
  store_asset tenant session id mime_type content now =
      let path = asset_path tenant session id mime_type in
      do
        or_fail make_assets_dir (make_directory (assets_dir tenant session))
        λ d. write_ended write_asset (atomic_write_file path content d)
        upsert_asset_record tenant session (new_record id mime_type (absolute path) content now)
        pure (absolute path)

  unfoldable pub put : Bool → Bytes → Bytes → Bytes → Bytes → Bytes → ℕ → Io AssetError Bytes
  put cancelled tenant session id mime_type content now =
      if cancelled then fail context_cancelled else do
        check (check_ids (asset_ids tenant session id)) bad_segment
        store_asset tenant session id mime_type content now

  unfoldable pub ensure_asset_path_in_session : Bytes → Bytes → Bytes → Result AssetError (Unit {0})
  ensure_asset_path_in_session tenant session path =
      fail_if (is_outside (rel (absolute (assets_dir tenant session)) path)) (outside path)

  unfoldable pub list_assets : Bool → Bytes → Bytes → Io AssetError (List SessionAsset)
  list_assets cancelled tenant session = if cancelled then fail context_cancelled else do
    check (check_ids (session_ids tenant session)) bad_segment
    read_assets_index tenant session

  unfoldable pub delete_session_assets : Bool → Bytes → Bytes → Io AssetError (Unit {0})
  delete_session_assets cancelled tenant session = if cancelled then fail context_cancelled else do
    check (check_ids (session_ids tenant session)) bad_segment
    or_fail delete_assets (remove_all (assets_dir tenant session))

  module _ (registry : ProcessorRegistry (Option AssetDoc)) where
    -- the documents of a file, by the processor for the type of the record or else for its content
    unfoldable pub process_asset : SessionAsset → Bytes → Io AssetError (List (Option AssetDoc))
    process_asset asset path d =
        let by_type = process_file not_supported (get asset.mime_type registry) path d in
        let by_content = process_document o.detect_content_type registry path d in
        let (r, after) = if eqb (trim_space asset.mime_type) [] then by_content else by_type in
        elim r [ err e ↦ (err (process_failed e), after) | ok docs ↦ (ok docs, after) ]

    unfoldable pub with_origin : Bytes → Bytes → SessionAsset → Bytes → AssetDoc → AssetDoc
    with_origin tenant session asset path doc = record doc {
      metadata = insert (codes "assetSHA256") (str asset.sha256) (
          insert (codes "assetPath") (str path) (
            insert (codes "assetName") (str asset.name) (
              insert (codes "assetID") (str asset.asset_id) (
                insert (codes "sessionID") (str session)
                  (insert (codes "tenantID") (str tenant) doc.metadata)))));
    }

    unfoldable pub with_origins :
        Bytes → Bytes → SessionAsset → Bytes → List AssetDoc → List AssetDoc
    with_origins tenant session asset path [] = []
    with_origins tenant session asset path (doc ∷ docs) =
        with_origin tenant session asset path doc ∷ with_origins tenant session asset path docs

    -- the state of an asset after its documents were made
    unfoldable pub ingested : List AssetDoc → ℕ → SessionAsset → SessionAsset
    ingested [] now asset = record asset { ingest_status = pending; ingested_at = 0 }
    ingested (doc ∷ docs) now asset = record asset { ingest_status = completed; ingested_at = now }

    unfoldable pub load_asset :
        Bytes → Bytes → Bytes → ℕ → SessionAsset → Io AssetError (List AssetDoc)
    load_asset tenant session id now asset =
        let path = absolute asset.path in
        do
          λ d. (ensure_asset_path_in_session tenant session path, d)
          made ← process_asset asset path
          let docs = with_origins tenant session asset path (kept_docs made) in
              do
                write_chunk_index tenant session id docs
                upsert_asset_record tenant session (ingested docs now asset)
                pure docs

    unfoldable pub load_by_id :
        Bytes → Bytes → Bytes → ℕ → Option SessionAsset → Io AssetError (List AssetDoc)
    load_by_id tenant session id now none = fail (not_found id)
    load_by_id tenant session id now (some asset) = load_asset tenant session id now asset

    unfoldable pub load : Bool → Bytes → Bytes → Bytes → ℕ → Io AssetError (List AssetDoc)
    load cancelled tenant session id now = if cancelled then fail context_cancelled else do
      check (check_ids (asset_ids tenant session id)) bad_segment
      assets ← read_assets_index tenant session
      load_by_id tenant session id now (find_asset_by_id assets id)
