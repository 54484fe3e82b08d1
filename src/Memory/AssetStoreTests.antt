-- ===== src/Memory/AssetStoreTests.antt =====
-- Runs of the asset store at concrete inputs, and the theorems applied there.
use genkit_cowork.Base.{
  ◌==◌, ◌≡◌, refl, Bool, true, false, ◌&&◌, Option, none, some, List, [], ◌∷◌, if◌then◌else◌,
}
use genkit_cowork.Base.Bytes.{Bytes, codes, eqb, has_prefix}
use genkit_cowork.Base.Result.{err, ok}
use genkit_cowork.Base.Dict.{lookup, insert, erase, contains}
use genkit_cowork.Base.Decimal.{itoa, digits_before}
use genkit_cowork.Base.Sort.{le_bytes}
use genkit_cowork.Os.Path.{
  segments_from, up, enter, enter_all, show_parts, show_path, clean, with_slashes, join,
  validate_path_segment, is_one_of, contains_any,
}
use genkit_cowork.Os.Disk.{end_with, call, at_once, writing, moved, read_file, found}
use genkit_cowork.Os.Io.{continue, wrapped}
use genkit_cowork.Tools.Runes.{first_rune, is_space}
use genkit_cowork.Tools.Trim.{trim_space, trim_left_after, trim_right_after, blank_after}
use genkit_cowork.Memory.Assets.{path_base}
use genkit_cowork.Memory.AtomicWrite.{
  up_to_slash, dir_of, without_last_slash, created, draw, or_clean, write_temp, after_create,
  atomic_write_file,
}
use genkit_cowork.Os.Disk.{Disk}
use genkit_cowork.Os.Io.Ensures.{Ensures}
use genkit_cowork.Memory.Types.{SessionAsset, AssetIngestStatus, pending}
use genkit_cowork.Memory.AtomicWrite.Kept.{file_at}
use genkit_cowork.Memory.Files.Refines.{quiet}
use genkit_cowork.Memory.AssetStore.{
  Outside, put, absolute, check, check_ids, store_asset, asset_path, index_path, new_record,
  upsert_asset_record, read_assets_index, index_result, of_assets, write_assets_index, or_error,
  write_ended, upsert_asset_by_id, sort_assets, insert_asset, is_before, is_outside, rel,
  joined_parts, ups, without_shared, assets_dir, ensure_asset_path_in_session, unmarshal_index,
  outside, first_extension,
}
use genkit_cowork.Memory.AssetStore.Puts.{Puts}
use genkit_cowork.Memory.AssetStore.Inside.{Below, ensure_asset_path_in_session-Below}

abbrev hello : Bytes
hello = codes "hello"

abbrev uploaded : SessionAsset
uploaded = record {
  asset_id = codes "a";
  message_id = [];
  name = codes "a.txt";
  part_index = 0;
  mime_type = codes "text/plain";
  size_bytes = 5;
  sha256 = codes "00";
  path = codes "/r/t/s/assets/a.txt";
  uploaded_at = 5;
  ingest_status = pending;
  ingested_at = 0;
  metadata = [];
}

abbrev is_pending : AssetIngestStatus → Bool
is_pending pending = true
is_pending _ = false

abbrev is_none : {A : Type 0} → List A → Bool
is_none [] = true
is_none (x ∷ xs) = false

abbrev same_texts : SessionAsset → Bool
same_texts a =
    eqb a.asset_id (codes "a")
    && eqb a.message_id []
    && eqb a.name (codes "a.txt")
    && eqb a.mime_type (codes "text/plain")
    && eqb a.sha256 (codes "00")
    && eqb a.path (codes "/r/t/s/assets/a.txt")

abbrev same_numbers : SessionAsset → Bool
same_numbers a =
    a.part_index == 0
    && a.size_bytes == 5
    && a.uploaded_at == 5
    && is_pending a.ingest_status
    && a.ingested_at == 0
    && is_none a.metadata

-- a codec of the one list that the run writes
abbrev marshal_one : List SessionAsset → Option Bytes
marshal_one (a ∷ []) = if same_texts a && same_numbers a then some (codes "1") else none
marshal_one _ = none

abbrev unmarshal_one : Bytes → Option (List SessionAsset)
unmarshal_one text = if eqb text (codes "1") then some (uploaded ∷ []) else none

abbrev env : Outside
env = record {
  extensions_by_type =
      λ mime. if eqb mime (codes "text/plain") then codes ".txt" ∷ [] else codes ".json" ∷ [];
  sha256_hex = λ content. codes "00";
  working_directory = codes "/w";
  marshal_assets = marshal_one;
  unmarshal_assets = unmarshal_one;
  marshal_chunks = λ records. none;
  detect_content_type = λ content. codes "text/plain";
}

abbrev empty_disk : Disk
empty_disk = quiet 1 (2 ∷ 3 ∷ 4 ∷ []) (record { files = []; directories = [] })

put_run :
    (put env
      (codes "/r")
      false
      (codes "t")
      (codes "s")
      (codes "a")
      (codes "text/plain")
      hello
      5
      empty_disk).0
    ≡ ok (codes "/r/t/s/assets/a.txt")
unfolding put check check_ids store_asset asset_path assets_dir index_path absolute new_record
    upsert_asset_record read_assets_index index_result of_assets write_assets_index or_error
    write_ended first_extension upsert_asset_by_id sort_assets insert_asset is_before read_file
    found continue wrapped validate_path_segment trim_space trim_left_after trim_right_after
    blank_after first_rune is_space contains_any is_one_of atomic_write_file after_create draw
    created call end_with at_once or_clean write_temp writing moved dir_of up_to_slash
    without_last_slash itoa digits_before lookup insert erase contains path_base le_bytes join
    with_slashes clean segments_from enter_all enter up show_path show_parts eqb
put_run = refl

-- An asset with the id "index" and the extension of JSON is written over the index.
index_run :
    let after =
      put env
        (codes "/r")
        false
        (codes "t")
        (codes "s")
        (codes "index")
        (codes "application/json")
        hello
        5
        empty_disk in
    (after.0 ≡ err unmarshal_index)
    × (file_at (codes "/r/t/s/assets/index.json") after.1 ≡ some hello)
unfolding put check check_ids store_asset asset_path assets_dir index_path absolute new_record
    upsert_asset_record read_assets_index index_result of_assets write_assets_index or_error
    write_ended first_extension upsert_asset_by_id sort_assets insert_asset is_before read_file
    found continue wrapped validate_path_segment trim_space trim_left_after trim_right_after
    blank_after first_rune is_space contains_any is_one_of atomic_write_file after_create draw
    created call end_with at_once or_clean write_temp writing moved dir_of up_to_slash
    without_last_slash itoa digits_before lookup insert erase contains path_base le_bytes join
    with_slashes clean segments_from enter_all enter up show_path show_parts eqb
index_run = (refl, refl)

inside_run :
    ensure_asset_path_in_session env
      (codes "/r")
      (codes "t")
      (codes "s")
      (codes "/r/t/s/assets/a.txt")
    ≡ ok tt
unfolding ensure_asset_path_in_session is_outside rel joined_parts ups without_shared absolute
    assets_dir has_prefix join with_slashes clean segments_from enter_all enter up show_path
    show_parts eqb
inside_run = refl

ensure_asset_path_in_session-Below_example :
    Below
      (absolute env (codes "/r") (assets_dir env (codes "/r") (codes "t") (codes "s")))
      (codes "/r/t/s/assets/a.txt")
ensure_asset_path_in_session-Below_example =
    ensure_asset_path_in_session-Below env (codes "/r") (codes "t") (codes "s")
      (codes "/r/t/s/assets/a.txt") inside_run

outside_run :
    ensure_asset_path_in_session env
      (codes "/r")
      (codes "t")
      (codes "s")
      (codes "/r/t/s/assets/../b/a.txt")
    ≡ err (outside (codes "/r/t/s/assets/../b/a.txt"))
unfolding ensure_asset_path_in_session is_outside rel joined_parts ups without_shared absolute
    assets_dir has_prefix join with_slashes clean segments_from enter_all enter up show_path
    show_parts eqb
outside_run = refl
