-- ===== src/Memory/BackendTests.antt =====
-- Runs of the file backend and of the vector backend at concrete inputs, and the theorems applied there.
use genkit_cowork.Base.{true, false, some, List, [], ◌∷◌, ◌≡◌, refl, All}
use genkit_cowork.Base.Int.{pos}
use genkit_cowork.Base.Bytes.{Bytes, codes, eqb}
use genkit_cowork.Base.Dict.{lookup, insert, erase}
use genkit_cowork.Base.Decimal.{itoa, digits_before}
use genkit_cowork.Base.Result.{ok}
use genkit_cowork.Os.Path.{
  segments_from, up, enter, enter_all, show_parts, show_path, clean, with_slashes, join,
  validate_path_segment, is_one_of, contains_any,
}
use genkit_cowork.Os.Path.Distinct.{IsSegment, validate_path_segment-IsSegment}
use genkit_cowork.Os.Disk.{works, stops, Disk, end_with, call, at_once, writing, moved}
use genkit_cowork.Tools.Runes.{first_rune, is_space}
use genkit_cowork.Tools.Trim.{trim_space, trim_left_after, trim_right_after, blank_after}
use genkit_cowork.Memory.Types.{SessionState, keep_all}
use genkit_cowork.Memory.Samples.{message, state}
use genkit_cowork.Memory.AtomicWrite.{
  up_to_slash, dir_of, without_last_slash, created, draw, or_clean, write_temp, after_create,
  atomic_write_file,
}
use genkit_cowork.Memory.AtomicWrite.Kept.{NotTemp, Ends, file_at, atomic_write_file-Ends}
use genkit_cowork.Memory.Files.{Codec, state_path, session_dir}
use genkit_cowork.Memory.Files.Paths.{state_path-NotTemp}
use genkit_cowork.Memory.Files.Refines.{quiet}
use genkit_cowork.Memory.Files.Runs.{
  Call, save, load, delete, run_files, run_store, IsSound, empty-Related, run_files-run_store,
}

abbrev root : Bytes
root = codes "/data"

abbrev tenant : Bytes
tenant = codes "t"

abbrev session : Bytes
session = codes "s"

abbrev stored_state : SessionState
stored_state = state (message (codes "a") (pos 1) ∷ []) [] []

-- a codec of this one state
abbrev json : Codec
json = record { marshal = λ x. 7 ∷ 8 ∷ []; unmarshal = λ text. some stored_state }

tenant-IsSegment : IsSegment tenant
unfolding eqb
tenant-IsSegment = record {
  filled = refl;
  no_slash = (refl, tt);
  not_dot = refl;
  not_dot_dot = refl;
}

session-IsSegment : IsSegment session
unfolding eqb
session-IsSegment = record {
  filled = refl;
  no_slash = (refl, tt);
  not_dot = refl;
  not_dot_dot = refl;
}

abbrev path : Bytes
path = state_path root json tenant session

-- Ids that are not validated lead out of the root, or to the directory of a whole tenant.
escape_run :
    (state_path root json (codes "..") (codes "x") ≡ codes "/x/state.json")
    × (session_dir root json tenant [] ≡ codes "/data/t")
unfolding state_path session_dir join with_slashes clean segments_from enter_all enter up show_path
    show_parts eqb
escape_run = (refl, refl)

-- Creating works, writing stops after one byte.
abbrev torn : Disk
torn = record {
  tree = record { files = (codes "/data/t/s/state.json", 1 ∷ 2 ∷ []) ∷ []; directories = [] };
  outcomes = works ∷ stops 1 ∷ [];
  seeds = 5 ∷ [];
  is_stopped = false;
}

torn_run :
    (atomic_write_file path (7 ∷ 8 ∷ []) torn).1.tree.files
    ≡ (codes "/data/t/s/state.json", 1 ∷ 2 ∷ []) ∷ (codes "/data/t/s/.tmp-5", 7 ∷ []) ∷ []
unfolding atomic_write_file after_create draw created call end_with at_once or_clean write_temp
    writing moved state_path join with_slashes clean segments_from enter_all enter up show_path
    show_parts eqb dir_of up_to_slash without_last_slash itoa digits_before lookup insert erase
torn_run = refl

atomic_write_file-Ends_example :
    Ends path (file_at path torn) (7 ∷ 8 ∷ []) (atomic_write_file path (7 ∷ 8 ∷ []) torn)
    × (NotTemp path
        → eqb path path ≡ false
        → file_at path (atomic_write_file path (7 ∷ 8 ∷ []) torn).1 ≡ file_at path torn)
atomic_write_file-Ends_example =
    atomic_write_file-Ends path (7 ∷ 8 ∷ []) path torn
      (state_path-NotTemp 47 (codes "data") json tenant session tenant-IsSegment session-IsSegment)

abbrev calls : List Call
calls =
    save false tenant session stored_state
    ∷ load false tenant session keep_all (pos 0)
    ∷ load true tenant session keep_all (pos 0)
    ∷ delete false tenant session
    ∷ load false tenant session keep_all (pos 0)
    ∷ []

calls-IsSound : All (IsSound json) calls
calls-IsSound = (
  (tenant-IsSegment, session-IsSegment, refl, refl),
  (
    (tenant-IsSegment, session-IsSegment),
    (
      (tenant-IsSegment, session-IsSegment),
      ((tenant-IsSegment, session-IsSegment), ((tenant-IsSegment, session-IsSegment), tt)),
    ),
  ),
)

run_files-run_store_example :
    run_files root json calls (quiet 5 [] (record { files = []; directories = [] }))
    ≡ run_store calls []
run_files-run_store_example =
    run_files-run_store 47 (codes "data") json 5 [] calls (record { files = []; directories = [] })
      [] (empty-Related 47 (codes "data") json 5 []) calls-IsSound

validate_run : validate_path_segment (codes "assetID") (codes "a.b") ≡ ok tt
unfolding validate_path_segment trim_space trim_left_after trim_right_after blank_after first_rune
    is_space eqb contains_any is_one_of
validate_run = refl

validate_path_segment-IsSegment_example : IsSegment (codes "a.b")
validate_path_segment-IsSegment_example =
    validate_path_segment-IsSegment (codes "assetID") (codes "a.b") validate_run
