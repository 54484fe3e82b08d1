-- ===== src/Memory/Files.antt =====
-- `fileSessionOperator` of genkit-cowork/memory/file_sessions.go: the backend that keeps each session
-- in a file. The lock of a session makes each method one step. The JSON of a state is a parameter.
pub mod Paths
pub mod Refines
pub mod Runs
use genkit_cowork.Base.{
  Bool, true, false, not, ◌&&◌, Option, none, some, List, [], ◌∷◌, if◌then◌else◌,
}
use genkit_cowork.Base.Int.{ℤ}
use genkit_cowork.Base.Bytes.{Bytes, codes, eqb}
use genkit_cowork.Base.Result.{Result, err, ok}
use genkit_cowork.Base.Sort.{sort_strings}
use genkit_cowork.Os.Path.{join}
use genkit_cowork.Os.Disk.{
  Disk, DiskError, not_exist, read_file, make_directory, remove_all, read_directories,
}
use genkit_cowork.Os.Io.{Io, pure, fail, or_fail, wrapped, continue, ◌>>=◌, ◌>>◌}
use genkit_cowork.Memory.Types.{SessionState, PersistenceMode}
use genkit_cowork.Memory.Window.{filter_messages}
use genkit_cowork.Memory.Store.{StoreError, context_cancelled, check_existing}
use genkit_cowork.Memory.AtomicWrite.{WriteStep, WriteError, write_failed, atomic_write_file}

-- `json.Marshal` and `json.Unmarshal` of a `SessionState`
pub record Codec : Type 0 where
  pub marshal : SessionState → Bytes
  pub unmarshal : Bytes → Option SessionState

pub data FileError : Type 0 where
  refused : StoreError → FileError
  create_dir read_failed delete_dir read_dir : DiskError → FileError
  unmarshal_failed : FileError
  tenant_mismatch : Bytes → Bytes → FileError
  write_state_file : WriteStep → DiskError → FileError

module _ (root : Bytes) (codec : Codec) where
  unfoldable pub state_path : Bytes → Bytes → Bytes
  state_path tenant session = join (root ∷ tenant ∷ session ∷ codes "state.json" ∷ [])

  unfoldable pub session_dir : Bytes → Bytes → Bytes
  session_dir tenant session = join (root ∷ tenant ∷ session ∷ [])

  -- what the bytes of a state file hold
  unfoldable pub decoded : Option SessionState → Result FileError (Option SessionState)
  decoded none = err unmarshal_failed
  decoded (some state) = ok (some state)

  unfoldable pub read_result :
      Result DiskError Bytes × Disk → Result FileError (Option SessionState) × Disk
  read_result (err not_exist, d) = (ok none, d)
  read_result (err e, d) = (err (read_failed e), d)
  read_result (ok text, d) = (decoded (codec.unmarshal text), d)

  unfoldable pub read_state_file : Bytes → Bytes → Io FileError (Option SessionState)
  read_state_file tenant session d = read_result (read_file (state_path tenant session) d)

  unfoldable pub check_owner : Option SessionState → SessionState → Result FileError (Unit {0})
  check_owner none state = ok tt
  check_owner (some existing) state =
      if not (eqb existing.tenant_id []) && not (eqb state.tenant_id existing.tenant_id)
      then err (tenant_mismatch existing.tenant_id state.tenant_id)
      else ok tt

  -- the append-only check, and then the check of the tenant
  unfoldable pub check_after :
      Result StoreError (Unit {0})
      → Option SessionState
      → SessionState
      → Result FileError (Unit {0})
  check_after (err e) existing state = err (refused e)
  check_after (ok _) existing state = check_owner existing state

  unfoldable pub check_state : Option SessionState → SessionState → Io FileError (Unit {0})
  check_state existing state d = (check_after (check_existing existing state) existing state, d)

  unfoldable pub write_result :
      Result WriteError (Unit {0}) × Disk → Result FileError (Unit {0}) × Disk
  write_result (err (write_failed step e), d) = (err (write_state_file step e), d)
  write_result (ok _, d) = (ok tt, d)

  unfoldable pub write_state : Bytes → Bytes → SessionState → Io FileError (Unit {0})
  write_state tenant session state d =
      write_result (atomic_write_file (state_path tenant session) (codec.marshal state) d)

  unfoldable pub save_file : Bytes → Bytes → SessionState → Io FileError (Unit {0})
  save_file tenant session state = do
    or_fail create_dir (make_directory (session_dir tenant session))
    existing ← read_state_file tenant session
    check_state existing state
    write_state tenant session state

  unfoldable pub save_state : Bool → Bytes → Bytes → SessionState → Io FileError (Unit {0})
  save_state cancelled tenant session state =
      if cancelled then fail (refused context_cancelled) else save_file tenant session state

  unfoldable pub load_found : PersistenceMode → ℤ → Option SessionState → Option SessionState
  load_found mode n none = none
  load_found mode n (some state) =
      some (record state { messages = filter_messages state.messages mode n })

  unfoldable pub load_state :
      Bool → Bytes → Bytes → PersistenceMode → ℤ → Io FileError (Option SessionState)
  load_state cancelled tenant session mode n =
      if cancelled
      then fail (refused context_cancelled)
      else do state ← read_state_file tenant session; pure (load_found mode n state)

  unfoldable pub delete_session : Bool → Bytes → Bytes → Io FileError (Unit {0})
  delete_session cancelled tenant session =
      if cancelled
      then fail (refused context_cancelled)
      else or_fail delete_dir (remove_all (session_dir tenant session))

  unfoldable pub list_sessions : Bool → Bytes → Io FileError (List Bytes)
  list_sessions cancelled tenant = if cancelled then fail (refused context_cancelled) else do
    names ← or_fail read_dir (read_directories (join (root ∷ tenant ∷ [])))
    pure (sort_strings names)
