-- ===== src/Memory/Files/Runs.antt =====
-- Runs of calls on the file backend and on the in-memory one.
use genkit_cowork.Base.{ℕ, Bool, Option, some, List, [], ◌∷◌, ◌≡◌, refl, ap, All}
use genkit_cowork.Base.Int.{ℤ}
use genkit_cowork.Base.Bytes.{Bytes}
use genkit_cowork.Base.Result.{Result}
use genkit_cowork.Base.Dict.{lookup}
use genkit_cowork.Os.Path.Distinct.{IsSegment}
use genkit_cowork.Os.Disk.{Tree, Disk}
use genkit_cowork.Memory.Types.{SessionState, PersistenceMode}
use genkit_cowork.Memory.Store.{Store, sessions_of, stored, StoreError}
use genkit_cowork.Memory.Store
use genkit_cowork.Memory.Files.{Codec, FileError, refused}
use genkit_cowork.Memory.Files
use genkit_cowork.Memory.Files.Refines.{
  quiet, lifted, Related, found_state, save_state-Related, load_state-Related,
  delete_session-Related,
}

-- A call of a backend; the flag says that its context is cancelled.
pub data Call : Type 0 where
  save : Bool → Bytes → Bytes → SessionState → Call
  load : Bool → Bytes → Bytes → PersistenceMode → ℤ → Call
  delete : Bool → Bytes → Bytes → Call

pub data Reply : Type 0 where
  done : Result FileError (Unit {0}) → Reply
  state : Result FileError (Option SessionState) → Reply

-- The answers of the in-memory backend are given in the errors of the other one.
unfoldable pub ask_store : Call → Store → Reply × Store
ask_store (save cancelled tenant session x) s =
    let (r, after) = Store.save_state cancelled tenant session x s in (done (lifted r), after)
ask_store (load cancelled tenant session mode k) s =
    (state (lifted (Store.load_state cancelled tenant session mode k s)), s)
ask_store (delete cancelled tenant session) s =
    let (r, after) = Store.delete_session cancelled tenant session s in (done (lifted r), after)

unfoldable pub run_store : List Call → Store → List Reply
run_store [] s = []
run_store (call ∷ calls) s = let (r, after) = ask_store call s in r ∷ run_store calls after

module _ (root : Bytes) (codec : Codec) where
  unfoldable pub ask_files : Call → Disk → Reply × Disk
  ask_files (save cancelled tenant session x) d =
      let (r, after) = Files.save_state root codec cancelled tenant session x d in (done r, after)
  ask_files (load cancelled tenant session mode k) d =
      let (r, after) = Files.load_state root codec cancelled tenant session mode k d in
      (state r, after)
  ask_files (delete cancelled tenant session) d =
      let (r, after) = Files.delete_session root codec cancelled tenant session d in (done r, after)

  unfoldable pub run_files : List Call → Disk → List Reply
  run_files [] d = []
  run_files (call ∷ calls) d = let (r, after) = ask_files call d in r ∷ run_files calls after

-- What a session and its tenant must be, and a state that is saved: of its tenant, and one that its
-- JSON gives back.
abbrev pub IsSound : Codec → Call → Type 0
IsSound codec (save cancelled tenant session x) =
    IsSegment tenant
    × IsSegment session
    × (x.tenant_id ≡ tenant)
    × (codec.unmarshal (codec.marshal x) ≡ some x)
IsSound codec (load cancelled tenant session mode k) = IsSegment tenant × IsSegment session
IsSound codec (delete cancelled tenant session) = IsSegment tenant × IsSegment session

module _ (c : ℕ) (root : Bytes) (codec : Codec) (seed : ℕ) (seeds : List ℕ) where
  ask-Related :
      (call : Call) (t : Tree) (s : Store)
      → Related c root codec seed seeds t s
      → IsSound codec call
      → (after : Tree) × (ask_files (c ∷ root) codec call (quiet seed seeds t)
          ≡ ((ask_store call s).0, quiet seed seeds after))
        × Related c root codec seed seeds after (ask_store call s).1
  unfolding ask_files ask_store
  ask-Related (save cancelled tenant session x) t s rel (ht, hn, own, back) =
      let (after, e, rel') =
        save_state-Related c root codec seed seeds cancelled tenant session x t s rel ht hn own
          back in
      (after, rw e refl, rel')
  ask-Related (load cancelled tenant session mode k) t s rel (ht, hn) = (
    t,
    rw (load_state-Related c root codec seed seeds cancelled tenant session mode k t s rel ht hn)
        refl,
    rel,
  )
  ask-Related (delete cancelled tenant session) t s rel (ht, hn) =
      let (after, e, rel') =
        delete_session-Related c root codec seed seeds cancelled tenant session t s rel ht hn in
      (after, rw e refl, rel')

  -- On disks and stores that are related, any run of sound saves, loads and deletes, cancelled ones
  -- among them, gets the same answers from the file backend as from the in-memory backend, as long
  -- as no call of the operating system fails.
  pub run_files-run_store :
      (calls : List Call) (t : Tree) (s : Store)
      → Related c root codec seed seeds t s
      → All (IsSound codec) calls
      → run_files (c ∷ root) codec calls (quiet seed seeds t) ≡ run_store calls s
  unfolding run_files run_store
  run_files-run_store [] t s rel sound = refl
  run_files-run_store (call ∷ calls) t s rel sound =
      let (after, e, rel') = ask-Related call t s rel sound.0 in
      rw e (
        ap (λ rs. (ask_store call s).0 ∷ rs)
          (run_files-run_store calls after (ask_store call s).1 rel' sound.1))

  -- An empty directory is related to an empty store.
  pub empty-Related : Related c root codec seed seeds (record { files = []; directories = [] }) []
  unfolding found_state stored sessions_of lookup
  empty-Related = record {
    reads = λ t n ht hn. refl;
    owned = λ t n x h. cc;
    untaken = λ dir n. refl;
  }
