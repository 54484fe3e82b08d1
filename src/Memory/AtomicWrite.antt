-- ===== src/Memory/AtomicWrite.antt =====
-- `atomicWriteFile` of genkit-cowork/memory/file_sessions.go.
pub mod Kept
use genkit_cowork.Base.{
  ℕ, ◌==◌, Bool, true, false, Option, none, some, List, [], ◌∷◌, ◌++◌, if◌then◌else◌,
}
use genkit_cowork.Base.Bytes.{Bytes, codes}
use genkit_cowork.Base.Dict.{lookup, insert, is_some}
use genkit_cowork.Base.Decimal.{itoa}
use genkit_cowork.Base.Result.{Result, err, ok}
use genkit_cowork.Os.Path.{slash, clean}
use genkit_cowork.Os.Disk.{
  Tree, Disk, DiskError, failed, at_once, nothing, writing, call, rename, remove,
}

-- the steps that can fail
pub data WriteStep : Type 0 where
  create write sync close chmod replace : WriteStep

pub data WriteError : Type 0 where
  write_failed : WriteStep → DiskError → WriteError

-- The path up to and with its last slash.
unfoldable pub up_to_slash : Bytes → Bytes
up_to_slash [] = []
up_to_slash (c ∷ cs) = elim (up_to_slash cs) [
  | [] ↦ if c == slash then c ∷ [] else []
  | d ∷ ds ↦ c ∷ d ∷ ds
]

-- `filepath.Dir`
unfoldable pub dir_of : Bytes → Bytes
dir_of p = clean (up_to_slash p)

unfoldable pub without_last_slash : Bytes → Bytes
without_last_slash [] = []
without_last_slash (c ∷ []) = if c == slash then [] else c ∷ []
without_last_slash (c ∷ d ∷ ds) = c ∷ without_last_slash (d ∷ ds)

abbrev pub temp_name : ℕ → Bytes
temp_name seed = codes ".tmp-" ++ itoa seed

abbrev pub temp_path : Bytes → ℕ → Bytes
temp_path dir seed = without_last_slash dir ++ slash ∷ temp_name seed

abbrev pub creating : Bytes → Tree → Tree
creating p t = record t { files = insert p [] t.files }

unfoldable pub created : Bytes → Result DiskError (Unit {0}) × Disk → Result DiskError Bytes × Disk
created p (err e, d) = (err e, d)
created p (ok _, d) = (ok p, d)

-- `os.CreateTemp(dir, ".tmp-*")`: the first number drawn whose file is not there.
unfoldable pub draw : Bytes → List ℕ → Disk → Result DiskError Bytes × Disk
draw dir [] d = (err failed, d)
draw dir (seed ∷ seeds) d =
    let p = temp_path dir seed in
    let later = draw dir seeds d in
    if is_some (lookup p d.tree.files) then later else created p (call (at_once (creating p)) d)

-- One step behind which the next one comes, or the deferred removal of the file.
unfoldable pub or_clean :
    Bytes
    → WriteStep
    → Result DiskError (Unit {0}) × Disk
    → (Disk → Result WriteError (Unit {0}) × Disk)
    → Result WriteError (Unit {0}) × Disk
or_clean tmp step (err e, d) next = (err (write_failed step e), (remove tmp d).1)
or_clean tmp step (ok _, d) next = next d

unfoldable pub write_temp : Bytes → Bytes → Bytes → Disk → Result WriteError (Unit {0}) × Disk
write_temp path content tmp d = or_clean tmp write (call (writing tmp content) d) (λ d.
    or_clean tmp sync (call nothing d) (λ d. or_clean tmp close (call nothing d) (λ d.
      or_clean tmp chmod (call nothing d)
        (λ d. or_clean tmp replace (rename tmp path d) (λ d. (ok tt, d))))))

unfoldable pub after_create :
    Bytes → Bytes → Result DiskError Bytes × Disk → Result WriteError (Unit {0}) × Disk
after_create path content (err e, d) = (err (write_failed create e), d)
after_create path content (ok tmp, d) = write_temp path content tmp d

unfoldable pub atomic_write_file : Bytes → Bytes → Disk → Result WriteError (Unit {0}) × Disk
atomic_write_file path content d = after_create path content (draw (dir_of path) d.seeds d)
