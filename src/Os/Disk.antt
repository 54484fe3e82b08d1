-- ===== src/Os/Disk.antt =====
-- Files and directories as the package `os` of Go serves them, with calls that fail and a process
-- that may be stopped during any call.
use genkit_cowork.Base.{
  ℕ, zero, suc, ◌==◌, Bool, true, not, Option, none, some, List, [], ◌∷◌, ◌++◌, take, drop, length,
  ◌+◌, ◌&&◌, if◌then◌else◌,
}
use genkit_cowork.Base.Bytes.{Bytes, has_prefix}
use genkit_cowork.Base.Dict.{Dict, lookup, insert, erase, contains}
use genkit_cowork.Base.Result.{Result, err, ok}
use genkit_cowork.Os.Path.{slash}
use genkit_cowork.Os.Path.Under.{is_under}

-- How a call ends: it works, it fails, or the process stops during it. The number says how much was
-- done before.
pub data Outcome : Type 0 where
  works : Outcome
  fails stops : ℕ → Outcome

pub data DiskError : Type 0 where
  not_exist failed stopped : DiskError

pub record Tree : Type 0 where
  pub files : Dict Bytes
  pub directories : List Bytes

-- The calls to come end as `outcomes` says, then they all work; after a stop none is made. The
-- numbers in `seeds` are those that a call of `os.CreateTemp` draws, in this order.
pub record Disk : Type 0 where
  pub tree : Tree
  pub outcomes : List Outcome
  pub seeds : List ℕ
  pub is_stopped : Bool

abbrev pub first_outcome : List Outcome → Outcome
first_outcome [] = works
first_outcome (o ∷ os) = o

abbrev pub later_outcomes : List Outcome → List Outcome
later_outcomes [] = []
later_outcomes (o ∷ os) = os

unfoldable pub end_with :
    Disk → Outcome → (Outcome → Tree → Tree) → Result DiskError (Unit {0}) × Disk
end_with d works effect =
    (ok tt, record d { tree = effect works d.tree; outcomes = later_outcomes d.outcomes })
end_with d (fails k) effect =
    (err failed, record d { tree = effect (fails k) d.tree; outcomes = later_outcomes d.outcomes })
end_with d (stops k) effect = (
  err stopped,
  record d {
    tree = effect (stops k) d.tree;
    outcomes = later_outcomes d.outcomes;
    is_stopped = true;
  },
)

-- A call with its effect on the tree.
unfoldable pub call : (Outcome → Tree → Tree) → Disk → Result DiskError (Unit {0}) × Disk
call effect d =
    if d.is_stopped then (err stopped, d) else end_with d (first_outcome d.outcomes) effect

-- an effect that takes place whole or not at all
unfoldable pub at_once : (Tree → Tree) → Outcome → Tree → Tree
at_once change works t = change t
at_once change (fails k) t = t
at_once change (stops zero) t = t
at_once change (stops (suc k)) t = change t

abbrev pub nothing : Outcome → Tree → Tree
nothing o t = t

-- `f.Write` at the start of a file
unfoldable pub writing : Bytes → Bytes → Outcome → Tree → Tree
writing p content works t = record t { files = insert p content t.files }
writing p content (fails k) t = record t { files = insert p (take k content) t.files }
writing p content (stops k) t = record t { files = insert p (take k content) t.files }

unfoldable pub moved : Bytes → Bytes → Option Bytes → Dict Bytes → Dict Bytes
moved from to none files = files
moved from to (some content) files = insert to content (erase from files)

abbrev pub renaming : Bytes → Bytes → Tree → Tree
renaming from to t = record t { files = moved from to (lookup from t.files) t.files }

-- `os.Rename`, of one file system
abbrev pub rename : Bytes → Bytes → Disk → Result DiskError (Unit {0}) × Disk
rename from to = call (at_once (renaming from to))

-- `os.Remove`
abbrev pub remove : Bytes → Disk → Result DiskError (Unit {0}) × Disk
remove p = call (at_once (λ t. record t { files = erase p t.files }))

unfoldable pub found : Option Bytes → Result DiskError Bytes
found none = err not_exist
found (some content) = ok content

-- `os.ReadFile`
unfoldable pub read_file : Bytes → Disk → Result DiskError Bytes × Disk
read_file p d =
    let (r, after) = call nothing d in
    elim r [ err e ↦ (err e, after) | ok _ ↦ (found (lookup p d.tree.files), after) ]

-- `os.MkdirAll`, of a directory whose parents need no entry of their own
abbrev pub make_directory : Bytes → Disk → Result DiskError (Unit {0}) × Disk
make_directory p = call (
    at_once (λ t.
      if contains p t.directories then t else record t { directories = t.directories ++ p ∷ [] }))

-- what `os.RemoveAll` leaves
unfoldable pub files_outside : Bytes → Dict Bytes → Dict Bytes
files_outside dir [] = []
files_outside dir ((p, content) ∷ files) =
    let rest = files_outside dir files in if is_under dir p then rest else (p, content) ∷ rest

unfoldable pub directories_outside : Bytes → List Bytes → List Bytes
directories_outside dir [] = []
directories_outside dir (p ∷ ps) =
    let rest = directories_outside dir ps in if is_under dir p then rest else p ∷ rest

unfoldable pub removed_some : Bytes → ℕ → Tree → Tree
removed_some dir k t = record t {
  files = files_outside dir (take k t.files) ++ drop k t.files;
  directories = directories_outside dir (take k t.directories) ++ drop k t.directories;
}

-- `os.RemoveAll`; a call that does not end well may have removed a part.
unfoldable pub removing_all : Bytes → Outcome → Tree → Tree
removing_all dir works t = record t {
  files = files_outside dir t.files;
  directories = directories_outside dir t.directories;
}
removing_all dir (fails k) t = removed_some dir k t
removing_all dir (stops k) t = removed_some dir k t

abbrev pub remove_all : Bytes → Disk → Result DiskError (Unit {0}) × Disk
remove_all dir = call (removing_all dir)

-- the part of a path behind a directory and its slash
unfoldable pub behind : Bytes → Bytes → Bytes
behind dir p = drop (length dir + 1) p

unfoldable pub first_part : Bytes → Bytes
first_part [] = []
first_part (c ∷ cs) = let rest = first_part cs in if c == slash then [] else c ∷ rest

unfoldable pub names_below : Bytes → List Bytes → List Bytes
names_below dir [] = []
names_below dir (p ∷ ps) =
    let rest = names_below dir ps in
    let name = first_part (behind dir p) in
    if has_prefix p (dir ++ slash ∷ []) && not (contains name rest) then name ∷ rest else rest

-- `os.ReadDir`, the names of the directories among the entries. A directory that is not there is
-- one with no entries, since that is how the callers read it.
unfoldable pub read_directories : Bytes → Disk → Result DiskError (List Bytes) × Disk
read_directories dir d =
    let (r, after) = call nothing d in
    elim r [ err e ↦ (err e, after) | ok _ ↦ (ok (names_below dir d.tree.directories), after) ]
