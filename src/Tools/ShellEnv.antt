-- ===== src/Tools/ShellEnv.antt =====
-- `GetShellEnv` of genkit-cowork/utils/shell.go, on Unix.
use genkit_cowork.Base.{
  ℕ, ◌+◌, ◌==◌, not, ◌&&◌, Option, none, some, List, [], ◌∷◌, ◌++◌, leb, if◌then◌else◌,
}
use genkit_cowork.Base.Bytes.{Bytes, codes, eqb}
use genkit_cowork.Base.Dict.{Dict, lookup, insert, contains}

-- `strings.EqualFold(k, "path")`; no character outside ASCII folds to one of these letters.
unfoldable pub fold_byte : ℕ → ℕ
fold_byte c = if leb 0x41 c && leb c 0x5A then c + 0x20 else c

unfoldable pub folded : Bytes → Bytes
folded [] = []
folded (c ∷ cs) = fold_byte c ∷ folded cs

-- the first key of the range that reads "path"; the order of a map's range is any order
unfoldable pub path_key : Dict Bytes → Bytes
path_key [] = codes "PATH"
path_key ((k, v) ∷ env) =
    let rest = path_key env in if eqb (folded k) (codes "path") then k else rest

-- `strings.Split(pathValue, sep)` without the empty parts; the first list is the part read so far
unfoldable pub split_path_from : Bytes → Bytes → List Bytes
split_path_from part [] = if eqb part [] then [] else part ∷ []
split_path_from part (c ∷ cs) =
    let cut = split_path_from [] cs in
    let go_on = split_path_from (part ++ c ∷ []) cs in
    if c == b':' then (if eqb part [] then cut else part ∷ cut) else go_on

abbrev pub split_path_list : Bytes → List Bytes
split_path_list = split_path_from []

unfoldable pub or_unset : Option Bytes → Bytes
or_unset none = []
or_unset (some v) = v

-- The directory is joined by the separator of path lists, as the program has it.
abbrev pub bin_dir : Bytes → Bytes
bin_dir agent_dir = agent_dir ++ b':' ∷ codes "bin"

unfoldable pub with_bin : Bytes → Bytes → Bytes
with_bin bin current =
    if not (contains bin (split_path_list current)) then bin else bin ++ b':' ∷ current

unfoldable pub with_agent_dir : Option Bytes → Bytes → Dict Bytes → Dict Bytes
with_agent_dir none key env = env
with_agent_dir (some agent_dir) key env =
    insert key (with_bin (bin_dir agent_dir) (or_unset (lookup key env))) env

unfoldable pub env_slice : Dict Bytes → List Bytes
env_slice [] = []
env_slice ((k, v) ∷ env) = (k ++ b'=' ∷ v) ∷ env_slice env

-- The environment as a map, with `ENV_AGENT_DIR` looked up in it.
unfoldable pub get_shell_env : Dict Bytes → List Bytes
get_shell_env env =
    env_slice (with_agent_dir (lookup (codes "ENV_AGENT_DIR") env) (path_key env) env)
