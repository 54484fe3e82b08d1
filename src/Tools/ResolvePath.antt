-- ===== src/Tools/ResolvePath.antt =====
-- genkit-cowork/tools/path.go on Unix: the paths that a tool is given.
use genkit_cowork.Base.{Option, none, some, [], ◌∷◌, drop, if◌then◌else◌}
use genkit_cowork.Base.Bytes.{Bytes, codes, eqb, has_prefix}
use genkit_cowork.Base.Result.{Result, err, ok}
use genkit_cowork.Os.Path.{clean, join, is_rooted}

-- what `os.Stat` answers
pub data Stat : Type 0 where
  exists not_there : Stat
  stat_failed : Bytes → Stat

pub data ResolveError : Type 0 where
  file_not_found cannot_access : Bytes → ResolveError

abbrev pub tilde : Bytes
tilde = codes "~"

unfoldable pub home_or : Bytes → Option Bytes → Bytes
home_or path none = path
home_or path (some home) = home

unfoldable pub in_home : Bytes → Bytes → Option Bytes → Bytes
in_home path rest none = path
in_home path rest (some home) = join (home ∷ rest ∷ [])

-- The first argument is `os.UserHomeDir()`, none on an error.
unfoldable pub expand_path : Option Bytes → Bytes → Bytes
expand_path home path =
    if eqb path tilde
    then home_or path home
    else if has_prefix path (codes "~/")
    then in_home path (drop 2 path) home
    else path

unfoldable pub resolve_to_cwd : Option Bytes → Bytes → Bytes → Bytes
resolve_to_cwd home path cwd =
    let expanded = expand_path home path in
    if is_rooted expanded then clean expanded else clean (join (cwd ∷ expanded ∷ []))

unfoldable pub by_stat : Bytes → Stat → Result ResolveError Bytes
by_stat path exists = ok path
by_stat path not_there = err (file_not_found path)
by_stat path (stat_failed e) = err (cannot_access e)

unfoldable pub resolve_read_path :
    Option Bytes → (Bytes → Stat) → Bytes → Bytes → Result ResolveError Bytes
resolve_read_path home stat path cwd =
    let absolute = resolve_to_cwd home path cwd in by_stat absolute (stat absolute)
