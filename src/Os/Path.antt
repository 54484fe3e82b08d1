-- ===== src/Os/Path.antt =====
-- Paths as Go's `path/filepath` joins them on Unix, and `ValidatePathSegment` of
-- genkit-cowork/utils/path_segment.go.
pub mod Distinct
pub mod Under
use genkit_cowork.Base.{ℕ, ◌==◌, Bool, true, false, ◌||◌, List, [], ◌∷◌, ◌++◌, if◌then◌else◌}
use genkit_cowork.Base.Bytes.{Bytes, codes, eqb}
use genkit_cowork.Base.Result.{Result, err, ok, ◌>>◌, fail_if}
use genkit_cowork.Tools.Trim.{trim_space}

abbrev pub slash : ℕ
slash = b'/'

abbrev pub dot : Bytes
dot = codes "."

abbrev pub dot_dot : Bytes
dot_dot = codes ".."

-- `strings.Split(p, "/")`; the first list is the part read so far.
unfoldable pub segments_from : Bytes → Bytes → List Bytes
segments_from part [] = part ∷ []
segments_from part (c ∷ cs) =
    let cut = part ∷ segments_from [] cs in
    let go_on = segments_from (part ++ c ∷ []) cs in if c == slash then cut else go_on

abbrev pub segments : Bytes → List Bytes
segments = segments_from []

-- `..`; the parts of a path are listed from its end.
unfoldable pub up : Bool → List Bytes → List Bytes
up rooted [] = if rooted then [] else dot_dot ∷ []
up rooted (c ∷ cs) = if eqb c dot_dot then dot_dot ∷ c ∷ cs else cs

unfoldable pub enter : Bool → Bytes → List Bytes → List Bytes
enter rooted part parts =
    if eqb part [] || eqb part dot
    then parts
    else if eqb part dot_dot
    then up rooted parts
    else part ∷ parts

unfoldable pub enter_all : Bool → List Bytes → List Bytes → List Bytes
enter_all rooted [] parts = parts
enter_all rooted (part ∷ rest) parts = enter_all rooted rest (enter rooted part parts)

unfoldable pub show_parts : List Bytes → Bytes
show_parts [] = []
show_parts (c ∷ []) = c
show_parts (c ∷ d ∷ cs) = show_parts (d ∷ cs) ++ slash ∷ c

abbrev pub is_rooted : Bytes → Bool
is_rooted [] = false
is_rooted (c ∷ cs) = c == slash

abbrev pub parts_of : Bytes → List Bytes
parts_of p = enter_all (is_rooted p) (segments p) []

unfoldable pub show_path : Bool → List Bytes → Bytes
show_path rooted parts =
    let shown = show_parts parts in
    if rooted then slash ∷ shown else if eqb shown [] then dot else shown

-- `filepath.Clean`
unfoldable pub clean : Bytes → Bytes
clean p = show_path (is_rooted p) (parts_of p)

-- `strings.Join(elems, "/")`
unfoldable pub with_slashes : Bytes → List Bytes → Bytes
with_slashes first [] = first
with_slashes first (e ∷ es) = first ++ slash ∷ with_slashes e es

-- `filepath.Join`
unfoldable pub join : List Bytes → Bytes
join [] = []
join (e ∷ es) = let rest = join es in if eqb e [] then rest else clean (with_slashes e es)

pub data SegmentError : Type 0 where
  required has_separator dot_reference : Bytes → SegmentError

unfoldable pub is_one_of : ℕ → Bytes → Bool
is_one_of c [] = false
is_one_of c (d ∷ ds) = c == d || is_one_of c ds

-- `strings.ContainsAny(s, chars)` for ASCII characters
unfoldable pub contains_any : Bytes → Bytes → Bool
contains_any [] chars = false
contains_any (c ∷ s) chars = is_one_of c chars || contains_any s chars

unfoldable pub validate_path_segment : Bytes → Bytes → Result SegmentError (Unit {0})
validate_path_segment name value =
    fail_if (eqb (trim_space value) []) (required name)
    >> fail_if (contains_any value (codes "/\\")) (has_separator name)
    >> fail_if (eqb value dot || eqb value dot_dot) (dot_reference name)
