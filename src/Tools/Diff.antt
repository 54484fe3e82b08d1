-- ===== src/Tools/Diff.antt =====
-- genkit-cowork/tools/diff.go: a diff of two texts by lines, over a table of the lengths of longest
-- common subsequences. A merged change keeps the two fields that the code fills, its type and its
-- value, and the count.
pub mod Patch
pub mod Table
pub mod Longest
use genkit_cowork.Base.{
  ℕ, suc, ◌+◌, Bool, true, false, not, ◌&&◌, ◌||◌, Option, none, some, List, [], ◌∷◌, ◌++◌, length,
  reverse, map, get_elem?, leb, ltb, ◌==◌, if◌then◌else◌,
}
use genkit_cowork.Base.Bytes.{Bytes, eqb}
use genkit_cowork.Tools.Lines.{newline}
use genkit_cowork.Tools.Endings.{normalize_to_lf}

-- `strings.SplitAfter(value, "\n")`, without an empty last part; `cur` is the line read so far.
unfoldable pub split_after : Bytes → Bytes → List Bytes
split_after [] [] = []
split_after (c ∷ cur) [] = (c ∷ cur) ∷ []
split_after cur (c ∷ cs) =
    let cut = split_after [] cs in
    let more = split_after (cur ++ c ∷ []) cs in
    if c == newline then (cur ++ c ∷ []) ∷ cut else more

unfoldable pub tokenize : Bytes → Bool → List Bytes
tokenize value true = split_after [] (normalize_to_lf value)
tokenize value false = split_after [] value

pub data ChangeType : Type 0 where
  equal insert delete : ChangeType

pub record Change : Type 0 where
  pub change_type : ChangeType
  pub value : Bytes
  pub count : ℕ

-- A row of `dp` behind its first entry, from the row above: `diag` is dp[i-1][j-1], `left` is
-- dp[i][j-1].
unfoldable pub fill_row : Bytes → List Bytes → ℕ → List ℕ → ℕ → List ℕ
fill_row line [] diag above left = []
fill_row line (n ∷ ns) diag [] left = []
fill_row line (n ∷ ns) diag (up ∷ above) left =
    let v = if eqb line n then diag + 1 else if leb left up then up else left in
    v ∷ fill_row line ns up above v

-- the rows of `dp` from the given one on
unfoldable pub fill_table : List Bytes → List ℕ → List Bytes → List (List ℕ)
fill_table new above [] = above ∷ []
fill_table new above (o ∷ os) = above ∷ fill_table new (fill_row o new 0 above 0) os

unfoldable pub table : List Bytes → List Bytes → List (List ℕ)
table old new = fill_table new (map (λ n. 0) new) old

abbrev pub or_zero : Option ℕ → ℕ
or_zero none = 0
or_zero (some n) = n

abbrev pub cell_of : Option (List ℕ) → ℕ → ℕ
cell_of none j = 0
cell_of (some row) ℕ.zero = 0
cell_of (some row) (suc j) = or_zero (get_elem? row j)

-- dp[i][j]; the first entry of every row is 0, and is not stored.
unfoldable pub cell : List (List ℕ) → ℕ → ℕ → ℕ
cell dp i j = cell_of (get_elem? dp i) j

abbrev pub change : ChangeType → Bytes → Change
change t v = record { change_type = t; value = v; count = 0 }

-- The walk back through the table. The lists are the lines before `i` and before `j`, last first.
unfoldable pub walk : List (List ℕ) → List Bytes → List Bytes → List Change → List Change
walk dp [] [] changes = changes
walk dp [] (n ∷ ns) changes = walk dp [] ns (change insert n ∷ changes)
walk dp (o ∷ os) [] changes = walk dp os [] (change delete o ∷ changes)
walk dp (o ∷ os) (n ∷ ns) changes = elim (eqb o n) [
  | true ↦ walk dp os ns (change equal o ∷ changes)
  | false ↦
      elim (leb (cell dp (length os) (suc (length ns))) (cell dp (suc (length os)) (length ns))) [
        | true ↦ walk dp (o ∷ os) ns (change insert n ∷ changes)
        | false ↦ walk dp os (n ∷ ns) (change delete o ∷ changes)
      ]
]

unfoldable pub same_type : ChangeType → ChangeType → Bool
same_type equal equal = true
same_type insert insert = true
same_type delete delete = true
same_type _ _ = false

-- The merging of neighbours of one type; `last` is the last element of `merged`.
unfoldable pub merge_from : Change → List Change → List Change
unfolding same_type
merge_from last [] = last ∷ []
merge_from last (c ∷ cs) =
    let joined =
      merge_from (record last { value = last.value ++ c.value; count = last.count + 1 }) cs in
    let apart = last ∷ merge_from c cs in
    if same_type last.change_type c.change_type then joined else apart

unfoldable pub merge : List Change → List Change
merge [] = []
merge (c ∷ cs) = merge_from c cs

unfoldable pub diff_lines : Bytes → Bytes → List Change
diff_lines old_content new_content =
    let old = tokenize old_content true in
    let new = tokenize new_content true in
    merge (walk (table old new) (reverse old) (reverse new) [])
