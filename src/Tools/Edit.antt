-- ===== src/Tools/Edit.antt =====
-- `performEdit` of genkit-cowork/tools/edit.go, and `stripBom` of edit_diff.go: a text that stands
-- once in a file is replaced. What the operator's methods see and change is a state `S`; the tests of
-- the context, in their order, are answered by a function; `resolveToCwd` is a parameter.
pub mod Replace
pub mod Safe
use genkit_cowork.Base.{
  ℕ, ◌+◌, ◌-◌, Bool, true, false, ◌&&◌, Option, none, some, List, [], ◌∷◌, ◌++◌, length, take, drop,
  if◌then◌else◌,
}
use genkit_cowork.Base.Int.{ℤ, pos, ◌-ℤ◌, ltb_ℤ}
use genkit_cowork.Base.Bytes.{Bytes, eqb, has_prefix}
use genkit_cowork.Base.Result.{Result, ok, err, ◌>>=◌, ◌>>◌, fail_if}
use genkit_cowork.Tools.Search.{index_of, count_after}
use genkit_cowork.Tools.Endings.{normalize_to_lf, detect_line_ending, restore_line_endings}
use genkit_cowork.Tools.Runes.{runes}
use genkit_cowork.Tools.Fuzzy.{normalize_for_fuzzy_match, FuzzyMatch, fuzzy_find_text}

pub data EditError : Type 0 where
  cannot_access : Bytes → EditError
  operation_cancelled : EditError
  failed_to_read : Bytes → EditError
  not_found : Bytes → EditError
  not_unique : ℤ → Bytes → EditError
  no_changes : Bytes → EditError
  failed_to_write : Bytes → EditError

pub record EditToolInput : Type 0 where
  pub path : Bytes
  pub old_text : Bytes
  pub new_text : Bytes

-- "\uFEFF"
abbrev pub byte_order_mark : Bytes
byte_order_mark = 0xEF ∷ 0xBB ∷ 0xBF ∷ []

-- It drops one byte of the three.
unfoldable pub strip_bom : Bytes → Bytes × Bytes
strip_bom content =
    if has_prefix content byte_order_mark then (byte_order_mark, drop 1 content) else ([], content)

-- `len(strings.Split(content, text)) - 1`; an empty text splits between the runes.
unfoldable pub occurrences : Bytes → Bytes → ℤ
occurrences [] content = pos (length (runes content)) -ℤ pos 1
occurrences text content = pos (count_after 0 text content)

abbrev found_or : Bytes → Option FuzzyMatch → Result EditError FuzzyMatch
found_or path none = err (not_found path)
found_or path (some m) = ok m

-- from the search to the test that the text is unique
unfoldable pub find_match : EditToolInput → Bytes → Result EditError FuzzyMatch
find_match input content = do
  m ← found_or input.path (fuzzy_find_text content (normalize_to_lf input.old_text))
  let count =
      occurrences (normalize_for_fuzzy_match (normalize_to_lf input.old_text))
        (normalize_for_fuzzy_match content)
  fail_if (ltb_ℤ (pos 1) count) (not_unique count input.path)
  ok m

unfoldable pub replaced : FuzzyMatch → Bytes → Bytes
replaced m text =
    take m.index m.content_for_replacement
    ++ (text ++ drop (m.index + m.match_length) m.content_for_replacement)

unfoldable pub replace_match : EditToolInput → FuzzyMatch → Result EditError Bytes
replace_match input m = do
  let content = replaced m (normalize_to_lf input.new_text)
  fail_if (eqb m.content_for_replacement content) (no_changes input.path)
  ok content

-- what an edit has worked out before it writes
pub record Planned : Type 0 where
  pub base_content : Bytes
  pub new_content : Bytes
  pub final_content : Bytes

abbrev pub Cancelled : Type 0
Cancelled = ℕ → Bool

-- the body from the second test of the context on, up to the write
unfoldable pub plan_edit : Cancelled → EditToolInput → Bytes → Result EditError Planned
plan_edit cancelled input raw = do
  fail_if (cancelled 1) operation_cancelled
  let (bom, content) = strip_bom raw
  m ← find_match input (normalize_to_lf content)
  fail_if (cancelled 2) operation_cancelled
  new_content ← replace_match input m
  fail_if (cancelled 3) operation_cancelled
  ok (record {
    base_content = m.content_for_replacement;
    new_content = new_content;
    final_content = bom ++ restore_line_endings new_content (detect_line_ending content);
  })

-- `EditOperator`; `access` returns the error of `Access`, if there is one.
pub record EditOperator (S : Type 0) : Type 0 where
  pub access : Bytes → S → Option Bytes
  pub read_file : Bytes → S → Result Bytes Bytes
  pub write_file : Bytes → Bytes → S → Result Bytes (Unit {0}) × S

module _ {S : Type 0} (op : EditOperator S) (resolve : Bytes → Bytes) where
  abbrev accessed : Option Bytes → Result EditError (Unit {0})
  accessed none = ok tt
  accessed (some e) = err (cannot_access e)

  abbrev read : Result Bytes Bytes → Result EditError Bytes
  read (err e) = err (failed_to_read e)
  read (ok raw) = ok raw

  unfoldable pub prepare_edit : Cancelled → EditToolInput → S → Result EditError Planned
  prepare_edit cancelled input s = do
    accessed (op.access (resolve input.path) s)
    fail_if (cancelled 0) operation_cancelled
    raw ← read (op.read_file (resolve input.path) s)
    plan_edit cancelled input raw

  written : Planned → Result Bytes (Unit {0}) × S → Result EditError Planned × S
  written p (err e, s) = (err (failed_to_write e), s)
  written p (ok _, s) = (ok p, s)

  write_planned : EditToolInput → S → Result EditError Planned → Result EditError Planned × S
  unfolding written
  write_planned input s (err e) = (err e, s)
  write_planned input s (ok p) = written p (op.write_file (resolve input.path) p.final_content s)

  -- The result holds the two texts whose diff the tool prints.
  unfoldable pub perform_edit : Cancelled → EditToolInput → S → Result EditError Planned × S
  unfolding write_planned
  perform_edit cancelled input s = write_planned input s (prepare_edit cancelled input s)
