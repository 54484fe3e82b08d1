-- ===== src/Tools/EditTests.antt =====
-- Runs of the edit tool and of the diffs at concrete inputs, and their theorems applied there.
use genkit_cowork.Base.{
  ℕ, ◌≤◌, Bool, true, false, none, [], ◌∷◌, ◌++◌, ◌≡◌, refl, arith, Sublist, nil, keep, skip,
}
use genkit_cowork.Base.Int.{pos}
use genkit_cowork.Base.Bytes.{Bytes, codes, eqb, has_prefix}
use genkit_cowork.Base.Result.{ok, err}
use genkit_cowork.Tools.Lines.{split_lines, join_lines}
use genkit_cowork.Tools.Search.{index_of, count_after}
use genkit_cowork.Tools.Endings.{
  normalize_to_lf, crlf_to_lf, cr_to_lf, lf_to_crlf, detect_line_ending, restore_line_endings,
}
use genkit_cowork.Tools.Endings.RoundTrip.{restore_line_endings-normalize}
use genkit_cowork.Tools.Runes.{runes_after, first_rune, encode, encode_rune, is_space}
use genkit_cowork.Tools.Fuzzy.{
  fuzzy_rune, trim_right, fuzzy_line, normalize_for_fuzzy_match, fuzzy_find_text,
}
use genkit_cowork.Tools.Edit.{
  not_unique, EditToolInput, strip_bom, occurrences, find_match, replaced, replace_match, Planned,
  plan_edit, EditOperator, prepare_edit, perform_edit,
}
use genkit_cowork.Tools.Edit.Safe.{perform_edit_failed}
use genkit_cowork.Tools.Diff.{
  equal, insert, delete, Change, split_after, tokenize, fill_row, fill_table, table, cell, walk,
  merge_from, merge, diff_lines,
}
use genkit_cowork.Tools.Diff.Patch.{without, diff_lines-texts}
use genkit_cowork.Tools.Diff.Longest.{equal_lines, diff_lines-longest}

-- a disk with one file
abbrev disk : EditOperator Bytes
disk = record {
  access = λ path s. none;
  read_file = λ path s. ok s;
  write_file = λ path content s. (ok tt, content);
}

abbrev same_path : Bytes → Bytes
same_path p = p

abbrev never : ℕ → Bool
never k = false

abbrev edit : EditToolInput
edit = record { path = codes "f"; old_text = codes "b"; new_text = codes "xy" }

abbrev file : Bytes
file = codes "a" ++ (13 ∷ 10 ∷ codes "b" ++ (13 ∷ 10 ∷ codes "c"))

abbrev planned : Planned
planned = record {
  base_content = codes "a\nb\nc";
  new_content = codes "a\nxy\nc";
  final_content = codes "a" ++ (13 ∷ 10 ∷ codes "xy" ++ (13 ∷ 10 ∷ codes "c"));
}

-- The byte order mark is written whole, but only its first byte was taken off.
bom_repeated :
    strip_bom (0xEF ∷ 0xBB ∷ 0xBF ∷ codes "a") ≡ (0xEF ∷ 0xBB ∷ 0xBF ∷ [], 0xBB ∷ 0xBF ∷ codes "a")
unfolding strip_bom has_prefix
bom_repeated = refl

-- a text that stands twice
twice :
    (perform_edit disk same_path never edit (codes "b b")).0 ≡ err (not_unique (pos 2) (codes "f"))
unfolding perform_edit prepare_edit plan_edit strip_bom find_match occurrences replaced
    replace_match has_prefix index_of count_after eqb normalize_to_lf crlf_to_lf cr_to_lf lf_to_crlf
    detect_line_ending restore_line_endings normalize_for_fuzzy_match fuzzy_line trim_right
    fuzzy_rune runes_after first_rune encode encode_rune is_space split_lines join_lines
    fuzzy_find_text
twice = refl

perform_edit_failed_example : (perform_edit disk same_path never edit (codes "b b")).1 ≡ codes "b b"
perform_edit_failed_example =
    perform_edit_failed disk same_path never edit (codes "b b") twice (λ why. cc)

restore_line_endings-normalize_example :
    (restore_line_endings (normalize_to_lf (codes "a\nb")) (detect_line_ending (codes "a\nb"))
      ≡ codes "a\nb")
    × (restore_line_endings
          (normalize_to_lf (lf_to_crlf (codes "a\nb")))
          (detect_line_ending (lf_to_crlf (codes "a\nb")))
        ≡ lf_to_crlf (codes "a\nb"))
restore_line_endings-normalize_example =
    restore_line_endings-normalize (codes "a\nb") (omega arith, (omega arith, (omega arith, tt)))

abbrev old_text : Bytes
old_text = codes "a\nb\nc\n"

abbrev new_text : Bytes
new_text = codes "a\nc\nd"

abbrev change_of : Bytes → ℕ → Change
change_of v n = record { change_type = equal; value = v; count = n }

diff_run :
    diff_lines old_text new_text
    ≡ change_of (codes "a\n") 0
      ∷ record (change_of (codes "b\n") 0) { change_type = delete }
      ∷ change_of (codes "c\n") 0
      ∷ record (change_of (codes "d") 0) { change_type = insert }
      ∷ []
unfolding diff_lines tokenize split_after normalize_to_lf crlf_to_lf cr_to_lf table fill_table
    fill_row cell walk merge merge_from eqb
diff_run = refl

diff_lines-texts_example :
    (without insert (diff_lines old_text new_text) ≡ normalize_to_lf old_text)
    × (without delete (diff_lines old_text new_text) ≡ normalize_to_lf new_text)
diff_lines-texts_example = diff_lines-texts old_text new_text

common : Sublist (codes "a\n" ∷ codes "c\n" ∷ []) (tokenize old_text true)
unfolding tokenize split_after normalize_to_lf crlf_to_lf cr_to_lf
common = keep _ (skip _ (keep _ nil))

common_new : Sublist (codes "a\n" ∷ codes "c\n" ∷ []) (tokenize new_text true)
unfolding tokenize split_after normalize_to_lf crlf_to_lf cr_to_lf
common_new = keep _ (keep _ (skip _ nil))

diff_lines-longest_example : 2 ≤ equal_lines (diff_lines old_text new_text)
diff_lines-longest_example =
    diff_lines-longest old_text new_text (codes "a\n" ∷ codes "c\n" ∷ []) common common_new
