-- ===== src/Tools/Fuzzy.antt =====
-- `normalizeForFuzzyMatch` and `fuzzyFindText` of genkit-cowork/tools/edit_diff.go. A match that was
-- not found has no index.
use genkit_cowork.Base.{
  ℕ, Bool, true, false, ◌||◌, Option, none, some, List, [], ◌∷◌, map, length, reverse, ◌==◌,
  if◌then◌else◌,
}
use genkit_cowork.Base.Bytes.{Bytes}
use genkit_cowork.Tools.Lines.{split_lines, join_lines}
use genkit_cowork.Tools.Search.{index_of}
use genkit_cowork.Tools.Runes.{between, runes, encode, is_space}

unfoldable pub fuzzy_rune : ℕ → ℕ
fuzzy_rune r =
    if between 0x2018 0x201B r
    then 0x27
    else if between 0x201C 0x201F r
    then 0x22
    else if between 0x2010 0x2015 r || r == 0x2212
    then 0x2D
    else if r == 0xA0 || r == 0x202F || r == 0x205F || r == 0x3000
    then 0x20
    else if between 0x2002 0x200A r
    then 0x20
    else r

drop_spaces : List ℕ → List ℕ
unfolding is_space
drop_spaces [] = []
drop_spaces (r ∷ rs) = let rest = drop_spaces rs in if is_space r then rest else r ∷ rs

-- `strings.TrimRightFunc(line, unicode.IsSpace)`, on the runes of the line
unfoldable pub trim_right : List ℕ → List ℕ
unfolding drop_spaces
trim_right rs = reverse (drop_spaces (reverse rs))

unfoldable pub fuzzy_line : Bytes → Bytes
fuzzy_line line = encode (map fuzzy_rune (trim_right (runes line)))

unfoldable pub normalize_for_fuzzy_match : Bytes → Bytes
normalize_for_fuzzy_match content = join_lines (map fuzzy_line (split_lines content))

-- `FuzzyMatchResult` of a match that was found
pub record FuzzyMatch : Type 0 where
  pub index : ℕ
  pub match_length : ℕ
  pub used_fuzzy_match : Bool
  pub content_for_replacement : Bytes

abbrev pub match_at : Bytes → Bytes → Bool → ℕ → FuzzyMatch
match_at content text fuzzy i = record {
  index = i;
  match_length = length text;
  used_fuzzy_match = fuzzy;
  content_for_replacement = content;
}

abbrev pub matched : Bytes → Bytes → Bool → Option ℕ → Option FuzzyMatch
matched content text fuzzy none = none
matched content text fuzzy (some i) = some (match_at content text fuzzy i)

-- the exact match, or else the fuzzy one
abbrev pub or_fuzzy : Bytes → Bytes → Option FuzzyMatch → Option FuzzyMatch
or_fuzzy content text (some m) = some m
or_fuzzy content text none =
    let fuzzy_content = normalize_for_fuzzy_match content in
    let fuzzy_text = normalize_for_fuzzy_match text in
    matched fuzzy_content fuzzy_text true (index_of fuzzy_text fuzzy_content)

unfoldable pub fuzzy_find_text : Bytes → Bytes → Option FuzzyMatch
fuzzy_find_text content text =
    or_fuzzy content text (matched content text false (index_of text content))
