-- ===== src/Tools/Edit/Replace.antt =====
-- What an edit that succeeds has done to its file.
use genkit_cowork.Base.{Bool, true, false, none, ◌++◌, ◌≡◌, ◌≢◌, refl, ◌⊎◌, length}
use genkit_cowork.Base.Int.{pos, ◌≤ℤ◌}
use genkit_cowork.Base.Bytes.{Bytes}
use genkit_cowork.Base.Result.{Result, ok, fail_if}
use genkit_cowork.Tools.Search.{index_of}
use genkit_cowork.Tools.Search.First.{StandsAt}
use genkit_cowork.Tools.Endings.{normalize_to_lf, detect_line_ending, restore_line_endings}
use genkit_cowork.Tools.Fuzzy.{normalize_for_fuzzy_match, FuzzyMatch}
use genkit_cowork.Tools.Edit.{EditError, EditToolInput, strip_bom, occurrences, Planned}

-- The text that is replaced stands in the file as it is, or, if it does not, in its fuzzy form.
abbrev pub Source : Bytes → Bytes → Bytes → Bytes → Type 0
Source content text base old =
    ((base ≡ content) × (old ≡ text))
    ⊎ ((index_of text content ≡ none)
        × (base ≡ normalize_for_fuzzy_match content)
        × (old ≡ normalize_for_fuzzy_match text))

-- The plan for a file with the bytes `raw`.
pub record Replaces (input : EditToolInput) (raw : Bytes) (p : Planned) : Type 0 where
  pub before : Bytes
  pub old : Bytes
  pub after : Bytes
  pub source :
      Source (normalize_to_lf (strip_bom raw).1) (normalize_to_lf input.old_text) p.base_content old
  pub base_eq : before ++ (old ++ after) ≡ p.base_content
  pub new_eq : before ++ (normalize_to_lf input.new_text ++ after) ≡ p.new_content
  pub unique :
      occurrences
        (normalize_for_fuzzy_match (normalize_to_lf input.old_text))
        (normalize_for_fuzzy_match (normalize_to_lf (strip_bom raw).1))
      ≤ℤ pos 1
  pub changed : p.base_content ≢ p.new_content
  pub final_eq :
      p.final_content
      ≡ (strip_bom raw).0
        ++ restore_line_endings p.new_content (detect_line_ending (strip_bom raw).1)

fail_if-ok : {E : Type 0} (b : Bool) (e : E) → fail_if b e ≡ ok tt → b ≡ false
fail_if-ok true e h = cc
fail_if-ok false e h = refl

-- A match stands where it says.
pub record Stands (content text : Bytes) (m : FuzzyMatch) : Type 0 where
  pub old : Bytes
  pub from : Source content text m.content_for_replacement old
  pub long : m.match_length ≡ length old
  pub stands : StandsAt old m.content_for_replacement m.index

abbrev Outcome : Type 0
Outcome = Result EditError Planned
