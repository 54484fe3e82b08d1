-- ===== src/Tools/Tests.antt =====
-- Runs of the tools package at concrete inputs, and its theorems applied there.
use genkit_cowork.Base.{false, Option, some, [], ◌∷◌, ◌++◌, ◌≡◌, refl}
use genkit_cowork.Base.Int.{pos}
use genkit_cowork.Base.Bytes.{Bytes, codes}
use genkit_cowork.Tools.Lines.{split_lines, join_lines}
use genkit_cowork.Tools.Truncate.{
  bytes, TruncationOptions, line_limit, byte_limit, collect_head, collect_tail, skip_continuation,
  truncate_string_from_end, truncate_head, truncate_tail,
}
use genkit_cowork.Tools.Truncate.Head.{HeadOf, truncate_head-HeadOf}

abbrev text : Bytes
text = codes "ab\ncd\nefg"

abbrev limits : Option TruncationOptions
limits = some (record { max_lines = pos 2; max_bytes = pos 4 })

split_run : split_lines text ≡ codes "ab" ∷ codes "cd" ∷ codes "efg" ∷ []
unfolding split_lines
split_run = refl

head_run :
    let r = truncate_head text limits in
    (r.content ≡ codes "ab") × (r.truncated_by ≡ bytes) × (r.output_lines ≡ 1) × (r.total_lines ≡ 3)
unfolding truncate_head line_limit byte_limit split_lines join_lines collect_head
head_run = (refl, refl, refl, refl)

tail_run :
    let r = truncate_tail text limits in
    (r.content ≡ codes "efg") × (r.truncated_by ≡ bytes) × (r.last_line_partial ≡ false)
unfolding truncate_tail line_limit byte_limit split_lines join_lines collect_tail
tail_run = (refl, refl, refl)

-- "é" is two bytes: a cut inside it drops both.
tail_partial :
    (truncate_tail
      (codes "abc" ++ 0xC3 ∷ 0xA9 ∷ codes "defg")
      (some (record { max_lines = pos 2; max_bytes = pos 5 }))).content
    ≡ codes "defg"
unfolding truncate_tail line_limit byte_limit split_lines join_lines collect_tail
    truncate_string_from_end skip_continuation
tail_partial = refl

truncate_head-HeadOf_example : HeadOf text limits (truncate_head text limits)
truncate_head-HeadOf_example = truncate_head-HeadOf text limits
