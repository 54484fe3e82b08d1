-- ===== src/Tools/ReadTests.antt =====
-- Reads of a small file, and the theorem on its pages applied there.
use genkit_cowork.Base.{◌+◌, ◌≤◌, some, [], ◌∷◌, length, ◌≡◌, refl, arith}
use genkit_cowork.Base.Int.{pos, negsuc, add_64, ◌+ℤ◌, ◌-ℤ◌, max_int64}
use genkit_cowork.Base.Bytes.{Bytes, codes}
use genkit_cowork.Base.Decimal.{itoa, digits_before}
use genkit_cowork.Base.Result.{err, ok}
use genkit_cowork.Tools.Lines.{split_lines, join_lines}
use genkit_cowork.Tools.Truncate.{truncate_head, line_limit, byte_limit}
use genkit_cowork.Tools.Read.{
  limited, slice_out_of_range, start_line, page_of, limited_page, read_page, show_page,
  prefix_line_numbers, prefix_from, spaces, tenths, show_tenths, format_size, read_on,
}
use genkit_cowork.Tools.Read.OnePage.{Short}
use genkit_cowork.Tools.Read.Pages.{read_on_all}

abbrev three_lines : Bytes
three_lines = codes "a\nbb\nc"

read_run : read_page (pos 1) (pos 2) three_lines ≡ ok (limited (codes "a" ∷ codes "bb" ∷ []) 1 1 3)
unfolding read_page start_line limited_page page_of split_lines join_lines truncate_head line_limit
    byte_limit add_64 ◌+ℤ◌
read_run = refl

-- A limit that takes the end of a page out of the range of an int: the slice panics.
panic_run :
    read_page (pos 2) max_int64 three_lines
    ≡ err (slice_out_of_range (negsuc 0x7fff_ffff_ffff_ffff))
unfolding read_page start_line limited_page page_of split_lines join_lines truncate_head line_limit
    byte_limit add_64 ◌+ℤ◌ ◌-ℤ◌
panic_run = refl

show_run :
    show_page (codes "f") (limited (codes "a" ∷ codes "bb" ∷ []) 9 1 11)
    ≡ codes " 9: a\n10: bb\n\n[1 more lines in file. Use offset=11 to continue.]"
unfolding show_page prefix_line_numbers prefix_from spaces itoa digits_before
show_run = refl

size_run : format_size 1280 ≡ codes "1.2KB"
unfolding format_size tenths show_tenths itoa digits_before
size_run = refl

three-Short : Short (split_lines three_lines)
unfolding split_lines
three-Short = (omega arith, (omega arith, (omega arith, tt)))

three_bound : length (split_lines three_lines) + 2 ≤ 0x7fff_ffff_ffff_ffff
unfolding split_lines
three_bound = omega arith

read_on_all_example :
    read_on (length (split_lines three_lines)) (pos 2) three_lines 1
    ≡ some (split_lines three_lines)
read_on_all_example = read_on_all three_lines 2 three_bound three-Short
