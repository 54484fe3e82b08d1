-- ===== src/Media/Tests.antt =====
-- Runs of the text chunker and of the stripping of tags, and their theorems applied there.
use genkit_cowork.Base.{◌<◌, [], ◌∷◌, ◌≡◌, refl, length, arith}
use genkit_cowork.Base.Int.{pos}
use genkit_cowork.Base.Bytes.{Bytes, codes, eqb}
use genkit_cowork.Tools.Runes.{runes, runes_after, first_rune, encode, encode_rune, is_space}
use genkit_cowork.Tools.Trim.{trim_left_after, blank_after, trim_right_after, trim_space}
use genkit_cowork.Media.Html.{
  rune_kind, write_space, strip_rune, strip_from, strip_html_tags, documents_from, process_html,
}
use genkit_cowork.Media.Html.Clean.{IsClean, strip_html_tags-IsClean}
use genkit_cowork.Base.{none, false, ℕ}
use genkit_cowork.Base.Result.{ok}
use genkit_cowork.Media.Chunk.{TextChunker, size_of, overlap_of, step_of, piece, chunk_from, chunk}

abbrev four_and_one : TextChunker
four_and_one = record { chunk_size = pos 4; overlap = pos 1 }

abbrev sentence : Bytes
sentence = codes " ab cdefg\n"

chunk_run :
    chunk four_and_one sentence
    ≡ record { text = codes "ab c"; start = 0; end = 4 }
      ∷ record { text = codes "cdef"; start = 3; end = 7 }
      ∷ record { text = codes "fg"; start = 6; end = 8 }
      ∷ []
unfolding chunk chunk_from piece step_of overlap_of size_of encode encode_rune runes_after
    first_rune is_space trim_space trim_left_after trim_right_after blank_after eqb
chunk_run = refl

abbrev fifth_rune : 5 < length (runes (trim_space sentence))
unfolding trim_space trim_left_after trim_right_after blank_after runes_after first_rune is_space
fifth_rune = omega arith

abbrev page : Bytes
page = codes "<p>ab  c\n<b>d</b></p> "

strip_run : strip_html_tags page ≡ codes "ab c d"
unfolding strip_html_tags strip_from strip_rune rune_kind write_space encode_rune runes_after
    first_rune is_space trim_space trim_left_after trim_right_after blank_after
strip_run = refl

process_html_run :
    process_html {E = ℕ} none page
    ≡ ok (
        record {
          text = codes "ab c d";
          mime_type = codes "text/html";
          chunk_index = 0;
          chunk_count = 1;
          char_start = 0;
          char_end = 6;
        }
        ∷ [])
unfolding strip_html_tags strip_from strip_rune rune_kind write_space encode_rune runes_after
    first_rune is_space trim_space trim_left_after trim_right_after blank_after chunk chunk_from
    piece step_of overlap_of size_of encode eqb documents_from
process_html_run = refl

strip_html_tags-IsClean_example : IsClean false (strip_html_tags page)
strip_html_tags-IsClean_example = strip_html_tags-IsClean page
