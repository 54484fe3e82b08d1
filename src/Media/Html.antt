-- ===== src/Media/Html.antt =====
-- `stripHTMLTags` and `chunksToDocuments` of genkit-cowork/media/shared.go, and the processor of
-- genkit-cowork/media/html.go.
pub mod Clean
use genkit_cowork.Base.{
  ℕ, ◌==◌, Bool, true, false, ◌||◌, List, [], ◌∷◌, ◌++◌, length, ◌+◌, Option, none, some,
  if◌then◌else◌,
}
use genkit_cowork.Base.Bytes.{Bytes, codes}
use genkit_cowork.Base.Result.{Result, err, ok}
use genkit_cowork.Tools.Runes.{runes, encode_rune}
use genkit_cowork.Tools.Trim.{trim_space}
use genkit_cowork.Media.Chunk.{ChunkRange, chunk, new_default_text_chunker}

-- the cases of the switch on a rune
pub data RuneKind : Type 0 where
  tag_open tag_close blank plain : RuneKind

unfoldable pub rune_kind : ℕ → RuneKind
rune_kind r =
    if r == 0x3C
    then tag_open
    else if r == 0x3E
    then tag_close
    else if r == 0x0A || r == 0x0D || r == 0x09 || r == 0x20
    then blank
    else plain

-- What a rune writes, and whether the loop is in a tag and has just written a space.
unfoldable pub write_space : Bool → Bytes
write_space true = []
write_space false = 0x20 ∷ []

unfoldable pub strip_rune : RuneKind → Bool → Bool → ℕ → Bytes × Bool × Bool
strip_rune tag_open in_tag last_was_space r = (write_space last_was_space, true, true)
strip_rune tag_close in_tag last_was_space r = ([], false, last_was_space)
strip_rune blank true last_was_space r = ([], true, last_was_space)
strip_rune blank false last_was_space r = (write_space last_was_space, false, true)
strip_rune plain true last_was_space r = ([], true, last_was_space)
strip_rune plain false last_was_space r = (encode_rune r, false, false)

unfoldable pub strip_from : Bool → Bool → List ℕ → Bytes
strip_from in_tag last_was_space [] = []
strip_from in_tag last_was_space (r ∷ rs) =
    let (written, tag, space) = strip_rune (rune_kind r) in_tag last_was_space r in
    written ++ strip_from tag space rs

unfoldable pub strip_html_tags : Bytes → Bytes
strip_html_tags input = trim_space (strip_from false false (runes input))

-- `ai.DocumentFromText` with the metadata of a chunk
pub record Document : Type 0 where
  pub text : Bytes
  pub mime_type : Bytes
  pub chunk_index : ℕ
  pub chunk_count : ℕ
  pub char_start : ℕ
  pub char_end : ℕ

unfoldable pub documents_from : Bytes → ℕ → ℕ → List ChunkRange → List Document
documents_from mime_type total i [] = []
documents_from mime_type total i (c ∷ cs) =
    record {
      text = c.text;
      mime_type = mime_type;
      chunk_index = i;
      chunk_count = total;
      char_start = c.start;
      char_end = c.end;
    }
    ∷ documents_from mime_type total (i + 1) cs

abbrev pub chunks_to_documents : Bytes → List ChunkRange → List Document
chunks_to_documents mime_type chunks = documents_from mime_type (length chunks) 0 chunks

-- `htmlProcessor.Process`; the option is the error of the context
abbrev pub process_html : {E : Type 0} → Option E → Bytes → Result E (List Document)
process_html (some e) input = err e
process_html none input = ok (
    chunks_to_documents (codes "text/html")
      (chunk new_default_text_chunker (strip_html_tags input)))
