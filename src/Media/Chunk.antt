-- ===== src/Media/Chunk.antt =====
-- `textChunker` of genkit-cowork/media/shared.go: a text is cut into overlapping windows of runes.
pub mod Cover
use Prim.Native.Nat.{◌/◌}
use genkit_cowork.Base.{
  ℕ, zero, suc, ◌+◌, ◌-◌, min, Bool, true, false, List, [], ◌∷◌, length, take, drop, ltb, leb,
  if◌then◌else◌,
}
use genkit_cowork.Base.Int.{ℤ, pos, pos_part, leb_ℤ}
use genkit_cowork.Base.Bytes.{Bytes, eqb}
use genkit_cowork.Tools.Runes.{runes, encode}
use genkit_cowork.Tools.Trim.{trim_space}

pub record TextChunker : Type 0 where
  pub chunk_size : ℤ
  pub overlap : ℤ

abbrev pub new_default_text_chunker : TextChunker
new_default_text_chunker = record { chunk_size = pos 1200; overlap = pos 200 }

pub record ChunkRange : Type 0 where
  pub text : Bytes
  pub start : ℕ
  pub end : ℕ

unfoldable pub size_of : TextChunker → ℕ
size_of c = if leb_ℤ c.chunk_size (pos 0) then 1200 else pos_part c.chunk_size

-- `max(overlap, 0)`, or a quarter of the size
unfoldable pub overlap_of : TextChunker → ℕ
overlap_of c = if leb (size_of c) (pos_part c.overlap) then size_of c / 4 else pos_part c.overlap

unfoldable pub step_of : TextChunker → ℕ
step_of c = let step = size_of c - overlap_of c in if leb step 0 then size_of c else step

-- the trimmed text of a window
unfoldable pub piece : List ℕ → ℕ → ℕ → Bytes
piece rs start end = trim_space (encode (take (end - start) (drop start rs)))

-- The loop. Each round moves `start` up, so that as many rounds as there are runes are enough.
unfoldable pub chunk_from : ℕ → List ℕ → ℕ → ℕ → ℕ → List ChunkRange
chunk_from zero rs size step start = []
chunk_from (suc rounds) rs size step start =
    let end = min (start + size) (length rs) in
    let text = piece rs start end in
    let last = leb (length rs) end in
    let rest = if last then [] else chunk_from rounds rs size step (start + step) in
    if leb (length rs) start
    then []
    else if eqb text []
    then rest
    else record { text = text; start = start; end = end } ∷ rest

unfoldable pub chunk : TextChunker → Bytes → List ChunkRange
chunk c text =
    let trimmed = trim_space text in
    let rs = runes trimmed in
    if eqb trimmed [] then [] else chunk_from (length rs) rs (size_of c) (step_of c) 0
