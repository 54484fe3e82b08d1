-- ===== src/Media/Chunk/Cover.antt =====
-- The chunks of a text leave out no part of it that is not blank.
use genkit_cowork.Base.{ℕ, ◌+◌, ◌≤◌, ◌<◌, List, [], ◌∷◌, ◌≡◌, ◌⊎◌, ltb, ltb}
use genkit_cowork.Base.Bytes.{Bytes}
use genkit_cowork.Media.Chunk.{ChunkRange, piece}

pub data Among (c : ChunkRange) : List ChunkRange → Type 0 where
  here : {cs : List ChunkRange} → Among c (c ∷ cs)
  there : {d : ChunkRange} {cs : List ChunkRange} → Among c cs → Among c (d ∷ cs)

-- The rune at `i` is in a window that is a chunk, with its text, or that is blank.
pub record Covered (rs : List ℕ) (size : ℕ) (cs : List ChunkRange) (i : ℕ) : Type 0 where
  pub from : ℕ
  pub to : ℕ
  pub before : from ≤ i
  pub behind : i < to
  pub short : to ≤ from + size
  pub kept :
      (piece rs from to ≡ [])
      ⊎ Among (record { text = piece rs from to; start = from; end = to }) cs
