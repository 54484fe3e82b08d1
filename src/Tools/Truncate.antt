-- ===== src/Tools/Truncate.antt =====
-- `TruncateHead` and `TruncateTail` of genkit-cowork/tools/truncate.go, on bytes. Sizes of texts are
-- numbers: a text that a machine holds never leaves the range of an int.
pub mod Head
pub mod Tail
use Prim.Native.Nat.{bit_and}
use genkit_cowork.Base.{
  ℕ, zero, suc, ◌+◌, ◌-◌, ◌*◌, Bool, true, false, ◌&&◌, Option, none, some, List, [], ◌∷◌, ◌++◌,
  reverse, length, drop, ltb, leb, ◌==◌, if◌then◌else◌,
}
use genkit_cowork.Base.Int.{ℤ, pos, pos_part, ltb_ℤ}
use genkit_cowork.Base.Bytes.{Bytes}
use genkit_cowork.Tools.Lines.{split_lines, join_lines, separated, is_nil}

abbrev pub default_max_lines : ℕ
default_max_lines = 2000

abbrev pub default_max_bytes : ℕ
default_max_bytes = 50 * 1024

-- `TruncatedBy`: "", "lines" or "bytes"
pub data Limit : Type 0 where
  not_truncated lines bytes : Limit

pub record TruncationResult : Type 0 where
  pub content : Bytes
  pub truncated : Bool
  pub truncated_by : Limit
  pub total_lines : ℕ
  pub total_bytes : ℕ
  pub output_lines : ℕ
  pub output_bytes : ℕ
  pub first_line_exceeds_limit : Bool
  pub last_line_partial : Bool
  pub max_lines : ℕ
  pub max_bytes : ℕ

pub record TruncationOptions : Type 0 where
  pub max_lines : ℤ
  pub max_bytes : ℤ

-- The limits in force: an option that is not positive leaves the default.
unfoldable pub line_limit : Option TruncationOptions → ℕ
line_limit none = default_max_lines
line_limit (some o) = if ltb_ℤ (pos 0) o.max_lines then pos_part o.max_lines else default_max_lines

unfoldable pub byte_limit : Option TruncationOptions → ℕ
byte_limit none = default_max_bytes
byte_limit (some o) = if ltb_ℤ (pos 0) o.max_bytes then pos_part o.max_bytes else default_max_bytes

-- what the loops collect
pub record Collected : Type 0 where
  pub output : List Bytes
  pub count : ℕ
  pub by : Limit
  pub partial : Bool

-- The loop of `TruncateHead` from line `i` on.
unfoldable pub collect_head : ℕ → ℕ → List Bytes → ℕ → Collected → Collected
collect_head max_lines max_bytes [] i s = s
collect_head max_lines max_bytes (l ∷ ls) i s =
    let line_bytes = if ltb 0 i then length l + 1 else length l in
    let next = record s { output = s.output ++ l ∷ []; count = s.count + line_bytes } in
    let rest = collect_head max_lines max_bytes ls (i + 1) next in
    if ltb i max_lines
    then if ltb max_bytes (s.count + line_bytes) then record s { by = bytes } else rest
    else s

abbrev pub start : Collected
start = record { output = []; count = 0; by = lines; partial = false }

-- the test behind both loops
abbrev pub cause : ℕ → ℕ → Collected → Limit
cause max_lines max_bytes s =
    if leb max_lines (length s.output) && leb s.count max_bytes then lines else s.by

abbrev pub whole : ℕ → ℕ → Bytes → TruncationResult
whole max_lines max_bytes content = record {
  content = content;
  truncated = false;
  truncated_by = not_truncated;
  total_lines = length (split_lines content);
  total_bytes = length content;
  output_lines = length (split_lines content);
  output_bytes = length content;
  first_line_exceeds_limit = false;
  last_line_partial = false;
  max_lines = max_lines;
  max_bytes = max_bytes;
}

abbrev cut : ℕ → ℕ → Bytes → Collected → TruncationResult
cut max_lines max_bytes content s = record {
  content = join_lines s.output;
  truncated = true;
  truncated_by = cause max_lines max_bytes s;
  total_lines = length (split_lines content);
  total_bytes = length content;
  output_lines = length s.output;
  output_bytes = length (join_lines s.output);
  first_line_exceeds_limit = false;
  last_line_partial = s.partial;
  max_lines = max_lines;
  max_bytes = max_bytes;
}

abbrev first_line_too_long : ℕ → ℕ → Bytes → TruncationResult
first_line_too_long max_lines max_bytes content = record {
  content = [];
  truncated = true;
  truncated_by = bytes;
  total_lines = length (split_lines content);
  total_bytes = length content;
  output_lines = 0;
  output_bytes = 0;
  first_line_exceeds_limit = true;
  last_line_partial = false;
  max_lines = max_lines;
  max_bytes = max_bytes;
}

-- `lines[0]`; the list of lines is never empty
abbrev pub first_line : List Bytes → Bytes
first_line [] = []
first_line (l ∷ ls) = l

abbrev pub within : ℕ → ℕ → Bytes → Bool
within max_lines max_bytes content =
    leb (length (split_lines content)) max_lines && leb (length content) max_bytes

unfoldable pub truncate_head : Bytes → Option TruncationOptions → TruncationResult
truncate_head content opts =
    let ml = line_limit opts in
    let mb = byte_limit opts in
    if within ml mb content
    then whole ml mb content
    else if ltb mb (length (first_line (split_lines content)))
    then first_line_too_long ml mb content
    else cut ml mb content (collect_head ml mb (split_lines content) 0 start)

-- `b & 0xC0 == 0x80`: a byte that continues a character
abbrev pub is_continuation : ℕ → Bool
is_continuation b = bit_and b 0xC0 == 0x80

-- `for start < len(b) && …`
unfoldable pub skip_continuation : Bytes → Bytes
skip_continuation [] = []
skip_continuation (b ∷ bs) =
    let rest = skip_continuation bs in if is_continuation b then rest else b ∷ bs

unfoldable pub truncate_string_from_end : Bytes → ℕ → Bytes
truncate_string_from_end s max_bytes =
    if leb (length s) max_bytes then s else skip_continuation (drop (length s - max_bytes) s)

-- a last line that exceeds the limit on its own
abbrev pub partial_line : ℕ → Bytes → Collected → Collected
partial_line max_bytes l s =
    let t = truncate_string_from_end l max_bytes in
    record s { output = t ∷ s.output; count = length t; by = bytes; partial = true }

-- The loop of `TruncateTail`, over the lines from the last one back.
unfoldable pub collect_tail : ℕ → ℕ → List Bytes → Collected → Collected
collect_tail max_lines max_bytes [] s = s
collect_tail max_lines max_bytes (l ∷ ls) s =
    let line_bytes = separated (is_nil s.output) l in
    let next = record s { output = l ∷ s.output; count = s.count + line_bytes } in
    let rest = collect_tail max_lines max_bytes ls next in
    if ltb (length s.output) max_lines
    then if ltb max_bytes (s.count + line_bytes)
      then if is_nil s.output then partial_line max_bytes l s else record s { by = bytes }
      else rest
    else s

unfoldable pub truncate_tail : Bytes → Option TruncationOptions → TruncationResult
truncate_tail content opts =
    let ml = line_limit opts in
    let mb = byte_limit opts in
    if within ml mb content
    then whole ml mb content
    else cut ml mb content (collect_tail ml mb (reverse (split_lines content)) start)
