-- ===== src/Tools/Read.antt =====
-- The read tool of genkit-cowork/tools/read.go: files in pages of numbered lines, and images as they
-- are or scaled. Decoding and scaling an image is a parameter.
pub mod OnePage
pub mod Pages
use genkit_cowork.Base.{
  ℕ, zero, suc, ◌+◌, ◌-◌, ◌*◌, ◌/◌, ◌%◌, Bool, true, false, not, ◌&&◌, ◌||◌, Option, none, some,
  List, [], ◌∷◌, ◌++◌, length, take, drop, ltb, leb, ◌==◌, if◌then◌else◌,
}
use genkit_cowork.Base.Int.{ℤ, pos, negsuc, pos_part, ltb_ℤ, add_64}
use genkit_cowork.Base.Bytes.{Bytes, codes, eqb}
use genkit_cowork.Base.Decimal.{itoa}
use genkit_cowork.Base.Result.{Result, err, ok, ◌>>=◌, ◌>>◌, fail_if}
use genkit_cowork.Tools.Lines.{split_lines, join_lines, newline}
use genkit_cowork.Tools.Truncate.{
  Limit, lines, bytes, not_truncated, TruncationResult, truncate_head, first_line,
  default_max_bytes,
}
use genkit_cowork.Tools.ResolvePath.{Stat, ResolveError, resolve_read_path}

-- `%.1f` of `n / unit`, of numbers that a float64 holds: the tenths, rounded half to even.
unfoldable pub tenths : ℕ → ℕ → ℕ
tenths n unit =
    let q = n * 10 / unit in
    let r = n * 10 % unit in if ltb unit (2 * r) || (2 * r == unit && q % 2 == 1) then q + 1 else q

unfoldable pub show_tenths : ℕ → Bytes
show_tenths t = itoa (t / 10) ++ b'.' ∷ itoa (t % 10)

unfoldable pub format_size : ℕ → Bytes
format_size n =
    if ltb n 1024
    then itoa n ++ codes "B"
    else if ltb n (1024 * 1024)
    then show_tenths (tenths n 1024) ++ codes "KB"
    else show_tenths (tenths n (1024 * 1024)) ++ codes "MB"

unfoldable pub spaces : ℕ → Bytes
spaces zero = []
spaces (suc n) = 0x20 ∷ spaces n

-- the numbered lines, from the number `n` on, each after the first behind a newline
unfoldable pub prefix_from : ℕ → ℕ → List Bytes → Bytes
prefix_from width n [] = []
prefix_from width n (l ∷ ls) =
    newline ∷ spaces (width - length (itoa n))
    ++ itoa n
    ++ codes ": "
    ++ l
    ++ prefix_from width (n + 1) ls

unfoldable pub prefix_line_numbers : List Bytes → ℕ → Bytes
prefix_line_numbers ls start = drop 1 (prefix_from (length (itoa (start + length ls - 1))) start ls)

-- What a read of a text shows: the four branches at its end. Numbers of lines count from one.
pub data Page : Type 0 where
  line_too_long : (number size : ℕ) → Page
  cut_off : (shown : List Bytes) → (start end total next : ℕ) → (by : Limit) → Page
  limited : (shown : List Bytes) → (start remaining next : ℕ) → Page
  last_page : (shown : List Bytes) → (start : ℕ) → Page

pub data ReadError : Type 0 where
  resolve : ResolveError → ReadError
  cannot_read read_failed image_failed : Bytes → ReadError
  cancelled : ReadError
  beyond_end : ℤ → ℕ → ReadError
  -- the panic on a slice whose end is before its start
  slice_out_of_range : ℤ → ReadError

unfoldable pub start_line : ℤ → ℕ
start_line (pos (suc k)) = k
start_line _ = 0

-- the page of the selected lines; `rest` are the lines of the file from the first selected one on
unfoldable pub page_of : Bool → ℕ → ℕ → List Bytes → List Bytes → Page
page_of has_limit start total rest selected =
    let t = truncate_head (join_lines selected) none in
    let end = start + 1 + t.output_lines - 1 in
    let behind = start + length selected in
    if t.first_line_exceeds_limit
    then line_too_long (start + 1) (length (first_line rest))
    else if t.truncated
    then cut_off (split_lines t.content) (start + 1) end total (end + 1) t.truncated_by
    else if has_limit && ltb behind total
    then limited selected (start + 1) (total - behind) (behind + 1)
    else last_page selected (start + 1)

-- the lines up to `end`, which may have left the range of an int
unfoldable pub limited_page : ℕ → ℕ → List Bytes → ℤ → Result ReadError Page
limited_page start total rest end =
    let e = if ltb_ℤ (pos total) end then pos total else end in
    if ltb_ℤ e (pos start)
    then err (slice_out_of_range e)
    else ok (page_of true start total rest (take (pos_part e - start) rest))

unfoldable pub read_page : ℤ → ℤ → Bytes → Result ReadError Page
read_page offset limit content =
    let all = split_lines content in
    let start = start_line offset in
    let rest = drop start all in
    if leb (length all) start
    then err (beyond_end offset (length all))
    else if ltb_ℤ (pos 0) limit
    then limited_page start (length all) rest (add_64 (pos start) limit)
    else ok (page_of false start (length all) rest rest)

unfoldable pub show_cut : ℕ → ℕ → ℕ → ℕ → Limit → Bytes
show_cut start end total next by =
    codes "\n\n[Showing lines "
    ++ itoa start
    ++ codes "-"
    ++ itoa end
    ++ codes " of "
    ++ itoa total
    ++ (elim by [
      | lines ↦ codes ". Use offset="
      | _ ↦ codes " (" ++ format_size default_max_bytes ++ codes " limit). Use offset="
    ])
    ++ itoa next
    ++ codes " to continue.]"

unfoldable pub show_page : Bytes → Page → Bytes
show_page path (line_too_long n size) =
    codes "[Line "
    ++ itoa n
    ++ codes " is "
    ++ format_size size
    ++ codes ", exceeds "
    ++ format_size default_max_bytes
    ++ codes " limit. Use bash: sed -n '"
    ++ itoa n
    ++ codes "p' "
    ++ path
    ++ codes " | head -c "
    ++ itoa default_max_bytes
    ++ codes "]"
show_page path (cut_off shown start end total next by) =
    prefix_line_numbers shown start ++ show_cut start end total next by
show_page path (limited shown start remaining next) =
    prefix_line_numbers shown start
    ++ codes "\n\n["
    ++ itoa remaining
    ++ codes " more lines in file. Use offset="
    ++ itoa next
    ++ codes " to continue.]"
show_page path (last_page shown start) = prefix_line_numbers shown start

-- `ReadOperator`, with what `os.Stat` and `os.UserHomeDir` answer to the path checks
pub record ReadOperator : Type 0 where
  pub read_file : Bytes → Result Bytes Bytes
  pub access : Bytes → Result Bytes (Unit {0})
  pub detect_image_mime_type : Bytes → Bytes
  pub stat : Bytes → Stat
  pub home : Option Bytes

pub record ReadToolInput : Type 0 where
  pub path : Bytes
  pub offset : ℤ
  pub limit : ℤ

-- `ai.MultipartToolResponse`: the text, and the type and the URI of an image
pub record ReadResponse : Type 0 where
  pub output : Bytes
  pub content : List (Bytes × Bytes)

-- `media.ResizeResult`, what the tool uses of it
pub record ResizeResult : Type 0 where
  pub base64 : Bytes
  pub mime_type : Bytes
  pub original_width : ℕ
  pub original_height : ℕ
  pub final_width : ℕ
  pub final_height : ℕ
  pub was_resized : Bool

unfoldable pub format_dimension_note : ResizeResult → Bytes
format_dimension_note r =
    if not r.was_resized
    then []
    else codes "Resized from "
      ++ itoa r.original_width
      ++ codes "x"
      ++ itoa r.original_height
      ++ codes " to "
      ++ itoa r.final_width
      ++ codes "x"
      ++ itoa r.final_height

unfoldable pub wrap_error : {A : Type 0} → (Bytes → ReadError) → Result Bytes A → Result ReadError A
wrap_error wrap (err e) = err (wrap e)
wrap_error wrap (ok x) = ok x

-- the answer with an image of a type and its base64 text
unfoldable pub image_response : Bytes → Bytes → Bytes → ReadResponse
image_response mime_type note base64 = record {
  output = codes "Read image file [" ++ mime_type ++ codes "]" ++ note;
  content = (mime_type, codes "data:" ++ mime_type ++ codes ";base64," ++ base64) ∷ [];
}

unfoldable pub dimension_line : Bytes → Bytes
dimension_line [] = []
dimension_line (c ∷ cs) = newline ∷ c ∷ cs

-- What the tool calls on an image: `base64.StdEncoding.EncodeToString` and `media.AutoResizeImage`.
pub record ImageCodec : Type 0 where
  pub encode : Bytes → Bytes
  pub auto_resize : Bytes → Bytes → Result Bytes ResizeResult

-- The cancelled flags are those of the context after the access check and after the file was read.
module _ (ops : ReadOperator) (images : ImageCodec) (before after : Bool) where
  unfoldable pub handle_image_read : Bytes → Bytes → Bool → Result ReadError ReadResponse
  handle_image_read path mime_type auto_resize = do
    buffer ← wrap_error read_failed (ops.read_file path)
    if not auto_resize then ok (image_response mime_type [] (images.encode buffer)) else do
      fail_if after cancelled
      r ← wrap_error image_failed (images.auto_resize buffer mime_type)
      ok (image_response r.mime_type (dimension_line (format_dimension_note r)) r.base64)

  unfoldable pub handle_text_read : Bytes → ReadToolInput → Result ReadError ReadResponse
  handle_text_read path input = do
    buffer ← wrap_error read_failed (ops.read_file path)
    fail_if after cancelled
    page ← read_page input.offset input.limit buffer
    ok (record { output = show_page input.path page; content = [] })

  unfoldable pub resolved : Result ResolveError Bytes → Result ReadError Bytes
  resolved (err e) = err (resolve e)
  resolved (ok path) = ok path

  unfoldable pub handle_read : Bytes → Bool → ReadToolInput → Result ReadError ReadResponse
  handle_read cwd auto_resize input = do
    path ← resolved (resolve_read_path ops.home ops.stat input.path cwd)
    wrap_error cannot_read (ops.access path)
    fail_if before cancelled
    let mime_type = ops.detect_image_mime_type path in
        if eqb mime_type []
        then handle_text_read path input
        else handle_image_read path mime_type auto_resize

unfoldable pub with_shown : List Bytes → Option (List Bytes) → Option (List Bytes)
with_shown shown none = none
with_shown shown (some later) = some (shown ++ later)

-- the lines of a page and of those behind it, which `later` reads from an offset
unfoldable pub follow : (ℕ → Option (List Bytes)) → Result ReadError Page → Option (List Bytes)
follow later (err e) = none
follow later (ok (line_too_long n size)) = none
follow later (ok (cut_off shown start end total next by)) = with_shown shown (later next)
follow later (ok (limited shown start remaining next)) = with_shown shown (later next)
follow later (ok (last_page shown start)) = some shown

-- A reader who follows the offsets that the pages name, from the line `offset` on: the lines shown,
-- or none if a line is too long, on an error, or after `rounds` reads.
unfoldable pub read_on : ℕ → ℤ → Bytes → ℕ → Option (List Bytes)
read_on zero limit content offset = none
read_on (suc rounds) limit content offset =
    follow (read_on rounds limit content) (read_page (pos offset) limit content)
