-- ===== src/Media/Registry.antt =====
-- `ProcessorRegistry` of genkit-cowork/media/registry.go, and `DetectMimeType` of
-- genkit-cowork/media/mime.go. What a processor does with the bytes is its own.
use genkit_cowork.Base.{
  ℕ, ◌+◌, ◌==◌, ◌&&◌, ◌||◌, Option, none, some, List, [], ◌∷◌, take, leb, if◌then◌else◌, reverse,
}
use genkit_cowork.Base.Bytes.{Bytes, codes, eqb, has_prefix}
use genkit_cowork.Base.Dict.{Dict, lookup, insert}
use genkit_cowork.Base.Result.{Result, err, ok}
use genkit_cowork.Os.Path.{slash}
use genkit_cowork.Os.Disk.{Disk, DiskError, read_file}
use genkit_cowork.Os.Io.{Io, fail, or_fail, ◌>>=◌}

pub data ProcessError : Type 0 where
  not_supported no_processor : ProcessError
  read_document : DiskError → ProcessError
  failed_with : Bytes → ProcessError

-- `DocumentProcessor.Process`, with documents of type `A`
abbrev pub Processor : Type 0 → Type 0
Processor A = Bytes → Result ProcessError (List A)

pub record ProcessorRegistry (A : Type 0) : Type 0 where
  pub processors : Dict (Processor A)
  pub fallback : Option (Processor A)

-- the part behind the last dot of a path, read from its end; the first list is the part read so far
unfoldable pub ext_from : Bytes → Bytes → Bytes
ext_from so_far [] = []
ext_from so_far (c ∷ cs) =
    let rest = ext_from (c ∷ so_far) cs in
    if c == slash then [] else if c == b'.' then c ∷ so_far else rest

-- `filepath.Ext`
abbrev pub path_ext : Bytes → Bytes
path_ext p = ext_from [] (reverse p)

unfoldable pub lower_byte : ℕ → ℕ
lower_byte c = if leb 0x41 c && leb c 0x5A then c + 0x20 else c

-- `strings.ToLower`, of the characters that have an ASCII letter as their lower case: the letters
-- themselves and the Kelvin sign U+212A.
unfoldable pub to_lower : Bytes → Bytes
to_lower [] = []
to_lower (a ∷ []) = lower_byte a ∷ []
to_lower (a ∷ b ∷ []) = lower_byte a ∷ lower_byte b ∷ []
to_lower (a ∷ b ∷ c ∷ cs) =
    let rest = to_lower (b ∷ c ∷ cs) in
    let behind_sign = to_lower cs in
    if a == 0xE2 && b == 0x84 && c == 0xAA then b'k' ∷ behind_sign else lower_byte a ∷ rest

-- the switch over the extension
unfoldable pub type_of_ext : Bytes → Bytes → Bytes
type_of_ext ext content_type =
    if eqb ext (codes ".md") || eqb ext (codes ".markdown")
    then codes "text/markdown"
    else if eqb ext (codes ".js") || eqb ext (codes ".json")
    then codes "application/json"
    else if eqb ext (codes ".html") || eqb ext (codes ".htm")
    then codes "text/html"
    else if eqb ext (codes ".csv")
    then codes "text/csv"
    else content_type

-- the type of a file whose first bytes `http.DetectContentType` found to be `content_type`
unfoldable pub refine_type : Bytes → Bytes → Bytes
refine_type path content_type =
    if has_prefix content_type (codes "text/plain")
      || eqb content_type (codes "application/octet-stream")
    then type_of_ext (to_lower (path_ext path)) content_type
    else content_type

unfoldable pub type_of_content : (Bytes → Bytes) → Bytes → Result DiskError Bytes → Bytes
type_of_content detect path (err e) = []
type_of_content detect path (ok []) = []
type_of_content detect path (ok (c ∷ cs)) = refine_type path (detect (take 512 (c ∷ cs)))

-- The first argument is `http.DetectContentType`.
unfoldable pub detect_mime_type : (Bytes → Bytes) → Bytes → Disk → Bytes × Disk
detect_mime_type detect path d =
    let (content, after) = read_file path d in (type_of_content detect path content, after)

module _ {A : Type 0} where
  unfoldable pub register : Bytes → Processor A → ProcessorRegistry A → ProcessorRegistry A
  register mime_type processor r = record r { processors = insert mime_type processor r.processors }

  unfoldable pub or_fallback : Option (Processor A) → Option (Processor A) → Option (Processor A)
  or_fallback none fallback = fallback
  or_fallback (some p) fallback = some p

  unfoldable pub get : Bytes → ProcessorRegistry A → Option (Processor A)
  get mime_type r = or_fallback (lookup mime_type r.processors) r.fallback

  -- a file read and handed to a processor, if there is one
  unfoldable pub process_file :
      ProcessError → Option (Processor A) → Bytes → Io ProcessError (List A)
  process_file missing none path = fail missing
  process_file missing (some processor) path = do
    content ← or_fail read_document (read_file path)
    λ d. (processor content, d)

  unfoldable pub process_document :
      (Bytes → Bytes) → ProcessorRegistry A → Bytes → Io ProcessError (List A)
  process_document detect r path d =
      let (mime_type, after) = detect_mime_type detect path d in
      process_file no_processor (get mime_type r) path after
