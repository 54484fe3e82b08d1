-- ===== src/Tools/Endings.antt =====
-- The line ends of a text: `normalizeToLF`, `detectLineEnding` and `restoreLineEndings` of
-- genkit-cowork/tools/edit_diff.go.
pub mod RoundTrip
use genkit_cowork.Base.{
  ℕ, ◌<◌, Bool, true, false, ◌&&◌, Option, none, some, List, [], ◌∷◌, ◌==◌, ltb, if◌then◌else◌,
}
use genkit_cowork.Base.Bytes.{Bytes, eqb}
use genkit_cowork.Tools.Lines.{newline}
use genkit_cowork.Tools.Search.{index_of}

abbrev pub carriage_return : ℕ
carriage_return = 13

-- `strings.ReplaceAll(content, "\r\n", "\n")`, and then `"\r"` by `"\n"`
unfoldable pub crlf_to_lf : Bytes → Bytes
crlf_to_lf [] = []
crlf_to_lf (c ∷ []) = c ∷ []
crlf_to_lf (c ∷ d ∷ cs) =
    let rest = crlf_to_lf (d ∷ cs) in
    if c == carriage_return && d == newline then rest else c ∷ rest

unfoldable pub cr_to_lf : Bytes → Bytes
cr_to_lf [] = []
cr_to_lf (c ∷ cs) = (if c == carriage_return then newline else c) ∷ cr_to_lf cs

unfoldable pub normalize_to_lf : Bytes → Bytes
normalize_to_lf content = cr_to_lf (crlf_to_lf content)

abbrev pub lf : Bytes
lf = newline ∷ []

abbrev pub crlf : Bytes
crlf = carriage_return ∷ newline ∷ []

earlier : Option ℕ → Option ℕ → Bytes
earlier (some a) (some b) = if ltb a b then crlf else lf
earlier _ _ = lf

unfoldable pub detect_line_ending : Bytes → Bytes
unfolding earlier
detect_line_ending content = earlier (index_of crlf content) (index_of lf content)

-- `strings.ReplaceAll(content, "\n", "\r\n")`
unfoldable pub lf_to_crlf : Bytes → Bytes
lf_to_crlf [] = []
lf_to_crlf (c ∷ cs) =
    let rest = lf_to_crlf cs in if c == newline then carriage_return ∷ newline ∷ rest else c ∷ rest

unfoldable pub restore_line_endings : Bytes → Bytes → Bytes
restore_line_endings content ending = if eqb ending crlf then lf_to_crlf content else content
