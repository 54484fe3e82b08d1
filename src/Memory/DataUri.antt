-- ===== src/Memory/DataUri.antt =====
-- `parseDataURI` of genkit-cowork/memory/sessions.go, with what it uses of encoding/base64 (the
-- standard alphabet with padding; line breaks are skipped, as Go's decoder does) and of net/url.
use genkit_cowork.Base.{
  ℕ, ◌+◌, ◌-◌, ◌*◌, ◌/◌, ◌%◌, Bool, ◌&&◌, ◌||◌, Option, none, some, [], ◌∷◌, length, drop, take,
  leb, ◌==◌, if◌then◌else◌,
}
use genkit_cowork.Base.Bytes.{Bytes, codes, eqb, has_prefix}

infixl 5 ◌>>=◌
abbrev ◌>>=◌ : {A B : Type 0} → Option A → (A → Option B) → Option B
none >>= f = none
some a >>= f = f a

abbrev between : ℕ → ℕ → ℕ → Bool
between lo hi c = leb lo c && leb c hi

-- the value of a base64 digit
base64_digit : ℕ → Option ℕ
base64_digit c =
    if between b'A' b'Z' c
    then some (c - b'A')
    else if between b'a' b'z' c
    then some (c - b'a' + 26)
    else if between b'0' b'9' c
    then some (c - b'0' + 52)
    else if c == b'+'
    then some 62
    else if c == b'/'
    then some 63
    else none

skip_breaks : Bytes → Bytes
skip_breaks [] = []
skip_breaks (c ∷ cs) =
    let rest = skip_breaks cs in if c == b'\n' || c == b'\r' then rest else c ∷ rest

-- the first byte of a group, from its first two digits, and so on
abbrev byte_1 : ℕ → ℕ → ℕ
byte_1 a b = a * 4 + b / 16

abbrev byte_2 : ℕ → ℕ → ℕ
byte_2 b c = b % 16 * 16 + c / 4

abbrev byte_3 : ℕ → ℕ → ℕ
byte_3 c d = c % 4 * 64 + d

-- a last group with padding; nothing may follow it
padded_group : ℕ → ℕ → ℕ → Option Bytes
padded_group a b c =
    if c == b'=' then (do x ← base64_digit a; y ← base64_digit b; some (byte_1 x y ∷ [])) else do
      x ← base64_digit a
      y ← base64_digit b
      z ← base64_digit c
      some (byte_1 x y ∷ byte_2 y z ∷ [])

full_group : ℕ → ℕ → ℕ → ℕ → Option Bytes → Option Bytes
full_group a b c d rest = do
  x ← base64_digit a
  y ← base64_digit b
  z ← base64_digit c
  w ← base64_digit d
  more ← rest
  some (byte_1 x y ∷ byte_2 y z ∷ byte_3 z w ∷ more)

base64_groups : Bytes → Option Bytes
base64_groups [] = some []
base64_groups (a ∷ b ∷ c ∷ d ∷ []) =
    if d == b'=' then padded_group a b c else full_group a b c d (some [])
base64_groups (a ∷ b ∷ c ∷ d ∷ e ∷ rest) = full_group a b c d (base64_groups (e ∷ rest))
base64_groups _ = none

-- `base64.StdEncoding.DecodeString`
unfoldable pub base64_decode : Bytes → Option Bytes
unfolding base64_groups padded_group full_group base64_digit skip_breaks
base64_decode s = base64_groups (skip_breaks s)

hex_digit : ℕ → Option ℕ
hex_digit c =
    if between b'0' b'9' c
    then some (c - b'0')
    else if between b'a' b'f' c
    then some (c - b'a' + 10)
    else if between b'A' b'F' c
    then some (c - b'A' + 10)
    else none

-- `url.PathUnescape`
unfoldable pub path_unescape : Bytes → Option Bytes
unfolding hex_digit
path_unescape [] = some []
path_unescape (c ∷ []) = if c == b'%' then none else some (c ∷ [])
path_unescape (c ∷ h ∷ []) =
    if c == b'%' then none else if h == b'%' then none else some (c ∷ h ∷ [])
path_unescape (c ∷ h ∷ l ∷ cs) =
    let escaped : Option Bytes = do
      x ← hex_digit h
      y ← hex_digit l
      rest ← path_unescape cs
      some ((x * 16 + y) ∷ rest)
    in let plain : Option Bytes = (do rest ← path_unescape (h ∷ l ∷ cs); some (c ∷ rest)) in
      if c == b'%' then escaped else plain

-- `strings.SplitN(s, ",", 2)`, if there is a comma
unfoldable pub split_comma : Bytes → Option (Bytes × Bytes)
split_comma [] = none
split_comma (c ∷ cs) =
    let rest : Option (Bytes × Bytes) = (do (a, b) ← split_comma cs; some (c ∷ a, b)) in
    if c == b',' then some ([], cs) else rest

abbrev base64_suffix : Bytes
base64_suffix = codes ";base64"

-- `strings.HasSuffix(s, p)`
has_suffix : Bytes → Bytes → Bool
has_suffix s p = leb (length p) (length s) && eqb (drop (length s - length p) s) p

abbrev or_text_plain : Bytes → Bytes
or_text_plain mime = if eqb mime [] then codes "text/plain" else mime

decode_parts : Bytes × Bytes → Option (Bytes × Bytes)
unfolding has_suffix
decode_parts (meta, raw) =
    if has_suffix meta base64_suffix
    then (do
      payload ← base64_decode raw
      some (or_text_plain (take (length meta - length base64_suffix) meta), payload))
    else do payload ← path_unescape raw; some (or_text_plain meta, payload)

-- The MIME type and the payload; `none` for `ok == false`.
unfoldable pub parse_data_uri : Bytes → Option (Bytes × Bytes)
unfolding decode_parts
parse_data_uri uri =
    if has_prefix uri (codes "data:")
    then (do parts ← split_comma (drop 5 uri); decode_parts parts)
    else none
