-- ===== src/Tools/Runes.antt =====
-- UTF-8 as Go's `for range` reads it and `WriteRune` writes it, and `unicode.IsSpace`.
use Prim.Native.Nat.{◌/◌, ◌%◌}
use genkit_cowork.Base.{
  ℕ, zero, suc, ◌+◌, ◌-◌, ◌*◌, Bool, ◌&&◌, ◌||◌, List, [], ◌∷◌, ◌++◌, ltb, leb, ◌==◌, if◌then◌else◌,
}
use genkit_cowork.Base.Bytes.{Bytes}

-- `utf8.RuneError`
abbrev pub rune_error : ℕ
rune_error = 0xFFFD

abbrev pub between : ℕ → ℕ → ℕ → Bool
between lo hi b = leb lo b && leb b hi

abbrev low : ℕ → ℕ
low b = b - 0x80

abbrev continues : ℕ → Bool
continues = between 0x80 0xBF

-- The least and the greatest second byte behind a lead byte of three or four bytes.
second_ok : ℕ → ℕ → Bool
second_ok lead b =
    if lead == 0xE0
    then between 0xA0 0xBF b
    else if lead == 0xED
    then between 0x80 0x9F b
    else if lead == 0xF0
    then between 0x90 0xBF b
    else if lead == 0xF4
    then between 0x80 0x8F b
    else continues b

two : ℕ → Bytes → ℕ × ℕ
two b (c ∷ _) = if continues c then ((b - 0xC0) * 0x40 + low c, 2) else (rune_error, 1)
two b [] = (rune_error, 1)

three : ℕ → Bytes → ℕ × ℕ
unfolding second_ok
three b (c ∷ d ∷ _) =
    if second_ok b c && continues d
    then ((b - 0xE0) * 0x1000 + low c * 0x40 + low d, 3)
    else (rune_error, 1)
three b _ = (rune_error, 1)

four : ℕ → Bytes → ℕ × ℕ
unfolding second_ok
four b (c ∷ d ∷ e ∷ _) =
    if second_ok b c && continues d && continues e
    then ((b - 0xF0) * 0x40000 + low c * 0x1000 + low d * 0x40 + low e, 4)
    else (rune_error, 1)
four b _ = (rune_error, 1)

-- `utf8.DecodeRuneInString`: the rune and its width
unfoldable pub first_rune : ℕ → Bytes → ℕ × ℕ
unfolding two three four
first_rune b bs =
    if ltb b 0x80
    then (b, 1)
    else if between 0xC2 0xDF b
    then two b bs
    else if between 0xE0 0xEF b
    then three b bs
    else if between 0xF0 0xF4 b
    then four b bs
    else (rune_error, 1)

-- The runes of a string; the number counts the bytes of a rune that are still to pass.
unfoldable pub runes_after : ℕ → Bytes → List ℕ
runes_after passing [] = []
runes_after (suc k) (b ∷ bs) = runes_after k bs
runes_after zero (b ∷ bs) = let (r, width) = first_rune b bs in r ∷ runes_after (width - 1) bs

abbrev pub runes : Bytes → List ℕ
runes = runes_after 0

-- `WriteRune` of a rune that was read
unfoldable pub encode_rune : ℕ → Bytes
encode_rune r =
    let last = 0x80 + r % 0x40 in
    let second_last = 0x80 + r / 0x40 % 0x40 in
    let third_last = 0x80 + r / 0x1000 % 0x40 in
    if ltb r 0x80
    then r ∷ []
    else if ltb r 0x800
    then (0xC0 + r / 0x40) ∷ last ∷ []
    else if ltb r 0x10000
    then (0xE0 + r / 0x1000) ∷ second_last ∷ last ∷ []
    else (0xF0 + r / 0x40000) ∷ third_last ∷ second_last ∷ last ∷ []

unfoldable pub encode : List ℕ → Bytes
encode [] = []
encode (r ∷ rs) = encode_rune r ++ encode rs

unfoldable pub is_space : ℕ → Bool
is_space r =
    between 0x09 0x0D r
    || r == 0x20
    || r == 0x85
    || r == 0xA0
    || r == 0x1680
    || between 0x2000 0x200A r
    || r == 0x2028
    || r == 0x2029
    || r == 0x202F
    || r == 0x205F
    || r == 0x3000
