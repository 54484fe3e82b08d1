-- ===== src/Tools/Trim.antt =====
-- `strings.TrimSpace`.
use genkit_cowork.Base.{ℕ, zero, suc, ◌-◌, Bool, true, ◌&&◌, [], ◌∷◌, if◌then◌else◌}
use genkit_cowork.Base.Bytes.{Bytes}
use genkit_cowork.Tools.Runes.{first_rune, is_space}

-- The two ends, one after the other. The number counts the bytes of a rune that are still to pass.
unfoldable pub trim_left_after : ℕ → Bytes → Bytes
trim_left_after k [] = []
trim_left_after (suc k) (b ∷ bs) = trim_left_after k bs
trim_left_after zero (b ∷ bs) =
    let (r, width) = first_rune b bs in
    let rest = trim_left_after (width - 1) bs in if is_space r then rest else b ∷ bs

-- nothing but space
unfoldable pub blank_after : ℕ → Bytes → Bool
blank_after k [] = true
blank_after (suc k) (b ∷ bs) = blank_after k bs
blank_after zero (b ∷ bs) =
    let (r, width) = first_rune b bs in let rest = blank_after (width - 1) bs in is_space r && rest

unfoldable pub trim_right_after : ℕ → Bytes → Bytes
trim_right_after k [] = []
trim_right_after (suc k) (b ∷ bs) = b ∷ trim_right_after k bs
trim_right_after zero (b ∷ bs) =
    let (r, width) = first_rune b bs in
    let rest = trim_right_after (width - 1) bs in if blank_after 0 (b ∷ bs) then [] else b ∷ rest

unfoldable pub trim_space : Bytes → Bytes
trim_space s = trim_right_after 0 (trim_left_after 0 s)
