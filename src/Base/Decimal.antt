-- ===== src/Base/Decimal.antt =====
-- `%d` and `strconv.Itoa` on natural numbers.
use Prim.Native.Nat.{ℕ, zero, suc, ◌+◌, ◌/◌, ◌%◌}
use genkit_cowork.Base.Tests.{ltb, if◌then◌else◌}
use genkit_cowork.Base.Bytes.{Bytes}
use mathlib.Core.List.{[], ◌∷◌}

-- The digits before `rest`; a number below `rounds` has fewer digits than that.
unfoldable pub digits_before : ℕ → ℕ → Bytes → Bytes
digits_before zero n rest = rest
digits_before (suc rounds) n rest =
    let here = (0x30 + n % 10) ∷ rest in
    let more = digits_before rounds (n / 10) here in if ltb n 10 then here else more

unfoldable pub itoa : ℕ → Bytes
itoa n = digits_before (suc n) n []
