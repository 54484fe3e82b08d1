-- ===== src/Base/Result.antt =====
-- A Go `(value, error)` pair whose error is checked before the value is used.
use mathlib.Core.Bool.{Bool, true, false}
use mathlib.Core.Path.{◌≡◌, refl}

pub data Result {κ ℓ} (E : Type κ) (A : Type ℓ) : Type (κ ⊔ ℓ) where
  err : E → Result E A
  ok : A → Result E A

module _ {κ ℓ ν} {E : Type κ} {A : Type ℓ} {B : Type ν} where
  infixl 5 ◌>>=◌
  abbrev pub ◌>>=◌ : Result E A → (A → Result E B) → Result E B
  err failure >>= next = err failure
  ok value >>= next = next value

  -- What a sequence returns, its last step has returned, on the value of the first.
  pub steps_ok :
      (first : Result E A) (next : A → Result E B) {y : B}
      → (first >>= next) ≡ ok y
      → (x : A) × (next x ≡ ok y) × (first ≡ ok x)
  steps_ok (err failure) next h = cc
  steps_ok (ok value) next h = (value, h, refl)

module _ {κ ν} {E : Type κ} where
  infixl 5 ◌>>◌
  abbrev pub ◌>>◌ : {B : Type ν} → Result E (Unit {0}) → Result E B → Result E B
  first >> second = first >>= λ _. second

-- `if b { return e }`
abbrev pub fail_if {κ} : {E : Type κ} → Bool → E → Result E (Unit {0})
fail_if false e = ok tt
fail_if true e = err e
