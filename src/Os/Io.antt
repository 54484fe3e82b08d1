-- ===== src/Os/Io.antt =====
-- Calls in sequence: each may fail, and changes the disk.
pub mod Ensures
use genkit_cowork.Base.Result.{Result, err, ok}
use genkit_cowork.Os.Disk.{Disk, DiskError}

abbrev pub Io : Type 0 → Type 0 → Type 0
Io E A = Disk → Result E A × Disk

module _ {E A : Type 0} where
  abbrev pub pure : A → Io E A
  pure x d = (ok x, d)

  abbrev pub fail : E → Io E A
  fail e d = (err e, d)

  unfoldable pub wrapped : (DiskError → E) → Result DiskError A × Disk → Result E A × Disk
  wrapped wrap (err e, d) = (err (wrap e), d)
  wrapped wrap (ok x, d) = (ok x, d)

  -- `if err != nil { return fmt.Errorf("…: %w", err) }`
  abbrev pub or_fail : (DiskError → E) → Io DiskError A → Io E A
  or_fail wrap act d = wrapped wrap (act d)

module _ {E A B : Type 0} where
  unfoldable pub continue : Result E A × Disk → (A → Io E B) → Result E B × Disk
  continue (err e, d) next = (err e, d)
  continue (ok x, d) next = next x d

  infixl 5 ◌>>=◌
  abbrev pub ◌>>=◌ : Io E A → (A → Io E B) → Io E B
  (act >>= next) d = continue (act d) next

module _ {E B : Type 0} where
  infixl 5 ◌>>◌
  abbrev pub ◌>>◌ : Io E (Unit {0}) → Io E B → Io E B
  (act >> next) d = continue (act d) (λ _. next)
