-- ===== src/Os/Io/Ensures.antt =====
-- What holds of the value and the disk when a sequence of calls ends without an error.
use genkit_cowork.Base.Result.{Result, err, ok}
use genkit_cowork.Os.Disk.{Disk}
use genkit_cowork.Os.Io.{Io, continue}

module _ {E A : Type 0} where
  unfoldable pub Ensures : (A → Disk → Type 0) → Result E A × Disk → Type 0
  Ensures P (err e, d) = Unit
  Ensures P (ok x, d) = P x d

  pub Ensures-map :
      (P Q : A → Disk → Type 0) (r : Result E A × Disk)
      → Ensures P r
      → ((x : A) (d : Disk) → P x d → Q x d)
      → Ensures Q r
  unfolding Ensures
  Ensures-map P Q (err e, d) h weaker = tt
  Ensures-map P Q (ok x, d) h weaker = weaker x d h

module _ {E A B : Type 0} where
  pub continue-Ensures :
      (P : A → Disk → Type 0) (Q : B → Disk → Type 0) (r : Result E A × Disk) (next : A → Io E B)
      → Ensures P r
      → ((x : A) (d : Disk) → P x d → Ensures Q (next x d))
      → Ensures Q (continue r next)
  unfolding Ensures continue
  continue-Ensures P Q (err e, d) next h after = tt
  continue-Ensures P Q (ok x, d) next h after = after x d h
