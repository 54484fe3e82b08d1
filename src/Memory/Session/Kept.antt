-- ===== src/Memory/Session/Kept.antt =====
-- The ledger that saves of fresh messages keep: each table is numbered 1, 2, 3, …, and the turns
-- cut the messages into consecutive windows.
use genkit_cowork.Base.{ℕ, suc, ◌+◌, ◌≤◌, List, [], ◌∷◌, ◌++◌, ◌≡◌, refl, arith, map, length, All}
use genkit_cowork.Base.Int.{pos, ◌<ℤ◌}
use genkit_cowork.Memory.Types.{TurnRecord, SessionState}
use genkit_cowork.Memory.Ledger.{Row, message_rows, turn_rows, snapshot_rows}
use genkit_cowork.Memory.Ledger.Exact.{Extends, assigned, IsIncreasing, TableOk}
use genkit_cowork.Memory.Numbering.{last_sequence}

-- The rows are numbered k + 1, k + 2, ….
abbrev pub IsNumbered : ℕ → List Row → Type 0
IsNumbered k [] = Unit
IsNumbered k (r ∷ rs) = (r.sequence ≡ pos (suc k)) × IsNumbered (suc k) rs

-- The turn's bounds and count name the `count` messages behind the first `k`.
pub record Window (k count : ℕ) (t : TurnRecord) : Type 0 where
  pub first : t.first_message_sequence ≡ pos (suc k)
  pub last : t.last_message_sequence ≡ pos (k + count)
  pub claimed : t.message_count ≡ pos count

-- The turns cut the messages k + 1, …, m into windows, none of them empty.
abbrev pub Cuts : ℕ → List TurnRecord → ℕ → Type 0
Cuts k [] m = k ≡ m
Cuts k (t ∷ ts) m = (count : ℕ) × (1 ≤ count) × Window k count t × Cuts (k + count) ts m

pub record Kept (s : SessionState) : Type 0 where
  pub messages_numbered : IsNumbered 0 (message_rows s)
  pub turns_numbered : IsNumbered 0 (turn_rows s)
  pub snapshots_numbered : IsNumbered 0 (snapshot_rows s)
  pub cut : Cuts 0 s.turns (length s.messages)

module _ {A : Type 0} (row : A → Row) where
  last-IsNumbered :
      (k : ℕ) (x : A) (xs : List A)
      → IsNumbered k (map row (x ∷ xs))
      → last_sequence (map (λ y. (row y).sequence) (x ∷ xs)) ≡ pos (k + suc (length xs))
  last-IsNumbered k x [] h = ground arith
  last-IsNumbered k x (y ∷ ys) h = ground (arith, last-IsNumbered (suc k) y ys h.1)

  -- A numbered table ends in the number of its rows.
  pub last_sequence-IsNumbered :
      (xs : List A)
      → IsNumbered 0 (map row xs)
      → last_sequence (map (λ y. (row y).sequence) xs) ≡ pos (length xs)
  last_sequence-IsNumbered [] h = refl
  last_sequence-IsNumbered (x ∷ xs) h = ground (arith, last-IsNumbered 0 x xs h)

  pub IsNumbered-append :
      (j k : ℕ) (xs ys : List A)
      → j ≡ k + length xs
      → IsNumbered k (map row xs)
      → IsNumbered j (map row ys)
      → IsNumbered k (map row (xs ++ ys))
  IsNumbered-append j k [] ys p h h' = ground arith
  IsNumbered-append j k (x ∷ xs) ys p h h' =
      (h.0, IsNumbered-append j (suc k) xs ys (omega arith) h.1 h')

  Extends-self : (xs ys : List A) → Extends (map row xs) (map row (xs ++ ys))
  Extends-self [] ys = tt
  Extends-self (x ∷ xs) ys =
      (record { same_id = refl; same_sequence = λ h. ground arith }, Extends-self xs ys)

  assigned_above :
      (j k : ℕ) (xs : List A)
      → j ≤ k
      → IsNumbered k (map row xs)
      → All (λ z. pos j <ℤ z) (assigned (map row xs))
  assigned_above j k [] h n = tt
  assigned_above j k (x ∷ xs) h n = ground (arith, assigned_above j (suc k) xs (omega arith) n.1)

  assigned-cons :
      (k : ℕ) (x : A) (xs : List A)
      → (row x).sequence ≡ pos (suc k)
      → assigned (map row (x ∷ xs)) ≡ pos (suc k) ∷ assigned (map row xs)
  assigned-cons k x xs h = ground arith

  IsNumbered-IsIncreasing :
      (k : ℕ) (xs : List A) → IsNumbered k (map row xs) → IsIncreasing (assigned (map row xs))
  IsNumbered-IsIncreasing k [] n = tt
  IsNumbered-IsIncreasing k (x ∷ xs) n =
      rw (assigned-cons k x xs n.0) (
        assigned_above (suc k) (suc k) xs (omega arith) n.1,
        IsNumbered-IsIncreasing (suc k) xs n.1,
      )

  -- A numbered table passes the check against any of its beginnings.
  pub TableOk-append :
      (xs ys zs : List A)
      → zs ≡ xs ++ ys
      → IsNumbered 0 (map row zs)
      → TableOk (map row xs) (map row zs)
  TableOk-append xs ys zs p h = record {
    extends = rw p (Extends-self xs ys);
    increasing = IsNumbered-IsIncreasing 0 zs h;
  }

-- Only the three tables count.
pub Kept-tables :
    (e e' : SessionState)
    → e'.messages ≡ e.messages
    → e'.turns ≡ e.turns
    → e'.snapshots ≡ e.snapshots
    → Kept e
    → Kept e'
Kept-tables e e' p q r k = record {
  messages_numbered = rw p k.messages_numbered;
  turns_numbered = rw q k.turns_numbered;
  snapshots_numbered = rw r k.snapshots_numbered;
  cut = rw (p, q) k.cut;
}

pub Cuts-append :
    (k : ℕ) (ts : List TurnRecord) (m count : ℕ) (t : TurnRecord)
    → Cuts k ts m
    → 1 ≤ count
    → Window m count t
    → Cuts k (ts ++ t ∷ []) (m + count)
Cuts-append k [] m count t h p w = (count, p, ground arith, ground arith)
Cuts-append k (u ∷ us) m count t (c, q, v, rest) p w =
    (c, q, v, Cuts-append (k + c) us m count t rest p w)
