-- ===== src/Memory/Ledger/Exact.antt =====
-- `validateAppendOnlyState` accepts a state exactly when it extends the stored one.
use genkit_cowork.Base.{
  ℕ, ◌+◌, ◌≤◌, true, List, [], ◌∷◌, ◌≡◌, refl, ◌↔◌, ◌⊎◌, arith, length, All, if◌then◌else◌,
}
use genkit_cowork.Base.Int.{ℤ, pos, ◌<ℤ◌, eqb_ℤ}
use genkit_cowork.Base.Bytes.{eqb_iff}
use genkit_cowork.Base.Result.{ok, steps_ok}
use genkit_cowork.Memory.Types.{SessionState}
use genkit_cowork.Memory.Ledger.{
  Table, messages, turns, snapshots, Row, check_row, check_rows, scan_row, scan_rows, check_length,
  scan_table, message_rows, turn_rows, snapshot_rows, validate_append_only_state,
}

-- A row keeps its id. A positive sequence stays, unless the new one is negative.
pub record Keeps (e n : Row) : Type 0 where
  pub same_id : e.id ≡ n.id
  pub same_sequence : pos 0 <ℤ e.sequence → (n.sequence ≡ e.sequence) ⊎ (n.sequence <ℤ pos 0)

-- The stored rows are kept, in order, at the front of the incoming ones.
abbrev pub Extends : List Row → List Row → Type 0
Extends [] ns = Unit
Extends (e ∷ es) [] = ⊥
Extends (e ∷ es) (n ∷ ns) = Keeps e n × Extends es ns

-- The sequences that are set, that is, not 0.
abbrev pub assigned : List Row → List ℤ
assigned [] = []
assigned (r ∷ rs) = if eqb_ℤ r.sequence (pos 0) then assigned rs else r.sequence ∷ assigned rs

abbrev pub IsIncreasing : List ℤ → Type 0
IsIncreasing [] = Unit
IsIncreasing (z ∷ zs) = All (λ y. z <ℤ y) zs × IsIncreasing zs

pub record TableOk (es ns : List Row) : Type 0 where
  pub extends : Extends es ns
  pub increasing : IsIncreasing (assigned ns)

pub record IsExtension (existing incoming : SessionState) : Type 0 where
  pub messages_ok : TableOk (message_rows existing) (message_rows incoming)
  pub turns_ok : TableOk (turn_rows existing) (turn_rows incoming)
  pub snapshots_ok : TableOk (snapshot_rows existing) (snapshot_rows incoming)

check_row-Keeps : (t : Table) (i : ℕ) (e n : Row) → check_row t i e n ≡ ok tt → Keeps e n
unfolding check_row
check_row-Keeps t i e n h = ground (arith, eqb_iff e.id n.id)

Keeps-check_row : (t : Table) (i : ℕ) (e n : Row) → Keeps e n → check_row t i e n ≡ ok tt
unfolding check_row
Keeps-check_row t i e n k = ground (arith, eqb_iff e.id n.id, k.same_sequence)

check_rows-Extends :
    (t : Table) (i : ℕ) (es ns : List Row) → check_rows t i es ns ≡ ok tt → Extends es ns
unfolding check_rows
check_rows-Extends t i [] ns h = tt
check_rows-Extends t i (e ∷ es) [] h = cc
check_rows-Extends t i (e ∷ es) (n ∷ ns) h =
    let (u, rest, first) = steps_ok (check_row t i e n) _ h in
    (check_row-Keeps t i e n first, check_rows-Extends t (i + 1) es ns rest)

Extends-check_rows :
    (t : Table) (i : ℕ) (es ns : List Row) → Extends es ns → check_rows t i es ns ≡ ok tt
unfolding check_rows
Extends-check_rows t i [] ns h = refl
Extends-check_rows t i (e ∷ es) [] h = absurd h
Extends-check_rows t i (e ∷ es) (n ∷ ns) h =
    ground (arith, Keeps-check_row t i e n h.0, Extends-check_rows t (i + 1) es ns h.1)

pub Extends-length : (es ns : List Row) → Extends es ns → length es ≤ length ns
Extends-length [] ns h = omega arith
Extends-length (e ∷ es) [] h = absurd h
Extends-length (e ∷ es) (n ∷ ns) h = omega (arith, Extends-length es ns h.1)

pub All-lt_trans : (a b : ℤ) (zs : List ℤ) → a <ℤ b → All (λ y. b <ℤ y) zs → All (λ y. a <ℤ y) zs
All-lt_trans a b [] h all = tt
All-lt_trans a b (z ∷ zs) h all = (omega arith, All-lt_trans a b zs h all.1)

-- the scan, once a sequence has been seen
scan-IsIncreasing :
    (t : Table) (last : ℤ) (rs : List Row)
    → scan_rows t (true, last) rs ≡ ok tt
    → IsIncreasing (last ∷ assigned rs)
unfolding scan_rows scan_row
scan-IsIncreasing t last [] h = (tt, tt)
scan-IsIncreasing t last (r ∷ rs) h = ground (
  arith,
  scan-IsIncreasing t last rs,
  scan-IsIncreasing t r.sequence rs,
  All-lt_trans last r.sequence (assigned rs),
)

IsIncreasing-scan :
    (t : Table) (last : ℤ) (rs : List Row)
    → IsIncreasing (last ∷ assigned rs)
    → scan_rows t (true, last) rs ≡ ok tt
unfolding scan_rows scan_row
IsIncreasing-scan t last [] h = refl
IsIncreasing-scan t last (r ∷ rs) h =
    ground (arith, IsIncreasing-scan t last rs, IsIncreasing-scan t r.sequence rs)

scan_table-IsIncreasing :
    (t : Table) (rs : List Row) → scan_table t rs ≡ ok tt → IsIncreasing (assigned rs)
unfolding scan_rows scan_row
scan_table-IsIncreasing t [] h = tt
scan_table-IsIncreasing t (r ∷ rs) h =
    ground (arith, scan_table-IsIncreasing t rs, scan-IsIncreasing t r.sequence rs)

IsIncreasing-scan_table :
    (t : Table) (rs : List Row) → IsIncreasing (assigned rs) → scan_table t rs ≡ ok tt
unfolding scan_rows scan_row
IsIncreasing-scan_table t [] h = refl
IsIncreasing-scan_table t (r ∷ rs) h =
    ground (arith, IsIncreasing-scan_table t rs, IsIncreasing-scan t r.sequence rs)

check_length-ok :
    (t : Table) (es ns : List Row) → length es ≤ length ns → check_length t es ns ≡ ok tt
check_length-ok t es ns h = ground arith

-- One table through its three checks.
record Passes (t : Table) (es ns : List Row) : Type 0 where
  long_enough : check_length t es ns ≡ ok tt
  rows_kept : check_rows t 0 es ns ≡ ok tt
  scanned : scan_table t ns ≡ ok tt

Passes-TableOk : {t : Table} {es ns : List Row} → Passes t es ns → TableOk es ns
Passes-TableOk {t} {es} {ns} p = record {
  extends = check_rows-Extends t 0 es ns p.rows_kept;
  increasing = scan_table-IsIncreasing t ns p.scanned;
}

TableOk-Passes : (t : Table) {es ns : List Row} → TableOk es ns → Passes t es ns
TableOk-Passes t {es} {ns} k = record {
  long_enough = check_length-ok t es ns (Extends-length es ns k.extends);
  rows_kept = Extends-check_rows t 0 es ns k.extends;
  scanned = IsIncreasing-scan_table t ns k.increasing;
}

validate-Passes :
    (e n : SessionState)
    → validate_append_only_state e n ≡ ok tt
    → Passes messages (message_rows e) (message_rows n)
      × Passes turns (turn_rows e) (turn_rows n)
      × Passes snapshots (snapshot_rows e) (snapshot_rows n)
unfolding validate_append_only_state
validate-Passes e n h = ground arith

Passes-validate :
    (e n : SessionState)
    → Passes messages (message_rows e) (message_rows n)
    → Passes turns (turn_rows e) (turn_rows n)
    → Passes snapshots (snapshot_rows e) (snapshot_rows n)
    → validate_append_only_state e n ≡ ok tt
unfolding validate_append_only_state
Passes-validate e n m t s = ground arith

-- A save is accepted exactly when it is an extension: in each of the three tables every stored row
-- keeps its place and id, a positive stored sequence stays the same or becomes negative, and the
-- sequences that are not 0 are strictly increasing.
pub validate_iff_IsExtension :
    (existing incoming : SessionState)
    → (validate_append_only_state existing incoming ≡ ok tt) ↔ IsExtension existing incoming
validate_iff_IsExtension e n = (
  λ h.
      let (m, t, s) = validate-Passes e n h in
      record {
        messages_ok = Passes-TableOk m;
        turns_ok = Passes-TableOk t;
        snapshots_ok = Passes-TableOk s;
      },
  λ x.
      Passes-validate e n (TableOk-Passes messages x.messages_ok) (TableOk-Passes turns x.turns_ok)
        (TableOk-Passes snapshots x.snapshots_ok),
)
