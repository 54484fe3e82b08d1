-- ===== src/Memory/Ledger.antt =====
-- `validateAppendOnlyState` of genkit-cowork/memory/turns.go: what a save may change. The checks of
-- the three tables differ in nothing but the table that an error names, so each is written once
-- over a row's id and sequence.
pub mod Exact
pub mod Chain
use genkit_cowork.Base.{
  ℕ, ◌+◌, Bool, true, false, not, ◌&&◌, List, [], ◌∷◌, map, length, ltb, if◌then◌else◌,
}
use genkit_cowork.Base.Int.{ℤ, pos, ltb_ℤ, leb_ℤ, eqb_ℤ}
use genkit_cowork.Base.Bytes.{Bytes, eqb}
use genkit_cowork.Base.Result.{Result, ok, err, ◌>>=◌, ◌>>◌, fail_if}
use genkit_cowork.Memory.Types.{SessionMessage, TurnRecord, StateSnapshot, SessionState}

pub data Table : Type 0 where
  messages turns snapshots : Table

-- The errors, with the values that they print; `out_of_range` is the panic of a bad index.
pub data LedgerError : Type 0 where
  truncated : Table → ℕ → ℕ → LedgerError
  id_changed : Table → ℕ → Bytes → Bytes → LedgerError
  sequence_dropped : Table → ℕ → ℤ → LedgerError
  sequence_changed : Table → ℕ → ℤ → ℤ → LedgerError
  not_increasing : Table → LedgerError
  out_of_range : Table → ℕ → LedgerError

pub record Row : Type 0 where
  pub id : Bytes
  pub sequence : ℤ

abbrev pub message_row : SessionMessage → Row
message_row m = record { id = m.message_id; sequence = m.sequence }

abbrev pub turn_row : TurnRecord → Row
turn_row t = record { id = t.turn_id; sequence = t.sequence }

abbrev pub snapshot_row : StateSnapshot → Row
snapshot_row s = record { id = s.snapshot_id; sequence = s.sequence }

abbrev pub is_positive : ℤ → Bool
is_positive z = ltb_ℤ (pos 0) z

-- one round of `for i := range existing.Messages`
unfoldable pub check_row : Table → ℕ → Row → Row → Result LedgerError (Unit {0})
check_row t i e n = do
  fail_if (not (eqb e.id n.id)) (id_changed t i e.id n.id)
  fail_if (is_positive e.sequence && eqb_ℤ n.sequence (pos 0)) (sequence_dropped t i e.sequence)
  fail_if (is_positive e.sequence && is_positive n.sequence && not (eqb_ℤ e.sequence n.sequence))
      (sequence_changed t i e.sequence n.sequence)

unfoldable pub check_rows : Table → ℕ → List Row → List Row → Result LedgerError (Unit {0})
check_rows t i [] ns = ok tt
check_rows t i (e ∷ es) [] = err (out_of_range t i)
check_rows t i (e ∷ es) (n ∷ ns) = check_row t i e n >> check_rows t (i + 1) es ns

-- `seqSeen` and the last sequence, in one round of a scan for strictly increasing sequences
abbrev pub Scan : Type 0
Scan = Bool × ℤ

unfoldable pub scan_row : Table → Scan → ℤ → Result LedgerError Scan
scan_row t (seen, last) seq =
    if eqb_ℤ seq (pos 0)
    then ok (seen, last)
    else if not seen
    then ok (true, seq)
    else if leb_ℤ seq last
    then err (not_increasing t)
    else ok (true, seq)

unfoldable pub scan_rows : Table → Scan → List Row → Result LedgerError (Unit {0})
scan_rows t s [] = ok tt
scan_rows t s (r ∷ rs) = do s' ← scan_row t s r.sequence; scan_rows t s' rs

abbrev pub check_length : Table → List Row → List Row → Result LedgerError (Unit {0})
check_length t es ns = fail_if (ltb (length ns) (length es)) (truncated t (length es) (length ns))

abbrev pub scan_table : Table → List Row → Result LedgerError (Unit {0})
scan_table t = scan_rows t (false, pos 0)

abbrev pub message_rows : SessionState → List Row
message_rows s = map message_row s.messages

abbrev pub turn_rows : SessionState → List Row
turn_rows s = map turn_row s.turns

abbrev pub snapshot_rows : SessionState → List Row
snapshot_rows s = map snapshot_row s.snapshots

unfoldable pub validate_append_only_state :
    SessionState → SessionState → Result LedgerError (Unit {0})
validate_append_only_state existing incoming = do
  check_length messages (message_rows existing) (message_rows incoming)
  check_length turns (turn_rows existing) (turn_rows incoming)
  check_length snapshots (snapshot_rows existing) (snapshot_rows incoming)
  check_rows messages 0 (message_rows existing) (message_rows incoming)
  check_rows turns 0 (turn_rows existing) (turn_rows incoming)
  check_rows snapshots 0 (snapshot_rows existing) (snapshot_rows incoming)
  scan_table messages (message_rows incoming)
  scan_table turns (turn_rows incoming)
  scan_table snapshots (snapshot_rows incoming)

abbrev pub empty_state : SessionState
empty_state = record {
  tenant_id = [];
  messages = [];
  turns = [];
  snapshots = [];
  assets = [];
  last_consolidate_at = 0;
}

unfoldable pub validate_session_ledger : SessionState → Result LedgerError (Unit {0})
validate_session_ledger state = validate_append_only_state empty_state state
