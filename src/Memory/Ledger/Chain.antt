-- ===== src/Memory/Ledger/Chain.antt =====
-- Saves in a row: what the append-only check promises of a whole history.
use genkit_cowork.Base.{List, [], ◌∷◌, ◌≡◌, arith, All}
use genkit_cowork.Base.Int.{pos, ◌≤ℤ◌}
use genkit_cowork.Memory.Types.{SessionState}
use genkit_cowork.Base.Result.{ok}
use genkit_cowork.Memory.Ledger.{
  Row, message_rows, turn_rows, snapshot_rows, validate_append_only_state,
}
use genkit_cowork.Memory.Ledger.Exact.{
  Keeps, Extends, TableOk, IsExtension, validate_iff_IsExtension,
}

abbrev pub IsNonneg : List Row → Type 0
IsNonneg = All (λ r. pos 0 ≤ℤ r.sequence)

-- No sequence of the state is negative.
pub record HasNonneg (s : SessionState) : Type 0 where
  pub messages_nonneg : IsNonneg (message_rows s)
  pub turns_nonneg : IsNonneg (turn_rows s)
  pub snapshots_nonneg : IsNonneg (snapshot_rows s)

Keeps-trans : {a b c : Row} → pos 0 ≤ℤ b.sequence → Keeps a b → Keeps b c → Keeps a c
Keeps-trans h p q = record {
  same_id = cc (p.same_id, q.same_id);
  same_sequence = λ k. ground (arith, p.same_sequence k, q.same_sequence);
}

pub Extends-trans :
    (xs ys zs : List Row) → IsNonneg ys → Extends xs ys → Extends ys zs → Extends xs zs
Extends-trans [] ys zs h p q = tt
Extends-trans (x ∷ xs) [] zs h p q = absurd p
Extends-trans (x ∷ xs) (y ∷ ys) [] h p q = absurd q
Extends-trans (x ∷ xs) (y ∷ ys) (z ∷ zs) h p q =
    (Keeps-trans h.0 p.0 q.0, Extends-trans xs ys zs h.1 p.1 q.1)

TableOk-trans : {xs ys zs : List Row} → IsNonneg ys → TableOk xs ys → TableOk ys zs → TableOk xs zs
TableOk-trans {xs} {ys} {zs} h p q = record {
  extends = Extends-trans xs ys zs h p.extends q.extends;
  increasing = q.increasing;
}

pub IsExtension-trans :
    {a b c : SessionState} → HasNonneg b → IsExtension a b → IsExtension b c → IsExtension a c
IsExtension-trans h p q = record {
  messages_ok = TableOk-trans h.messages_nonneg p.messages_ok q.messages_ok;
  turns_ok = TableOk-trans h.turns_nonneg p.turns_ok q.turns_ok;
  snapshots_ok = TableOk-trans h.snapshots_nonneg p.snapshots_ok q.snapshots_ok;
}

-- Two accepted saves in a row are one accepted save, if the state between them has no negative
-- sequence: then the last state also extends the first.
pub validate_trans :
    (a b c : SessionState)
    → HasNonneg b
    → validate_append_only_state a b ≡ ok tt
    → validate_append_only_state b c ≡ ok tt
    → validate_append_only_state a c ≡ ok tt
validate_trans a b c h p q =
    (validate_iff_IsExtension a c).1 (
      IsExtension-trans h ((validate_iff_IsExtension a b).0 p) ((validate_iff_IsExtension b c).0 q))
