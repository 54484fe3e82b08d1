-- ===== src/Tools/Edit/Safe.antt =====
-- An edit that fails before its write leaves everything as it was.
use genkit_cowork.Base.{◌≡◌, ◌≢◌, refl}
use genkit_cowork.Base.Bytes.{Bytes}
use genkit_cowork.Base.Result.{Result, ok, err}
use genkit_cowork.Tools.Edit.{
  EditError, failed_to_write, EditToolInput, Planned, Cancelled, EditOperator, prepare_edit,
  written, write_planned, perform_edit,
}

-- An edit changes the state only through its one write: if it fails with any other error than that of
-- the write, the state is the same.
pub perform_edit_failed :
    {S : Type 0} (op : EditOperator S) (resolve : Bytes → Bytes) (cancelled : Cancelled)
    (input : EditToolInput) (s : S) {e : EditError}
    → (perform_edit op resolve cancelled input s).0 ≡ err e
    → ((why : Bytes) → e ≢ failed_to_write why)
    → (perform_edit op resolve cancelled input s).1 ≡ s
unfolding perform_edit write_planned written
perform_edit_failed {S} op resolve cancelled input s {e} h other =
    by_plan (prepare_edit op resolve cancelled input s) h
  where
    by_write :
        (p : Planned) (r : Result Bytes (Unit {0}) × S)
        → (written op resolve p r).0 ≡ err e
        → (written op resolve p r).1 ≡ s
    by_write p (ok _, s') k = cc
    by_write p (err why, s') k = absurd (other why cc)

    by_plan :
        (r : Result EditError Planned)
        → (write_planned op resolve input s r).0 ≡ err e
        → (write_planned op resolve input s r).1 ≡ s
    by_plan (err e') k = refl
    by_plan (ok p) k = by_write p (op.write_file (resolve input.path) p.final_content s) k
