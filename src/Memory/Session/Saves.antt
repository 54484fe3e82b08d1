-- ===== src/Memory/Session/Saves.antt =====
-- `Session.Save` and `Session.Get` over the in-memory backend.
use genkit_cowork.Base.{
  suc, false, ◌&&◌, if◌then◌else◌, Option, none, some, List, [], ◌∷◌, ◌++◌, ◌≡◌, refl, sym, ap, ◌∙◌,
  length,
}
use genkit_cowork.Base.Int.{pos}
use genkit_cowork.Base.Bytes.{Bytes, eqb_refl}
use genkit_cowork.Base.Result.{Result, ok, err}
use genkit_cowork.Memory.Types.{SessionMessage, SessionState, keep_all}
use genkit_cowork.Memory.Window.{filter_messages-keep_all}
use genkit_cowork.Memory.Ledger.{message_row, turn_row, snapshot_row}
use genkit_cowork.Memory.Ledger.Exact.{IsExtension, validate_iff_IsExtension}
use genkit_cowork.Memory.Store.{StoreError, Store, stored, check_existing, save_state, load_state}
use genkit_cowork.Memory.Store.RoundTrip.{same_key, is_ok, stored-save_state, save_state-result}
use genkit_cowork.Memory.Session.{
  SessionOptions, default_operator, World, existing_state, save_session, save_over, store_prepared,
  wrap_save,
}
use genkit_cowork.Memory.Session.Kept.{Kept, Kept-tables, TableOk-append}
use genkit_cowork.Memory.Session.Fresh.{IsFresh}
use genkit_cowork.Memory.Session.Appends.{extended, HasRoom, Appended, prepare-fresh}

Appended-IsExtension :
    (e final : SessionState) (ms : List SessionMessage)
    → Appended e final ms
    → Kept final
    → IsExtension e final
Appended-IsExtension e final ms p kept = record {
  messages_ok =
      TableOk-append message_row e.messages p.added final.messages p.messages_eq
        kept.messages_numbered;
  turns_ok =
      TableOk-append turn_row e.turns (p.turn ∷ []) final.turns p.turns_eq kept.turns_numbered;
  snapshots_ok =
      TableOk-append snapshot_row e.snapshots (p.snapshot ∷ []) final.snapshots p.snapshots_eq
        kept.snapshots_numbered;
}

Appended-check :
    (found : Option SessionState) (final : SessionState) (ms : List SessionMessage)
    → Appended (existing_state found) final ms
    → Kept final
    → check_existing found final ≡ ok tt
unfolding check_existing
Appended-check none final ms p kept = refl
Appended-check (some e) final ms p kept =
    rw
      (
        (validate_iff_IsExtension e final).1 (Appended-IsExtension e final ms p kept),
        check_existing,
      )
      refl

-- the load at the start of a save
load_existing :
    (t n : Bytes) (s : Store) (found : Option SessionState)
    → stored t n s ≡ found
    → (loaded : Option SessionState) × (load_state false t n keep_all (pos 0) s ≡ ok loaded)
      × ((existing_state loaded).messages ≡ (existing_state found).messages)
      × ((existing_state loaded).turns ≡ (existing_state found).turns)
      × ((existing_state loaded).snapshots ≡ (existing_state found).snapshots)
unfolding load_state
load_existing t n s none h = rw h (_, refl, refl, refl, refl)
load_existing t n s (some e) h =
    rw h (_, refl, filter_messages-keep_all e.messages (pos 0), refl, refl)

-- the store at the end of a save
wrap_save-ok :
    (t n : Bytes) (final : SessionState) (s : Store)
    → check_existing (stored t n s) final ≡ ok tt
    → ((wrap_save (save_state false t n final s)).0 ≡ ok tt)
      × (stored t n (wrap_save (save_state false t n final s)).1
          ≡ some (record final { tenant_id = t }))
unfolding wrap_save
wrap_save-ok t n final s h =
    by_result (save_state false t n final s) (save_state-result false t n final s ∙ h)
      (stored-save_state false t n t n final s)
  where
    by_result :
        (r : Result StoreError (Unit {0}) × Store)
        → r.0 ≡ ok tt
        → stored t n r.1 ≡ (
            if is_ok r.0 && same_key t n t n
            then some (record final { tenant_id = t })
            else stored t n s)
        → ((wrap_save r).0 ≡ ok tt)
          × (stored t n (wrap_save r).1 ≡ some (record final { tenant_id = t }))
    by_result (ok _, s') p q = (refl, rw (eqb_refl t, eqb_refl n) at q)
    by_result (err e, s') p q = cc

-- Behind a kept state (none counts as an empty one), a save of fresh messages with the stored turns
-- and snapshots succeeds, if there is no asset store and the sequences fit in an int64. What is
-- stored then has every stored entry in its place, behind it the messages with their contents, one
-- turn and one snapshot; and it is kept: all sequences run 1, 2, 3, … and the turns cut the messages
-- into consecutive windows.
pub save_session-fresh :
    (w : World) (o : SessionOptions) (n : Bytes) (x : SessionState) (m : SessionMessage)
    (ms : List SessionMessage) (s : Store) (found : Option SessionState)
    → o.asset_store ≡ none
    → stored o.tenant_id n s ≡ found
    → Kept (existing_state found)
    → IsFresh (m ∷ ms)
    → HasRoom (existing_state found) (suc (length ms))
    → (final : SessionState) × ((save_session default_operator w o n
          (some (extended (existing_state found) x (m ∷ ms)))
          s).0
        ≡ ok tt)
      × (stored o.tenant_id n
            (save_session default_operator w o n
              (some (extended (existing_state found) x (m ∷ ms)))
              s).1
          ≡ some (record final { tenant_id = o.tenant_id }))
      × Appended (existing_state found) final (m ∷ ms)
      × Kept final
unfolding save_session save_over store_prepared wrap_save
save_session-fresh w o n x m ms s found no_store h kept fresh room =
    let e = existing_state found in
    let (loaded, run, em, et, es) = load_existing o.tenant_id n s found h in
    let e' = existing_state loaded in
    let room' : HasRoom e' (suc (length ms)) = record {
      messages_fit = rw em room.messages_fit;
      turns_fit = rw et room.turns_fit;
      snapshots_fit = rw es room.snapshots_fit;
    } in
    let (final, ready, p, kept') =
      prepare-fresh w o n e' x m ms no_store (Kept-tables e e' em et es kept) fresh room' in
    let p' : Appended e final (m ∷ ms) = record {
      added = p.added;
      turn = p.turn;
      snapshot = p.snapshot;
      messages_eq = p.messages_eq ∙ ap (λ z. z ++ p.added) em;
      same = p.same;
      turns_eq = p.turns_eq ∙ ap (λ z. z ++ p.turn ∷ []) et;
      snapshots_eq = p.snapshots_eq ∙ ap (λ z. z ++ p.snapshot ∷ []) es;
    } in
    let (done, written) =
      wrap_save-ok o.tenant_id n final s (rw h (Appended-check found final (m ∷ ms) p' kept')) in
    rw (run, sym em, sym et, sym es, ready) (final, done, written, p', kept')
