-- ===== src/Memory/Session.antt =====
-- `Session` of genkit-cowork/memory/sessions.go: the store that flows use, over a backend. It
-- numbers what a save adds, and prunes what a load returns.
pub mod Kept
pub mod Fresh
pub mod Appends
pub mod Saves
pub mod Loads
mod Tests
use genkit_cowork.Base.{
  ℕ, suc, ◌+◌, ◌-◌, Bool, true, false, not, ◌&&◌, Option, none, some, List, [], ◌∷◌, ◌++◌, length,
  take, drop, get_elem?, ltb, leb, ◌==◌, if◌then◌else◌, map,
}
use genkit_cowork.Base.Int.{ℤ, pos, add_64}
use genkit_cowork.Base.Bytes.{Bytes, codes}
use genkit_cowork.Base.Result.{Result, ok, err, ◌>>=◌, ◌>>◌, fail_if}
use genkit_cowork.Memory.Types.{
  SessionMessage, TurnRecord, StateSnapshot, SessionState, PersistenceMode, keep_all, token_budget,
}
use genkit_cowork.Memory.Ledger.{Table, messages, turns, snapshots, empty_state}
use genkit_cowork.Memory.Budget.{Estimator, BudgetError, estimate_tokens, apply_token_budget}
use genkit_cowork.Memory.Assets.{
  SaveError, nil_session_data, load_existing, truncated, save, Supply, Taken, AssetStore,
}
use genkit_cowork.Memory.Numbering.{
  last_sequence, message_sequences, turn_sequences, snapshot_sequences, Numbered, number_messages,
  save_turns,
}
use genkit_cowork.Memory.Store.{
  Store, StoreError, save_state, load_state, delete_session, list_sessions,
}

pub record SessionOptions : Type 0 where
  pub mode : PersistenceMode
  pub n_messages : ℤ
  pub token_budget : ℤ
  pub asset_store : Option AssetStore
  pub tenant_id : Bytes
  pub token_estimator : Option Estimator

-- `SessionOperator`: what a session needs of a backend whose state is an `S`.
pub record Operator (S : Type 0) : Type 0 where
  pub save_state : Bytes → Bytes → SessionState → S → Result StoreError (Unit {0}) × S
  pub load_state : Bytes → Bytes → PersistenceMode → ℤ → S → Result StoreError (Option SessionState)
  pub delete_session : Bytes → Bytes → S → Result StoreError (Unit {0}) × S
  pub list_sessions : Bytes → S → Result StoreError (List Bytes)

-- The in-memory backend, with a context that is not cancelled.
abbrev pub default_operator : Operator Store
default_operator = record {
  save_state = save_state false;
  load_state = load_state false;
  delete_session = delete_session false;
  list_sessions = list_sessions false;
}

-- `WithPersistenceMode`, `WithTenantID`, `WithTokenBudget` and the rest change one option each.
abbrev pub with_token_budget : ℤ → SessionOptions → SessionOptions
with_token_budget budget o = record o {
  mode = token_budget;
  n_messages = budget;
  token_budget = budget;
}

abbrev pub for_tenant : Bytes → SessionOptions → SessionOptions
for_tenant tenant o = record o { tenant_id = tenant }

-- `NewSession()`
abbrev pub default_options : SessionOptions
default_options = record {
  mode = keep_all;
  n_messages = pos 0;
  token_budget = pos 0;
  asset_store = none;
  tenant_id = codes "default";
  token_estimator = some estimate_tokens;
}

with_pruned : SessionState → Result BudgetError (List SessionMessage) → SessionState
with_pruned state (err e) = state
with_pruned state (ok trimmed) = record state { messages = trimmed }

unfoldable pub apply_load_pruning : SessionOptions → SessionState → SessionState
unfolding with_pruned
apply_load_pruning o state = prune o.mode
  where
    prune : PersistenceMode → SessionState
    prune token_budget =
        with_pruned state (apply_token_budget state.messages o.token_budget o.token_estimator)
    prune _ = state

-- the mode and the number that `Get` loads with
abbrev load_mode : PersistenceMode → PersistenceMode
load_mode token_budget = keep_all
load_mode mode = mode

abbrev load_n : PersistenceMode → ℤ → ℤ
load_n token_budget n = pos 0
load_n _ n = n

get_found : SessionOptions → Option SessionState → Option SessionState
get_found o none = none
get_found o (some state) = some (apply_load_pruning o state)

-- `Session.Get`; the `session.Data` around a state adds the session's id.
unfoldable pub get :
    {S : Type 0} → Operator S → SessionOptions → Bytes → S → Result StoreError (Option SessionState)
unfolding get_found
get op o session s = do
  state ← op.load_state o.tenant_id session (load_mode o.mode) (load_n o.mode o.n_messages) s
  ok (get_found o state)

-- what a `Save` reads of the world: the supply of ids and times, and `stateChecksum`
pub record World : Type 0 where
  pub supply : Supply
  pub checksum : SessionState → Bytes

abbrev check_lengths : SessionState → SessionState → Result SaveError (Unit {0})
check_lengths existing incoming = do
  fail_if (ltb (length incoming.messages) (length existing.messages))
      (truncated messages (length existing.messages) (length incoming.messages))
  fail_if (ltb (length incoming.turns) (length existing.turns))
      (truncated turns (length existing.turns) (length incoming.turns))
  fail_if (ltb (length incoming.snapshots) (length existing.snapshots))
      (truncated snapshots (length existing.snapshots) (length incoming.snapshots))

new_snapshot : World → SessionOptions → Bytes → ℤ → SessionState → Taken → StateSnapshot
new_snapshot w o session seq incoming taken = record {
  snapshot_id = w.supply.uuid taken.ids;
  sequence = seq;
  captured_at = w.supply.now taken.times;
  tenant_id = o.tenant_id;
  session_id = session;
  message_count = pos (length incoming.messages);
  turn_sequence = last_sequence (turn_sequences incoming.turns);
  state_version = pos 1;
  state_checksum = w.checksum incoming;
}

add_snapshot : World → SessionOptions → Bytes → SessionState → SessionState → Taken → SessionState
unfolding new_snapshot
add_snapshot w o session existing incoming taken =
    let seq = add_64 (last_sequence (snapshot_sequences existing.snapshots)) (pos 1) in
    if length incoming.snapshots == length existing.snapshots
    then record incoming {
      snapshots = incoming.snapshots ++ new_snapshot w o session seq incoming taken ∷ [];
    }
    else incoming

-- the block for `newMessagesCount > 0`; the list is the new messages
append_entries :
    World
    → SessionOptions
    → Bytes
    → SessionState
    → SessionState
    → Taken
    → List SessionMessage
    → Result SaveError SessionState
unfolding add_snapshot
append_entries w o session existing incoming taken [] = ok incoming
append_entries w o session existing incoming taken (m ∷ ms) = do
  (ts, taken') ←
      save_turns w.supply incoming.turns (length existing.turns)
        (last_sequence (turn_sequences existing.turns)) m ms taken
  ok (add_snapshot w o session existing (record incoming { turns = ts }) taken')

-- `Save` between its load and its store
unfoldable pub prepare :
    World → SessionOptions → Bytes → SessionState → SessionState → Result SaveError SessionState
unfolding append_entries
prepare w o session existing incoming = do
  check_lengths existing incoming
  numbered ←
      number_messages w.supply o.asset_store incoming.tenant_id session (length existing.messages) 0
        incoming.messages (last_sequence (message_sequences existing.messages)) incoming.assets
        (record { ids = 0; times = 0 })
  append_entries w o session existing
      (record incoming { messages = numbered.messages; assets = numbered.assets }) numbered.taken
      (drop (length existing.messages) numbered.messages)

-- No state is an empty one.
abbrev pub existing_state : Option SessionState → SessionState
existing_state none = empty_state
existing_state (some state) = state

wrap_save : {S : Type 0} → Result StoreError (Unit {0}) × S → Result SaveError (Unit {0}) × S
wrap_save (ok _, s) = (ok tt, s)
wrap_save (err e, s) = (err (save e), s)

store_prepared :
    {S : Type 0}
    → Operator S
    → SessionOptions
    → Bytes
    → S
    → Result SaveError SessionState
    → Result SaveError (Unit {0}) × S
unfolding wrap_save
store_prepared op o session s (err e) = (err e, s)
store_prepared op o session s (ok incoming) =
    wrap_save (op.save_state o.tenant_id session incoming s)

save_over :
    {S : Type 0}
    → Operator S
    → World
    → SessionOptions
    → Bytes
    → SessionState
    → S
    → Result StoreError (Option SessionState)
    → Result SaveError (Unit {0}) × S
unfolding store_prepared
save_over op w o session incoming s (err e) = (err (load_existing e), s)
save_over op w o session incoming s (ok existing) =
    store_prepared op o session s (prepare w o session (existing_state existing) incoming)

-- `Session.Save`; `none` is a nil pointer.
unfoldable pub save_session :
    {S : Type 0}
    → Operator S
    → World
    → SessionOptions
    → Bytes
    → Option SessionState
    → S
    → Result SaveError (Unit {0}) × S
unfolding save_over
save_session op w o session none s = (err nil_session_data, s)
save_session op w o session (some incoming) s =
    save_over op w o session incoming s (op.load_state o.tenant_id session keep_all (pos 0) s)
