-- ===== src/Memory/Store.antt =====
-- `defaultSessionOperator` of genkit-cowork/memory/sessions.go: the in-memory backend. The mutex
-- makes each method one step, so a method is a function of the store. A nil map reads as an empty
-- one. The flag `cancelled` is `ctx.Err() != nil`.
pub mod RoundTrip
pub mod History
pub mod Listing
use genkit_cowork.Base.{Bool, true, false, Option, none, some, List, [], if◌then◌else◌}
use genkit_cowork.Base.Int.{ℤ}
use genkit_cowork.Base.Bytes.{Bytes}
use genkit_cowork.Base.Result.{Result, ok, err}
use genkit_cowork.Base.Dict.{Dict, lookup, insert, erase, keys}
use genkit_cowork.Base.Sort.{sort_strings}
use genkit_cowork.Memory.Types.{SessionState, PersistenceMode}
use genkit_cowork.Memory.Ledger.{LedgerError, validate_append_only_state}
use genkit_cowork.Memory.Window.{filter_messages}

pub data StoreError : Type 0 where
  context_cancelled : StoreError
  ledger : LedgerError → StoreError

-- `store map[string]map[string]SessionState`
abbrev pub Store : Type 0
Store = Dict (Dict SessionState)

abbrev or_empty : Option (Dict SessionState) → Dict SessionState
or_empty none = []
or_empty (some sessions) = sessions

-- `o.store[tenantID]`, and `o.store[tenantID][sessionID]`
unfoldable pub sessions_of : Bytes → Store → Dict SessionState
sessions_of tenant s = or_empty (lookup tenant s)

unfoldable pub stored : Bytes → Bytes → Store → Option SessionState
unfolding sessions_of
stored tenant session s = lookup session (sessions_of tenant s)

-- `if _, ok := o.store[tenantID]; !ok { o.store[tenantID] = make(…) }`
pub ensure_tenant : Bytes → Store → Store
ensure_tenant tenant s = elim (lookup tenant s) [ none ↦ insert tenant [] s | some _ ↦ s ]

-- the check of an existing state
unfoldable pub check_existing : Option SessionState → SessionState → Result StoreError (Unit {0})
check_existing none state = ok tt
check_existing (some existing) state = elim (validate_append_only_state existing state) [
  | ok _ ↦ ok tt
  | err e ↦ err (ledger e)
]

pub write_state : Bytes → Bytes → SessionState → Store → Store
write_state tenant session state s =
    insert tenant (insert session (record state { tenant_id = tenant }) (sessions_of tenant s)) s

save_checked :
    Result StoreError (Unit {0})
    → Bytes
    → Bytes
    → SessionState
    → Store
    → Result StoreError (Unit {0}) × Store
unfolding write_state
save_checked (err e) tenant session state s = (err e, s)
save_checked (ok _) tenant session state s = (ok tt, write_state tenant session state s)

-- A refused save leaves an entry for the tenant behind.
unfoldable pub save_state :
    Bool → Bytes → Bytes → SessionState → Store → Result StoreError (Unit {0}) × Store
unfolding ensure_tenant check_existing save_checked
save_state cancelled tenant session state s =
    if cancelled
    then (err context_cancelled, s)
    else let s' = ensure_tenant tenant s in
      save_checked (check_existing (stored tenant session s') state) tenant session state s'

abbrev pub loaded : PersistenceMode → ℤ → Bytes → SessionState → SessionState
loaded mode n tenant state = record state {
  tenant_id = tenant;
  messages = filter_messages state.messages mode n;
}

unfoldable pub load_found : PersistenceMode → ℤ → Bytes → Option SessionState → Option SessionState
load_found mode n tenant none = none
load_found mode n tenant (some state) = some (loaded mode n tenant state)

unfoldable pub load_state :
    Bool → Bytes → Bytes → PersistenceMode → ℤ → Store → Result StoreError (Option SessionState)
unfolding load_found
load_state cancelled tenant session mode n s =
    if cancelled
    then err context_cancelled
    else ok (load_found mode n tenant (stored tenant session s))

-- `delete(o.store[tenantID], sessionID)`: of a tenant that is not there it is no operation.
delete_from : Bytes → Bytes → Option (Dict SessionState) → Store → Store
delete_from tenant session none s = s
delete_from tenant session (some sessions) s = insert tenant (erase session sessions) s

unfoldable pub delete_session : Bool → Bytes → Bytes → Store → Result StoreError (Unit {0}) × Store
unfolding delete_from
delete_session cancelled tenant session s =
    if cancelled
    then (err context_cancelled, s)
    else (ok tt, delete_from tenant session (lookup tenant s) s)

list_found : Option (Dict SessionState) → List Bytes
list_found none = []
list_found (some sessions) = sort_strings (keys sessions)

unfoldable pub list_sessions : Bool → Bytes → Store → Result StoreError (List Bytes)
unfolding list_found
list_sessions cancelled tenant s =
    if cancelled then err context_cancelled else ok (list_found (lookup tenant s))
