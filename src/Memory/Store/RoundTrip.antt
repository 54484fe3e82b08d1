-- ===== src/Memory/Store/RoundTrip.antt =====
-- Saves, loads and deletes of the in-memory store, as a client sees them.
use genkit_cowork.Base.{
  Bool, true, false, ◌&&◌, none, some, [], ◌≡◌, inl, inr, refl, arith, Option-cases, if◌then◌else◌,
}
use genkit_cowork.Base.Int.{ℤ}
use genkit_cowork.Base.Bytes.{Bytes, eqb, eqb_iff}
use genkit_cowork.Base.Result.{Result, ok, err}
use genkit_cowork.Base.Dict.{lookup, insert, erase, lookup-nil, lookup-insert, lookup-erase}
use genkit_cowork.Memory.Types.{SessionState, PersistenceMode}
use genkit_cowork.Memory.Store.{
  StoreError, context_cancelled, Store, or_empty, sessions_of, stored, ensure_tenant,
  check_existing, write_state, save_checked, save_state, load_state, delete_session,
}

abbrev pub same_key : Bytes → Bytes → Bytes → Bytes → Bool
same_key t n t' n' = eqb t t' && eqb n n'

sessions_of-ensure :
    (t t' : Bytes) (s : Store) → sessions_of t' (ensure_tenant t s) ≡ sessions_of t' s
unfolding sessions_of ensure_tenant
sessions_of-ensure t t' s = elim (Option-cases (lookup t s)) [
  | inl fresh ↦ ground (arith, lookup-insert t t' [] s, eqb_iff t t')
  | inr (d, e) ↦ rw (e, ensure_tenant) refl
]

pub stored-ensure :
    (t t' n' : Bytes) (s : Store) → stored t' n' (ensure_tenant t s) ≡ stored t' n' s
unfolding stored
stored-ensure t t' n' s = rw (sessions_of-ensure t t' s) refl

pub stored-write :
    (t n t' n' : Bytes) (x : SessionState) (s : Store)
    → stored t' n' (write_state t n x s)
      ≡ (if same_key t n t' n' then some (record x { tenant_id = t }) else stored t' n' s)
unfolding stored write_state sessions_of
stored-write t n t' n' x s = ground (
  arith,
  lookup-insert t t' (insert n (record x { tenant_id = t }) (or_empty (lookup t s))) s,
  lookup-insert n n' (record x { tenant_id = t }) (or_empty (lookup t s)),
  eqb_iff t t',
)

abbrev pub is_ok : Result StoreError (Unit {0}) → Bool
is_ok (ok _) = true
is_ok (err _) = false

-- One equation for a save: the key is written exactly if the save succeeds, and no other key is.
pub stored-save_state :
    (c : Bool) (t n t' n' : Bytes) (x : SessionState) (s : Store)
    → stored t' n' (save_state c t n x s).1 ≡ (
        if is_ok (save_state c t n x s).0 && same_key t n t' n'
        then some (record x { tenant_id = t })
        else stored t' n' s)
unfolding save_state
stored-save_state true t n t' n' x s = refl
stored-save_state false t n t' n' x s = by_check (check_existing (stored t n (ensure_tenant t s)) x)
  where
    by_check :
        (r : Result StoreError (Unit {0}))
        → stored t' n' (save_checked r t n x (ensure_tenant t s)).1 ≡ (
            if is_ok (save_checked r t n x (ensure_tenant t s)).0 && same_key t n t' n'
            then some (record x { tenant_id = t })
            else stored t' n' s)
    by_check (err e) = stored-ensure t t' n' s
    by_check (ok u) = rw (stored-write, stored-ensure) refl

-- Exactly the cancelled calls fail, and those whose state does not extend the stored one.
pub save_state-result :
    (c : Bool) (t n : Bytes) (x : SessionState) (s : Store)
    → (save_state c t n x s).0
      ≡ (if c then err context_cancelled else check_existing (stored t n s) x)
unfolding save_state
save_state-result true t n x s = refl
save_state-result false t n x s = rw stored-ensure (by_check (check_existing (stored t n s) x))
  where
    by_check : (r : Result StoreError (Unit {0})) → (save_checked r t n x (ensure_tenant t s)).0 ≡ r
    by_check (err e) = refl
    by_check (ok u) = refl

-- A save, whether it succeeds or not, changes no load of another tenant or another session.
pub save_state_isolated :
    (c : Bool) (t n t' n' : Bytes) (x : SessionState) (c' : Bool) (mode : PersistenceMode) (k : ℤ)
    (s : Store)
    → same_key t n t' n' ≡ false
    → load_state c' t' n' mode k (save_state c t n x s).1 ≡ load_state c' t' n' mode k s
unfolding load_state
save_state_isolated c t n t' n' x c' mode k s h = ground (arith, stored-save_state c t n t' n' x s)

-- A save that fails changes no load.
pub save_state_failed :
    (c : Bool) (t n t' n' : Bytes) (x : SessionState) (c' : Bool) (mode : PersistenceMode) (k : ℤ)
    (s : Store) {e : StoreError}
    → (save_state c t n x s).0 ≡ err e
    → load_state c' t' n' mode k (save_state c t n x s).1 ≡ load_state c' t' n' mode k s
unfolding load_state
save_state_failed c t n t' n' x c' mode k s h = rw (stored-save_state, h) refl

pub stored-delete_session :
    (t n t' n' : Bytes) (s : Store)
    → stored t' n' (delete_session false t n s).1
      ≡ (if same_key t n t' n' then none else stored t' n' s)
unfolding delete_session stored sessions_of
stored-delete_session t n t' n' s = elim (Option-cases (lookup t s)) [
  | inl fresh ↦ ground (arith, eqb_iff t t', lookup-nil {V = SessionState} n')
  | inr (d, e) ↦ ground (arith, eqb_iff t t', lookup-insert t t' (erase n d) s, lookup-erase n n' d)
]

-- A delete removes its session, and changes no load of another tenant or another session.
pub load_state-delete_session :
    (t n t' n' : Bytes) (mode : PersistenceMode) (k : ℤ) (s : Store)
    → load_state false t' n' mode k (delete_session false t n s).1
      ≡ (if same_key t n t' n' then ok none else load_state false t' n' mode k s)
unfolding load_state
load_state-delete_session t n t' n' mode k s = ground (arith, stored-delete_session t n t' n' s)
