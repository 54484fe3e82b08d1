-- ===== src/Memory/Store/History.antt =====
-- What stays of a session over any run of saves and deletes.
use genkit_cowork.Base.{
  Bool, true, false, some, ◌≡◌, ◌⊎◌, inl, inr, refl, subst, arith, if◌then◌else◌,
}
use genkit_cowork.Base.Bytes.{Bytes, eqb_refl}
use genkit_cowork.Base.Result.{err}
use genkit_cowork.Memory.Types.{SessionState}
use genkit_cowork.Memory.Ledger.Exact.{IsExtension, validate_iff_IsExtension}
use genkit_cowork.Memory.Ledger.Chain.{HasNonneg, IsExtension-trans}
use genkit_cowork.Memory.Store.{
  context_cancelled, Store, stored, check_existing, save_state, delete_session,
}
use genkit_cowork.Memory.Store.RoundTrip.{is_ok, same_key, stored-save_state, save_state-result}

module _ (t n : Bytes) where
  -- A call on the store: any save of a state with no negative sequence, cancelled or refused ones
  -- among them, and any delete of another session. Loads and lists leave the store alone.
  pub data Step (s : Store) : Store → Type 0 where
    save :
        (cancelled : Bool) (t' n' : Bytes) (x : SessionState)
        → HasNonneg x
        → Step s (save_state cancelled t' n' x s).1
    delete : (t' n' : Bytes) → same_key t' n' t n ≡ false → Step s (delete_session false t' n' s).1

  pub data Reach (s : Store) : Store → Type 0 where
    here : Reach s s
    next : {u v : Store} → Reach s u → Step u v → Reach s v

  -- The store holds `a` for the session, or an extension of it.
  pub record Holds (a : SessionState) (s : Store) : Type 0 where
    pub state : SessionState
    pub found : stored t n s ≡ some state
    pub nonneg : HasNonneg state
    pub extends : (state ≡ a) ⊎ IsExtension a state

-- `IsExtension` and `HasNonneg` do not look at the tenant.
retenant :
    {a x : SessionState} (t : Bytes) → IsExtension a x → IsExtension a (record x { tenant_id = t })
retenant t e = record {
  messages_ok = e.messages_ok;
  turns_ok = e.turns_ok;
  snapshots_ok = e.snapshots_ok;
}

retenant_nonneg :
    {x : SessionState} (t : Bytes) → HasNonneg x → HasNonneg (record x { tenant_id = t })
retenant_nonneg t e = record {
  messages_nonneg = e.messages_nonneg;
  turns_nonneg = e.turns_nonneg;
  snapshots_nonneg = e.snapshots_nonneg;
}

check_existing-IsExtension :
    (b x : SessionState) → is_ok (check_existing (some b) x) ≡ true → IsExtension b x
unfolding check_existing
check_existing-IsExtension b x h = (validate_iff_IsExtension b x).0 (ground arith)

extend :
    {a b x : SessionState}
    → HasNonneg b
    → (b ≡ a) ⊎ IsExtension a b
    → IsExtension b x
    → IsExtension a x
extend {x = x} nn (inl e) k = subst (λ a. IsExtension a x) e k
extend nn (inr e) k = IsExtension-trans nn e k

module _ (t n : Bytes) where
  written :
      (a x : SessionState) (c : Bool) (s : Store)
      → HasNonneg x
      → Holds t n a s
      → is_ok (save_state c t n x s).0 ≡ true
      → Holds t n a (save_state c t n x s).1
  written a x c s nn h done = record {
    state = record x { tenant_id = t };
    found = rw (stored-save_state, done, eqb_refl t, eqb_refl n) refl;
    nonneg = retenant_nonneg t nn;
    extends = inr (
        retenant t (
          extend h.nonneg h.extends (
            check_existing-IsExtension h.state x
              (accepted c (rw (save_state-result, h.found) at done)))));
  }
    where
      accepted :
          (c : Bool)
          → is_ok (if c then err context_cancelled else check_existing (some h.state) x) ≡ true
          → is_ok (check_existing (some h.state) x) ≡ true
      accepted true k = cc
      accepted false k = k
