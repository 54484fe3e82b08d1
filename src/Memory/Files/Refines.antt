-- ===== src/Memory/Files/Refines.antt =====
-- The file backend answers as the in-memory one, while no call of the operating system fails.
use genkit_cowork.Base.{
  ℕ, Bool, true, false, ◌&&◌, Option, none, some, List, [], ◌∷◌, ◌++◌, ◌≡◌, inl, inr, refl, sym, ap,
  ◌∙◌, arith, subst, Bool-cases, if◌then◌else◌,
}
use genkit_cowork.Base.Int.{ℤ}
use genkit_cowork.Base.Bytes.{Bytes, eqb, eqb_iff, eqb_refl}
use genkit_cowork.Base.Result.{Result, err, ok}
use genkit_cowork.Base.Dict.{Dict, lookup, insert, erase, contains, lookup-insert, lookup-erase}
use genkit_cowork.Os.Path.Distinct.{IsSegment}
use genkit_cowork.Os.Path.Under.{is_under}
use genkit_cowork.Os.Disk.{
  Tree, Disk, works, end_with, call, at_once, writing, moved, found, read_file, files_outside,
  removing_all,
}
use genkit_cowork.Os.Io.{wrapped, continue}
use genkit_cowork.Memory.Types.{SessionState, PersistenceMode}
use genkit_cowork.Memory.Window.{filter_messages}
use genkit_cowork.Memory.Store.{StoreError, Store, stored, check_existing, write_state}
use genkit_cowork.Memory.Store
use genkit_cowork.Memory.Store.RoundTrip.{
  same_key, is_ok, stored-save_state, save_state-result, stored-delete_session,
}
use genkit_cowork.Memory.AtomicWrite.{
  dir_of, temp_path, created, draw, or_clean, write_temp, after_create, atomic_write_file,
}
use genkit_cowork.Memory.Files.{
  Codec, FileError, refused, state_path, session_dir, decoded, read_result, read_state_file,
  check_owner, check_after, check_state, write_result,
}
use genkit_cowork.Memory.Files
use genkit_cowork.Memory.Files.Paths.{state_path-NotTemp, eqb-state_path, is_under-state_path}

-- A disk on which every call works.
abbrev pub quiet : ℕ → List ℕ → Tree → Disk
quiet seed seeds t = record { tree = t; outcomes = []; seeds = seed ∷ seeds; is_stopped = false }

-- what a write of `content` to `p` makes of the files
abbrev pub put_file : Bytes → Bytes → Bytes → Dict Bytes → Dict Bytes
put_file p content tmp files =
    insert p content (erase tmp (insert tmp content (insert tmp [] files)))

atomic_write_file-quiet :
    (seed : ℕ) (seeds : List ℕ) (p content : Bytes) (t : Tree)
    → lookup (temp_path (dir_of p) seed) t.files ≡ none
    → atomic_write_file p content (quiet seed seeds t) ≡ (
      ok tt,
      quiet seed seeds
          (record t { files = put_file p content (temp_path (dir_of p) seed) t.files }),
    )
unfolding atomic_write_file after_create draw created call end_with at_once or_clean write_temp
    writing moved
atomic_write_file-quiet seed seeds p content t h =
    rw (h, lookup-insert, eqb_refl (temp_path (dir_of p) seed)) refl

lookup-put_file :
    (p content tmp q : Bytes) (files : Dict Bytes)
    → eqb tmp q ≡ false
    → lookup q (put_file p content tmp files) ≡ (if eqb p q then some content else lookup q files)
lookup-put_file p content tmp q files h =
    rw (lookup-insert, lookup-erase, lookup-insert, lookup-insert, h) refl

lookup-files_outside :
    (dir q : Bytes) (files : Dict Bytes)
    → lookup q (files_outside dir files) ≡ (if is_under dir q then none else lookup q files)
unfolding files_outside lookup
lookup-files_outside dir q [] = ground arith
lookup-files_outside dir q ((p, content) ∷ files) =
    ground (arith, lookup-files_outside dir q files, eqb_iff p q)

none_either : (b : Bool) (o : Option Bytes) → o ≡ none → (if b then none else o) ≡ none
none_either true o h = refl
none_either false o h = h

owned_deleted :
    (b : Bool) (o : Option SessionState) (y : SessionState) (tenant : Bytes)
    → (o ≡ some y → y.tenant_id ≡ tenant)
    → (if b then none else o) ≡ some y
    → y.tenant_id ≡ tenant
owned_deleted true o y tenant own h = cc
owned_deleted false o y tenant own h = own h

-- An answer of the in-memory store, as the file backend gives it.
abbrev pub lifted {ℓ} : {A : Type ℓ} → Result StoreError A → Result FileError A
lifted (err e) = err (refused e)
lifted (ok x) = ok x

module _ (c : ℕ) (root : Bytes) (codec : Codec) (seed : ℕ) (seeds : List ℕ) where
  -- what a state file that is there or not is read as
  unfoldable pub found_state : Option Bytes → Result FileError (Option SessionState)
  found_state none = ok none
  found_state (some text) = decoded (c ∷ root) codec (codec.unmarshal text)

  -- The state files hold the states of the store, each under its own tenant, and no temporary file
  -- is there.
  pub record Related (t : Tree) (s : Store) : Type 0 where
    pub reads :
        (tenant session : Bytes)
        → IsSegment tenant
        → IsSegment session
        → found_state (lookup (state_path (c ∷ root) codec tenant session) t.files)
          ≡ ok (stored tenant session s)
    pub owned :
        (tenant session : Bytes) (x : SessionState)
        → stored tenant session s ≡ some x
        → x.tenant_id ≡ tenant
    pub untaken : (dir : Bytes) (n : ℕ) → lookup (temp_path dir n) t.files ≡ none

  read_result-found :
      (o : Option Bytes) (t : Tree)
      → read_result (c ∷ root) codec (found o, quiet seed seeds t)
        ≡ (found_state o, quiet seed seeds t)
  unfolding found_state read_result found
  read_result-found none t = refl
  read_result-found (some text) t = refl

  read_state_file-quiet :
      (tenant session : Bytes) (t : Tree)
      → read_state_file (c ∷ root) codec tenant session (quiet seed seeds t) ≡ (
        found_state (lookup (state_path (c ∷ root) codec tenant session) t.files),
        quiet seed seeds t,
      )
  unfolding read_state_file read_file call end_with
  read_state_file-quiet tenant session t =
      read_result-found (lookup (state_path (c ∷ root) codec tenant session) t.files) t

  abbrev with_directory : Bytes → Tree → Tree
  with_directory p t =
      if contains p t.directories then t else record t { directories = t.directories ++ p ∷ [] }

  with_directory-files : (p : Bytes) (t : Tree) → (with_directory p t).files ≡ t.files
  with_directory-files p t = elim (Bool-cases (contains p t.directories)) [
    | inl there ↦ rw there refl
    | inr fresh ↦ rw fresh refl
  ]

  abbrev put_state : Bytes → Bytes → SessionState → Tree → Tree
  put_state tenant session x t =
      let p = state_path (c ∷ root) codec tenant session in
      record t { files = put_file p (codec.marshal x) (temp_path (dir_of p) seed) t.files }

  -- what a save makes of the tree, by the check of the state that is there
  abbrev tree_after : Result StoreError (Unit {0}) → Bytes → Bytes → SessionState → Tree → Tree
  tree_after (err e) tenant session x t = t
  tree_after (ok u) tenant session x t = put_state tenant session x t

  check_owner-same :
      (tenant : Bytes) (o : Option SessionState) (x : SessionState)
      → ((y : SessionState) → o ≡ some y → y.tenant_id ≡ tenant)
      → x.tenant_id ≡ tenant
      → check_owner (c ∷ root) codec o x ≡ ok tt
  unfolding check_owner
  check_owner-same tenant none x own e = refl
  check_owner-same tenant (some y) x own e =
      let same : eqb x.tenant_id y.tenant_id ≡ true =
        (eqb_iff x.tenant_id y.tenant_id).1 (e ∙ sym (own y refl)) in
      ground arith

  save_after :
      (r : Result StoreError (Unit {0})) (tenant session : Bytes) (o : Option SessionState)
      (x : SessionState) (t : Tree)
      → lookup (temp_path (dir_of (state_path (c ∷ root) codec tenant session)) seed) t.files ≡ none
      → check_owner (c ∷ root) codec o x ≡ ok tt
      → continue
          (check_after (c ∷ root) codec r o x, quiet seed seeds t)
          (λ _. Files.write_state (c ∷ root) codec tenant session x)
        ≡ (lifted r, quiet seed seeds (tree_after r tenant session x t))
  unfolding check_after continue Files.write_state write_result
  save_after (err e) tenant session o x t free owner = refl
  save_after (ok u) tenant session o x t free owner =
      rw
        (
          owner,
          atomic_write_file-quiet seed seeds (state_path (c ∷ root) codec tenant session)
              (codec.marshal x) t free,
        )
        refl

  save_file-quiet :
      (tenant session : Bytes) (x : SessionState) (t : Tree) (s : Store)
      → Related t s
      → IsSegment tenant
      → IsSegment session
      → x.tenant_id ≡ tenant
      → Files.save_state (c ∷ root) codec false tenant session x (quiet seed seeds t) ≡ (
        lifted (check_existing (stored tenant session s) x),
        quiet seed seeds (
            tree_after
              (check_existing (stored tenant session s) x)
              tenant
              session
              x
              (with_directory (session_dir (c ∷ root) codec tenant session) t)),
      )
  unfolding Files.save_state Files.save_file check_state call end_with at_once wrapped continue
  save_file-quiet tenant session x t s rel ht hn own =
      rw
        (
          read_state_file-quiet,
          with_directory-files (session_dir (c ∷ root) codec tenant session) t,
          rel.reads tenant session ht hn,
        )
        (save_after (check_existing (stored tenant session s) x) tenant session
          (stored tenant session s) x _
          (ap (lookup (temp_path _ seed)) (with_directory-files _ t) ∙ rel.untaken _ seed)
          (check_owner-same tenant (stored tenant session s) x (rel.owned tenant session) own))

  same_tenant :
      (tenant : Bytes) (x : SessionState)
      → x.tenant_id ≡ tenant
      → record x { tenant_id = tenant } ≡ x
  same_tenant tenant x e = subst (λ n. record x { tenant_id = n } ≡ x) e refl

  -- A state in the store after a save.
  stored-saved :
      (r : Result StoreError (Unit {0})) (tenant session t' n' : Bytes) (x : SessionState)
      (s : Store)
      → x.tenant_id ≡ tenant
      → check_existing (stored tenant session s) x ≡ r
      → stored t' n' (Store.save_state false tenant session x s).1
        ≡ (if is_ok r && same_key tenant session t' n' then some x else stored t' n' s)
  stored-saved r tenant session t' n' x s own e =
      stored-save_state false tenant session t' n' x s
      ∙ rw (save_state-result, e, same_tenant tenant x own) refl

  reads_saved :
      (b : Bool) (p q t' n' : Bytes) (x : SessionState) (t : Tree) (s : Store)
      → eqb p q ≡ b
      → codec.unmarshal (codec.marshal x) ≡ some x
      → found_state (lookup q t.files) ≡ ok (stored t' n' s)
      → found_state (if eqb p q then some (codec.marshal x) else lookup q t.files)
        ≡ ok (if b then some x else stored t' n' s)
  unfolding found_state decoded
  reads_saved true p q t' n' x t s e back old = rw (e, back) refl
  reads_saved false p q t' n' x t s e back old = rw e old

  owned_saved :
      (b : Bool) (tenant session t' n' : Bytes) (x : SessionState) (o : Option SessionState)
      → same_key tenant session t' n' ≡ b
      → (y : SessionState) → x.tenant_id ≡ tenant
      → (o ≡ some y → y.tenant_id ≡ t')
      → (if b then some x else o) ≡ some y
      → y.tenant_id ≡ t'
  owned_saved true tenant session t' n' x o key y own old h =
      let same : x ≡ y = cc in
      let et : tenant ≡ t' = ground (arith, eqb_iff tenant t') in
      ap (λ (z : SessionState). z.tenant_id) (sym same) ∙ own ∙ et
  owned_saved false tenant session t' n' x o key y own old h = old h

  untaken_saved :
      (p content tmp q : Bytes) (files : Dict Bytes)
      → eqb q p ≡ false
      → lookup q files ≡ none
      → lookup q (put_file p content tmp files) ≡ none
  untaken_saved p content tmp q files apart free =
      let other : eqb p q ≡ false = ground (arith, eqb_iff p q, eqb_iff q p) in
      elim (Bool-cases (eqb tmp q)) [
        | inl same ↦ rw (lookup-insert, other, lookup-erase, same) refl
        | inr diff ↦
            rw (lookup-insert, other, lookup-erase, diff, lookup-insert, diff, lookup-insert, diff)
              free
      ]

  saved-Related :
      (r : Result StoreError (Unit {0})) (tenant session : Bytes) (x : SessionState) (t : Tree)
      (s : Store)
      → Related t s
      → IsSegment tenant
      → IsSegment session
      → x.tenant_id ≡ tenant
      → codec.unmarshal (codec.marshal x) ≡ some x
      → check_existing (stored tenant session s) x ≡ r
      → Related (tree_after r tenant session x t) (Store.save_state false tenant session x s).1
  saved-Related (err e) tenant session x t s rel ht hn own back check = record {
    reads = λ t' n' ht' hn'.
        rel.reads t' n' ht' hn'
        ∙ ap ok (sym (stored-saved (err e) tenant session t' n' x s own check));
    owned = λ t' n' y h.
        rel.owned t' n' y (sym (stored-saved (err e) tenant session t' n' x s own check) ∙ h);
    untaken = rel.untaken;
  }
  saved-Related (ok u) tenant session x t s rel ht hn own back check = record {
    reads = λ t' n' ht' hn'.
        ap found_state (
          lookup-put_file (state_path (c ∷ root) codec tenant session) (codec.marshal x)
            (temp_path _ seed) (state_path (c ∷ root) codec t' n') t.files
            (state_path-NotTemp c root codec t' n' ht' hn' _ seed))
        ∙ reads_saved (same_key tenant session t' n') _ _ t' n' x t s
            (eqb-state_path c root codec tenant session t' n' ht hn ht' hn') back
            (rel.reads t' n' ht' hn')
        ∙ ap ok (sym (stored-saved (ok u) tenant session t' n' x s own check));
    owned = λ t' n' y h.
        owned_saved (same_key tenant session t' n') tenant session t' n' x _ refl y own
          (rel.owned t' n' y) (sym (stored-saved (ok u) tenant session t' n' x s own check) ∙ h);
    untaken = λ dir n.
        untaken_saved (state_path (c ∷ root) codec tenant session) (codec.marshal x) _
          (temp_path dir n) t.files (state_path-NotTemp c root codec tenant session ht hn dir n)
          (rel.untaken dir n);
  }

  reads_deleted :
      (b : Bool) (o : Option Bytes) (r : Option SessionState)
      → found_state o ≡ ok r
      → found_state (if b then none else o) ≡ ok (if b then none else r)
  unfolding found_state
  reads_deleted true o r h = refl
  reads_deleted false o r h = h

  Related-files : (t u : Tree) (s : Store) → u.files ≡ t.files → Related t s → Related u s
  Related-files t u s e rel = record {
    reads = λ t' n' ht' hn'. rw e (rel.reads t' n' ht' hn');
    owned = rel.owned;
    untaken = λ dir n. rw e (rel.untaken dir n);
  }

  loaded_same :
      (tenant : Bytes) (mode : PersistenceMode) (k : ℤ) (o : Option SessionState)
      → ((x : SessionState) → o ≡ some x → x.tenant_id ≡ tenant)
      → Files.load_found (c ∷ root) codec mode k o ≡ Store.load_found mode k tenant o
  unfolding Files.load_found Store.load_found
  loaded_same tenant mode k none own = refl
  loaded_same tenant mode k (some x) own =
      let e = own x refl in
      ap (λ n. some (record x { tenant_id = n; messages = filter_messages x.messages mode k })) e

  deleted-Related :
      (tenant session : Bytes) (t : Tree) (s : Store)
      → Related t s
      → IsSegment tenant
      → IsSegment session
      → Related
          (removing_all (session_dir (c ∷ root) codec tenant session) works t)
          (Store.delete_session false tenant session s).1
  unfolding removing_all
  deleted-Related tenant session t s rel ht hn = record {
    reads = λ t' n' ht' hn'.
        rw
          (
            lookup-files_outside,
            is_under-state_path c root codec tenant session t' n' ht hn ht' hn',
            stored-delete_session,
          )
          (reads_deleted (same_key tenant session t' n') _ _ (rel.reads t' n' ht' hn'));
    owned = λ t' n' y h.
        owned_deleted (same_key tenant session t' n') _ y t' (rel.owned t' n' y)
          (sym (stored-delete_session tenant session t' n' s) ∙ h);
    untaken = λ dir n. rw lookup-files_outside (none_either _ _ (rel.untaken dir n));
  }

  saved_both :
      (tenant session : Bytes) (x : SessionState) (t : Tree) (s : Store)
      → Related t s
      → IsSegment tenant
      → IsSegment session
      → x.tenant_id ≡ tenant
      → codec.unmarshal (codec.marshal x) ≡ some x
      → (after : Tree) × (Files.save_state
            (c ∷ root)
            codec
            false
            tenant
            session
            x
            (quiet seed seeds t)
          ≡ (lifted (Store.save_state false tenant session x s).0, quiet seed seeds after))
        × Related after (Store.save_state false tenant session x s).1
  saved_both tenant session x t s rel ht hn own back = (
    tree_after (check_existing (stored tenant session s) x) tenant session x
        (with_directory (session_dir (c ∷ root) codec tenant session) t),
    save_file-quiet tenant session x t s rel ht hn own ∙ rw (save_state-result) refl,
    saved-Related _ tenant session x _ s (Related-files t _ s (with_directory-files _ t) rel) ht hn
        own back refl,
  )

  pub save_state-Related :
      (cancelled : Bool) (tenant session : Bytes) (x : SessionState) (t : Tree) (s : Store)
      → Related t s
      → IsSegment tenant
      → IsSegment session
      → x.tenant_id ≡ tenant
      → codec.unmarshal (codec.marshal x) ≡ some x
      → (after : Tree) × (Files.save_state
            (c ∷ root)
            codec
            cancelled
            tenant
            session
            x
            (quiet seed seeds t)
          ≡ (lifted (Store.save_state cancelled tenant session x s).0, quiet seed seeds after))
        × Related after (Store.save_state cancelled tenant session x s).1
  unfolding Files.save_state Store.save_state
  save_state-Related true tenant session x t s rel ht hn own back = (t, refl, rel)
  save_state-Related false tenant session x t s rel ht hn own back =
      saved_both tenant session x t s rel ht hn own back

  pub load_state-Related :
      (cancelled : Bool) (tenant session : Bytes) (mode : PersistenceMode) (k : ℤ) (t : Tree)
      (s : Store)
      → Related t s
      → IsSegment tenant
      → IsSegment session
      → Files.load_state (c ∷ root) codec cancelled tenant session mode k (quiet seed seeds t)
        ≡ (lifted (Store.load_state cancelled tenant session mode k s), quiet seed seeds t)
  unfolding Files.load_state Store.load_state continue
  load_state-Related true tenant session mode k t s rel ht hn = refl
  load_state-Related false tenant session mode k t s rel ht hn =
      rw (read_state_file-quiet, rel.reads tenant session ht hn)
        (ap (λ o. (ok o, quiet seed seeds t))
          (loaded_same tenant mode k _ (rel.owned tenant session)))

  pub delete_session-Related :
      (cancelled : Bool) (tenant session : Bytes) (t : Tree) (s : Store)
      → Related t s
      → IsSegment tenant
      → IsSegment session
      → (after : Tree) × (Files.delete_session
            (c ∷ root)
            codec
            cancelled
            tenant
            session
            (quiet seed seeds t)
          ≡ (lifted (Store.delete_session cancelled tenant session s).0, quiet seed seeds after))
        × Related after (Store.delete_session cancelled tenant session s).1
  unfolding Files.delete_session Store.delete_session call end_with removing_all wrapped
  delete_session-Related true tenant session t s rel ht hn = (t, refl, rel)
  delete_session-Related false tenant session t s rel ht hn = (
    removing_all (session_dir (c ∷ root) codec tenant session) works t,
    refl,
    deleted-Related tenant session t s rel ht hn,
  )
