-- ===== src/Memory/AtomicWrite/Kept.antt =====
-- What a write of a file keeps, whatever calls fail and wherever the process stops.
use genkit_cowork.Base.{
  ℕ, zero, suc, Bool, true, false, Option, none, some, List, [], ◌∷◌, ◌≡◌, ◌≢◌, ◌⊎◌, inl, inr, refl,
  sym, ap, ◌∙◌, subst, if◌then◌else◌,
}
use genkit_cowork.Base.Bytes.{Bytes, eqb, eqb_refl}
use genkit_cowork.Base.Dict.{Dict, lookup, is_some, lookup-insert, lookup-erase}
use genkit_cowork.Base.Result.{Result, err, ok}
use genkit_cowork.Os.Disk.{
  Outcome, works, fails, stops, Tree, Disk, DiskError, stopped, first_outcome, end_with, at_once,
  nothing, writing, moved, call, renaming, rename, remove,
}
use genkit_cowork.Memory.AtomicWrite.{
  WriteStep, WriteError, write_failed, write, sync, close, chmod, replace, dir_of, temp_path,
  creating, created, draw, or_clean, write_temp, after_create, atomic_write_file,
}

abbrev pub file_at : Bytes → Disk → Option Bytes
file_at p d = lookup p d.tree.files

if-cases {ℓ} :
    {A : Type ℓ} (b : Bool) (x y : A) → ((if b then x else y) ≡ x) ⊎ ((if b then x else y) ≡ y)
if-cases true x y = inl refl
if-cases false x y = inr refl

-- A call is not made, or it ends in one of the three ways.
pub call-cases :
    (effect : Outcome → Tree → Tree) (d : Disk)
    → (call effect d ≡ (err stopped, d))
      ⊎ (call effect d ≡ end_with d (first_outcome d.outcomes) effect)
unfolding call
call-cases effect d =
    if-cases d.is_stopped (err stopped, d) (end_with d (first_outcome d.outcomes) effect)

end_with-tree :
    (d : Disk) (o : Outcome) (effect : Outcome → Tree → Tree)
    → (end_with d o effect).1.tree ≡ effect o d.tree
unfolding end_with
end_with-tree d works effect = refl
end_with-tree d (fails k) effect = refl
end_with-tree d (stops k) effect = refl

-- A call keeps what its effect keeps, however it ends.
pub call-file_at :
    (q : Bytes) (effect : Outcome → Tree → Tree) (d : Disk)
    → ((o : Outcome) → lookup q (effect o d.tree).files ≡ lookup q d.tree.files)
    → file_at q (call effect d).1 ≡ file_at q d
call-file_at q effect d h = elim (call-cases effect d) [
  | inl halted ↦ ap (λ (r : Result DiskError (Unit {0}) × Disk). file_at q r.1) halted
  | inr made ↦
      ap (λ (r : Result DiskError (Unit {0}) × Disk). file_at q r.1) made
      ∙ ap (λ (t : Tree). lookup q t.files) (end_with-tree d (first_outcome d.outcomes) effect)
      ∙ h (first_outcome d.outcomes)
]

pub at_once-keeps :
    (q : Bytes) (change : Tree → Tree) (t : Tree) (o : Outcome)
    → lookup q (change t).files ≡ lookup q t.files
    → lookup q (at_once change o t).files ≡ lookup q t.files
unfolding at_once
at_once-keeps q change t works h = h
at_once-keeps q change t (fails k) h = refl
at_once-keeps q change t (stops zero) h = refl
at_once-keeps q change t (stops (suc k)) h = h

writing-keeps :
    (q p content : Bytes) (t : Tree) (o : Outcome)
    → eqb p q ≡ false
    → lookup q (writing p content o t).files ≡ lookup q t.files
unfolding writing
writing-keeps q p content t works h = rw (lookup-insert, h) refl
writing-keeps q p content t (fails k) h = rw (lookup-insert, h) refl
writing-keeps q p content t (stops k) h = rw (lookup-insert, h) refl

remove-keeps : (q p : Bytes) (d : Disk) → eqb p q ≡ false → file_at q (remove p d).1 ≡ file_at q d
remove-keeps q p d h =
    call-file_at q _ d
      (λ o. at_once-keeps q _ d.tree o (rw (lookup-erase p q d.tree.files, h) refl))

moved-keeps :
    (q from to : Bytes) (o : Option Bytes) (files : Dict Bytes)
    → eqb from q ≡ false
    → eqb to q ≡ false
    → lookup q (moved from to o files) ≡ lookup q files
unfolding moved
moved-keeps q from to none files h k = refl
moved-keeps q from to (some content) files h k = rw (lookup-insert, k, lookup-erase, h) refl

-- how a write of `content` to the file at `p`, which read as `before`, can end
abbrev pub Ends : Bytes → Option Bytes → Bytes → Result WriteError (Unit {0}) × Disk → Type 0
Ends p before content r =
    ((r.0 ≢ ok tt) × (file_at p r.1 ≡ before))
    ⊎ (((r.0 ≡ ok tt) ⊎ (r.0 ≡ err (write_failed replace stopped)))
        × (file_at p r.1 ≡ some content))

or_clean-Ends :
    (p tmp content : Bytes) (before : Option Bytes) (step : WriteStep)
    (x : Result DiskError (Unit {0}) × Disk) (next : Disk → Result WriteError (Unit {0}) × Disk)
    → eqb tmp p ≡ false
    → file_at p x.1 ≡ before
    → (x.0 ≡ ok tt → Ends p before content (next x.1))
    → Ends p before content (or_clean tmp step x next)
unfolding or_clean
or_clean-Ends p tmp content before step (err e, d) next apart old go_on =
    inl (λ h. cc, remove-keeps p tmp d apart ∙ old)
or_clean-Ends p tmp content before step (ok u, d) next apart old go_on = go_on refl

or_clean-keeps :
    (q tmp : Bytes) (before : Option Bytes) (step : WriteStep)
    (x : Result DiskError (Unit {0}) × Disk) (next : Disk → Result WriteError (Unit {0}) × Disk)
    → eqb tmp q ≡ false
    → file_at q x.1 ≡ before
    → ((d : Disk) → file_at q d ≡ before → file_at q (next d).1 ≡ before)
    → file_at q (or_clean tmp step x next).1 ≡ before
unfolding or_clean
or_clean-keeps q tmp before step (err e, d) next apart old go_on = remove-keeps q tmp d apart ∙ old
or_clean-keeps q tmp before step (ok u, d) next apart old go_on = go_on d old

nothing-keeps : (q : Bytes) (d : Disk) → file_at q (call nothing d).1 ≡ file_at q d
nothing-keeps q d = call-file_at q nothing d (λ o. refl)

rename-keeps :
    (q from to : Bytes) (d : Disk)
    → eqb from q ≡ false
    → eqb to q ≡ false
    → file_at q (rename from to d).1 ≡ file_at q d
rename-keeps q from to d h k = call-file_at q _ d (λ o.
    at_once-keeps q _ d.tree o (moved-keeps q from to (lookup from d.tree.files) d.tree.files h k))

end_with-ok :
    (effect : Outcome → Tree → Tree) (d : Disk) (o : Outcome)
    → (end_with d o effect).0 ≡ ok tt
    → (end_with d o effect).1.tree ≡ effect works d.tree
unfolding end_with
end_with-ok effect d works k = refl
end_with-ok effect d (fails n) k = cc
end_with-ok effect d (stops n) k = cc

-- A call that returns no error has its whole effect.
pub call-ok :
    (effect : Outcome → Tree → Tree) (d : Disk)
    → (call effect d).0 ≡ ok tt
    → (call effect d).1.tree ≡ effect works d.tree
call-ok effect d h = elim (call-cases effect d) [
  | inl halted ↦ let refused = ap (λ (r : Result DiskError (Unit {0}) × Disk). r.0) halted in cc
  | inr made ↦
      ap (λ (r : Result DiskError (Unit {0}) × Disk). r.1.tree) made
      ∙ end_with-ok effect d (first_outcome d.outcomes)
          (ap (λ (r : Result DiskError (Unit {0}) × Disk). r.0) (sym made) ∙ h)
]

writing-full :
    (p content : Bytes) (d : Disk)
    → (call (writing p content) d).0 ≡ ok tt
    → file_at p (call (writing p content) d).1 ≡ some content
unfolding writing
writing-full p content d h =
    ap (λ (t : Tree). lookup p t.files) (call-ok (writing p content) d h)
    ∙ lookup-insert p p content d.tree.files
    ∙ rw (eqb_refl p) refl

moved-lookup :
    (from to content : Bytes) (files : Dict Bytes)
    → lookup from files ≡ some content
    → lookup to (moved from to (lookup from files) files) ≡ some content
unfolding moved
moved-lookup from to content files h = rw (h, lookup-insert, eqb_refl to) refl

module _ (p tmp content : Bytes) (before : Option Bytes) (apart : eqb tmp p ≡ false) where
  rename-Ends :
      (d : Disk) (o : Outcome)
      → file_at tmp d ≡ some content
      → file_at p d ≡ before
      → Ends p before content
          (or_clean tmp replace (end_with d o (at_once (renaming tmp p))) (λ d. (ok tt, d)))
  unfolding or_clean end_with at_once
  rename-Ends d works full old = inr (inl refl, moved-lookup tmp p content d.tree.files full)
  rename-Ends d (fails k) full old = inl (λ h. cc, remove-keeps p tmp _ apart ∙ old)
  rename-Ends d (stops zero) full old = inl (λ h. cc, remove-keeps p tmp _ apart ∙ old)
  rename-Ends d (stops (suc k)) full old =
      inr (inr refl, remove-keeps p tmp _ apart ∙ moved-lookup tmp p content d.tree.files full)

  replace-Ends :
      (d : Disk)
      → file_at tmp d ≡ some content
      → file_at p d ≡ before
      → Ends p before content (or_clean tmp replace (rename tmp p d) (λ d. (ok tt, d)))
  replace-Ends d full old = elim (call-cases (at_once (renaming tmp p)) d) [
    | inl halted ↦
        subst (λ r. Ends p before content (or_clean tmp replace r (λ d. (ok tt, d)))) (sym halted)
          (or_clean-Ends p tmp content before replace (err stopped, d) _ apart old (λ h. cc))
    | inr made ↦
        subst (λ r. Ends p before content (or_clean tmp replace r (λ d. (ok tt, d)))) (sym made)
          (rename-Ends d (first_outcome d.outcomes) full old)
  ]

  write_temp-Ends :
      (d : Disk) → file_at p d ≡ before → Ends p before content (write_temp p content tmp d)
  unfolding write_temp
  write_temp-Ends d old =
      let d1 = (call (writing tmp content) d).1 in
      let d2 = (call nothing d1).1 in
      let d3 = (call nothing d2).1 in
      let d4 = (call nothing d3).1 in
      let old1 : file_at p d1 ≡ before =
        call-file_at p (writing tmp content) d (λ o. writing-keeps p tmp content d.tree o apart)
        ∙ old in
      let old2 : file_at p d2 ≡ before = nothing-keeps p d1 ∙ old1 in
      let old3 : file_at p d3 ≡ before = nothing-keeps p d2 ∙ old2 in
      let old4 : file_at p d4 ≡ before = nothing-keeps p d3 ∙ old3 in
      or_clean-Ends p tmp content before write _ _ apart old1 (λ done.
        let full4 : file_at tmp d4 ≡ some content =
          nothing-keeps tmp d3
          ∙ nothing-keeps tmp d2
          ∙ nothing-keeps tmp d1
          ∙ writing-full tmp content d done in
        or_clean-Ends p tmp content before sync _ _ apart old2 (λ _.
          or_clean-Ends p tmp content before close _ _ apart old3 (λ _.
            or_clean-Ends p tmp content before chmod _ _ apart old4
              (λ _. replace-Ends d4 full4 old4))))

  write_temp-keeps :
      (q : Bytes) (d : Disk)
      → eqb tmp q ≡ false
      → eqb p q ≡ false
      → file_at q (write_temp p content tmp d).1 ≡ file_at q d
  unfolding write_temp
  write_temp-keeps q d other away =
      or_clean-keeps q tmp _ write _ _ other
        (call-file_at q (writing tmp content) d (λ o. writing-keeps q tmp content d.tree o other))
        (λ d1 old1. or_clean-keeps q tmp _ sync _ _ other (nothing-keeps q d1 ∙ old1) (λ d2 old2.
          or_clean-keeps q tmp _ close _ _ other (nothing-keeps q d2 ∙ old2) (λ d3 old3.
            or_clean-keeps q tmp _ chmod _ _ other (nothing-keeps q d3 ∙ old3) (λ d4 old4.
              or_clean-keeps q tmp _ replace _ _ other (rename-keeps q tmp p d4 other away ∙ old4)
                (λ d5 old5. old5)))))

-- no path that `os.CreateTemp` draws
abbrev pub NotTemp : Bytes → Type 0
NotTemp q = (dir : Bytes) (seed : ℕ) → eqb (temp_path dir seed) q ≡ false

pub record Drawn (dir q : Bytes) (d : Disk) (r : Result DiskError Bytes × Disk) : Type 0 where
  pub kept : NotTemp q → file_at q r.1 ≡ file_at q d
  pub drawn : (tmp : Bytes) → r.0 ≡ ok tmp → (seed : ℕ) × (tmp ≡ temp_path dir seed)

created-Drawn :
    (dir q : Bytes) (seed : ℕ) (d : Disk) (x : Result DiskError (Unit {0}) × Disk)
    → (NotTemp q → file_at q x.1 ≡ file_at q d)
    → Drawn dir q d (created (temp_path dir seed) x)
unfolding created
created-Drawn dir q seed d (err e, after) h = record { kept = h; drawn = λ tmp k. cc }
created-Drawn dir q seed d (ok u, after) h = record { kept = h; drawn = λ tmp k. (seed, cc) }

draw-Drawn : (dir q : Bytes) (seeds : List ℕ) (d : Disk) → Drawn dir q d (draw dir seeds d)
unfolding draw
draw-Drawn dir q [] d = record { kept = λ h. refl; drawn = λ tmp h. cc }
draw-Drawn dir q (seed ∷ seeds) d =
    elim (if-cases (is_some (lookup (temp_path dir seed) d.tree.files)) (draw dir seeds d)
      (created (temp_path dir seed) (call (at_once (creating (temp_path dir seed))) d))) [
        | inl taken ↦ subst (Drawn dir q d) (sym taken) (draw-Drawn dir q seeds d)
        | inr free ↦ subst (Drawn dir q d) (sym free) (
            created-Drawn dir q seed d _ (λ h.
              call-file_at q (at_once (creating (temp_path dir seed))) d (λ o.
                at_once-keeps q (creating (temp_path dir seed)) d.tree o
                  (rw (lookup-insert, h dir seed) refl))))
      ]

after_create-Ends :
    (p content q dir : Bytes) (d : Disk) (x : Result DiskError Bytes × Disk)
    → NotTemp p
    → Drawn dir p d x
    → Drawn dir q d x
    → Ends p (file_at p d) content (after_create p content x)
      × (NotTemp q → eqb p q ≡ false → file_at q (after_create p content x).1 ≡ file_at q d)
unfolding after_create
after_create-Ends p content q dir d (err e, after) named at_p at_q =
    (inl (λ h. cc, at_p.kept named), λ other away. at_q.kept other)
after_create-Ends p content q dir d (ok tmp, after) named at_p at_q =
    let (seed, e) = at_p.drawn tmp refl in
    let apart : eqb tmp p ≡ false = rw e (named dir seed) in
    (
      write_temp-Ends p tmp content (file_at p d) apart after (at_p.kept named),
      λ other away.
          write_temp-keeps p tmp content (file_at p d) apart q after (rw e (other dir seed)) away
          ∙ at_q.kept other,
    )

-- A write of a file ends in one of two ways, whatever calls fail and wherever the process stops:
-- with an error, and the file as it was; or with the new content whole, with no error unless the
-- process stopped during the last call. Other files that have no temporary name stay as they are.
pub atomic_write_file-Ends :
    (p content q : Bytes) (d : Disk)
    → NotTemp p
    → Ends p (file_at p d) content (atomic_write_file p content d)
      × (NotTemp q → eqb p q ≡ false → file_at q (atomic_write_file p content d).1 ≡ file_at q d)
unfolding atomic_write_file
atomic_write_file-Ends p content q d named =
    after_create-Ends p content q (dir_of p) d (draw (dir_of p) d.seeds d) named
      (draw-Drawn (dir_of p) p d.seeds d) (draw-Drawn (dir_of p) q d.seeds d)
