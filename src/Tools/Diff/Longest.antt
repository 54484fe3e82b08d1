-- ===== src/Tools/Diff/Longest.antt =====
-- The walk back through the table of a diff keeps a longest common subsequence of the lines.
use mathlib.Core.List.{reverse-cons}
use genkit_cowork.Base.{
  ℕ, suc, ◌+◌, ◌≤◌, true, false, List, [], ◌∷◌, ◌++◌, ◌≡◌, refl, sym, ap, ◌∙◌, ◌⊎◌, inl, inr, arith,
  reverse, length, length-reverse, All, Sublist, nil, keep, skip, Bool-cases, leb, if◌then◌else◌,
}
use genkit_cowork.Base.Bytes.{Bytes, eqb, eqb_iff}
use genkit_cowork.Tools.Diff.{
  equal, insert, delete, Change, change, same_type, merge_from, merge, table, walk, tokenize,
  diff_lines,
}
use genkit_cowork.Tools.Diff.Patch.{
  same_type-eq, prefers_insert, walk-equal, walk-insert, walk-delete,
}
use genkit_cowork.Tools.Diff.Table.{lcs, lcs-nil, Behind, Behind-tail, Behind-all, cell-lcs}

module _ (o : Bytes) (os : List Bytes) (n : Bytes) (ns : List Bytes) where
  lcs-equal : eqb o n ≡ true → lcs (o ∷ os) (n ∷ ns) ≡ suc (lcs os ns)
  unfolding lcs
  lcs-equal h = ground arith

  lcs-max :
      eqb o n ≡ false
      → (leb (lcs os (n ∷ ns)) (lcs (o ∷ os) ns) ≡ true → lcs (o ∷ os) (n ∷ ns) ≡ lcs (o ∷ os) ns)
        × (leb (lcs os (n ∷ ns)) (lcs (o ∷ os) ns) ≡ false
            → lcs (o ∷ os) (n ∷ ns) ≡ lcs os (n ∷ ns))
        × (lcs (o ∷ os) ns ≤ lcs (o ∷ os) (n ∷ ns))
        × (lcs os (n ∷ ns) ≤ lcs (o ∷ os) (n ∷ ns))
  unfolding lcs
  lcs-max h = ground arith

abbrev of_equal : Change → ℕ
of_equal c = if same_type c.change_type equal then suc c.count else 0

-- the number of lines in the equal changes; a merged change counts one line less than it holds
unfoldable pub equal_lines : List Change → ℕ
equal_lines [] = 0
equal_lines (c ∷ cs) = of_equal c + equal_lines cs

module _ (old new : List Bytes) where
  -- The walk keeps as many lines as the table says.
  walk-lcs :
      (os ns : List Bytes) (cs : List Change)
      → Behind os old
      → Behind ns new
      → equal_lines (walk (table old new) os ns cs) ≡ lcs os ns + equal_lines cs
  unfolding equal_lines same_type walk lcs
  walk-lcs [] [] cs b c = omega arith
  walk-lcs [] (n ∷ ns) cs b c =
      walk-lcs [] ns (change insert n ∷ cs) b (Behind-tail n ns new c) ∙ omega arith
  walk-lcs (o ∷ os) [] cs b c =
      walk-lcs os [] (change delete o ∷ cs) (Behind-tail o os old b) c ∙ ground (arith, lcs-nil os)
  walk-lcs (o ∷ os) (n ∷ ns) cs b c = elim (Bool-cases (eqb o n)) [
    | inl same ↦
        ap equal_lines (walk-equal dp o os n ns cs same)
        ∙ walk-lcs os ns (change equal o ∷ cs) (Behind-tail o os old b) (Behind-tail n ns new c)
        ∙ omega (arith, lcs-equal o os n ns same)
    | inr differ ↦ elim (Bool-cases (prefers_insert dp o os n ns cs)) [
      | inl left ↦
          ap equal_lines (walk-insert dp o os n ns cs differ left)
          ∙ walk-lcs (o ∷ os) ns (change insert n ∷ cs) b (Behind-tail n ns new c)
          ∙ omega (arith, (lcs-max o os n ns differ).0 (sym prefers ∙ left))
      | inr up ↦
          ap equal_lines (walk-delete dp o os n ns cs differ up)
          ∙ walk-lcs os (n ∷ ns) (change delete o ∷ cs) (Behind-tail o os old b) c
          ∙ omega (arith, (lcs-max o os n ns differ).1 (sym prefers ∙ up))
    ]
  ]
    where
      dp : List (List ℕ)
      dp = table old new

      prefers : prefers_insert dp o os n ns cs ≡ leb (lcs os (n ∷ ns)) (lcs (o ∷ os) ns)
      prefers =
          rw
            (
              cell-lcs old new os (n ∷ ns) (Behind-tail o os old b) c,
              cell-lcs old new (o ∷ os) ns b (Behind-tail n ns new c),
            )
            refl

Sublist-tail : {x y : Bytes} {xs ys : List Bytes} → Sublist (x ∷ xs) (y ∷ ys) → Sublist xs ys
Sublist-tail (keep x s) = s
Sublist-tail (skip y s) = weaken s
  where
    weaken : {x : Bytes} {xs ys : List Bytes} → Sublist (x ∷ xs) ys → Sublist xs ys
    weaken (keep x s) = skip x s
    weaken (skip y s) = skip y (weaken s)

Sublist-first :
    {x y : Bytes} {xs ys : List Bytes} → Sublist (x ∷ xs) (y ∷ ys) → (x ≡ y) ⊎ Sublist (x ∷ xs) ys
Sublist-first (keep x s) = inl refl
Sublist-first (skip y s) = inr s

Sublist-length-nil : {xs : List Bytes} → Sublist xs [] → length xs ≡ 0
Sublist-length-nil nil = refl

-- No common subsequence is longer.
lcs-bound : (xs os ns : List Bytes) → Sublist xs os → Sublist xs ns → length xs ≤ lcs os ns
lcs-bound [] os ns p q = omega arith
lcs-bound (x ∷ xs) [] ns p q = omega (arith, Sublist-length-nil p)
lcs-bound (x ∷ xs) (o ∷ os) [] p q = omega (arith, Sublist-length-nil q)
lcs-bound (x ∷ xs) (o ∷ os) (n ∷ ns) p q = elim (Bool-cases (eqb o n)) [
  | inl same ↦
      omega (arith, lcs-equal o os n ns same, lcs-bound xs os ns (Sublist-tail p) (Sublist-tail q))
  | inr differ ↦ elim (Sublist-first p) [
    | inr below ↦
        omega (arith, (lcs-max o os n ns differ).3, lcs-bound (x ∷ xs) os (n ∷ ns) below q)
    | inl at_o ↦ elim (Sublist-first q) [
      | inr below ↦
          omega (arith, (lcs-max o os n ns differ).2, lcs-bound (x ∷ xs) (o ∷ os) ns p below)
      | inl at_n ↦ ground (arith, eqb_iff o n)
    ]
  ]
]

Sublist-concat :
    {xs ys : List Bytes} (x : Bytes) → Sublist xs ys → Sublist (xs ++ x ∷ []) (ys ++ x ∷ [])
Sublist-concat x nil = keep x nil
Sublist-concat x (keep y s) = keep y (Sublist-concat x s)
Sublist-concat x (skip y s) = skip y (Sublist-concat x s)

Sublist-snoc : {xs ys : List Bytes} (y : Bytes) → Sublist xs ys → Sublist xs (ys ++ y ∷ [])
Sublist-snoc y nil = skip y nil
Sublist-snoc y (keep z s) = keep z (Sublist-snoc y s)
Sublist-snoc y (skip z s) = skip z (Sublist-snoc y s)

Sublist-reverse : {xs ys : List Bytes} → Sublist xs ys → Sublist (reverse xs) (reverse ys)
Sublist-reverse nil = nil
Sublist-reverse (keep {xs} {ys} x s) =
    rw (reverse-cons x xs, reverse-cons x ys) (Sublist-concat x (Sublist-reverse s))
Sublist-reverse (skip {xs} {ys} y s) = rw (reverse-cons y ys) (Sublist-snoc y (Sublist-reverse s))

-- the changes before the merging stand for one line each
AllSingle : List Change → Type 0
AllSingle = All (λ c. c.count ≡ 0)

walk-AllSingle :
    (dp : List (List ℕ)) (os ns : List Bytes) (cs : List Change)
    → AllSingle cs
    → AllSingle (walk dp os ns cs)
unfolding walk AllSingle
walk-AllSingle dp [] [] cs h = h
walk-AllSingle dp [] (n ∷ ns) cs h = walk-AllSingle dp [] ns (change insert n ∷ cs) (refl, h)
walk-AllSingle dp (o ∷ os) [] cs h = walk-AllSingle dp os [] (change delete o ∷ cs) (refl, h)
walk-AllSingle dp (o ∷ os) (n ∷ ns) cs h = elim (Bool-cases (eqb o n)) [
  | inl same ↦
      rw (walk-equal dp o os n ns cs same) (walk-AllSingle dp os ns (change equal o ∷ cs) (refl, h))
  | inr differ ↦ elim (Bool-cases (prefers_insert dp o os n ns cs)) [
    | inl left ↦
        rw (walk-insert dp o os n ns cs differ left)
          (walk-AllSingle dp (o ∷ os) ns (change insert n ∷ cs) (refl, h))
    | inr up ↦
        rw (walk-delete dp o os n ns cs differ up)
          (walk-AllSingle dp os (n ∷ ns) (change delete o ∷ cs) (refl, h))
  ]
]

equal_lines-merge_from :
    (last : Change) (cs : List Change)
    → AllSingle cs
    → equal_lines (merge_from last cs) ≡ equal_lines (last ∷ cs)
unfolding merge_from equal_lines AllSingle
equal_lines-merge_from last [] h = refl
equal_lines-merge_from last (c ∷ cs) h =
    elim (Bool-cases (same_type last.change_type c.change_type)) [
      | inl same ↦
          rw
            (
              same,
              equal_lines-merge_from
                  (record last { value = last.value ++ c.value; count = last.count + 1 }) cs h.1,
            )
            (ground (arith, h.0, same_type-eq last.change_type c.change_type same))
      | inr differ ↦ rw (differ, equal_lines-merge_from c cs h.1) refl
    ]

equal_lines-merge : (cs : List Change) → AllSingle cs → equal_lines (merge cs) ≡ equal_lines cs
unfolding merge equal_lines AllSingle
equal_lines-merge [] h = refl
equal_lines-merge (c ∷ cs) h = equal_lines-merge_from c cs h.1

-- No common subsequence of the lines of both texts is longer than the number of lines that a diff
-- shows as equal.
pub diff_lines-longest :
    (old new : Bytes) (xs : List Bytes)
    → Sublist xs (tokenize old true)
    → Sublist xs (tokenize new true)
    → length xs ≤ equal_lines (diff_lines old new)
unfolding diff_lines AllSingle
diff_lines-longest old new xs p q =
    let o = tokenize old true in
    let n = tokenize new true in
    let cs = walk (table o n) (reverse o) (reverse n) [] in
    omega (
      arith,
      length-reverse xs,
      lcs-bound (reverse xs) (reverse o) (reverse n) (Sublist-reverse p) (Sublist-reverse q),
      walk-lcs o n (reverse o) (reverse n) [] (Behind-all o) (Behind-all n),
      equal_lines-merge cs (walk-AllSingle (table o n) (reverse o) (reverse n) [] tt),
    )
