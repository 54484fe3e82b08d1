-- ===== src/Tools/Diff/Patch.antt =====
-- A diff holds both texts: read one way it is the old one, read the other way the new one.
use mathlib.Core.List.{reverse-cons, reverse-reverse}
use genkit_cowork.Base.{
  ℕ, suc, ◌+◌, Bool, true, false, List, [], ◌∷◌, ◌++◌, append_assoc, append-nil, ◌≡◌, refl, sym, ap,
  ◌∙◌, inl, inr, arith, reverse, Bool-cases, ◌==◌, if◌then◌else◌, leb, length,
}
use genkit_cowork.Base.Bytes.{Bytes, eqb, eqb_iff}
use genkit_cowork.Tools.Lines.{newline}
use genkit_cowork.Tools.Endings.{normalize_to_lf}
use genkit_cowork.Tools.Diff.{
  ChangeType, equal, insert, delete, Change, change, cell, walk, same_type, merge_from, merge,
  split_after, tokenize, table, diff_lines,
}

abbrev pub concat : List Bytes → Bytes
concat [] = []
concat (l ∷ ls) = l ++ concat ls

-- the text of the changes but for those of the one type
unfoldable pub without : ChangeType → List Change → Bytes
without t [] = []
without t (c ∷ cs) = (if same_type t c.change_type then [] else c.value) ++ without t cs

concat-append : (ls ms : List Bytes) → concat (ls ++ ms) ≡ concat ls ++ concat ms
concat-append [] ms = refl
concat-append (l ∷ ls) ms =
    ap (λ z. l ++ z) (concat-append ls ms) ∙ sym (append_assoc l (concat ls) (concat ms))

-- a line moved from the end of the lines to the front of the text behind them
concat-reverse :
    (l : Bytes) (ls : List Bytes) (rest : Bytes)
    → concat (reverse (l ∷ ls)) ++ rest ≡ concat (reverse ls) ++ (l ++ rest)
concat-reverse l ls rest =
    rw (reverse-cons l ls, concat-append (reverse ls) (l ∷ []), append-nil l)
      (append_assoc (concat (reverse ls)) l rest)

module _ (dp : List (List ℕ)) (o : Bytes) (os : List Bytes) (n : Bytes) (ns : List Bytes)
    (cs : List Change) where
  -- dp[i][j-1] >= dp[i-1][j]
  abbrev pub prefers_insert : Bool
  prefers_insert =
      leb (cell dp (length os) (suc (length ns))) (cell dp (suc (length os)) (length ns))

  pub walk-equal :
      eqb o n ≡ true → walk dp (o ∷ os) (n ∷ ns) cs ≡ walk dp os ns (change equal o ∷ cs)
  unfolding walk
  walk-equal h = ground (arith, h)

  pub walk-insert :
      eqb o n ≡ false
      → prefers_insert ≡ true
      → walk dp (o ∷ os) (n ∷ ns) cs ≡ walk dp (o ∷ os) ns (change insert n ∷ cs)
  unfolding walk
  walk-insert h k = ground arith

  pub walk-delete :
      eqb o n ≡ false
      → prefers_insert ≡ false
      → walk dp (o ∷ os) (n ∷ ns) cs ≡ walk dp os (n ∷ ns) (change delete o ∷ cs)
  unfolding walk
  walk-delete h k = ground arith

without-walk-insert :
    (dp : List (List ℕ)) (os ns : List Bytes) (cs : List Change)
    → without insert (walk dp os ns cs) ≡ concat (reverse os) ++ without insert cs
unfolding walk same_type without
without-walk-insert dp [] [] cs = refl
without-walk-insert dp [] (n ∷ ns) cs = without-walk-insert dp [] ns (change insert n ∷ cs)
without-walk-insert dp (o ∷ os) [] cs =
    without-walk-insert dp os [] (change delete o ∷ cs)
    ∙ sym (concat-reverse o os (without insert cs))
without-walk-insert dp (o ∷ os) (n ∷ ns) cs = elim (Bool-cases (eqb o n)) [
  | inl same ↦ rw (walk-equal dp o os n ns cs same) (
      without-walk-insert dp os ns (change equal o ∷ cs)
      ∙ sym (concat-reverse o os (without insert cs)))
  | inr differ ↦
      elim (Bool-cases
        (leb (cell dp (length os) (suc (length ns))) (cell dp (suc (length os)) (length ns)))) [
          | inl left ↦
              rw (walk-insert dp o os n ns cs differ left)
                (without-walk-insert dp (o ∷ os) ns (change insert n ∷ cs))
          | inr up ↦ rw (walk-delete dp o os n ns cs differ up) (
              without-walk-insert dp os (n ∷ ns) (change delete o ∷ cs)
              ∙ sym (concat-reverse o os (without insert cs)))
        ]
]

without-walk-delete :
    (dp : List (List ℕ)) (os ns : List Bytes) (cs : List Change)
    → without delete (walk dp os ns cs) ≡ concat (reverse ns) ++ without delete cs
unfolding walk same_type without
without-walk-delete dp [] [] cs = refl
without-walk-delete dp [] (n ∷ ns) cs =
    without-walk-delete dp [] ns (change insert n ∷ cs)
    ∙ sym (concat-reverse n ns (without delete cs))
without-walk-delete dp (o ∷ os) [] cs = without-walk-delete dp os [] (change delete o ∷ cs)
without-walk-delete dp (o ∷ os) (n ∷ ns) cs = elim (Bool-cases (eqb o n)) [
  | inl same ↦ rw (walk-equal dp o os n ns cs same) (
      without-walk-delete dp os ns (change equal o ∷ cs)
      ∙ ap (λ z. concat (reverse ns) ++ (z ++ without delete cs)) ((eqb_iff o n).0 same)
      ∙ sym (concat-reverse n ns (without delete cs)))
  | inr differ ↦
      elim (Bool-cases
        (leb (cell dp (length os) (suc (length ns))) (cell dp (suc (length os)) (length ns)))) [
          | inl left ↦ rw (walk-insert dp o os n ns cs differ left) (
              without-walk-delete dp (o ∷ os) ns (change insert n ∷ cs)
              ∙ sym (concat-reverse n ns (without delete cs)))
          | inr up ↦
              rw (walk-delete dp o os n ns cs differ up)
                (without-walk-delete dp os (n ∷ ns) (change delete o ∷ cs))
        ]
]

pub same_type-eq : (a b : ChangeType) → same_type a b ≡ true → a ≡ b
unfolding same_type
same_type-eq equal equal h = refl
same_type-eq insert insert h = refl
same_type-eq delete delete h = refl
same_type-eq equal insert h = cc
same_type-eq equal delete h = cc
same_type-eq insert equal h = cc
same_type-eq insert delete h = cc
same_type-eq delete equal h = cc
same_type-eq delete insert h = cc

-- Merging changes neither text.
without-merge_from :
    (t : ChangeType) (last : Change) (cs : List Change)
    → without t (merge_from last cs) ≡ without t (last ∷ cs)
unfolding merge_from without
without-merge_from t last [] = refl
without-merge_from t last (c ∷ cs) = elim (Bool-cases (same_type last.change_type c.change_type)) [
  | inl same ↦
      rw
        (
          same,
          without-merge_from t
              (record last { value = last.value ++ c.value; count = last.count + 1 }) cs,
        )
        (rw (same_type-eq last.change_type c.change_type same)
          (elim (Bool-cases (same_type t c.change_type)) [
            | inl skipped ↦ rw skipped refl
            | inr shown ↦ rw shown (append_assoc last.value c.value (without t cs))
          ]))
  | inr differ ↦ rw (differ, without-merge_from t c cs) refl
]

concat-split_after : (cur cs : Bytes) → concat (split_after cur cs) ≡ cur ++ cs
unfolding split_after
concat-split_after [] [] = refl
concat-split_after (c ∷ cur) [] = refl
concat-split_after cur (c ∷ cs) = elim (Bool-cases (c == newline)) [
  | inl cut ↦ rw (cut, concat-split_after [] cs) (append_assoc cur (c ∷ []) cs)
  | inr more ↦ rw (more, concat-split_after (cur ++ c ∷ []) cs) (append_assoc cur (c ∷ []) cs)
]

without-merge : (t : ChangeType) (cs : List Change) → without t (merge cs) ≡ without t cs
unfolding merge
without-merge t [] = refl
without-merge t (c ∷ cs) = without-merge_from t c cs

concat-tokenize : (text : Bytes) → concat (tokenize text true) ≡ normalize_to_lf text
unfolding tokenize
concat-tokenize text = concat-split_after [] (normalize_to_lf text)

-- Without its insertions, a diff is the old text, and without its deletions it is the new one, both
-- with their line ends as line feeds.
pub diff_lines-texts :
    (old new : Bytes)
    → (without insert (diff_lines old new) ≡ normalize_to_lf old)
      × (without delete (diff_lines old new) ≡ normalize_to_lf new)
unfolding diff_lines without
diff_lines-texts old new =
    let o = tokenize old true in
    let n = tokenize new true in
    (
      without-merge insert (walk (table o n) (reverse o) (reverse n) [])
          ∙ without-walk-insert (table o n) (reverse o) (reverse n) []
          ∙ whole o
          ∙ concat-tokenize old,
      without-merge delete (walk (table o n) (reverse o) (reverse n) [])
          ∙ without-walk-delete (table o n) (reverse o) (reverse n) []
          ∙ whole n
          ∙ concat-tokenize new,
    )
  where
    whole : (ls : List Bytes) → concat (reverse (reverse ls)) ++ [] ≡ concat ls
    whole ls = append-nil (concat (reverse (reverse ls))) ∙ ap concat (reverse-reverse ls)
