-- ===== src/Tools/Diff/Table.antt =====
-- The table of a diff holds the lengths of longest common subsequences.
use mathlib.Core.List.{reverse-cons, reverse-reverse}
use genkit_cowork.Base.{
  ℕ, ◌+◌, true, false, some, List, [], ◌∷◌, ◌++◌, append_assoc, append-nil, ◌≡◌, refl, sym, ap, ◌∙◌,
  arith, map, reverse, length, length-reverse, get_elem?, leb, if◌then◌else◌,
}
use genkit_cowork.Base.Bytes.{Bytes, eqb}
use genkit_cowork.Tools.Diff.{fill_row, fill_table, table, or_zero, cell_of, cell}

-- The recurrence, on lists of lines that end first.
unfoldable pub lcs : List Bytes → List Bytes → ℕ
lcs [] ns = 0
lcs (o ∷ os) [] = 0
lcs (o ∷ os) (n ∷ ns) = elim (eqb o n) [
  | true ↦ lcs os ns + 1
  | false ↦ elim (leb (lcs (o ∷ os) ns) (lcs os (n ∷ ns))) [
    | true ↦ lcs os (n ∷ ns)
    | false ↦ lcs (o ∷ os) ns
  ]
]

pub lcs-nil : (os : List Bytes) → lcs os [] ≡ 0
unfolding lcs
lcs-nil [] = refl
lcs-nil (o ∷ os) = refl

-- the entries of a row behind the one for `done`
row_of : List Bytes → List Bytes → List Bytes → List ℕ
row_of os done [] = []
row_of os done (n ∷ ns) = lcs os (n ∷ done) ∷ row_of os (n ∷ done) ns

row_of-nil : (done ns : List Bytes) → map (λ n. 0) ns ≡ row_of [] done ns
unfolding row_of lcs
row_of-nil done [] = refl
row_of-nil done (n ∷ ns) = ap (λ z. 0 ∷ z) (row_of-nil (n ∷ done) ns)

lcs-step :
    (o : Bytes) (os : List Bytes) (n : Bytes) (ns : List Bytes)
    → (if eqb o n
        then lcs os ns + 1
        else if leb (lcs (o ∷ os) ns) (lcs os (n ∷ ns))
        then lcs os (n ∷ ns)
        else lcs (o ∷ os) ns)
      ≡ lcs (o ∷ os) (n ∷ ns)
unfolding lcs
lcs-step o os n ns = ground arith

fill_row-row_of :
    (o : Bytes) (os done ns : List Bytes)
    → fill_row o ns (lcs os done) (row_of os done ns) (lcs (o ∷ os) done) ≡ row_of (o ∷ os) done ns
unfolding fill_row row_of
fill_row-row_of o os done [] = refl
fill_row-row_of o os done (n ∷ ns) =
    rw (lcs-step o os n done, fill_row-row_of o os (n ∷ done) ns) refl

reverse-shift :
    (f : Bytes) (front done : List Bytes)
    → reverse (f ∷ front) ++ done ≡ reverse front ++ (f ∷ done)
reverse-shift f front done =
    ap (λ z. z ++ done) (reverse-cons f front) ∙ append_assoc (reverse front) (f ∷ []) done

get_elem?-row_of :
    (os done front : List Bytes) (n : Bytes) (rest : List Bytes)
    → get_elem? (row_of os done (front ++ n ∷ rest)) (length front)
      ≡ some (lcs os (n ∷ reverse front ++ done))
unfolding row_of
get_elem?-row_of os done [] n rest = refl
get_elem?-row_of os done (f ∷ front) n rest =
    get_elem?-row_of os (f ∷ done) front n rest
    ∙ ap (λ z. some (lcs os (n ∷ z))) (sym (reverse-shift f front done))

get_elem?-fill_table :
    (new os front rest : List Bytes)
    → get_elem? (fill_table new (row_of os [] new) (front ++ rest)) (length front)
      ≡ some (row_of (reverse front ++ os) [] new)
unfolding fill_table lcs
get_elem?-fill_table new os [] [] = refl
get_elem?-fill_table new os [] (r ∷ rest) = refl
get_elem?-fill_table new os (f ∷ front) rest =
    ap (λ row. get_elem? (fill_table new row (front ++ rest)) (length front)) next_row
    ∙ get_elem?-fill_table new (f ∷ os) front rest
    ∙ ap (λ z. some (row_of z [] new)) (sym (reverse-shift f front os))
  where
    next_row : fill_row f new 0 (row_of os [] new) 0 ≡ row_of (f ∷ os) [] new
    next_row = rw (lcs-nil os) at (fill_row-row_of f os [] new)

-- Lists that end first are the beginnings of the lines up to an index.
pub record Behind (ls whole : List Bytes) : Type 0 where
  pub rest : List Bytes
  pub splits : reverse ls ++ rest ≡ whole

pub Behind-tail : (l : Bytes) (ls whole : List Bytes) → Behind (l ∷ ls) whole → Behind ls whole
Behind-tail l ls whole b = record {
  rest = l ∷ b.rest;
  splits = sym (reverse-shift l ls b.rest) ∙ b.splits;
}

pub Behind-all : (whole : List Bytes) → Behind (reverse whole) whole
Behind-all whole = record {
  rest = [];
  splits = append-nil (reverse (reverse whole)) ∙ reverse-reverse whole;
}

reverse-all : (ls : List Bytes) → reverse (reverse ls) ++ [] ≡ ls
reverse-all ls = append-nil (reverse (reverse ls)) ∙ reverse-reverse ls

row-lcs :
    (os ns new : List Bytes)
    → Behind ns new
    → cell_of (some (row_of os [] new)) (length ns) ≡ lcs os ns
row-lcs os [] new b = sym (lcs-nil os)
row-lcs os (n ∷ ns) new b =
    ap (λ z. or_zero (get_elem? (row_of os [] z) (length ns)))
      (sym b.splits ∙ reverse-shift n ns b.rest)
    ∙ ap (λ k. or_zero (get_elem? (row_of os [] (reverse ns ++ (n ∷ b.rest))) k))
        (sym (length-reverse ns))
    ∙ ap or_zero (get_elem?-row_of os [] (reverse ns) n b.rest)
    ∙ ap (λ z. lcs os (n ∷ z)) (reverse-all ns)

-- dp[i][j] is the length of a longest common subsequence of the first `i` and the first `j` lines.
pub cell-lcs :
    (old new os ns : List Bytes)
    → Behind os old
    → Behind ns new
    → cell (table old new) (length os) (length ns) ≡ lcs os ns
unfolding cell table
cell-lcs old new os ns b c = ap (λ row. cell_of row (length ns)) found ∙ row-lcs os ns new c
  where
    found : get_elem? (table old new) (length os) ≡ some (row_of os [] new)
    found =
        ap (λ z. get_elem? (fill_table new z old) (length os)) (row_of-nil [] new)
        ∙ ap (λ z. get_elem? (fill_table new (row_of [] [] new) z) (length os)) (sym b.splits)
        ∙ ap (λ k. get_elem? (fill_table new (row_of [] [] new) (reverse os ++ b.rest)) k)
            (sym (length-reverse os))
        ∙ get_elem?-fill_table new [] (reverse os) b.rest
        ∙ ap (λ z. some (row_of z [] new)) (reverse-all os)
