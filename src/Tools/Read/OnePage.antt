-- ===== src/Tools/Read/OnePage.antt =====
-- One page of the read tool: it is the last one, or it shows some lines and names the next one.
use genkit_cowork.Base.{
  ℕ, suc, ◌+◌, ◌≤◌, ◌<◌, min, Bool, true, false, ◌&&◌, Option, none, some, List, [], ◌∷◌, ◌++◌,
  append_assoc, take, drop, take-append-drop, length, length-append, append-nil, ◌≡◌, ◌≢◌, refl,
  sym, ap, ◌∙◌, subst, inl, inr, ◌⊎◌, arith, ltb, Bool-cases, All, leb-false_of,
}
use genkit_cowork.Base.Int.{pos, ltb_ℤ, add_64, ◌+ℤ◌}
use genkit_cowork.Base.Bytes.{Bytes}
use genkit_cowork.Base.Result.{ok}
use genkit_cowork.Tools.Lines.{
  split_lines, join_lines, IsLine, split_lines-join_lines, length-join-concat,
}
use genkit_cowork.Tools.Truncate.{
  truncate_head, first_line, within, default_max_bytes, default_max_lines, line_limit, byte_limit,
}
use genkit_cowork.Tools.Truncate.Head.{IsHead, truncate_head-HeadOf}
use genkit_cowork.Tools.Read.{
  Page, start_line, page_of, limited_page, read_page, follow, with_shown,
}

-- lines that the tool can show
abbrev pub Short : List Bytes → Type 0
Short = All (λ l. length l ≤ default_max_bytes)

-- A text whose first line is short is not refused for it.
first_line_short :
    (content : Bytes)
    → length (first_line (split_lines content)) ≤ default_max_bytes
    → (truncate_head content none).first_line_exceeds_limit ≡ false
unfolding truncate_head byte_limit
first_line_short content h =
    elim (Bool-cases (within (line_limit none) default_max_bytes content)) [
      | inl all ↦ rw all refl
      | inr out ↦
          elim (Bool-cases (ltb default_max_bytes (length (first_line (split_lines content))))) [
            | inl long ↦ absurd (ground arith)
            | inr fits ↦ rw (out, fits) refl
          ]
    ]

All-first {ℓ} : {A : Type ℓ} (P : A → Type 0) (xs ys : List A) → All P (xs ++ ys) → All P xs
All-first P [] ys h = tt
All-first P (x ∷ xs) ys h = (h.0, All-first P xs ys h.1)

pub All-second {ℓ} : {A : Type ℓ} (P : A → Type 0) (xs ys : List A) → All P (xs ++ ys) → All P ys
All-second P [] ys h = h
All-second P (x ∷ xs) ys h = All-second P xs ys h.1

-- how a page of the lines `rest`, from the line `start` on, goes on: it is the last one, or it shows
-- some first lines and names the next one
abbrev pub GoesOn : (ℕ → Option (List Bytes)) → ℕ → List Bytes → Page → Type 0
GoesOn later start rest page =
    (follow later (ok page) ≡ some rest)
    ⊎ ((shown : List Bytes) × (remaining : List Bytes) × (rest ≡ shown ++ remaining)
        × (shown ≢ [])
        × (remaining ≢ [])
        × (follow later (ok page) ≡ with_shown shown (later (start + length shown + 1))))

no_lines : join_lines [] ≡ []
unfolding join_lines
no_lines = refl

-- a head that is not empty, since its first line is short
kept-ne-nil :
    (l : Bytes) (ls kept : List Bytes)
    → length l ≤ default_max_bytes
    → IsHead default_max_lines default_max_bytes (l ∷ ls) kept
    → kept ≢ []
kept-ne-nil l ls [] short h e =
    let first : h.rest ≡ l ∷ ls = h.splits in
    elim (h.maximal l ls first) [
      | inl none_kept ↦ absurd (omega arith)
      | inr too_long ↦ absurd (omega (arith, length-join-concat [] l, ap length no_lines))
    ]
kept-ne-nil l ls (k ∷ kept) short h e = cc

-- A page that is the last one leaves nothing.
nothing_behind :
    (has_limit : Bool) (behind : List Bytes) (n total : ℕ)
    → (has_limit && ltb n total) ≡ false
    → (has_limit ≡ false → behind ≡ [])
    → total ≡ n + length behind
    → behind ≡ []
nothing_behind false behind n total h all counted = all refl
nothing_behind true [] n total h all counted = refl
nothing_behind true (b ∷ bs) n total h all counted = absurd (ground arith)

module _ (later : ℕ → Option (List Bytes)) (start : ℕ) where
  cut-GoesOn :
      (l : Bytes) (ls behind : List Bytes) (has_limit : Bool) (total : ℕ)
      → Short (l ∷ ls)
      → All IsLine (l ∷ ls)
      → (truncate_head (join_lines (l ∷ ls)) none).truncated ≡ true
      → GoesOn later start
          ((l ∷ ls) ++ behind)
          (page_of has_limit start total ((l ∷ ls) ++ behind) (l ∷ ls))
  unfolding page_of follow line_limit byte_limit
  cut-GoesOn l ls behind has_limit total short lines truncated =
      let content = join_lines (l ∷ ls) in
      let h = truncate_head-HeadOf content none in
      let same : split_lines content ≡ l ∷ ls = split_lines-join_lines (l ∷ ls) (λ e. cc) lines in
      let head : IsHead default_max_lines default_max_bytes (l ∷ ls) h.kept =
        subst (λ ks. IsHead default_max_lines default_max_bytes ks h.kept) same h.is_head in
      let some_kept = kept-ne-nil l ls h.kept short.0 head in
      let fine = first_line_short content (rw same short.0) in
      let split =
        split_lines-join_lines h.kept some_kept
          (All-first IsLine h.kept head.rest (rw head.splits lines)) in
      let left : length h.kept < length (l ∷ ls) =
        subst (λ ks. length h.kept < length ks) same (h.not_all truncated) in
      rw (fine, truncated, h.holds, split, h.lines_counted)
        (inr (
          h.kept,
          head.rest ++ behind,
          ap (λ ks. ks ++ behind) (sym head.splits) ∙ append_assoc h.kept head.rest behind,
          some_kept,
          λ e. absurd (
              omega (
                arith,
                ap length e,
                length-append head.rest behind,
                ap length head.splits,
                length-append h.kept head.rest,
              )),
          ap (λ n. with_shown h.kept (later n)) (omega arith),
        ))

  page-GoesOn :
      (l : Bytes) (ls behind : List Bytes) (has_limit : Bool) (total : ℕ)
      → Short (l ∷ ls)
      → All IsLine (l ∷ ls)
      → (has_limit ≡ false → behind ≡ [])
      → total ≡ start + length ((l ∷ ls) ++ behind)
      → GoesOn later start
          ((l ∷ ls) ++ behind)
          (page_of has_limit start total ((l ∷ ls) ++ behind) (l ∷ ls))
  unfolding page_of follow
  page-GoesOn l ls behind has_limit total short lines all counted =
      let content = join_lines (l ∷ ls) in
      let same : split_lines content ≡ l ∷ ls = split_lines-join_lines (l ∷ ls) (λ e. cc) lines in
      let fine = first_line_short content (rw same short.0) in
      elim (Bool-cases (truncate_head (join_lines (l ∷ ls)) none).truncated) [
        | inl truncated ↦ cut-GoesOn l ls behind has_limit total short lines truncated
        | inr whole ↦ elim (Bool-cases (has_limit && ltb (start + length (l ∷ ls)) total)) [
          | inl more ↦
              rw (fine, whole, more)
                (inr (
                  l ∷ ls,
                  behind,
                  refl,
                  (λ e. cc),
                  (λ e. absurd (grind (arith, ap length e, length-append (l ∷ ls) behind))),
                  refl,
                ))
          | inr done ↦
              rw (fine, whole, done)
                (let none_left =
                    nothing_behind has_limit behind (start + length (l ∷ ls)) total done all
                      (omega (arith, length-append (l ∷ ls) behind)) in
                  inl (rw (none_left, append-nil) refl))
        ]
      ]

abbrev pub int_limit : ℕ
int_limit = 0x7fff_ffff_ffff_ffff

end_in_range :
    (start k : ℕ)
    → start + suc k ≤ int_limit
    → add_64 (pos start) (pos (suc k)) ≡ pos (start + suc k)
unfolding add_64 ◌+ℤ◌
end_in_range start k h = ground arith

ltb_ℤ-false_of : (a b : ℕ) → b ≤ a → ltb_ℤ (pos a) (pos b) ≡ false
ltb_ℤ-false_of a b h = ground arith

ltb_ℤ-suc : (k : ℕ) → ltb_ℤ (pos 0) (pos (suc k)) ≡ true
ltb_ℤ-suc k = ground arith

limited_page-take :
    (start k m : ℕ) (rest : List Bytes)
    → limited_page start (start + suc m) rest (pos (start + suc k))
      ≡ ok (page_of true start (start + suc m) rest (take (suc (min k m)) rest))
unfolding limited_page
limited_page-take start k m rest =
    elim (Bool-cases (ltb_ℤ (pos (start + suc m)) (pos (start + suc k)))) [
      | inl over ↦
          rw (over, ltb_ℤ-false_of (start + suc m) start (omega arith))
            (ap (λ n. ok (page_of true start (start + suc m) rest (take n rest)))
              {y = suc (min k m)} (ground arith))
      | inr under ↦
          rw (under, ltb_ℤ-false_of (start + suc k) start (omega arith))
            (ap (λ n. ok (page_of true start (start + suc m) rest (take n rest)))
              {y = suc (min k m)} (ground arith))
    ]

-- the read of one page, by the number of lines that the limit leaves
module _ (later : ℕ → Option (List Bytes)) (content : Bytes) (start : ℕ) where
  abbrev pub PageRead : ℕ → Type 0
  PageRead limit =
      (page : Page) × (read_page (pos (suc start)) (pos limit) content ≡ ok page)
      × GoesOn later start (drop start (split_lines content)) page

  pub without_limit :
      (l : Bytes) (ls : List Bytes)
      → drop start (split_lines content) ≡ l ∷ ls
      → length (split_lines content) ≡ start + length (l ∷ ls)
      → Short (l ∷ ls)
      → All IsLine (l ∷ ls)
      → PageRead 0
  unfolding read_page start_line
  without_limit l ls e counted short lines =
      let total = length (split_lines content) in
      (
        page_of false start total (l ∷ ls) (l ∷ ls),
        rw (leb-false_of total start (omega arith), e) refl,
        rw e (
            rw (append-nil ls) at (
              page-GoesOn later start l ls [] false total short lines (λ x. refl)
                (omega (arith, length-append (l ∷ ls) [])))),
      )

  -- the first lines of a list that is not empty
  pub with_limit :
      (k : ℕ) (l : Bytes) (ls : List Bytes)
      → drop start (split_lines content) ≡ l ∷ ls
      → length (split_lines content) ≡ start + length (l ∷ ls)
      → length (split_lines content) + suc k ≤ int_limit
      → Short (l ∷ ls)
      → All IsLine (l ∷ ls)
      → PageRead (suc k)
  unfolding read_page start_line
  with_limit k l ls e counted bound short lines =
      let total = length (split_lines content) in
      let n = min k (length ls) in
      let split = take-append-drop n ls in
      (
        page_of true start total (l ∷ ls) (l ∷ take n ls),
        rw
            (
              leb-false_of total start (omega arith),
              e,
              ltb_ℤ-suc k,
              end_in_range start k (omega arith),
              counted,
            )
            (limited_page-take start k (length ls) (l ∷ ls)),
        rw e (
            rw split at (
              page-GoesOn later start l (take n ls) (drop n ls) true total
                (All-first _ (l ∷ take n ls) (drop n ls) (rw split short))
                (All-first _ (l ∷ take n ls) (drop n ls) (rw split lines)) (λ x. cc)
                (rw split counted))),
      )
