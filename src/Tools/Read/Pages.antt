-- ===== src/Tools/Read/Pages.antt =====
-- The pages of the read tool, one after the other, show the whole file.
use genkit_cowork.Base.{
  ℕ, zero, suc, ◌+◌, ◌≤◌, ◌<◌, Option, some, List, [], ◌∷◌, ◌++◌, take, drop, take-append-drop,
  drop_zero, drop-nil, length, length-append, ◌≡◌, ◌≢◌, refl, sym, ap, ◌∙◌, subst, inl, inr, arith,
  All,
}
use genkit_cowork.Base.Int.{pos}
use genkit_cowork.Base.Bytes.{Bytes}
use genkit_cowork.Tools.Lines.{split_lines, IsLine, split_lines-IsLine, split_lines-ne-nil}
use genkit_cowork.Tools.Read.{read_on, with_shown}
use genkit_cowork.Tools.Read.OnePage.{
  Short, GoesOn, All-second, int_limit, PageRead, without_limit, with_limit,
}

length-pos : (ls : List Bytes) → ls ≢ [] → 0 < length ls
length-pos [] h = absurd (h refl)
length-pos (l ∷ ls) h = omega arith

-- the lines behind those that a page showed
drop_behind :
    (n k : ℕ) (all shown remaining : List Bytes)
    → k ≡ n + length shown
    → drop n all ≡ shown ++ remaining
    → drop k all ≡ remaining
drop_behind zero k all [] remaining e h = drop_zero k all (omega arith) ∙ h
drop_behind zero zero all (s ∷ shown) remaining e h = absurd (omega arith)
drop_behind zero (suc k) [] (s ∷ shown) remaining e h = cc
drop_behind zero (suc k) (a ∷ as') (s ∷ shown) remaining e h =
    drop_behind zero k as' shown remaining (omega arith) (cc)
drop_behind (suc n) k [] [] remaining e h = drop-nil k ∙ h
drop_behind (suc n) k [] (s ∷ shown) remaining e h = cc
drop_behind (suc n) zero (a ∷ as') shown remaining e h = absurd (omega arith)
drop_behind (suc n) (suc k) (a ∷ as') shown remaining e h =
    drop_behind n k as' shown remaining (omega arith) h

module _ (content : Bytes) (limit : ℕ) (bound : length (split_lines content) + limit ≤ int_limit)
    (short : Short (split_lines content)) where
  rest-All :
      (P : Bytes → Type 0) (start : ℕ) (rest : List Bytes)
      → drop start (split_lines content) ≡ rest
      → All P (split_lines content)
      → All P rest
  rest-All P start rest e h =
      let all = split_lines content in
      All-second P (take start all) rest
        (subst (All P) (sym (ap (λ r. take start all ++ r) (sym e) ∙ take-append-drop start all)) h)

  reads :
      (later : ℕ → Option (List Bytes)) (start m : ℕ) (rest : List Bytes)
      → m ≡ limit
      → drop start (split_lines content) ≡ rest
      → rest ≢ []
      → length (split_lines content) ≡ start + length rest
      → PageRead later content start m
  reads later start m [] same e some_left counted = absurd (some_left refl)
  reads later start zero (l ∷ ls) same e some_left counted =
      without_limit later content start l ls e counted (rest-All _ start (l ∷ ls) e short)
        (rest-All IsLine start (l ∷ ls) e (split_lines-IsLine content))
  reads later start (suc k) (l ∷ ls) same e some_left counted =
      with_limit later content start k l ls e counted (omega arith)
        (rest-All _ start (l ∷ ls) e short)
        (rest-All IsLine start (l ∷ ls) e (split_lines-IsLine content))

  read_on_from :
      (rounds start : ℕ) (rest : List Bytes)
      → drop start (split_lines content) ≡ rest
      → rest ≢ []
      → length (split_lines content) ≡ start + length rest
      → length rest ≤ rounds
      → read_on rounds (pos limit) content (suc start) ≡ some rest
  unfolding read_on with_shown
  read_on_from zero start [] e some_left counted enough = absurd (some_left refl)
  read_on_from zero start (l ∷ ls) e some_left counted enough = absurd (omega arith)
  read_on_from (suc rounds) start rest e some_left counted enough =
      let later = read_on rounds (pos limit) content in
      let (page, read, goes_on) = reads later start limit rest refl e some_left counted in
      elim (subst (λ r. GoesOn later start r page) e goes_on) [
        | inl last ↦ rw read last
        | inr (shown, remaining, split, some_shown, some_remaining, next) ↦
            let sizes = ap length split ∙ length-append shown remaining in
            let one = length-pos shown some_shown in
            let behind =
              drop_behind start (start + length shown) (split_lines content) shown remaining refl
                (e ∙ split) in
            let tail =
              read_on_from rounds (start + length shown) remaining behind some_remaining
                (omega (arith, sizes)) (omega (arith, sizes, one)) in
            rw read (
              next
              ∙ (ap (λ n. with_shown shown (later n)) (omega arith)
                  ∙ (ap (with_shown shown) tail ∙ ap some (sym split))))
      ]

  -- A reader who starts at the first line and follows the offsets that the pages name comes to the
  -- last page, and has been shown each line of the file once and in order, whatever the limit on the
  -- lines of a page is (0 for none). As many reads as the file has lines are enough. Each line is at
  -- most as long as the limit on bytes, and the sum of the limit and the number of lines is an int.
  pub read_on_all :
      read_on (length (split_lines content)) (pos limit) content 1 ≡ some (split_lines content)
  read_on_all =
      read_on_from (length (split_lines content)) 0 (split_lines content) refl
        (split_lines-ne-nil content) (omega arith) (omega arith)
