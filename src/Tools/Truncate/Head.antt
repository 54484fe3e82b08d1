-- ===== src/Tools/Truncate/Head.antt =====
-- `TruncateHead` returns the longest run of whole first lines that both limits allow.
use genkit_cowork.Base.{
  ℕ, ◌+◌, ◌≤◌, ◌<◌, true, false, Option, List, [], ◌∷◌, ◌++◌, append_assoc, append-nil, ◌≡◌, ◌≢◌,
  ◌⊎◌, inl, inr, refl, sym, ap, ◌∙◌, arith, length, length-append, ltb, Bool-cases, if◌then◌else◌,
}
use genkit_cowork.Base.Bytes.{Bytes}
use genkit_cowork.Tools.Lines.{
  split_lines, join_lines, join_lines-split_lines, split_lines-ne-nil, length-join-concat,
}
use genkit_cowork.Tools.Truncate.{
  lines, bytes, TruncationResult, TruncationOptions, line_limit, byte_limit, Collected,
  collect_head, start, within, whole, cause, cut, first_line_too_long, first_line, truncate_head,
}

-- `kept` is the longest front of `all` within both limits.
pub record IsHead (max_lines max_bytes : ℕ) (all kept : List Bytes) : Type 0 where
  pub rest : List Bytes
  pub splits : kept ++ rest ≡ all
  pub few : length kept ≤ max_lines
  pub fits : length (join_lines kept) ≤ max_bytes
  pub maximal :
      (l : Bytes) (ls : List Bytes)
      → rest ≡ l ∷ ls
      → (length kept ≡ max_lines) ⊎ (max_bytes < length (join_lines (kept ++ l ∷ [])))

-- the size of one more line, as the loop computes it
abbrev line_size : ℕ → Bytes → ℕ
line_size i l = if ltb 0 i then length l + 1 else length l

length-join-line_size :
    (xs : List Bytes) (l : Bytes) (i : ℕ)
    → i ≡ length xs
    → length (join_lines (xs ++ l ∷ [])) ≡ length (join_lines xs) + line_size i l
length-join-line_size [] l i h = ground (arith, length-join-concat [] l)
length-join-line_size (x ∷ xs) l i h = ground (arith, length-join-concat (x ∷ xs) l)

module _ (ml mb : ℕ) where
  -- a loop that stops before the line `l`
  stop :
      (out : List Bytes) (l : Bytes) (ls : List Bytes)
      → length out ≤ ml
      → length (join_lines out) ≤ mb
      → (length out ≡ ml) ⊎ (mb < length (join_lines (out ++ l ∷ [])))
      → IsHead ml mb (out ++ l ∷ ls) out
  stop out l ls few fits why = record {
    rest = l ∷ ls;
    splits = refl;
    few = few;
    fits = fits;
    maximal = λ l' ls' e. rw (← cons_head e) why;
  }
    where
      cons_head : {l' : Bytes} {ls' : List Bytes} → l ∷ ls ≡ l' ∷ ls' → l ≡ l'
      cons_head e = cc

  collect_head-IsHead :
      (todo : List Bytes) (i : ℕ) (s : Collected)
      → i ≡ length s.output
      → s.count ≡ length (join_lines s.output)
      → i ≤ ml
      → s.count ≤ mb
      → IsHead ml mb (s.output ++ todo) (collect_head ml mb todo i s).output
  unfolding collect_head
  collect_head-IsHead [] i s ei ec few fits = record {
    rest = [];
    splits = refl;
    few = omega arith;
    fits = omega arith;
    maximal = λ l ls e. cc;
  }
  collect_head-IsHead (l ∷ ls) i s ei ec few fits =
      let grown = length-join-line_size s.output l i ei in
      elim (Bool-cases (ltb i ml)) [
        | inr full ↦ rw full (stop s.output l ls (omega arith) (omega arith) (inl (ground arith)))
        | inl room ↦ elim (Bool-cases (ltb mb (s.count + line_size i l))) [
          | inl over ↦
              rw (room, over) (stop s.output l ls (omega arith) (omega arith) (inr (ground arith)))
          | inr under ↦
              rw (room, under)
                (rw append_assoc at (
                  collect_head-IsHead ls (i + 1)
                    (record s { output = s.output ++ l ∷ []; count = s.count + line_size i l })
                    (omega (arith, length-append s.output (l ∷ []))) (omega arith) (ground arith)
                    (ground arith)))
        ]
      ]

  -- why the loop ended
  abbrev Ended : List Bytes → Collected → Type 0
  Ended all r =
      ((r.by ≡ lines) × ((length r.output ≡ ml) ⊎ (r.output ≡ all)))
      ⊎ ((r.by ≡ bytes) × (length r.output < ml))

  collect_head-Ended :
      (todo : List Bytes) (i : ℕ) (s : Collected)
      → i ≡ length s.output
      → i ≤ ml
      → s.by ≡ lines
      → Ended (s.output ++ todo) (collect_head ml mb todo i s)
  unfolding collect_head
  collect_head-Ended [] i s ei few eb = inl (eb, inr (sym (append-nil s.output)))
  collect_head-Ended (l ∷ ls) i s ei few eb = elim (Bool-cases (ltb i ml)) [
    | inr full ↦ rw full (inl (eb, inl (ground arith)))
    | inl room ↦ elim (Bool-cases (ltb mb (s.count + line_size i l))) [
      | inl over ↦ rw (room, over) (inr (refl, ground arith))
      | inr under ↦
          rw (room, under)
            (rw append_assoc at (
              collect_head-Ended ls (i + 1)
                (record s { output = s.output ++ l ∷ []; count = s.count + line_size i l })
                (omega (arith, length-append s.output (l ∷ []))) (ground arith) eb))
    ]
  ]

-- What a truncated head says of itself, `kept` being the lines that it holds.
pub record HeadOf (content : Bytes) (opts : Option TruncationOptions) (r : TruncationResult)
    : Type 0 where
  pub kept : List Bytes
  pub is_head : IsHead (line_limit opts) (byte_limit opts) (split_lines content) kept
  pub holds : r.content ≡ join_lines kept
  pub lines_counted : r.output_lines ≡ length kept
  pub bytes_counted : r.output_bytes ≡ length r.content
  pub total_lines_counted : r.total_lines ≡ length (split_lines content)
  pub total_bytes_counted : r.total_bytes ≡ length content
  pub all_of_it : r.truncated ≡ false → r.content ≡ content
  pub not_all : r.truncated ≡ true → length kept < length (split_lines content)
  pub by_lines : r.truncated_by ≡ lines → length kept ≡ line_limit opts
  pub by_bytes : r.truncated_by ≡ bytes → length kept < line_limit opts

empty_join_lines : join_lines [] ≡ []
unfolding join_lines
empty_join_lines = refl

-- the first line alone, as the loop would keep it
first_long :
    (l l' : Bytes) (ls ls' : List Bytes) {mb : ℕ}
    → l ∷ ls ≡ l' ∷ ls'
    → mb < length l
    → mb < length (join_lines ([] ++ l' ∷ []))
first_long l l' ls ls' e k =
    let same : l ≡ l' = cc in omega (arith, length-join-concat [] l', ap length same)

line_limit-pos : (opts : Option TruncationOptions) → 0 < line_limit opts
unfolding line_limit
line_limit-pos opts = ground arith

-- with all lines kept, the text is within the limits
all_within :
    (ml mb : ℕ) (content : Bytes) (kept : List Bytes)
    → IsHead ml mb (split_lines content) kept
    → length (split_lines content) ≤ length kept
    → within ml mb content ≡ true
all_within ml mb content kept h k = within_all h.rest h.splits
  where
    within_all :
        (rest : List Bytes) → kept ++ rest ≡ split_lines content → within ml mb content ≡ true
    within_all [] e =
        let same : kept ≡ split_lines content = sym (append-nil kept) ∙ e in
        let size : length (join_lines kept) ≡ length content =
          rw same (ap length (join_lines-split_lines content)) in
        ground (arith, h.few, h.fits, ap length same)
    within_all (r ∷ rs) e = absurd (omega (arith, ap length e, length-append kept (r ∷ rs)))

HeadOf-whole :
    (content : Bytes) (opts : Option TruncationOptions)
    → within (line_limit opts) (byte_limit opts) content ≡ true
    → HeadOf content opts (whole (line_limit opts) (byte_limit opts) content)
HeadOf-whole content opts h = record {
  kept = split_lines content;
  is_head = record {
    rest = [];
    splits = append-nil (split_lines content);
    few = ground arith;
    fits = rw join_lines-split_lines (ground arith);
    maximal = λ l ls e. cc;
  };
  holds = sym (join_lines-split_lines content);
  lines_counted = refl;
  bytes_counted = refl;
  total_lines_counted = refl;
  total_bytes_counted = refl;
  all_of_it = λ e. refl;
  not_all = λ e. cc;
  by_lines = λ e. cc;
  by_bytes = λ e. cc;
}

HeadOf-first_line :
    (content : Bytes) (opts : Option TruncationOptions)
    → within (line_limit opts) (byte_limit opts) content ≡ false
    → byte_limit opts < length (first_line (split_lines content))
    → HeadOf content opts (first_line_too_long (line_limit opts) (byte_limit opts) content)
HeadOf-first_line content opts out long =
    by_lines (split_lines content) refl (split_lines-ne-nil content) long
  where
    by_lines :
        (ls : List Bytes)
        → split_lines content ≡ ls
        → split_lines content ≢ []
        → byte_limit opts < length (first_line (split_lines content))
        → HeadOf content opts (first_line_too_long (line_limit opts) (byte_limit opts) content)
    by_lines [] e ne k = absurd (ne e)
    by_lines (l ∷ ls) e ne k =
        let k' : byte_limit opts < length l = rw e at k in
        record {
          kept = [];
          is_head = record {
            rest = l ∷ ls;
            splits = sym e;
            few = omega arith;
            fits = rw empty_join_lines (omega arith);
            maximal = λ l' ls' e'. inr (first_long l l' ls ls' e' k');
          };
          holds = sym empty_join_lines;
          lines_counted = refl;
          bytes_counted = refl;
          total_lines_counted = refl;
          total_bytes_counted = refl;
          all_of_it = λ e. cc;
          not_all = λ t. rw e (omega arith);
          by_lines = λ e. cc;
          by_bytes = λ b. line_limit-pos opts;
        }

some_left :
    (ml mb : ℕ) (content : Bytes) (kept : List Bytes)
    → within ml mb content ≡ false
    → IsHead ml mb (split_lines content) kept
    → length kept < length (split_lines content)
some_left ml mb content kept out h =
    elim (Bool-cases (ltb (length kept) (length (split_lines content)))) [
      | inl less ↦ ground arith
      | inr all ↦ cc (out, all_within ml mb content kept h (ground arith))
    ]

-- the test behind the loop changes nothing but the cause at the line limit
cause_by :
    (ml mb : ℕ) (all : List Bytes) (r : Collected)
    → Ended ml mb all r
    → length r.output < length all
    → (cause ml mb r ≡ lines → length r.output ≡ ml)
      × (cause ml mb r ≡ bytes → length r.output < ml)
cause_by ml mb all r (inl (by, inl full)) short = (λ e. full, λ e. ground arith)
cause_by ml mb all r (inl (by, inr every)) short = absurd (omega (arith, ap length every))
cause_by ml mb all r (inr (by, room)) short = (λ e. ground arith, λ e. room)

HeadOf-cut :
    (content : Bytes) (opts : Option TruncationOptions)
    → within (line_limit opts) (byte_limit opts) content ≡ false
    → HeadOf content opts (
        cut
          (line_limit opts)
          (byte_limit opts)
          content
          (collect_head (line_limit opts) (byte_limit opts) (split_lines content) 0 start))
HeadOf-cut content opts out =
    let ml = line_limit opts in
    let mb = byte_limit opts in
    let r = collect_head ml mb (split_lines content) 0 start in
    let head : IsHead ml mb (split_lines content) r.output =
      collect_head-IsHead ml mb (split_lines content) 0 start refl
        (sym (ap length empty_join_lines)) (omega arith) (omega arith) in
    let ended : Ended ml mb (split_lines content) r =
      collect_head-Ended ml mb (split_lines content) 0 start refl (omega arith) refl in
    let short : length r.output < length (split_lines content) =
      some_left ml mb content r.output out head in
    record {
      kept = r.output;
      is_head = head;
      holds = refl;
      lines_counted = refl;
      bytes_counted = refl;
      total_lines_counted = refl;
      total_bytes_counted = refl;
      all_of_it = λ e. cc;
      not_all = λ e. short;
      by_lines = (cause_by ml mb (split_lines content) r ended short).0;
      by_bytes = (cause_by ml mb (split_lines content) r ended short).1;
    }

-- The head of a text, for any text and options: the longest run of whole first lines that is within
-- both limits, with its sizes counted right. It is the whole text exactly if that is within the
-- limits, and `TruncatedBy` names the line limit only if that many lines are kept.
pub truncate_head-HeadOf :
    (content : Bytes) (opts : Option TruncationOptions)
    → HeadOf content opts (truncate_head content opts)
unfolding truncate_head
truncate_head-HeadOf content opts =
    elim (Bool-cases (within (line_limit opts) (byte_limit opts) content)) [
      | inl all ↦ rw all (HeadOf-whole content opts all)
      | inr out ↦
          elim (Bool-cases (ltb (byte_limit opts) (length (first_line (split_lines content))))) [
            | inl long ↦ rw (out, long) (HeadOf-first_line content opts out (ground arith))
            | inr fits ↦ rw (out, fits) (HeadOf-cut content opts out)
          ]
    ]
