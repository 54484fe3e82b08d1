-- ===== src/Tools/Truncate/Tail.antt =====
-- `TruncateTail` returns the longest run of whole last lines that both limits allow, or the end of
-- a last line that is too long on its own.
use mathlib.Core.List.{reverse-append, reverse-reverse}
use genkit_cowork.Base.{
  ℕ, ◌-◌, ◌≤◌, ◌<◌, true, false, Option, List, [], ◌∷◌, ◌++◌, reverse, append_assoc, ◌≡◌, ◌⊎◌, inl,
  inr, refl, sym, ap, ◌∙◌, arith, length, drop, take, length-append, length-drop, take-append-drop,
  leb, Bool-cases,
}
use genkit_cowork.Base.Bytes.{Bytes}
use genkit_cowork.Tools.Lines.{split_lines, join_lines}
use genkit_cowork.Tools.Truncate.{
  TruncationResult, TruncationOptions, line_limit, byte_limit, Collected, is_continuation,
  skip_continuation, truncate_string_from_end,
}

-- `end` is what is left of `all` after some first bytes.
abbrev pub IsSuffix : Bytes → Bytes → Type 0
IsSuffix end all = (front : Bytes) × (front ++ end ≡ all)

IsSuffix-refl : (s : Bytes) → IsSuffix s s
IsSuffix-refl s = ([], refl)

IsSuffix-trans : {a b c : Bytes} → IsSuffix a b → IsSuffix b c → IsSuffix a c
IsSuffix-trans {a} (x, e) (y, k) = (y ++ x, append_assoc y x a ∙ ap (λ t. y ++ t) e ∙ k)

IsSuffix-length : {a b : Bytes} → IsSuffix a b → length a ≤ length b
IsSuffix-length {a} {b} (x, e) = omega (arith, length-append x a, ap length e)

skip-IsSuffix : (s : Bytes) → IsSuffix (skip_continuation s) s
unfolding skip_continuation
skip-IsSuffix [] = ([], refl)
skip-IsSuffix (b ∷ bs) = elim (Bool-cases (is_continuation b)) [
  | inl more ↦ rw more (IsSuffix-trans (skip-IsSuffix bs) (b ∷ [], refl))
  | inr stop ↦ rw stop ([], refl)
]

-- The text begins with no continuation byte.
abbrev pub StartsCharacter : Bytes → Type 0
StartsCharacter [] = Unit
StartsCharacter (b ∷ bs) = is_continuation b ≡ false

skip-StartsCharacter : (s : Bytes) → StartsCharacter (skip_continuation s)
unfolding skip_continuation
skip-StartsCharacter [] = tt
skip-StartsCharacter (b ∷ bs) = elim (Bool-cases (is_continuation b)) [
  | inl more ↦ rw more (skip-StartsCharacter bs)
  | inr stop ↦ rw stop stop
]

-- A text cut from its end is an end of the text within the limit; if it was too long, what is left
-- starts at a character.
pub truncate_string_from_end_lem :
    (s : Bytes) (n : ℕ)
    → let t = truncate_string_from_end s n in
      IsSuffix t s × (length t ≤ n) × (n < length s → StartsCharacter t)
unfolding truncate_string_from_end
truncate_string_from_end_lem s n = elim (Bool-cases (leb (length s) n)) [
  | inl short ↦ rw short (IsSuffix-refl s, ground arith, λ k. absurd (ground arith))
  | inr long ↦ rw long (
      let d = drop (length s - n) s in
      (
        IsSuffix-trans (skip-IsSuffix d) (take (length s - n) s, take-append-drop (length s - n) s),
        within_limit d (omega (arith, length-drop (length s - n) s)),
        λ k. skip-StartsCharacter d,
      ))
]
  where
    within_limit : (d : Bytes) → length d ≤ n → length (skip_continuation d) ≤ n
    within_limit d k = omega (arith, IsSuffix-length (skip-IsSuffix d))

-- `kept` is the longest end of `all` within both limits.
pub record IsTail (max_lines max_bytes : ℕ) (all kept : List Bytes) : Type 0 where
  pub front : List Bytes
  pub splits : front ++ kept ≡ all
  pub few : length kept ≤ max_lines
  pub fits : length (join_lines kept) ≤ max_bytes
  pub maximal :
      (ls : List Bytes) (l : Bytes)
      → ls ++ l ∷ [] ≡ front
      → (length kept ≡ max_lines) ⊎ (max_bytes < length (join_lines (l ∷ kept)))

-- `kept` is the cut end of the last line of `all`, which is too long.
pub record IsPartial (max_bytes : ℕ) (all kept : List Bytes) : Type 0 where
  pub front : List Bytes
  pub last : Bytes
  pub splits : front ++ last ∷ [] ≡ all
  pub too_long : max_bytes < length last
  pub cut_end : kept ≡ truncate_string_from_end last max_bytes ∷ []

module _ (ml mb : ℕ) where
  -- what the loop has collected, by the flag `lastLinePartial`
  abbrev pub Kept : List Bytes → Collected → Type 0
  Kept all r =
      ((r.partial ≡ false) × IsTail ml mb all r.output)
      ⊎ ((r.partial ≡ true) × IsPartial mb all r.output)

  stop :
      (l : Bytes) (ls out : List Bytes)
      → length out ≤ ml
      → length (join_lines out) ≤ mb
      → (length out ≡ ml) ⊎ (mb < length (join_lines (l ∷ out)))
      → IsTail ml mb (reverse (l ∷ ls) ++ out) out
  stop l ls out few fits why = record {
    front = reverse (l ∷ ls);
    splits = refl;
    few = few;
    fits = fits;
    maximal = λ ls' l' e. rw (← last_same ls' l' e) why;
  }
    where
      last_same : (ls' : List Bytes) (l' : Bytes) → ls' ++ l' ∷ [] ≡ reverse (l ∷ ls) → l ≡ l'
      last_same ls' l' e =
          let k : l' ∷ reverse ls' ≡ l ∷ ls =
            sym (reverse-append ls' (l' ∷ [])) ∙ ap reverse e ∙ reverse-reverse (l ∷ ls) in
          cc

-- What a truncated tail says of itself.
pub record TailOf (content : Bytes) (opts : Option TruncationOptions) (r : TruncationResult)
    : Type 0 where
  pub kept : List Bytes
  pub holds : r.content ≡ join_lines kept
  pub ends : IsSuffix r.content content
  pub few : r.output_lines ≤ line_limit opts
  pub fits : length r.content ≤ byte_limit opts
  pub lines_counted : r.output_lines ≡ length kept
  pub bytes_counted : r.output_bytes ≡ length r.content
  pub total_lines_counted : r.total_lines ≡ length (split_lines content)
  pub total_bytes_counted : r.total_bytes ≡ length content
  pub all_of_it : r.truncated ≡ false → r.content ≡ content
  pub whole_lines :
      r.last_line_partial ≡ false
      → IsTail (line_limit opts) (byte_limit opts) (split_lines content) kept
  pub partial : r.last_line_partial ≡ true → IsPartial (byte_limit opts) (split_lines content) kept

-- the facts about what is kept, in either case
record Bounded (content : Bytes) (ml mb : ℕ) (kept : List Bytes) : Type 0 where
  ends : IsSuffix (join_lines kept) content
  few : length kept ≤ ml
  fits : length (join_lines kept) ≤ mb
