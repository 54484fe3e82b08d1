-- ===== src/Media/Html/Clean.antt =====
-- What is left of a text whose tags are stripped.
use Prim.Native.Nat.{◌/◌, ◌%◌}
use genkit_cowork.Base.{
  ℕ, zero, suc, ◌+◌, ◌-◌, ◌≤◌, Bool, true, false, List, [], ◌∷◌, ◌++◌, ◌≡◌, ◌≢◌, refl, ltb, arith,
  if◌then◌else◌, Bool-cases, inl, inr,
}
use genkit_cowork.Base.Bytes.{Bytes}
use genkit_cowork.Tools.Runes.{runes, encode_rune, first_rune, is_space}
use genkit_cowork.Tools.Trim.{trim_left_after, blank_after, trim_right_after, trim_space}
use genkit_cowork.Media.Html.{
  RuneKind, tag_open, tag_close, blank, plain, rune_kind, write_space, strip_rune, strip_from,
  strip_html_tags,
}

-- neither a bracket of a tag nor white space of ASCII
pub record IsPlain (b : ℕ) : Type 0 where
  pub not_open : b ≢ 0x3C
  pub not_close : b ≢ 0x3E
  pub not_newline : b ≢ 0x0A
  pub not_return : b ≢ 0x0D
  pub not_tab : b ≢ 0x09
  pub not_space : b ≢ 0x20

-- Plain bytes and single spaces; the flag says that a space stands before.
pub data IsClean : Bool → Bytes → Type 0 where
  clean_end : {behind_space : Bool} → IsClean behind_space []
  clean_space : {bs : Bytes} → IsClean true bs → IsClean false (0x20 ∷ bs)
  clean_plain :
      {behind_space : Bool} {b : ℕ} {bs : Bytes}
      → IsPlain b
      → IsClean false bs
      → IsClean behind_space (b ∷ bs)

IsClean-weaken : (w : Bool) (bs : Bytes) → IsClean w bs → IsClean false bs
IsClean-weaken w [] h = clean_end
IsClean-weaken w (b ∷ bs) (clean_space h) = clean_space h
IsClean-weaken w (b ∷ bs) (clean_plain p h) = clean_plain p h

IsClean-tail : (w : Bool) (b : ℕ) (bs : Bytes) → IsClean w (b ∷ bs) → IsClean false bs
IsClean-tail w b bs (clean_space h) = IsClean-weaken true bs h
IsClean-tail w b bs (clean_plain p h) = h

trim_left_after-IsClean :
    (k : ℕ) (w : Bool) (bs : Bytes) → IsClean w bs → IsClean false (trim_left_after k bs)
unfolding trim_left_after
trim_left_after-IsClean k w [] h = clean_end
trim_left_after-IsClean (suc k) w (b ∷ bs) h =
    trim_left_after-IsClean k false bs (IsClean-tail w b bs h)
trim_left_after-IsClean zero w (b ∷ bs) h =
    either (is_space (first_rune b bs).0)
      (trim_left_after-IsClean ((first_rune b bs).1 - 1) false bs (IsClean-tail w b bs h))
      (IsClean-weaken w (b ∷ bs) h)
  where
    either :
        (c : Bool) {left right : Bytes}
        → IsClean false left
        → IsClean false right
        → IsClean false (if c then left else right)
    either true p q = p
    either false p q = q

IsClean-cons :
    (w : Bool) (b : ℕ) (bs cs : Bytes)
    → IsClean w (b ∷ bs)
    → ((v : Bool) → IsClean v bs → IsClean v cs)
    → IsClean w (b ∷ cs)
IsClean-cons w b bs cs (clean_space h) go_on = clean_space (go_on true h)
IsClean-cons w b bs cs (clean_plain p h) go_on = clean_plain p (go_on false h)

trim_right_after-IsClean :
    (k : ℕ) (w : Bool) (bs : Bytes) → IsClean w bs → IsClean w (trim_right_after k bs)
unfolding trim_right_after
trim_right_after-IsClean k w [] h = clean_end
trim_right_after-IsClean (suc k) w (b ∷ bs) h =
    IsClean-cons w b bs _ h (λ v. trim_right_after-IsClean k v bs)
trim_right_after-IsClean zero w (b ∷ bs) h =
    let rest =
      IsClean-cons w b bs _ h (λ v. trim_right_after-IsClean ((first_rune b bs).1 - 1) v bs) in
    elim (Bool-cases (blank_after 0 (b ∷ bs))) [
      | inl ends ↦ rw ends clean_end
      | inr goes_on ↦ rw goes_on rest
    ]

high-IsPlain : (b : ℕ) → 0x80 ≤ b → IsPlain b
high-IsPlain b h = record {
  not_open = λ e. absurd (omega arith);
  not_close = λ e. absurd (omega arith);
  not_newline = λ e. absurd (omega arith);
  not_return = λ e. absurd (omega arith);
  not_tab = λ e. absurd (omega arith);
  not_space = λ e. absurd (omega arith);
}

plain-IsPlain : (r : ℕ) → rune_kind r ≡ plain → IsPlain r
unfolding rune_kind
plain-IsPlain r h = record {
  not_open = λ e. ground arith;
  not_close = λ e. ground arith;
  not_newline = λ e. ground arith;
  not_return = λ e. ground arith;
  not_tab = λ e. ground arith;
  not_space = λ e. ground arith;
}

-- a byte of a longer rune
high : (w : Bool) (b : ℕ) (bs : Bytes) → 0x80 ≤ b → IsClean false bs → IsClean w (b ∷ bs)
high w b bs h rest = clean_plain (high-IsPlain b h) rest

encode_rune-IsClean :
    (w : Bool) (r : ℕ) (rest : Bytes)
    → rune_kind r ≡ plain
    → IsClean false rest
    → IsClean w (encode_rune r ++ rest)
unfolding encode_rune
encode_rune-IsClean w r rest e h =
    let last = high false (0x80 + r % 0x40) rest (omega arith) h in
    elim (Bool-cases (ltb r 0x80)) [
      | inl one ↦ rw one (clean_plain (plain-IsPlain r e) h)
      | inr more ↦ elim (Bool-cases (ltb r 0x800)) [
        | inl two ↦ rw (more, two) (high w (0xC0 + r / 0x40) _ (omega arith) last)
        | inr many ↦
            let last_two = high false (0x80 + r / 0x40 % 0x40) _ (omega arith) last in
            elim (Bool-cases (ltb r 0x10000)) [
              | inl three ↦
                  rw (more, many, three) (high w (0xE0 + r / 0x1000) _ (omega arith) last_two)
              | inr four ↦
                  rw (more, many, four)
                    (high w (0xF0 + r / 0x40000) _ (omega arith)
                      (high false (0x80 + r / 0x1000 % 0x40) _ (omega arith) last_two))
            ]
      ]
    ]

write_space-IsClean :
    (w : Bool) (rest : Bytes) → IsClean true rest → IsClean w (write_space w ++ rest)
unfolding write_space
write_space-IsClean true rest h = h
write_space-IsClean false rest h = clean_space h

strip_rune-IsClean :
    (k : RuneKind) (in_tag w : Bool) (r : ℕ) (rest : Bytes)
    → rune_kind r ≡ k
    → IsClean (strip_rune k in_tag w r).2 rest
    → IsClean w ((strip_rune k in_tag w r).0 ++ rest)
unfolding strip_rune
strip_rune-IsClean tag_open in_tag w r rest e h = write_space-IsClean w rest h
strip_rune-IsClean tag_close in_tag w r rest e h = h
strip_rune-IsClean blank true w r rest e h = h
strip_rune-IsClean blank false w r rest e h = write_space-IsClean w rest h
strip_rune-IsClean plain true w r rest e h = h
strip_rune-IsClean plain false w r rest e h = encode_rune-IsClean w r rest e h

strip_from-IsClean : (in_tag w : Bool) (rs : List ℕ) → IsClean w (strip_from in_tag w rs)
unfolding strip_from
strip_from-IsClean in_tag w [] = clean_end
strip_from-IsClean in_tag w (r ∷ rs) =
    let (_, tag, space) = strip_rune (rune_kind r) in_tag w r in
    strip_rune-IsClean (rune_kind r) in_tag w r _ refl (strip_from-IsClean tag space rs)

-- A text whose tags are stripped has no byte `<` or `>`, no tab, no newline and no carriage return
-- left, and no two spaces in a row.
pub strip_html_tags-IsClean : (input : Bytes) → IsClean false (strip_html_tags input)
unfolding strip_html_tags trim_space
strip_html_tags-IsClean input =
    trim_right_after-IsClean 0 false _
      (trim_left_after-IsClean 0 false _ (strip_from-IsClean false false (runes input)))
