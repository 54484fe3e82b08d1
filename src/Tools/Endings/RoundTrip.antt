-- ===== src/Tools/Endings/RoundTrip.antt =====
-- A text with one kind of line end gets its line ends back.
use genkit_cowork.Base.{
  ℕ, suc, [], ◌∷◌, ◌≡◌, ◌≢◌, refl, arith, All, none, some, ◌⊎◌, ◌==◌, Bool-cases, inl, inr,
}
use genkit_cowork.Base.Bytes.{Bytes, eqb, has_prefix}
use genkit_cowork.Tools.Search.{index_of}
use genkit_cowork.Tools.Lines.{newline}
use genkit_cowork.Tools.Endings.{
  carriage_return, crlf_to_lf, cr_to_lf, normalize_to_lf, lf, crlf, lf_to_crlf,
  restore_line_endings, detect_line_ending, earlier,
}

abbrev pub HasNoReturn : Bytes → Type 0
HasNoReturn = All (λ c. c ≢ carriage_return)

crlf_to_lf-cons :
    (c : ℕ) (cs : Bytes) → c ≢ carriage_return → crlf_to_lf (c ∷ cs) ≡ c ∷ crlf_to_lf cs
unfolding crlf_to_lf
crlf_to_lf-cons c [] h = refl
crlf_to_lf-cons c (d ∷ cs) h = ground arith

crlf_to_lf-crlf :
    (cs : Bytes) → crlf_to_lf (carriage_return ∷ newline ∷ cs) ≡ newline ∷ crlf_to_lf cs
unfolding crlf_to_lf
crlf_to_lf-crlf cs = crlf_to_lf-cons newline cs (omega arith)

crlf_to_lf-lf_to_crlf : (cs : Bytes) → HasNoReturn cs → crlf_to_lf (lf_to_crlf cs) ≡ cs
unfolding lf_to_crlf crlf_to_lf
crlf_to_lf-lf_to_crlf [] h = refl
crlf_to_lf-lf_to_crlf (c ∷ cs) h = elim (Bool-cases (c == newline)) [
  | inl e ↦ rw (e, crlf_to_lf-crlf (lf_to_crlf cs), crlf_to_lf-lf_to_crlf cs h.1) (ground arith)
  | inr ne ↦ rw (ne, crlf_to_lf-cons c (lf_to_crlf cs) h.0, crlf_to_lf-lf_to_crlf cs h.1) refl
]

crlf_to_lf-HasNoReturn : (cs : Bytes) → HasNoReturn cs → crlf_to_lf cs ≡ cs
unfolding crlf_to_lf
crlf_to_lf-HasNoReturn [] h = refl
crlf_to_lf-HasNoReturn (c ∷ cs) h =
    rw (crlf_to_lf-cons c cs h.0, crlf_to_lf-HasNoReturn cs h.1) refl

cr_to_lf-HasNoReturn : (cs : Bytes) → HasNoReturn cs → cr_to_lf cs ≡ cs
unfolding cr_to_lf
cr_to_lf-HasNoReturn [] h = refl
cr_to_lf-HasNoReturn (c ∷ cs) h = ground (arith, cr_to_lf-HasNoReturn cs h.1)

-- The first line end of a text with both ends as CRLF.
index-lf_to_crlf :
    (cs : Bytes)
    → HasNoReturn cs
    → ((lf_to_crlf cs ≡ cs) × (index_of crlf cs ≡ none) × (index_of lf cs ≡ none))
      ⊎ ((k : ℕ) × (index_of crlf (lf_to_crlf cs) ≡ some k)
          × (index_of lf (lf_to_crlf cs) ≡ some (suc k)))
unfolding lf_to_crlf index_of has_prefix
index-lf_to_crlf [] h = inl (refl, refl, refl)
index-lf_to_crlf (c ∷ cs) h = elim (Bool-cases (c == newline)) [
  | inl e ↦ inr (0, rw e refl, rw e refl)
  | inr ne ↦ elim (index-lf_to_crlf cs h.1) [
    | inl (same, a, b) ↦ inl (rw (ne, same) refl, ground (arith, h.0, a), ground (arith, ne, b))
    | inr (k, a, b) ↦ inr (suc k, rw ne (ground (arith, h.0, a)), rw ne (ground (arith, ne, b)))
  ]
]

index_of-crlf : (cs : Bytes) → HasNoReturn cs → index_of crlf cs ≡ none
unfolding index_of has_prefix
index_of-crlf [] h = refl
index_of-crlf (c ∷ cs) h = ground (arith, index_of-crlf cs h.1)

-- A text whose line ends are all line feeds, and one whose line ends are all CRLF, is the same again
-- once its line ends are normalized and then restored to those detected in it.
pub restore_line_endings-normalize :
    (cs : Bytes)
    → HasNoReturn cs
    → (restore_line_endings (normalize_to_lf cs) (detect_line_ending cs) ≡ cs)
      × (restore_line_endings (normalize_to_lf (lf_to_crlf cs)) (detect_line_ending (lf_to_crlf cs))
          ≡ lf_to_crlf cs)
unfolding restore_line_endings normalize_to_lf detect_line_ending earlier eqb
restore_line_endings-normalize cs h = (
  rw (index_of-crlf cs h, crlf_to_lf-HasNoReturn cs h) (cr_to_lf-HasNoReturn cs h),
  elim (index-lf_to_crlf cs h) [
    | inl (same, a, b) ↦ rw (same, a, crlf_to_lf-HasNoReturn cs h) (cr_to_lf-HasNoReturn cs h)
    | inr (k, a, b) ↦
        rw (a, b, crlf_to_lf-lf_to_crlf cs h, cr_to_lf-HasNoReturn cs h) (ground (arith, a, b))
  ],
)
