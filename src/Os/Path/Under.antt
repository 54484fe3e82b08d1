-- ===== src/Os/Path/Under.antt =====
-- Which paths are below a directory.
use genkit_cowork.Base.{
  ℕ, suc, ◌+◌, ◌==◌, Bool, true, false, ◌&&◌, ◌||◌, List, [], ◌∷◌, ◌++◌, append_assoc, ◌≡◌, ◌⊎◌,
  inl, inr, refl, sym, ap, ◌∙◌, arith, subst, All, Bool-cases, if◌then◌else◌,
}
use genkit_cowork.Base.Bytes.{Bytes, eqb, eqb_iff, has_prefix}
use genkit_cowork.Os.Path.{slash, show_parts, show_path, parts_of, join}
use genkit_cowork.Os.Path.Distinct.{
  NoSlash, IsSegment, last_slash, show_parts-filled, show_parts-inj, push_all, join-IsSegment,
}

-- The path of a directory, and what stands below it.
unfoldable pub is_under : Bytes → Bytes → Bool
is_under dir p = eqb dir p || has_prefix p (dir ++ slash ∷ [])

unfoldable slashes : Bytes → ℕ
slashes [] = 0
slashes (c ∷ s) = if c == slash then suc (slashes s) else slashes s

slashes-append : (a b : Bytes) → slashes (a ++ b) ≡ slashes a + slashes b
unfolding slashes
slashes-append [] b = omega arith
slashes-append (c ∷ a) b = ground (arith, slashes-append a b)

slashes_none : (s : Bytes) → NoSlash s → slashes s ≡ 0
unfolding slashes
slashes_none [] h = refl
slashes_none (c ∷ s) h = ground (arith, slashes_none s h.1)

no_slashes : (s : Bytes) → slashes s ≡ 0 → NoSlash s
unfolding slashes
no_slashes [] h = tt
no_slashes (c ∷ s) h = elim (Bool-cases (c == slash)) [
  | inl yes_slash ↦ absurd (ground arith)
  | inr other ↦ (other, no_slashes s (rw other at h))
]

-- Each part behind another adds one slash.
slashes-show_parts :
    (x p : Bytes) (ps : List Bytes)
    → NoSlash x
    → slashes (show_parts (x ∷ p ∷ ps)) ≡ suc (slashes (show_parts (p ∷ ps)))
unfolding show_parts slashes
slashes-show_parts x p ps h =
    ground (arith, slashes-append (show_parts (p ∷ ps)) (slash ∷ x), slashes_none x h)

slashes_same :
    (x y : Bytes) (ps : List Bytes)
    → NoSlash x
    → NoSlash y
    → slashes (show_parts (x ∷ ps)) ≡ slashes (show_parts (y ∷ ps))
unfolding show_parts
slashes_same x y [] hx hy = slashes_none x hx ∙ sym (slashes_none y hy)
slashes_same x y (p ∷ ps) hx hy = slashes-show_parts x p ps hx ∙ sym (slashes-show_parts y p ps hy)

has_prefix_rest : (s p : Bytes) → has_prefix s p ≡ true → (z : Bytes) × (s ≡ p ++ z)
unfolding has_prefix
has_prefix_rest s [] h = (s, refl)
has_prefix_rest [] (y ∷ p) h = cc
has_prefix_rest (x ∷ s) (y ∷ p) h =
    let (z, e) = has_prefix_rest s p (ground arith) in (z, ground arith)

has_prefix-append : (p z : Bytes) → has_prefix (p ++ z) p ≡ true
unfolding has_prefix
has_prefix-append [] z = refl
has_prefix-append (x ∷ p) z = ground (arith, has_prefix-append p z)

is_under_below : (dir z : Bytes) → is_under dir (dir ++ slash ∷ z) ≡ true
unfolding is_under
is_under_below dir z =
    let below = rw append_assoc at (has_prefix-append (dir ++ slash ∷ []) z) in
    elim (Bool-cases (eqb dir (dir ++ slash ∷ z))) [
      | inl same ↦ rw same refl
      | inr other ↦ rw other below
    ]

-- What is below a directory has its path, a slash and a rest.
is_under-cases :
    (dir p : Bytes) → is_under dir p ≡ true → (dir ≡ p) ⊎ ((z : Bytes) × (p ≡ dir ++ slash ∷ z))
unfolding is_under
is_under-cases dir p h = elim (Bool-cases (eqb dir p)) [
  | inl same ↦ inl ((eqb_iff dir p).0 same)
  | inr other ↦
      let (z, e) = has_prefix_rest p (dir ++ slash ∷ []) (rw other at h) in
      inr (z, e ∙ append_assoc dir (slash ∷ []) z)
]

module _ (t n t' n' f : Bytes) (ps : List Bytes) where
  under_same :
      t ≡ t' → n ≡ n' → is_under (show_parts (n ∷ t ∷ ps)) (show_parts (f ∷ n' ∷ t' ∷ ps)) ≡ true
  unfolding show_parts
  under_same p q =
      subst (λ m. is_under (show_parts (m ∷ t ∷ ps)) (show_parts (f ∷ n' ∷ t' ∷ ps)) ≡ true) (sym q)
        (subst (λ u. is_under (show_parts (n' ∷ u ∷ ps)) (show_parts (f ∷ n' ∷ t' ∷ ps)) ≡ true)
          (sym p) (is_under_below (show_parts (n' ∷ t' ∷ ps)) f))

  rest-NoSlash :
      (z : Bytes)
      → All NoSlash (f ∷ n ∷ t ∷ [])
      → All NoSlash (n' ∷ t' ∷ [])
      → show_parts (f ∷ n' ∷ t' ∷ ps) ≡ show_parts (n ∷ t ∷ ps) ++ slash ∷ z
      → NoSlash z
  unfolding slashes
  rest-NoSlash z h h' e = no_slashes z (
      omega (
        arith,
        ap slashes e,
        slashes-append (show_parts (n ∷ t ∷ ps)) (slash ∷ z),
        slashes-show_parts f n' (t' ∷ ps) h.0,
        slashes-show_parts n' t' ps h'.0,
        slashes-show_parts n t ps h.1.0,
        slashes_same t t' ps h.1.1.0 h'.1.0,
      ))

  same_under :
      All NoSlash (f ∷ n ∷ t ∷ [])
      → All NoSlash (n' ∷ t' ∷ [])
      → is_under (show_parts (n ∷ t ∷ ps)) (show_parts (f ∷ n' ∷ t' ∷ ps)) ≡ true
      → (t ≡ t') × (n ≡ n')
  unfolding show_parts
  same_under h h' u =
      elim (is_under-cases (show_parts (n ∷ t ∷ ps)) (show_parts (f ∷ n' ∷ t' ∷ ps)) u) [
        | inl e ↦ absurd (
            omega (
              arith,
              ap slashes e,
              slashes-show_parts f n' (t' ∷ ps) h.0,
              slashes-show_parts n' t' ps h'.0,
              slashes-show_parts n t ps h.1.0,
              slashes_same t t' ps h.1.1.0 h'.1.0,
            ))
        | inr (z, e) ↦
            let (up, _) =
              last_slash (show_parts (n' ∷ t' ∷ ps)) (show_parts (n ∷ t ∷ ps)) f z h.0
                (rest-NoSlash z h h' e) e in
            let same =
              show_parts-inj (n' ∷ t' ∷ []) (n ∷ t ∷ []) ps refl h' (h.1.0, (h.1.1.0, tt)) up in
            (cc, cc)
      ]

  -- A file of a directory of two levels is below no other such directory.
  is_under-show_parts :
      All NoSlash (f ∷ n ∷ t ∷ [])
      → All NoSlash (n' ∷ t' ∷ [])
      → is_under (show_parts (n ∷ t ∷ ps)) (show_parts (f ∷ n' ∷ t' ∷ ps)) ≡ (eqb t t' && eqb n n')
  is_under-show_parts h h' =
      elim (Bool-cases (is_under (show_parts (n ∷ t ∷ ps)) (show_parts (f ∷ n' ∷ t' ∷ ps)))) [
        | inl below ↦
            let (p, q) = same_under h h' below in ground (arith, eqb_iff t t', eqb_iff n n')
        | inr apart ↦ elim (Bool-cases (eqb t t' && eqb n n')) [
          | inl same ↦
              let p : t ≡ t' = ground (arith, eqb_iff t t') in
              let q : n ≡ n' = ground (arith, eqb_iff n n') in let below = under_same p q in cc
          | inr other ↦ apart ∙ sym other
        ]
      ]

is_under-show_path :
    (rooted : Bool) (a b : Bytes) (ps qs : List Bytes)
    → eqb a [] ≡ false
    → eqb b [] ≡ false
    → is_under (show_path rooted (a ∷ ps)) (show_path rooted (b ∷ qs))
      ≡ is_under (show_parts (a ∷ ps)) (show_parts (b ∷ qs))
unfolding show_path is_under eqb has_prefix
is_under-show_path true a b ps qs ha hb = ground arith
is_under-show_path false a b ps qs ha hb =
    rw (show_parts-filled a ps ha, show_parts-filled b qs hb) refl

pub is_under-join :
    (c : ℕ) (root t n t' n' f : Bytes)
    → All IsSegment (n ∷ t ∷ [])
    → All IsSegment (f ∷ n' ∷ t' ∷ [])
    → is_under (join ((c ∷ root) ∷ t ∷ n ∷ [])) (join ((c ∷ root) ∷ t' ∷ n' ∷ f ∷ []))
      ≡ (eqb t t' && eqb n n')
unfolding push_all
is_under-join c root t n t' n' f h h' =
    rw
      (
        join-IsSegment c root (t ∷ n ∷ []) (h.1.0, (h.0, tt)),
        join-IsSegment c root (t' ∷ n' ∷ f ∷ []) (h'.1.1.0, (h'.1.0, (h'.0, tt))),
        is_under-show_path (c == slash) n f (t ∷ parts_of (c ∷ root))
            (n' ∷ t' ∷ parts_of (c ∷ root)) h.0.filled h'.0.filled,
      )
      (is_under-show_parts t n t' n' f (parts_of (c ∷ root))
        (h'.0.no_slash, (h.0.no_slash, (h.1.0.no_slash, tt)))
        (h'.1.0.no_slash, (h'.1.1.0.no_slash, tt)))
