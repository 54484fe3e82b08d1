-- ===== src/Os/Path/Distinct.antt =====
-- Which paths `filepath.Join` makes of a root and of segments that were validated.
use genkit_cowork.Base.{
  ℕ, ◌==◌, Bool, true, false, ◌&&◌, ◌||◌, List, [], ◌∷◌, ◌++◌, append_assoc, append-nil, ◌≡◌, inl,
  inr, refl, sym, ap, ◌∙◌, subst, suc, length, arith, All, Bool-cases,
}
use genkit_cowork.Base.Bytes.{Bytes, codes, eqb, eqb_iff}
use genkit_cowork.Base.Result.{ok, fail_if, ◌>>◌}
use genkit_cowork.Tools.Trim.{trim_space, trim_left_after, trim_right_after}
use genkit_cowork.Os.Path.{
  slash, dot, dot_dot, segments_from, segments, enter, enter_all, show_parts, is_rooted, parts_of,
  show_path, clean, with_slashes, join, is_one_of, contains_any, required, has_separator,
  dot_reference, validate_path_segment,
}

abbrev pub NoSlash : Bytes → Type 0
NoSlash s = All (λ c. (c == slash) ≡ false) s

-- what `ValidatePathSegment` lets pass
pub record IsSegment (s : Bytes) : Type 0 where
  pub filled : eqb s [] ≡ false
  pub no_slash : NoSlash s
  pub not_dot : eqb s dot ≡ false
  pub not_dot_dot : eqb s dot_dot ≡ false

segments-join :
    (part p rest : Bytes)
    → segments_from part (p ++ slash ∷ rest) ≡ segments_from part p ++ segments rest
unfolding segments_from
segments-join part [] rest = refl
segments-join part (c ∷ p) rest =
    ground (arith, segments-join [] p rest, segments-join (part ++ c ∷ []) p rest)

segments_one : (part s : Bytes) → NoSlash s → segments_from part s ≡ (part ++ s) ∷ []
unfolding segments_from
segments_one part [] h = ap (λ t. t ∷ []) (sym (append-nil part))
segments_one part (c ∷ s) h =
    ground (arith, segments_one (part ++ c ∷ []) s h.1, append_assoc part (c ∷ []) s)

enter_all-append :
    (rooted : Bool) (a b parts : List Bytes)
    → enter_all rooted (a ++ b) parts ≡ enter_all rooted b (enter_all rooted a parts)
unfolding enter_all
enter_all-append rooted [] b parts = refl
enter_all-append rooted (x ∷ a) b parts = enter_all-append rooted a b (enter rooted x parts)

enter-IsSegment :
    (rooted : Bool) (s : Bytes) (parts : List Bytes)
    → IsSegment s
    → enter rooted s parts ≡ s ∷ parts
unfolding enter
enter-IsSegment rooted s parts h = rw (h.filled, h.not_dot, h.not_dot_dot) refl

unfoldable pub push_all : List Bytes → List Bytes → List Bytes
push_all [] parts = parts
push_all (e ∷ es) parts = push_all es (e ∷ parts)

pub enter_all-with_slashes :
    (rooted : Bool) (p : Bytes) (es parts : List Bytes)
    → All IsSegment es
    → enter_all rooted (segments (with_slashes p es)) parts
      ≡ push_all es (enter_all rooted (segments p) parts)
unfolding with_slashes push_all enter_all
enter_all-with_slashes rooted p [] parts h = refl
enter_all-with_slashes rooted p (e ∷ es) parts h =
    ap (λ l. enter_all rooted l parts) (segments-join [] p (with_slashes e es))
    ∙ enter_all-append rooted (segments p) (segments (with_slashes e es)) parts
    ∙ enter_all-with_slashes rooted e es (enter_all rooted (segments p) parts) h.1
    ∙ ap (push_all es) (
        ap (λ l. enter_all rooted l (enter_all rooted (segments p) parts))
          (segments_one [] e h.0.no_slash)
        ∙ enter-IsSegment rooted e (enter_all rooted (segments p) parts) h.0)

pub is_rooted-with_slashes :
    (c : ℕ) (p : Bytes) (es : List Bytes) → is_rooted (with_slashes (c ∷ p) es) ≡ is_rooted (c ∷ p)
unfolding with_slashes
is_rooted-with_slashes c p [] = refl
is_rooted-with_slashes c p (e ∷ es) = refl

-- Segments that were validated stand behind the root as they are.
pub join-IsSegment :
    (c : ℕ) (root : Bytes) (es : List Bytes)
    → All IsSegment es
    → join ((c ∷ root) ∷ es) ≡ show_path (is_rooted (c ∷ root)) (push_all es (parts_of (c ∷ root)))
unfolding join clean eqb
join-IsSegment c root es h =
    rw (is_rooted-with_slashes c root es, enter_all-with_slashes (c == slash) (c ∷ root) es [] h)
      refl

no_slash_split {ℓ} : {X : Type ℓ} (a c : Bytes) → NoSlash (a ++ slash ∷ c) → X
no_slash_split [] c h = cc
no_slash_split (x ∷ a) c h = no_slash_split a c h.1

pub last_slash :
    (a b c d : Bytes) → NoSlash c → NoSlash d → a ++ slash ∷ c ≡ b ++ slash ∷ d → (a ≡ b) × (c ≡ d)
last_slash [] [] c d hc hd e = (refl, cc)
last_slash [] (y ∷ b) c d hc hd e =
    let tail : c ≡ b ++ slash ∷ d = cc in no_slash_split b d (subst NoSlash tail hc)
last_slash (x ∷ a) [] c d hc hd e =
    let tail : d ≡ a ++ slash ∷ c = cc in no_slash_split a c (subst NoSlash tail hd)
last_slash (x ∷ a) (y ∷ b) c d hc hd e =
    let head : x ≡ y = cc in
    let tail : a ++ slash ∷ c ≡ b ++ slash ∷ d = cc in
    let (p, q) = last_slash a b c d hc hd tail in (cc, q)

-- Parts without a slash can be read off the end of a path.
pub show_parts-inj :
    (xs ys ps : List Bytes)
    → length xs ≡ length ys
    → All NoSlash xs
    → All NoSlash ys
    → show_parts (xs ++ ps) ≡ show_parts (ys ++ ps)
    → xs ≡ ys
unfolding show_parts
show_parts-inj [] [] ps l hx hy e = refl
show_parts-inj [] (y ∷ ys) ps l hx hy e = absurd (omega arith)
show_parts-inj (x ∷ xs) [] ps l hx hy e = absurd (omega arith)
show_parts-inj (x ∷ []) (y ∷ []) [] l hx hy e = ap (λ t. t ∷ []) e
show_parts-inj (x ∷ []) (y ∷ []) (p ∷ ps) l hx hy e =
    ap (λ t. t ∷ []) (last_slash (show_parts (p ∷ ps)) (show_parts (p ∷ ps)) x y hx.0 hy.0 e).1
show_parts-inj (x ∷ []) (y ∷ y' ∷ ys) ps l hx hy e = absurd (omega arith)
show_parts-inj (x ∷ x' ∷ xs) (y ∷ []) ps l hx hy e = absurd (omega arith)
show_parts-inj (x ∷ x' ∷ xs) (y ∷ y' ∷ ys) ps l hx hy e =
    let (p, q) =
      last_slash (show_parts (x' ∷ xs ++ ps)) (show_parts (y' ∷ ys ++ ps)) x y hx.0 hy.0 e in
    let rest = show_parts-inj (x' ∷ xs) (y' ∷ ys) ps (omega arith) hx.1 hy.1 p in cc

pub show_parts-filled :
    (f : Bytes) (ps : List Bytes) → eqb f [] ≡ false → eqb (show_parts (f ∷ ps)) [] ≡ false
unfolding show_parts eqb
show_parts-filled f [] h = h
show_parts-filled f (p ∷ ps) h = append_filled (show_parts (p ∷ ps))
  where
    append_filled : (a : Bytes) → eqb (a ++ slash ∷ f) [] ≡ false
    append_filled [] = refl
    append_filled (c ∷ a) = refl

show_path-inj :
    (rooted : Bool) (xs ys ps : List Bytes) (x y : Bytes)
    → length xs ≡ length ys
    → All NoSlash (x ∷ xs)
    → All NoSlash (y ∷ ys)
    → eqb x [] ≡ false
    → eqb y [] ≡ false
    → show_path rooted (x ∷ xs ++ ps) ≡ show_path rooted (y ∷ ys ++ ps)
    → x ∷ xs ≡ y ∷ ys
unfolding show_path
show_path-inj rooted xs ys ps x y l hx hy fx fy e =
    show_parts-inj (x ∷ xs) (y ∷ ys) ps (ap suc l) hx hy (shown rooted e)
  where
    shown :
        (r : Bool)
        → show_path r (x ∷ xs ++ ps) ≡ show_path r (y ∷ ys ++ ps)
        → show_parts (x ∷ xs ++ ps) ≡ show_parts (y ∷ ys ++ ps)
    shown true e = cc
    shown false e = rw (show_parts-filled x (xs ++ ps) fx, show_parts-filled y (ys ++ ps) fy) at e

pub IsSegment-NoSlash : (es : List Bytes) → All IsSegment es → All NoSlash es
IsSegment-NoSlash [] h = tt
IsSegment-NoSlash (e ∷ es) h = (h.0.no_slash, IsSegment-NoSlash es h.1)

-- Files of one root in directories of two levels have different paths, unless the directories and
-- the names are the same; all of them are segments that were validated.
pub join-distinct :
    (c : ℕ) (root t n f t' n' f' : Bytes)
    → All IsSegment (f ∷ n ∷ t ∷ [])
    → All IsSegment (f' ∷ n' ∷ t' ∷ [])
    → join ((c ∷ root) ∷ t ∷ n ∷ f ∷ []) ≡ join ((c ∷ root) ∷ t' ∷ n' ∷ f' ∷ [])
    → (t ≡ t') × (n ≡ n') × (f ≡ f')
unfolding push_all
join-distinct c root t n f t' n' f' h h' e =
    let shown =
      sym (join-IsSegment c root (t ∷ n ∷ f ∷ []) (h.1.1.0, (h.1.0, (h.0, tt))))
      ∙ e
      ∙ join-IsSegment c root (t' ∷ n' ∷ f' ∷ []) (h'.1.1.0, (h'.1.0, (h'.0, tt))) in
    let same : f ∷ n ∷ t ∷ [] ≡ f' ∷ n' ∷ t' ∷ [] =
      show_path-inj (c == slash) (n ∷ t ∷ []) (n' ∷ t' ∷ []) (parts_of (c ∷ root)) f f' refl
        (IsSegment-NoSlash (f ∷ n ∷ t ∷ []) h) (IsSegment-NoSlash (f' ∷ n' ∷ t' ∷ []) h') h.0.filled
        h'.0.filled shown in
    (cc, cc, cc)

is_slash_of : (s : Bytes) → contains_any s (codes "/\\") ≡ false → NoSlash s
unfolding contains_any is_one_of
is_slash_of [] h = tt
is_slash_of (c ∷ s) h = (ground arith, is_slash_of s (ground arith))

three_checks :
    {E : Type 0} (x y z : E) (a b c : Bool)
    → (fail_if a x >> fail_if b y >> fail_if c z) ≡ ok tt
    → (a ≡ false) × (b ≡ false) × (c ≡ false)
three_checks x y z true b c h = cc
three_checks x y z false true c h = cc
three_checks x y z false false true h = cc
three_checks x y z false false false h = (refl, refl, refl)

or_false : (a b : Bool) → (a || b) ≡ false → (a ≡ false) × (b ≡ false)
or_false true b h = cc
or_false false b h = (refl, h)

trim_filled : (s : Bytes) → eqb (trim_space s) [] ≡ false → eqb s [] ≡ false
unfolding trim_space trim_left_after trim_right_after eqb
trim_filled [] h = h
trim_filled (c ∷ s) h = refl

-- What `ValidatePathSegment` lets pass is not empty, has no slash, and is neither `.` nor `..`.
pub validate_path_segment-IsSegment :
    (name value : Bytes) → validate_path_segment name value ≡ ok tt → IsSegment value
unfolding validate_path_segment
validate_path_segment-IsSegment name value h =
    let (filled, plain, named) =
      three_checks (required name) (has_separator name) (dot_reference name)
        (eqb (trim_space value) []) (contains_any value (codes "/\\"))
        (eqb value dot || eqb value dot_dot) h in
    let (one, two) = or_false (eqb value dot) (eqb value dot_dot) named in
    record {
      filled = trim_filled value filled;
      no_slash = is_slash_of value plain;
      not_dot = one;
      not_dot_dot = two;
    }

-- Files of one name in directories of two levels: one path only if both levels are the same.
pub eqb-join :
    (c : ℕ) (root f t n t' n' : Bytes)
    → IsSegment f
    → All IsSegment (n ∷ t ∷ [])
    → All IsSegment (n' ∷ t' ∷ [])
    → eqb (join ((c ∷ root) ∷ t ∷ n ∷ f ∷ [])) (join ((c ∷ root) ∷ t' ∷ n' ∷ f ∷ []))
      ≡ (eqb t t' && eqb n n')
eqb-join c root f t n t' n' hf h h' =
    let p = join ((c ∷ root) ∷ t ∷ n ∷ f ∷ []) in
    let p' = join ((c ∷ root) ∷ t' ∷ n' ∷ f ∷ []) in
    elim (Bool-cases (eqb p p')) [
      | inl same ↦
          let (et, en, _) =
            join-distinct c root t n f t' n' f (hf, h) (hf, h') ((eqb_iff p p').0 same) in
          ground (arith, eqb_iff t t', eqb_iff n n')
      | inr apart ↦ elim (Bool-cases (eqb t t' && eqb n n')) [
        | inr other ↦ apart ∙ sym other
        | inl both ↦
            let et : t ≡ t' = ground (arith, eqb_iff t t') in
            let en : n ≡ n' = ground (arith, eqb_iff n n') in
            let same : p ≡ p' = rw (et, en) refl in ground (arith, eqb_iff p p')
      ]
    ]

-- Two keys `tenant + "/" + session` are the same only if both parts are, when no session has a slash.
pub eqb-with_slash :
    (t n t' n' : Bytes)
    → NoSlash n
    → NoSlash n'
    → eqb (t ++ slash ∷ n) (t' ++ slash ∷ n') ≡ (eqb t t' && eqb n n')
eqb-with_slash t n t' n' h h' = elim (Bool-cases (eqb (t ++ slash ∷ n) (t' ++ slash ∷ n'))) [
  | inl same ↦
      let (et, en) =
        last_slash t t' n n' h h' ((eqb_iff (t ++ slash ∷ n) (t' ++ slash ∷ n')).0 same) in
      ground (arith, eqb_iff t t', eqb_iff n n')
  | inr apart ↦ elim (Bool-cases (eqb t t' && eqb n n')) [
    | inr other ↦ apart ∙ sym other
    | inl both ↦
        let et : t ≡ t' = ground (arith, eqb_iff t t') in
        let en : n ≡ n' = ground (arith, eqb_iff n n') in
        let same : t ++ slash ∷ n ≡ t' ++ slash ∷ n' = rw (et, en) refl in
        ground (arith, eqb_iff (t ++ slash ∷ n) (t' ++ slash ∷ n'))
  ]
]
