-- ===== src/Tools/Lines.antt =====
-- `splitLines` and `joinLines` of genkit-cowork/tools/truncate.go.
use genkit_cowork.Base.{
  ℕ, ◌+◌, Bool, true, false, List, [], ◌∷◌, ◌++◌, append_assoc, append-nil, ◌≡◌, ◌≢◌, inl, inr,
  refl, ap, ◌∙◌, arith, length, length-append, All, All-append, Bool-cases, ◌==◌, if◌then◌else◌,
}
use genkit_cowork.Base.Bytes.{Bytes}

abbrev pub newline : ℕ
newline = b'\n'

-- The loop: `cur` is `content[start:i]`.
split_from : Bytes → Bytes → List Bytes
split_from cur [] = cur ∷ []
split_from cur (c ∷ cs) =
    let cut = cur ∷ split_from [] cs in
    let go_on = split_from (cur ++ c ∷ []) cs in if c == newline then cut else go_on

unfoldable pub split_lines : Bytes → List Bytes
unfolding split_from
split_lines = split_from []

-- what the loop appends from the second line on
joined : List Bytes → Bytes
joined [] = []
joined (l ∷ ls) = newline ∷ (l ++ joined ls)

unfoldable pub join_lines : List Bytes → Bytes
unfolding joined
join_lines [] = []
join_lines (l ∷ ls) = l ++ joined ls

split_from-ne-nil : (cur cs : Bytes) → split_from cur cs ≢ []
unfolding split_from
split_from-ne-nil cur [] h = cc
split_from-ne-nil cur (c ∷ cs) h = ground (arith, split_from-ne-nil (cur ++ c ∷ []) cs)

pub split_lines-ne-nil : (cs : Bytes) → split_lines cs ≢ []
unfolding split_lines
split_lines-ne-nil cs = split_from-ne-nil [] cs

joined-join : (ls : List Bytes) → ls ≢ [] → joined ls ≡ newline ∷ join_lines ls
unfolding join_lines
joined-join [] h = absurd (h refl)
joined-join (l ∷ ls) h = refl

join-split_from : (cur cs : Bytes) → join_lines (split_from cur cs) ≡ cur ++ cs
unfolding split_from join_lines
join-split_from cur [] = refl
join-split_from cur (c ∷ cs) = ground (
  arith,
  joined-join (split_from [] cs) (split_from-ne-nil [] cs),
  join-split_from [] cs,
  join-split_from (cur ++ c ∷ []) cs,
  append_assoc cur (c ∷ []) cs,
)

-- Joining the lines of a text gives the text back.
pub join_lines-split_lines : (cs : Bytes) → join_lines (split_lines cs) ≡ cs
unfolding split_lines
join_lines-split_lines cs = join-split_from [] cs

abbrev pub IsLine : Bytes → Type 0
IsLine = All (λ c. c ≢ newline)

split_from-append :
    (cur l rest : Bytes) → IsLine l → split_from cur (l ++ rest) ≡ split_from (cur ++ l) rest
unfolding split_from
split_from-append cur [] rest h = rw append-nil refl
split_from-append cur (c ∷ l) rest h =
    ground (arith, split_from-append (cur ++ c ∷ []) l rest h.1, append_assoc cur (c ∷ []) l)

split_from-joined :
    (cur : Bytes) (ls : List Bytes) → All IsLine ls → split_from cur (joined ls) ≡ cur ∷ ls
unfolding split_from joined
split_from-joined cur [] h = refl
split_from-joined cur (l ∷ ls) h =
    ap (λ t. cur ∷ t) (split_from-append [] l (joined ls) h.0 ∙ split_from-joined l ls h.1)

-- Splitting the join of lines gives the lines back: at least one, and no newline inside them.
pub split_lines-join_lines :
    (ls : List Bytes) → ls ≢ [] → All IsLine ls → split_lines (join_lines ls) ≡ ls
unfolding split_lines join_lines
split_lines-join_lines [] ne h = absurd (ne refl)
split_lines-join_lines (l ∷ ls) ne h =
    split_from-append [] l (joined ls) h.0 ∙ split_from-joined l ls h.1

IsLine-concat : (cur : Bytes) (c : ℕ) → IsLine cur → c ≢ newline → IsLine (cur ++ c ∷ [])
IsLine-concat cur c h k = All-append (λ c. c ≢ newline) cur (c ∷ []) h (k, tt)

split_from-IsLine : (cur cs : Bytes) → IsLine cur → All IsLine (split_from cur cs)
unfolding split_from
split_from-IsLine cur [] h = (h, tt)
split_from-IsLine cur (c ∷ cs) h = elim (Bool-cases (c == newline)) [
  | inl e ↦ rw e (h, split_from-IsLine [] cs tt)
  | inr ne ↦ rw ne (split_from-IsLine (cur ++ c ∷ []) cs (IsLine-concat cur c h (ground arith)))
]

-- No line of a text holds a newline.
pub split_lines-IsLine : (cs : Bytes) → All IsLine (split_lines cs)
unfolding split_lines
split_lines-IsLine cs = split_from-IsLine [] cs tt

joined-append : (xs ys : List Bytes) → joined (xs ++ ys) ≡ joined xs ++ joined ys
unfolding joined
joined-append [] ys = refl
joined-append (x ∷ xs) ys = simp (joined-append xs ys, append_assoc)

-- Two joins meet at a newline.
pub join_lines-append :
    (x : Bytes) (xs : List Bytes) (y : Bytes) (ys : List Bytes)
    → join_lines ((x ∷ xs) ++ y ∷ ys) ≡ join_lines (x ∷ xs) ++ newline ∷ join_lines (y ∷ ys)
unfolding join_lines
join_lines-append x xs y ys = simp (joined-append, append_assoc)

-- the bytes that the loops count for one more line
abbrev pub separated : Bool → Bytes → ℕ
separated true l = length l
separated false l = length l + 1

abbrev pub is_nil : List Bytes → Bool
is_nil [] = true
is_nil (x ∷ xs) = false

pub length-join-concat :
    (xs : List Bytes) (l : Bytes)
    → length (join_lines (xs ++ l ∷ [])) ≡ length (join_lines xs) + separated (is_nil xs) l
unfolding join_lines
length-join-concat [] l = omega (arith, length-append l [])
length-join-concat (x ∷ xs) l =
    rw (joined-append, ← append_assoc)
      (omega (arith, length-append (x ++ joined xs) (newline ∷ (l ++ [])), length-append l []))

pub length-join-cons :
    (l : Bytes) (xs : List Bytes)
    → length (join_lines (l ∷ xs)) ≡ length (join_lines xs) + separated (is_nil xs) l
unfolding join_lines
length-join-cons l [] = omega (arith, length-append l [])
length-join-cons l (x ∷ xs) = omega (arith, length-append l (newline ∷ (x ++ joined xs)))
