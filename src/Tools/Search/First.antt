-- ===== src/Tools/Search/First.antt =====
-- `strings.Index` finds the first occurrence.
use genkit_cowork.Base.{
  ℕ, suc, ◌+◌, ◌≤◌, true, false, Option, none, some, [], ◌∷◌, ◌++◌, ◌≡◌, ◌≢◌, refl, sym, ap, subst,
  ◌∙◌, inl, inr, arith, length, take, drop, Bool-cases,
}
use genkit_cowork.Base.Bytes.{Bytes, has_prefix}
use genkit_cowork.Tools.Search.{index_of, after_one}

-- The text stands in `s` behind the first `i` bytes.
abbrev pub StandsAt : Bytes → Bytes → ℕ → Type 0
StandsAt text s i = take i s ++ (text ++ drop (i + length text) s) ≡ s

-- The text stands nowhere in `s` before `i`.
abbrev pub NotBefore : Bytes → Bytes → ℕ → Type 0
NotBefore text s i = (front back : Bytes) → front ++ (text ++ back) ≡ s → i ≤ length front

pub has_prefix-eq : (s p : Bytes) → has_prefix s p ≡ true → p ++ drop (length p) s ≡ s
unfolding has_prefix
has_prefix-eq s [] h = refl
has_prefix-eq [] (y ∷ ys) h = cc
has_prefix-eq (x ∷ xs) (y ∷ ys) h = ground (arith, has_prefix-eq xs ys)

has_prefix-append : (p back : Bytes) → has_prefix (p ++ back) p ≡ true
unfolding has_prefix
has_prefix-append [] back = refl
has_prefix-append (x ∷ xs) back = ground (arith, has_prefix-append xs back)

pub has_prefix_front : (s p back : Bytes) → p ++ back ≡ s → has_prefix s p ≡ true
has_prefix_front s p back h = ap (λ z. has_prefix z p) (sym h) ∙ has_prefix-append p back

-- an occurrence that is not at the front is one in the tail
in_tail :
    (text : Bytes) (c : ℕ) (cs front back : Bytes)
    → has_prefix (c ∷ cs) text ≡ false
    → front ++ (text ++ back) ≡ c ∷ cs
    → (rest : Bytes) × (length front ≡ suc (length rest)) × (rest ++ (text ++ back) ≡ cs)
in_tail text c cs [] back later e = absurd (cc (later, has_prefix_front (c ∷ cs) text back e))
in_tail text c cs (x ∷ front) back later e = (front, refl, cc)

abbrev Outcome : Bytes → Bytes → Option ℕ → Type 0
Outcome text s none = (front back : Bytes) → front ++ (text ++ back) ≢ s
Outcome text s (some i) = StandsAt text s i × NotBefore text s i

at_front : (text s : Bytes) → has_prefix s text ≡ true → Outcome text s (some 0)
at_front text s h =
    (ap (λ k. text ++ drop k s) (omega arith) ∙ has_prefix-eq s text h, λ front back e. omega arith)

Outcome-after :
    (text : Bytes) (c : ℕ) (cs : Bytes)
    → has_prefix (c ∷ cs) text ≡ false
    → (o : Option ℕ) → Outcome text cs o
    → Outcome text (c ∷ cs) (after_one o)
unfolding after_one
Outcome-after text c cs later none f =
    λ front back e. let (rest, k, e') = in_tail text c cs front back later e in f rest back e'
Outcome-after text c cs later (some i) (p, q) = (
  ap (λ k. c ∷ (take i cs ++ (text ++ drop k (c ∷ cs)))) shift ∙ ap (λ z. c ∷ z) p,
  λ front back e.
      let (rest, k, e') = in_tail text c cs front back later e in omega (arith, k, q rest back e'),
)
  where
    shift : suc i + length text ≡ suc (i + length text)
    shift = omega arith

nowhere_in_nil : (text : Bytes) → has_prefix [] text ≡ false → Outcome text [] none
unfolding has_prefix
nowhere_in_nil [] h = cc
nowhere_in_nil (x ∷ text) h = λ front back e. not_nil front back e
  where
    not_nil : (front back : Bytes) → front ++ (x ∷ text ++ back) ≢ []
    not_nil [] back e = cc
    not_nil (y ∷ front) back e = cc

index_of-Outcome : (text s : Bytes) → Outcome text s (index_of text s)
unfolding index_of
index_of-Outcome text [] = elim (Bool-cases (has_prefix [] text)) [
  | inl here ↦ rw here (at_front text [] here)
  | inr never ↦ rw never (nowhere_in_nil text never)
]
index_of-Outcome text (c ∷ cs) = elim (Bool-cases (has_prefix (c ∷ cs) text)) [
  | inl here ↦ rw here (at_front text (c ∷ cs) here)
  | inr later ↦
      rw later (Outcome-after text c cs later (index_of text cs) (index_of-Outcome text cs))
]

-- An index that is found is where the text stands, and it stands nowhere before; if none is found,
-- the text stands nowhere.
pub index_of-first :
    (text s : Bytes)
    → ((i : ℕ) → index_of text s ≡ some i → StandsAt text s i × NotBefore text s i)
      × (index_of text s ≡ none → (front back : Bytes) → front ++ (text ++ back) ≢ s)
index_of-first text s = (
  λ i e. subst (Outcome text s) e (index_of-Outcome text s),
  λ e. subst (Outcome text s) e (index_of-Outcome text s),
)
