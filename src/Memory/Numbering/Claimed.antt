-- ===== src/Memory/Numbering/Claimed.antt =====
-- The claims of new turns on new messages are accepted if there are messages enough.
use genkit_cowork.Base.{
  ℕ, zero, suc, ◌+◌, ◌≤◌, ◌<◌, true, some, List, [], ◌∷◌, ◌≡◌, refl, sym, ap, ◌∙◌, arith, length,
  get_elem?, ltb-false_of, leb-false_of,
}
use genkit_cowork.Base.Int.{ℤ, pos, negsuc, pos_part, ◌+ℤ◌, leb_ℤ, add_64}
use genkit_cowork.Base.Result.{ok}
use genkit_cowork.Memory.Types.{TurnRecord}
use genkit_cowork.Memory.Numbering.{at_index, claim_bounds, claim_turn, claim_turns}

-- the messages that turns claim; a count below 0 claims none
abbrev pub total_claimed : List TurnRecord → ℕ
total_claimed [] = 0
total_claimed (t ∷ ts) = pos_part t.message_count + total_claimed ts

get_elem?-some : (zs : List ℤ) (i : ℕ) → i < length zs → (z : ℤ) × (get_elem? zs i ≡ some z)
get_elem?-some [] i h = absurd (omega arith)
get_elem?-some (z ∷ zs) zero h = (z, refl)
get_elem?-some (z ∷ zs) (suc i) h = get_elem?-some zs i (omega arith)

add_end : (a b : ℕ) → a + b ≤ 0x7fff_ffff_ffff_ffff → add_64 (pos a) (pos b) ≡ pos (a + b)
unfolding add_64 ◌+ℤ◌
add_end a b h = ground arith

add_last : (a : ℕ) → suc a ≤ 0x7fff_ffff_ffff_ffff → add_64 (pos (suc a)) (negsuc 0) ≡ pos a
unfolding add_64 ◌+ℤ◌
add_last a h = ground arith

-- a turn that claims no message
claim_turn-none :
    (zs : List ℤ) (k : ℕ) (t : TurnRecord) (last : ℤ) (cursor : ℕ)
    → pos_part t.message_count ≡ 0
    → (t' : TurnRecord) × (last' : ℤ) × (claim_turn zs k t last cursor ≡ ok (t', last', cursor))
unfolding claim_turn
claim_turn-none zs k t last cursor h = rw not_positive (_, _, refl)
  where
    not_positive : leb_ℤ t.message_count (pos 0) ≡ true
    not_positive = ground arith

-- a turn that claims some
claim_turn-some :
    (zs : List ℤ) (k c : ℕ) (t : TurnRecord) (last : ℤ) (cursor : ℕ)
    → t.message_count ≡ pos (suc c)
    → cursor + suc c ≤ length zs
    → length zs ≤ 0x7fff_ffff_ffff_ffff
    → (t' : TurnRecord) × (last' : ℤ) × (claim_turn zs k t last cursor
        ≡ ok (t', last', cursor + suc c))
unfolding claim_turn claim_bounds at_index
claim_turn-some zs k c t last cursor h room fits =
    let (first, e1) = get_elem?-some zs cursor (omega arith) in
    let (final, e2) = get_elem?-some zs (cursor + c) (omega arith) in
    rw
      (
        h,
        add_end cursor (suc c) (omega arith),
        leb-false_of (suc c + 0) 0 (omega arith),
        ltb-false_of (length zs + 0) (cursor + suc c + 0) (omega arith),
        sym (add_suc cursor c),
        add_last (cursor + c) (omega arith),
        e1,
        e2,
      )
      (_, _, refl)
  where
    add_suc : (a b : ℕ) → suc (a + b) ≡ a + suc b
    add_suc a b = omega arith

claim_turn-fits :
    (zs : List ℤ) (k : ℕ) (t : TurnRecord) (last : ℤ) (cursor : ℕ)
    → cursor + pos_part t.message_count ≤ length zs
    → length zs ≤ 0x7fff_ffff_ffff_ffff
    → (t' : TurnRecord) × (last' : ℤ) × (claim_turn zs k t last cursor
        ≡ ok (t', last', cursor + pos_part t.message_count))
claim_turn-fits zs k t last cursor room fits = by_count t.message_count refl
  where
    none_claimed :
        pos_part t.message_count ≡ 0
        → (t' : TurnRecord) × (last' : ℤ) × (claim_turn zs k t last cursor
            ≡ ok (t', last', cursor + pos_part t.message_count))
    none_claimed e =
        let (t', last', r) = claim_turn-none zs k t last cursor e in
        (t', last', r ∙ ap (λ z. ok (t', last', z)) (omega (arith, e)))

    by_count :
        (c : ℤ)
        → t.message_count ≡ c
        → (t' : TurnRecord) × (last' : ℤ) × (claim_turn zs k t last cursor
            ≡ ok (t', last', cursor + pos_part t.message_count))
    by_count (negsuc c) e = none_claimed (ground arith)
    by_count (pos zero) e = none_claimed (ground arith)
    by_count (pos (suc c)) e =
        let (t', last', r) = claim_turn-some zs k c t last cursor e (ground arith) fits in
        (t', last', r ∙ ap (λ z. ok (t', last', cursor + pos_part z)) (sym e))

-- If the claims of the turns do not exceed the messages from the cursor on, all turns are accepted, and
-- the cursor moves by the sum of their claims.
pub claim_turns-total :
    (zs : List ℤ) (k : ℕ) (ts : List TurnRecord) (last : ℤ) (cursor : ℕ)
    → cursor + total_claimed ts ≤ length zs
    → length zs ≤ 0x7fff_ffff_ffff_ffff
    → (ts' : List TurnRecord) × (claim_turns zs k ts last cursor
        ≡ ok (ts', cursor + total_claimed ts))
unfolding claim_turns
claim_turns-total zs k [] last cursor h fits = ([], ap (λ c. ok ([], c)) (omega arith))
claim_turns-total zs k (t ∷ ts) last cursor h fits =
    let (t', last', e) = claim_turn-fits zs k t last cursor (omega arith) fits in
    let (ts', e') =
      claim_turns-total zs (k + 1) ts last' (cursor + pos_part t.message_count) (omega arith)
        fits in
    (t' ∷ ts', rw (e, e') (ap (λ c. ok (t' ∷ ts', c)) (omega arith)))
