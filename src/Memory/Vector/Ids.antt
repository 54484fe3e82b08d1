-- ===== src/Memory/Vector/Ids.antt =====
-- Counting the ids that are pending, indexed or in a job.
use genkit_cowork.Base.{
  ℕ, suc, ◌≤◌, Bool, true, false, not, ◌&&◌, ◌||◌, Option, none, some, List, [], ◌∷◌, ◌++◌, map,
  ◌≡◌, inl, inr, refl, sym, ap, ◌∙◌, arith, Bool-cases, if◌then◌else◌,
}
use genkit_cowork.Base.Bytes.{Bytes, eqb, eqb_iff}
use genkit_cowork.Base.Dict.{Dict, lookup, insert, erase, contains, lookup-insert, lookup-erase}
use genkit_cowork.Memory.Types.{SessionMessage}
use genkit_cowork.Memory.Vector.{
  IndexDoc, or_no_ids, ids_in, put_ids, is_new, new_docs, without, clear_ids,
}

unfoldable pub count : Bytes → List Bytes → ℕ
count x [] = 0
count x (y ∷ ys) = if eqb y x then suc (count x ys) else count x ys

pub count-contains : (x : Bytes) (ys : List Bytes) → contains x ys ≡ false → count x ys ≡ 0
unfolding count contains
count-contains x [] h = refl
count-contains x (y ∷ ys) h = ground (arith, count-contains x ys)

pub contains-count : (x : Bytes) (ys : List Bytes) → contains x ys ≡ true → 1 ≤ count x ys
unfolding count contains
contains-count x [] h = cc
contains-count x (y ∷ ys) h = ground (arith, contains-count x ys)

pub contains-append :
    (x : Bytes) (a b : List Bytes) → contains x (a ++ b) ≡ (contains x a || contains x b)
unfolding contains
contains-append x [] b = refl
contains-append x (y ∷ a) b = ground (arith, contains-append x a b)

or_no_ids_if :
    (b : Bool) (o p : Option (List Bytes))
    → or_no_ids (if b then o else p) ≡ (if b then or_no_ids o else or_no_ids p)
or_no_ids_if true o p = refl
or_no_ids_if false o p = refl

pub ids_in-insert :
    (k j : Bytes) (ids : List Bytes) (d : Dict (List Bytes))
    → ids_in k (insert j ids d) ≡ (if eqb j k then ids else ids_in k d)
ids_in-insert k j ids d =
    ap or_no_ids (lookup-insert j k ids d) ∙ or_no_ids_if (eqb j k) (some ids) (lookup k d)

pub ids_in-erase :
    (k j : Bytes) (d : Dict (List Bytes))
    → ids_in k (erase j d) ≡ (if eqb j k then [] else ids_in k d)
ids_in-erase k j d = ap or_no_ids (lookup-erase j k d) ∙ or_no_ids_if (eqb j k) none (lookup k d)

ids_in-put_ids :
    (k j : Bytes) (ids : List Bytes) (d : Dict (List Bytes))
    → ids_in k (put_ids j ids d) ≡ (if eqb j k then ids else ids_in k d)
ids_in-put_ids k j [] d = ids_in-erase k j d
ids_in-put_ids k j (id ∷ ids) d = ids_in-insert k j (id ∷ ids) d

contains-without :
    (x : Bytes) (ids l : List Bytes)
    → contains x (without ids l) ≡ (contains x l && not (contains x ids))
unfolding without contains
contains-without x ids [] = refl
contains-without x ids (y ∷ l) = ground (arith, eqb_iff y x, contains-without x ids l)

contains_if :
    (x : Bytes) (b : Bool) (l m : List Bytes)
    → contains x (if b then l else m) ≡ (if b then contains x l else contains x m)
contains_if x true l m = refl
contains_if x false l m = refl

pub contains-insert :
    (x k j : Bytes) (ids : List Bytes) (d : Dict (List Bytes))
    → contains x (ids_in k (insert j ids d))
      ≡ (if eqb j k then contains x ids else contains x (ids_in k d))
contains-insert x k j ids d =
    ap (contains x) (ids_in-insert k j ids d) ∙ contains_if x (eqb j k) ids (ids_in k d)

same_ids :
    (k j : Bytes) (d : Dict (List Bytes)) (o : Option (List Bytes))
    → lookup j d ≡ o
    → eqb j k ≡ true
    → ids_in k d ≡ or_no_ids o
same_ids k j d o e same = rw (sym ((eqb_iff j k).0 same), e) refl

cleared :
    (x k j : Bytes) (ids : List Bytes) (d : Dict (List Bytes)) (o : Option (List Bytes))
    → lookup j d ≡ o
    → contains x (ids_in k (clear_ids j ids o d)) ≡ (
        if eqb j k
        then contains x (ids_in k d) && not (contains x ids)
        else contains x (ids_in k d))
unfolding clear_ids contains
cleared x k j ids d none e = elim (Bool-cases (eqb j k)) [
  | inl same ↦ rw (same, same_ids k j d none e same) refl
  | inr other ↦ rw other refl
]
cleared x k j ids d (some found) e =
    ap (contains x) (ids_in-put_ids k j (without ids found) d)
    ∙ contains_if x (eqb j k) (without ids found) (ids_in k d)
    ∙ (elim (Bool-cases (eqb j k)) [
      | inl same ↦ rw (same, same_ids k j d (some found) e same) (contains-without x ids found)
      | inr other ↦ rw other refl
    ])

-- Of the ids of one key, a job takes its own away.
pub contains-clear_ids :
    (x k j : Bytes) (ids : List Bytes) (d : Dict (List Bytes))
    → contains x (ids_in k (clear_ids j ids (lookup j d) d)) ≡ (
        if eqb j k
        then contains x (ids_in k d) && not (contains x ids)
        else contains x (ids_in k d))
contains-clear_ids x k j ids d = cleared x k j ids d (lookup j d) refl

pub count-new_docs :
    (x session : Bytes) (indexed pending : List Bytes) (ms : List SessionMessage)
    → count x (map (λ (d : IndexDoc). d.message_id) (new_docs indexed pending session ms))
      ≤ count x (map (λ (m : SessionMessage). m.message_id) ms)
unfolding count new_docs
count-new_docs x session indexed pending [] = omega arith
count-new_docs x session indexed pending (m ∷ ms) = elim (Bool-cases (is_new indexed pending m)) [
  | inl new ↦ rw new (ground (arith, count-new_docs x session indexed pending ms))
  | inr old ↦ rw old (ground (arith, count-new_docs x session indexed pending ms))
]

is_new_fresh :
    (indexed pending : List Bytes) (m : SessionMessage)
    → is_new indexed pending m ≡ true
    → (contains m.message_id indexed || contains m.message_id pending) ≡ false
unfolding is_new
is_new_fresh indexed pending m h = ground arith

-- The documents of a save leave out what is pending or indexed.
pub count-new_docs_old :
    (x session : Bytes) (indexed pending : List Bytes) (ms : List SessionMessage)
    → (contains x indexed || contains x pending) ≡ true
    → count x (map (λ (d : IndexDoc). d.message_id) (new_docs indexed pending session ms)) ≡ 0
unfolding count new_docs
count-new_docs_old x session indexed pending [] h = refl
count-new_docs_old x session indexed pending (m ∷ ms) h =
    let rest = count-new_docs_old x session indexed pending ms h in
    elim (Bool-cases (is_new indexed pending m)) [
      | inr old ↦ rw old rest
      | inl new ↦ elim (Bool-cases (eqb m.message_id x)) [
        | inr other ↦ rw (new, other) rest
        | inl same ↦
            let fresh = is_new_fresh indexed pending m new in
            let e : m.message_id ≡ x = (eqb_iff m.message_id x).0 same in
            let clash = sym h ∙ (rw e at fresh) in cc
      ]
    ]
