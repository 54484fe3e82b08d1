-- ===== src/Base/Sort.antt =====
-- `sort.Strings`: the strings in bytewise order. The standard library's algorithm is not the
-- program's; insertion sort gives the same list, since equal strings cannot be told apart.
use genkit_cowork.Base.Tests.{ltb, ◌==◌, if◌then◌else◌}
use genkit_cowork.Base.Lists.{All}
use genkit_cowork.Base.Bytes.{Bytes, eqb}
use genkit_cowork.Base.Dict.{contains}
use mathlib.Core.Path.{◌≡◌, refl}
use mathlib.Core.Bool.{Bool, true, false, ◌&&◌, ◌||◌}
use mathlib.Core.List.{List, [], ◌∷◌}
use native.Mathlib.Omega.{arith}

-- `a <= b` on strings
unfoldable pub le_bytes : Bytes → Bytes → Bool
le_bytes [] ys = true
le_bytes (x ∷ xs) [] = false
le_bytes (x ∷ xs) (y ∷ ys) = ltb x y || (x == y && le_bytes xs ys)

le_bytes_total : (a b : Bytes) → le_bytes a b ≡ false → le_bytes b a ≡ true
unfolding le_bytes
le_bytes_total [] b h = cc
le_bytes_total (x ∷ a) [] h = refl
le_bytes_total (x ∷ a) (y ∷ b) h = ground (arith, le_bytes_total a b)

le_bytes_trans : (a b c : Bytes) → le_bytes a b ≡ true → le_bytes b c ≡ true → le_bytes a c ≡ true
unfolding le_bytes
le_bytes_trans [] b c h k = refl
le_bytes_trans (x ∷ a) [] c h k = cc
le_bytes_trans (x ∷ a) (y ∷ b) [] h k = cc
le_bytes_trans (x ∷ a) (y ∷ b) (z ∷ c) h k = ground (arith, le_bytes_trans a b c)

insert_sorted : Bytes → List Bytes → List Bytes
insert_sorted k [] = k ∷ []
insert_sorted k (j ∷ js) =
    let rest = insert_sorted k js in if le_bytes k j then k ∷ j ∷ js else j ∷ rest

unfoldable pub sort_strings : List Bytes → List Bytes
unfolding insert_sorted le_bytes
sort_strings [] = []
sort_strings (k ∷ ks) = insert_sorted k (sort_strings ks)

abbrev pub IsSorted : List Bytes → Type 0
IsSorted [] = Unit
IsSorted (k ∷ ks) = All (λ j. le_bytes k j ≡ true) ks × IsSorted ks

All-le_trans :
    (i k : Bytes) (js : List Bytes)
    → le_bytes i k ≡ true
    → All (λ j. le_bytes k j ≡ true) js
    → All (λ j. le_bytes i j ≡ true) js
All-le_trans i k [] h all = tt
All-le_trans i k (j ∷ js) h all = (le_bytes_trans i k j h all.0, All-le_trans i k js h all.1)

All-insert_sorted :
    (i k : Bytes) (js : List Bytes)
    → le_bytes i k ≡ true
    → All (λ j. le_bytes i j ≡ true) js
    → All (λ j. le_bytes i j ≡ true) (insert_sorted k js)
unfolding insert_sorted
All-insert_sorted i k [] h all = (h, tt)
All-insert_sorted i k (j ∷ js) h all = ground (arith, All-insert_sorted i k js h all.1)

insert_sorted-IsSorted : (k : Bytes) (js : List Bytes) → IsSorted js → IsSorted (insert_sorted k js)
unfolding insert_sorted
insert_sorted-IsSorted k [] s = (tt, tt)
insert_sorted-IsSorted k (j ∷ js) s = ground (
  arith,
  le_bytes_total k j,
  All-le_trans k j js,
  insert_sorted-IsSorted k js s.1,
  All-insert_sorted j k js,
)

pub sort_strings-IsSorted : (ks : List Bytes) → IsSorted (sort_strings ks)
unfolding sort_strings
sort_strings-IsSorted [] = tt
sort_strings-IsSorted (k ∷ ks) =
    insert_sorted-IsSorted k (sort_strings ks) (sort_strings-IsSorted ks)

contains-insert_sorted :
    (i k : Bytes) (js : List Bytes) → contains i (insert_sorted k js) ≡ (eqb k i || contains i js)
unfolding contains insert_sorted
contains-insert_sorted i k [] = refl
contains-insert_sorted i k (j ∷ js) = ground (arith, contains-insert_sorted i k js)

pub contains-sort_strings :
    (i : Bytes) (ks : List Bytes) → contains i (sort_strings ks) ≡ contains i ks
unfolding contains sort_strings
contains-sort_strings i [] = refl
contains-sort_strings i (k ∷ ks) =
    ground (arith, contains-insert_sorted i k (sort_strings ks), contains-sort_strings i ks)
