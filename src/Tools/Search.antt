-- ===== src/Tools/Search.antt =====
-- `strings.Index` and `strings.Split`, as genkit-cowork/tools/edit_diff.go and edit.go use them.
pub mod First
use genkit_cowork.Base.{
  ℕ, suc, ◌+◌, ◌-◌, ◌≤◌, ◌<◌, Bool, true, false, Option, none, some, List, [], ◌∷◌, ◌++◌, ◌≡◌, refl,
  sym, ap, ◌∙◌, arith, length, take, drop, ◌==◌, if◌then◌else◌, Bool-cases,
}
use genkit_cowork.Base.Bytes.{Bytes, eqb, has_prefix}

after_one : Option ℕ → Option ℕ
after_one none = none
after_one (some i) = some (suc i)

-- the first index of `text` in `s`
unfoldable pub index_of : Bytes → Bytes → Option ℕ
unfolding after_one
index_of text [] = if has_prefix [] text then some 0 else none
index_of text (c ∷ cs) =
    let rest = index_of text cs in if has_prefix (c ∷ cs) text then some 0 else after_one rest

-- `len(strings.Split(s, text)) - 1` for a text that is not empty: the number of its occurrences that
-- do not overlap. The first number counts the bytes of an occurrence that are still to pass.
unfoldable pub count_after : ℕ → Bytes → Bytes → ℕ
count_after passing text [] = 0
count_after (suc k) text (c ∷ cs) = count_after k text cs
count_after ℕ.zero text (c ∷ cs) =
    let found = count_after (length text - 1) text cs in
    let skipped = count_after 0 text cs in if has_prefix (c ∷ cs) text then suc found else skipped
