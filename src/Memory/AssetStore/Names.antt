-- ===== src/Memory/AssetStore/Names.antt =====
-- The files of an assets directory: different names, different paths, none of them a temporary one.
use genkit_cowork.Base.{
  ℕ, ◌==◌, true, false, [], ◌∷◌, ◌++◌, ◌≡◌, refl, ◌∙◌, sym, ap, inl, inr, arith, Bool-cases,
}
use genkit_cowork.Base.Bytes.{Bytes, codes, eqb, eqb_iff, has_prefix}
use genkit_cowork.Os.Path.{slash, join, show_path, parts_of, segments, enter_all, with_slashes}
use genkit_cowork.Os.Path.Distinct.{
  NoSlash, IsSegment, last_slash, push_all, join-IsSegment, enter_all-with_slashes,
}
use genkit_cowork.Memory.AtomicWrite.{without_last_slash, temp_name, temp_path}
use genkit_cowork.Memory.AtomicWrite.Kept.{NotTemp}
use genkit_cowork.Memory.Files.Paths.{show_path-last, temp_name-NoSlash}

append-NoSlash : (a b : Bytes) → NoSlash a → NoSlash b → NoSlash (a ++ b)
append-NoSlash [] b h k = k
append-NoSlash (c ∷ a) b h k = (h.0, append-NoSlash a b h.1 k)

-- an id with an extension
pub append-IsSegment : (id ext : Bytes) → IsSegment id → NoSlash ext → IsSegment (id ++ ext)
unfolding eqb
append-IsSegment [] ext h k = let empty = h.filled in cc
append-IsSegment (a ∷ []) ext h k = record {
  filled = refl;
  no_slash = append-NoSlash (a ∷ []) ext h.no_slash k;
  not_dot = ground (arith, h.not_dot);
  not_dot_dot = let other = h.not_dot in elim ext [ [] ↦ ground arith | e ∷ es ↦ ground arith ];
}
append-IsSegment (a ∷ b ∷ []) ext h k = record {
  filled = refl;
  no_slash = append-NoSlash (a ∷ b ∷ []) ext h.no_slash k;
  not_dot = ground arith;
  not_dot_dot = let other = h.not_dot_dot in ground arith;
}
append-IsSegment (a ∷ b ∷ e ∷ es) ext h k = record {
  filled = refl;
  no_slash = append-NoSlash (a ∷ b ∷ e ∷ es) ext h.no_slash k;
  not_dot = ground arith;
  not_dot_dot = ground arith;
}

-- a path in the directory `s` of `above`
pub join-below :
    (above s f : Bytes)
    → IsSegment s
    → IsSegment f
    → (upper : Bytes) × (join ((above ++ slash ∷ s) ∷ f ∷ []) ≡ upper ++ slash ∷ f)
unfolding with_slashes push_all
join-below [] s f hs hf =
    let parts = enter_all-with_slashes true [] (s ∷ []) [] (hs, tt) in
    let (upper, e) = show_path-last true f s (enter_all true (segments []) []) hf.filled in
    (upper, join-IsSegment slash s (f ∷ []) (hf, tt) ∙ ap (λ ps. show_path true (f ∷ ps)) parts ∙ e)
join-below (c ∷ above) s f hs hf =
    let parts = enter_all-with_slashes (c == slash) (c ∷ above) (s ∷ []) [] (hs, tt) in
    let (upper, e) =
      show_path-last (c == slash) f s (enter_all (c == slash) (segments (c ∷ above)) [])
        hf.filled in
    (
      upper,
      join-IsSegment c (above ++ slash ∷ s) (f ∷ []) (hf, tt)
          ∙ ap (λ ps. show_path (c == slash) (f ∷ ps)) parts
          ∙ e,
    )

-- the directory of the assets of a session
pub join-named :
    (c : ℕ) (root t n s : Bytes)
    → IsSegment t
    → IsSegment n
    → IsSegment s
    → (above : Bytes) × (join ((c ∷ root) ∷ t ∷ n ∷ s ∷ []) ≡ above ++ slash ∷ s)
unfolding push_all
join-named c root t n s ht hn hs =
    let (above, e) = show_path-last (c == slash) s n (t ∷ parts_of (c ∷ root)) hs.filled in
    (above, join-IsSegment c root (t ∷ n ∷ s ∷ []) (ht, (hn, (hs, tt))) ∙ e)

abbrev pub EndsWith : Bytes → Bytes → Type 0
EndsWith f p = (upper : Bytes) × (p ≡ upper ++ slash ∷ f)

-- paths that end with different names
pub eqb-named :
    (p q f g : Bytes)
    → EndsWith f p
    → EndsWith g q
    → NoSlash f
    → NoSlash g
    → eqb f g ≡ false
    → eqb p q ≡ false
eqb-named p q f g (a, e) (b, k) hf hg apart = elim (Bool-cases (eqb p q)) [
  | inr other ↦ other
  | inl same ↦
      let (_, names) = last_slash a b f g hf hg (sym e ∙ (eqb_iff p q).0 same ∙ k) in
      let equal = (eqb_iff f g).1 names in cc
]

prefix_of_temp : (seed : ℕ) → has_prefix (temp_name seed) (codes ".tmp-") ≡ true
unfolding has_prefix
prefix_of_temp seed = refl

pub named-NotTemp :
    (p f : Bytes) → EndsWith f p → NoSlash f → has_prefix f (codes ".tmp-") ≡ false → NotTemp p
named-NotTemp p f ends plain h dir seed =
    eqb-named (temp_path dir seed) p (temp_name seed) f (without_last_slash dir, refl) ends
      (temp_name-NoSlash seed) plain
      (elim (Bool-cases (eqb (temp_name seed) f)) [
        | inr other ↦ other
        | inl same ↦
            let equal =
              ap (λ x. has_prefix x (codes ".tmp-")) ((eqb_iff (temp_name seed) f).0 same) in
            let temp = prefix_of_temp seed in cc
      ])
