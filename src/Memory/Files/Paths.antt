-- ===== src/Memory/Files/Paths.antt =====
-- The paths of the state files: one for each session, none of them a temporary one.
use genkit_cowork.Base.{
  ℕ, zero, suc, ◌+◌, ◌/◌, ◌%◌, ◌==◌, Bool, true, false, List, [], ◌∷◌, ◌++◌, ◌≡◌, inl, inr, refl,
  ◌∙◌, arith, ltb, Bool-cases,
}
use genkit_cowork.Base.Bytes.{Bytes, codes, eqb, eqb_iff}
use genkit_cowork.Base.Decimal.{digits_before, itoa}
use genkit_cowork.Os.Path.{slash, show_parts, show_path, parts_of}
use genkit_cowork.Os.Path.Distinct.{
  NoSlash, IsSegment, last_slash, show_parts-filled, push_all, join-IsSegment, eqb-join,
}
use genkit_cowork.Os.Path.Under.{is_under, is_under-join}
use genkit_cowork.Memory.AtomicWrite.{without_last_slash, temp_name, temp_path}
use genkit_cowork.Memory.AtomicWrite.Kept.{NotTemp}
use genkit_cowork.Memory.Files.{Codec, state_path, session_dir}
use genkit_cowork.Memory.Store.RoundTrip.{same_key}

digits_before-NoSlash :
    (rounds n : ℕ) (rest : Bytes) → NoSlash rest → NoSlash (digits_before rounds n rest)
unfolding digits_before
digits_before-NoSlash zero n rest h = h
digits_before-NoSlash (suc rounds) n rest h =
    let here : NoSlash ((0x30 + n % 10) ∷ rest) = (ground arith, h) in
    let more = digits_before-NoSlash rounds (n / 10) ((0x30 + n % 10) ∷ rest) here in
    elim (Bool-cases (ltb n 10)) [ inl small ↦ rw small here | inr big ↦ rw big more ]

pub temp_name-NoSlash : (seed : ℕ) → NoSlash (temp_name seed)
unfolding itoa
temp_name-NoSlash seed =
    (refl, (refl, (refl, (refl, (refl, digits_before-NoSlash (suc seed) seed [] tt)))))

pub state_json-IsSegment : IsSegment (codes "state.json")
unfolding eqb
state_json-IsSegment = record {
  filled = refl;
  no_slash = (refl, (refl, (refl, (refl, (refl, (refl, (refl, (refl, (refl, (refl, tt))))))))));
  not_dot = refl;
  not_dot_dot = refl;
}

-- A path of a file in a directory ends with a slash and the name.
pub show_path-last :
    (rooted : Bool) (f n : Bytes) (ps : List Bytes)
    → eqb f [] ≡ false
    → (dir : Bytes) × (show_path rooted (f ∷ n ∷ ps) ≡ dir ++ slash ∷ f)
unfolding show_path show_parts
show_path-last true f n ps h = (slash ∷ show_parts (n ∷ ps), refl)
show_path-last false f n ps h = (show_parts (n ∷ ps), rw (show_parts-filled f (n ∷ ps) h) refl)

module _ (c : ℕ) (root : Bytes) (codec : Codec) where
  pub state_path-NotTemp :
      (t n : Bytes) → IsSegment t → IsSegment n → NotTemp (state_path (c ∷ root) codec t n)
  unfolding state_path push_all eqb
  state_path-NotTemp t n ht hn dir seed =
      let (above, e) =
        show_path-last (c == slash) (codes "state.json") n (t ∷ parts_of (c ∷ root)) refl in
      let path =
        join-IsSegment c root (t ∷ n ∷ codes "state.json" ∷ [])
          (ht, (hn, (state_json-IsSegment, tt))) in
      elim (Bool-cases (eqb (temp_path dir seed) (state_path (c ∷ root) codec t n))) [
        | inr apart ↦ apart
        | inl same ↦
            let meet =
              (eqb_iff (temp_path dir seed) (state_path (c ∷ root) codec t n)).0 same ∙ path ∙ e in
            let (_, names) =
              last_slash (without_last_slash dir) above (temp_name seed) (codes "state.json")
                (temp_name-NoSlash seed) state_json-IsSegment.no_slash meet in
            cc
      ]

  pub eqb-state_path :
      (t n t' n' : Bytes)
      → IsSegment t
      → IsSegment n
      → IsSegment t'
      → IsSegment n'
      → eqb (state_path (c ∷ root) codec t n) (state_path (c ∷ root) codec t' n')
        ≡ same_key t n t' n'
  unfolding state_path
  eqb-state_path t n t' n' ht hn ht' hn' =
      eqb-join c root (codes "state.json") t n t' n' state_json-IsSegment (hn, (ht, tt))
        (hn', (ht', tt))

  pub is_under-state_path :
      (t n t' n' : Bytes)
      → IsSegment t
      → IsSegment n
      → IsSegment t'
      → IsSegment n'
      → is_under (session_dir (c ∷ root) codec t n) (state_path (c ∷ root) codec t' n')
        ≡ same_key t n t' n'
  unfolding state_path session_dir
  is_under-state_path t n t' n' ht hn ht' hn' =
      is_under-join c root t n t' n' (codes "state.json") (hn, (ht, tt))
        (state_json-IsSegment, (hn', (ht', tt)))
