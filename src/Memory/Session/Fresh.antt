-- ===== src/Memory/Session/Fresh.antt =====
-- The loop of `Session.Save` over a stored history with fresh messages behind it, where there is
-- no asset store: what it leaves alone and what it fills in.
use genkit_cowork.Base.{
  ℕ, suc, ◌+◌, ◌≤◌, false, none, List, [], ◌∷◌, ◌++◌, ◌≡◌, refl, arith, map, length, All, leb-true,
  leb-false_of,
}
use genkit_cowork.Base.Int.{ℤ, pos, ◌+ℤ◌, add_64}
use genkit_cowork.Base.Bytes.{Bytes, eqb}
use genkit_cowork.Base.Result.{ok}
use genkit_cowork.Memory.Types.{SessionMessage, SessionAsset}
use genkit_cowork.Memory.Ledger.{message_row}
use genkit_cowork.Memory.Assets.{Supply, Taken}
use genkit_cowork.Memory.Numbering.{Numbered, number_message, number_messages}
use genkit_cowork.Memory.Session.Kept.{IsNumbered}

abbrev pub IsFresh : List SessionMessage → Type 0
IsFresh = All (λ m. m.sequence ≡ pos 0)

-- The content and the origin of a message stay.
pub record Same (m m' : SessionMessage) : Type 0 where
  pub content : m'.content ≡ m.content
  pub origin : m'.origin ≡ m.origin
  pub id : eqb m.message_id [] ≡ false → m'.message_id ≡ m.message_id

abbrev pub AllSame : List SessionMessage → List SessionMessage → Type 0
AllSame [] [] = Unit
AllSame (m ∷ ms) (n ∷ ns) = Same m n × AllSame ms ns
AllSame _ _ = ⊥

pub AllSame-length : (ms ns : List SessionMessage) → AllSame ms ns → length ns ≡ length ms
AllSame-length [] [] h = refl
AllSame-length [] (n ∷ ns) h = absurd h
AllSame-length (m ∷ ms) [] h = absurd h
AllSame-length (m ∷ ms) (n ∷ ns) h = ground (arith, AllSame-length ms ns h.1)

pub next_64 : (k : ℕ) → suc k ≤ 0x7fff_ffff_ffff_ffff → add_64 (pos k) (pos 1) ≡ pos (suc k)
unfolding add_64 ◌+ℤ◌
next_64 k h = ground arith

-- The loop leaves the messages before `existingMessages` alone.
pub number_messages-old :
    (sup : Supply) (t n : Bytes) (old i : ℕ) (es ms : List SessionMessage) (last : ℤ)
    (assets : List SessionAsset) (taken : Taken) (r : Numbered)
    → old ≡ i + length es
    → number_messages sup none t n old old ms last assets taken ≡ ok r
    → number_messages sup none t n old i (es ++ ms) last assets taken
      ≡ ok (record r { messages = es ++ r.messages })
unfolding number_messages
number_messages-old sup t n old i [] ms last assets taken r p h = ground arith
number_messages-old sup t n old i (e ∷ es) ms last assets taken r p h =
    rw
      (
        leb-false_of old i (omega arith),
        number_messages-old sup t n old (i + 1) es ms last assets taken r (omega arith) h,
      )
      refl

number_message-fresh :
    (sup : Supply) (m : SessionMessage) (k : ℕ) (taken : Taken)
    → m.sequence ≡ pos 0
    → suc k ≤ 0x7fff_ffff_ffff_ffff
    → (m' : SessionMessage) × (taken' : Taken) × (number_message sup m (pos k) taken
        ≡ (m', pos (suc k), taken'))
      × (m'.sequence ≡ pos (suc k))
      × Same m m'
unfolding number_message
number_message-fresh sup m k taken f b =
    rw (f, next_64 k b)
      (_, _, refl, refl, record { content = refl; origin = refl; id = λ h. rw h refl })

-- Fresh messages get the next sequences.
pub number_messages-fresh :
    (sup : Supply) (t n : Bytes) (old i : ℕ) (ms : List SessionMessage) (k : ℕ)
    (assets : List SessionAsset) (taken : Taken)
    → old ≤ i
    → IsFresh ms
    → k + length ms ≤ 0x7fff_ffff_ffff_ffff
    → (r : Numbered) × (number_messages sup none t n old i ms (pos k) assets taken ≡ ok r)
      × IsNumbered k (map message_row r.messages)
      × AllSame ms r.messages
      × (r.assets ≡ assets)
unfolding number_messages
number_messages-fresh sup t n old i [] k assets taken h f b = (_, refl, tt, tt, refl)
number_messages-fresh sup t n old i (m ∷ ms) k assets taken h f b =
    let (m', taken', e, seq, same) = number_message-fresh sup m k taken f.0 (omega arith) in
    let (r, run, num, all, a) =
      number_messages-fresh sup t n old (i + 1) ms (suc k) assets taken' (omega arith) f.1
        (omega arith) in
    (
      record r { messages = m' ∷ r.messages },
      rw (leb-true old i h, e, run) refl,
      (seq, num),
      (same, all),
      a,
    )
