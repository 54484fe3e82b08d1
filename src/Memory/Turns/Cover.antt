-- ===== src/Memory/Turns/Cover.antt =====
-- The turns of a kept ledger, read one after the other.
use genkit_cowork.Base.{
  ℕ, zero, suc, ◌+◌, ◌-◌, ◌≤◌, ltb-false_of, Option, none, some, List, [], ◌∷◌, ◌++◌, ◌≡◌, refl,
  sym, ap, ◌∙◌, arith, map, length, take, drop, length-take, length-drop, take-append-drop,
  drop-nil, drop_all,
}
use genkit_cowork.Base.Int.{pos}
use genkit_cowork.Base.Result.{ok}
use genkit_cowork.Memory.Types.{SessionMessage, TurnRecord, SessionState}
use genkit_cowork.Memory.Ledger.{message_row}
use genkit_cowork.Memory.Session.Kept.{IsNumbered, Window, Cuts, Kept}
use genkit_cowork.Memory.Turns.{last_index, window_of, messages_for_turn}

last_index-below :
    (j k i : ℕ) (ms : List SessionMessage) (found : Option ℕ)
    → j ≤ k
    → IsNumbered k (map message_row ms)
    → last_index (pos j) i ms found ≡ found
unfolding last_index
last_index-below j k i [] found h n = refl
last_index-below j k i (m ∷ ms) found h n =
    ground (arith, last_index-below j (suc k) (suc i) ms found)

-- In a numbered list the sequence tells the index.
last_index-at :
    (j k i : ℕ) (ms : List SessionMessage) (found : Option ℕ)
    → suc j ≤ length ms
    → IsNumbered k (map message_row ms)
    → last_index (pos (k + suc j)) i ms found ≡ some (i + j)
unfolding last_index
last_index-at j k i [] found h n = absurd (omega arith)
last_index-at zero k i (m ∷ ms) found h n =
    ground (arith, last_index-below (k + 1) (suc k) (suc i) ms (some i) (omega arith) n.1)
last_index-at (suc j) k i (m ∷ ms) found h n =
    ground (arith, last_index-at j (suc k) (suc i) ms found (omega arith) n.1)

drop-drop : (a b : ℕ) (ms : List SessionMessage) → drop b (drop a ms) ≡ drop (a + b) ms
drop-drop zero b ms = ground arith
drop-drop (suc a) b [] = drop-nil b ∙ sym (drop-nil (suc a + b))
drop-drop (suc a) b (m ∷ ms) = drop-drop a b ms ∙ ap (λ z. drop z (m ∷ ms)) shift
  where
    shift : suc (a + b) ≡ suc a + b
    shift = omega arith

Cuts-le : (k : ℕ) (ts : List TurnRecord) (m : ℕ) → Cuts k ts m → k ≤ m
Cuts-le k [] m h = omega arith
Cuts-le k (t ∷ ts) m (c, p, w, rest) = omega (arith, Cuts-le (k + c) ts m rest)

window_of-found :
    (s : SessionState) (k d : ℕ) (t : TurnRecord)
    → k + suc d ≤ length s.messages
    → t.message_count ≡ pos (suc d)
    → window_of s t (some k) (some (k + d)) ≡ ok (take (suc d) (drop k s.messages))
unfolding window_of
window_of-found s k d t q claimed =
    rw (ltb-false_of (k + d) k (omega arith), claimed, size)
      (ground (arith, length-take (suc d) (drop k s.messages), length-drop k s.messages))
  where
    size : k + d + 1 - k ≡ suc d
    size = omega arith

messages_for_turn-Window :
    (s : SessionState) (k d : ℕ) (t : TurnRecord)
    → IsNumbered 0 (map message_row s.messages)
    → k + suc d ≤ length s.messages
    → Window k (suc d) t
    → messages_for_turn s t ≡ ok (take (suc d) (drop k s.messages))
unfolding messages_for_turn
messages_for_turn-Window s k d t num q w =
    ground (arith, first_index, final_index, window_of-found s k d t q w.claimed)
  where
    first_index : last_index t.first_message_sequence 0 s.messages none ≡ some k
    first_index = ground (arith, last_index-at k 0 0 s.messages none (omega arith) num)

    final_index : last_index t.last_message_sequence 0 s.messages none ≡ some (k + d)
    final_index = ground (arith, last_index-at (k + d) 0 0 s.messages none (omega arith) num)

-- The turns are read in order, each without an error.
abbrev pub Reads : SessionState → List TurnRecord → List (List SessionMessage) → Type 0
Reads s [] [] = Unit
Reads s (t ∷ ts) (w ∷ ws) = (messages_for_turn s t ≡ ok w) × Reads s ts ws
Reads s _ _ = ⊥

abbrev pub concat : List (List SessionMessage) → List SessionMessage
concat [] = []
concat (w ∷ ws) = w ++ concat ws

Reads-Cuts :
    (s : SessionState) (k : ℕ) (ts : List TurnRecord)
    → IsNumbered 0 (map message_row s.messages)
    → Cuts k ts (length s.messages)
    → (ws : List (List SessionMessage)) × Reads s ts ws × (concat ws ≡ drop k s.messages)
Reads-Cuts s k [] num h = ([], tt, sym (drop_all k s.messages (omega arith)))
Reads-Cuts s k (t ∷ ts) num (zero, p, w, rest) = absurd (omega arith)
Reads-Cuts s k (t ∷ ts) num (suc d, p, w, rest) =
    let c = suc d in
    let (ws, r, e) = Reads-Cuts s (k + c) ts num rest in
    let q = Cuts-le (k + c) ts (length s.messages) rest in
    (
      take c (drop k s.messages) ∷ ws,
      (messages_for_turn-Window s k d t num q w, r),
      ap (λ z. take c (drop k s.messages) ++ z) (e ∙ sym (drop-drop k c s.messages))
          ∙ take-append-drop c (drop k s.messages),
    )

-- In a kept state every turn can be read, and the messages of the turns, one turn after the other,
-- are the messages of the session: none is lost, repeated or moved.
pub messages_for_turn-concat :
    (s : SessionState)
    → Kept s
    → (ws : List (List SessionMessage)) × Reads s s.turns ws × (concat ws ≡ s.messages)
messages_for_turn-concat s k = Reads-Cuts s 0 s.turns k.messages_numbered k.cut
