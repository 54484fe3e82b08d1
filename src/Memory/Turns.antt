-- ===== src/Memory/Turns.antt =====
-- `MessagesForTurn` of genkit-cowork/memory/sessions.go: the messages that a turn of the ledger names.
pub mod Cover
use genkit_cowork.Base.{
  ℕ, suc, ◌+◌, ◌-◌, Bool, true, false, not, ◌&&◌, ◌||◌, Option, none, some, List, [], ◌∷◌, length,
  take, drop, ltb, if◌then◌else◌,
}
use genkit_cowork.Base.Int.{ℤ, pos, ltb_ℤ, eqb_ℤ}
use genkit_cowork.Base.Bytes.{Bytes}
use genkit_cowork.Base.Result.{Result, ok, err, ◌>>=◌, ◌>>◌, fail_if}
use genkit_cowork.Memory.Types.{SessionMessage, TurnRecord, SessionState}

pub data TurnError : Type 0 where
  missing_bounds : Bytes → TurnError
  invalid_bounds : ℤ → ℤ → TurnError
  not_found : Bytes → TurnError
  count_mismatch : Bytes → ℕ → ℤ → TurnError

-- The last index from `i` on with the sequence; `none` stands for -1.
unfoldable pub last_index : ℤ → ℕ → List SessionMessage → Option ℕ → Option ℕ
last_index seq i [] found = found
last_index seq i (m ∷ ms) found =
    last_index seq (suc i) ms (if eqb_ℤ m.sequence seq then some i else found)

-- `copyMessages(state.Messages[startIdx : endIdx+1])`, and the check of its size
window_of : SessionState → TurnRecord → Option ℕ → Option ℕ → Result TurnError (List SessionMessage)
window_of state turn (some start) (some end) =
    if ltb end start
    then err (not_found turn.turn_id)
    else let window = take (end + 1 - start) (drop start state.messages) in
      if ltb_ℤ (pos 0) turn.message_count && not (eqb_ℤ (pos (length window)) turn.message_count)
      then err (count_mismatch turn.turn_id (length window) turn.message_count)
      else ok window
window_of state turn _ _ = err (not_found turn.turn_id)

unfoldable pub messages_for_turn :
    SessionState → TurnRecord → Result TurnError (List SessionMessage)
unfolding window_of
messages_for_turn state turn = do
  fail_if (eqb_ℤ turn.first_message_sequence (pos 0) || eqb_ℤ turn.last_message_sequence (pos 0))
      (missing_bounds turn.turn_id)
  fail_if (ltb_ℤ turn.last_message_sequence turn.first_message_sequence)
      (invalid_bounds turn.first_message_sequence turn.last_message_sequence)
  window_of state turn (last_index turn.first_message_sequence 0 state.messages none)
      (last_index turn.last_message_sequence 0 state.messages none)
