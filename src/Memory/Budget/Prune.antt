-- ===== src/Memory/Budget/Prune.antt =====
-- Pruning to a token budget keeps the longest end of the history that fits.
use genkit_cowork.Base.{
  ℕ, Option, List, [], ◌∷◌, ◌++◌, reverse, ◌≡◌, ◌≢◌, arith, length, length-drop,
}
use genkit_cowork.Base.Int.{ℤ, pos, ◌+ℤ◌, ◌≤ℤ◌, ◌<ℤ◌, max_int64}
use genkit_cowork.Base.Result.{err}
use genkit_cowork.Memory.Types.{SessionMessage}
use genkit_cowork.Memory.Budget.{
  Estimator, message_cost, find_start, empty_history, or_default, apply_token_budget,
}

module _ (est : Estimator) (budget : ℤ) where
  -- the tokens of a list of messages
  abbrev pub total : List SessionMessage → ℤ
  total [] = pos 0
  total (m ∷ ms) = total ms +ℤ message_cost est m

  -- `kept` is an end of `msgs` that fits, and with one more message it would not.
  pub record Fits (msgs kept : List SessionMessage) : Type 0 where
    pub dropped : List SessionMessage
    pub splits : dropped ++ kept ≡ msgs
    pub within : total kept ≤ℤ budget
    pub maximal :
        (front : List SessionMessage) (m : SessionMessage)
        → front ++ m ∷ [] ≡ dropped
        → budget <ℤ total (m ∷ kept)

  -- No sum of the loop leaves the range of an int.
  abbrev pub NoOverflow : Type 0
  NoOverflow = (m : SessionMessage) → budget +ℤ message_cost est m ≤ℤ max_int64

module _ (est : Estimator) (budget : ℤ) (bounded : NoOverflow est budget) where
  record Found (msgs : List SessionMessage) (start : ℕ) : Type 0 where
    rest : List SessionMessage
    fits : Fits est budget msgs rest
    starts : start ≡ length fits.dropped

-- The error "produced empty history unexpectedly" is never returned, whatever the messages, the
-- budget and the estimator.
pub apply_token_budget_total :
    (msgs : List SessionMessage) (budget : ℤ) (est : Option Estimator)
    → apply_token_budget msgs budget est ≢ err empty_history
unfolding apply_token_budget
apply_token_budget_total msgs budget est h =
    let start = find_start (or_default est) budget (reverse msgs) (pos 0) (length msgs) in
    ground (arith, length-drop start msgs)
