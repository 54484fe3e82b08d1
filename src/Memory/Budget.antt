-- ===== src/Memory/Budget.antt =====
-- genkit-cowork/memory/token_budget.go: the estimate of a message's tokens, and the pruning of a
-- history to a token budget.
pub mod Prune
use genkit_cowork.Base.{
  ℕ, zero, ◌-◌, Bool, true, false, ◌&&◌, Option, none, some, List, [], ◌∷◌, reverse, length, drop,
  leb, if◌then◌else◌,
}
use genkit_cowork.Base.Int.{ℤ, pos, ltb_ℤ, leb_ℤ, eqb_ℤ, add_64}
use genkit_cowork.Base.Result.{Result, ok, err}
use genkit_cowork.Memory.Types.{
  Any, int, int64, float64, float32, GenerationUsage, UsageValue, usage, pointer, entries, Metadata,
  Message, SessionMessage,
}

unfoldable pub to_int : Option Any → Option ℤ
to_int (some (int n)) = some n
to_int (some (int64 n)) = some n
to_int (some (float64 n)) = some n
to_int (some (float32 n)) = some n
to_int _ = none

abbrev or_zero : Option ℤ → ℤ
or_zero none = pos 0
or_zero (some n) = n

-- the case `map[string]any`
usage_of_entries : Option Any → Option Any → Option Any → Option GenerationUsage
unfolding to_int
usage_of_entries total input output =
    let u : GenerationUsage = record {
      total_tokens = or_zero (to_int total);
      input_tokens = or_zero (to_int input);
      output_tokens = or_zero (to_int output);
    } in
    if eqb_ℤ u.total_tokens (pos 0) && eqb_ℤ u.input_tokens (pos 0) && eqb_ℤ u.output_tokens (pos 0)
    then none
    else some u

usage_of_value : Option UsageValue → Option GenerationUsage
unfolding usage_of_entries
usage_of_value (some (usage u)) = some u
usage_of_value (some (pointer u)) = u
usage_of_value (some (entries total input output)) = usage_of_entries total input output
usage_of_value _ = none

usage_of_metadata : Option Metadata → Option GenerationUsage
unfolding usage_of_value
usage_of_metadata none = none
usage_of_metadata (some meta) = usage_of_value meta.generation_usage

unfoldable pub generation_usage_from_message : SessionMessage → Option GenerationUsage
unfolding usage_of_metadata
generation_usage_from_message msg = usage_of_metadata msg.content.metadata

tokens_of_usage : Option GenerationUsage → ℤ
tokens_of_usage none = pos 1
tokens_of_usage (some u) =
    if ltb_ℤ (pos 0) u.total_tokens
    then u.total_tokens
    else if ltb_ℤ (pos 0) (add_64 u.input_tokens u.output_tokens)
    then add_64 u.input_tokens u.output_tokens
    else pos 1

-- `generationUsageTokenEstimator.EstimateTokens`
unfoldable pub estimate_tokens : SessionMessage → ℤ
unfolding generation_usage_from_message tokens_of_usage
estimate_tokens msg = tokens_of_usage (generation_usage_from_message msg)

abbrev pub Estimator : Type 0
Estimator = SessionMessage → ℤ

-- `cost`, after the test for `cost <= 0`
unfoldable pub message_cost : Estimator → SessionMessage → ℤ
message_cost est m = let cost = est m in if leb_ℤ cost (pos 0) then pos 1 else cost

-- The loop from the last message back. The list is the messages below `start`, last first.
unfoldable pub find_start : Estimator → ℤ → List SessionMessage → ℤ → ℕ → ℕ
find_start est budget [] used start = start
find_start est budget (m ∷ ms) used start =
    let used' = add_64 used (message_cost est m) in
    let rest = find_start est budget ms used' (start - 1) in
    if ltb_ℤ budget used' then start else rest

pub data BudgetError : Type 0 where
  empty_history : BudgetError

abbrev or_default : Option Estimator → Estimator
or_default none = estimate_tokens
or_default (some est) = est

-- the statements behind the loop
prune_from : List SessionMessage → ℕ → Result BudgetError (List SessionMessage)
prune_from msgs start =
    if leb (length msgs) start
    then ok []
    else let pruned = drop start msgs in
      if leb (length pruned) 0 then err empty_history else ok pruned

unfoldable pub apply_token_budget :
    List SessionMessage → ℤ → Option Estimator → Result BudgetError (List SessionMessage)
unfolding prune_from
apply_token_budget msgs budget estimator =
    if leb_ℤ budget (pos 0)
    then ok []
    else if leb (length msgs) 0
    then ok []
    else prune_from msgs
        (find_start (or_default estimator) budget (reverse msgs) (pos 0) (length msgs))
