-- ===== src/Memory/Tests.antt =====
-- Runs of the memory package at concrete inputs, and its theorems applied there.
use genkit_cowork.Base.{
  ◌-◌, min, false, none, some, List, [], ◌∷◌, ◌≡◌, ◌≢◌, ◌↔◌, refl, arith, length, drop,
  if◌then◌else◌,
}
use genkit_cowork.Base.Int.{ℤ, pos, negsuc, ◌+ℤ◌, ◌-ℤ◌, add_64, max_int64}
use genkit_cowork.Base.Bytes.{Bytes, codes, eqb}
use genkit_cowork.Base.Result.{ok, err}
use genkit_cowork.Base.Dict.{lookup, insert, keys}
use genkit_cowork.Base.Sort.{sort_strings}
use genkit_cowork.Memory.Types.{SessionMessage, keep_all, sliding_window, tail_ends_pruning}
use genkit_cowork.Memory.Samples.{m1, m2, m3, before, after, later, state, message, t, s, one}
use genkit_cowork.Memory.Ledger.{
  messages, sequence_changed, sequence_dropped, id_changed, truncated, not_increasing, check_row,
  check_rows, scan_row, scan_rows, validate_append_only_state, validate_session_ledger,
}
use genkit_cowork.Memory.Ledger.Exact.{IsExtension, validate_iff_IsExtension}
use genkit_cowork.Memory.Ledger.Chain.{validate_trans}
use genkit_cowork.Memory.Window.{filter_messages, sliding_window_exact}
use genkit_cowork.Memory.Budget.{
  find_start, message_cost, estimate_tokens, apply_token_budget, empty_history,
}
use genkit_cowork.Memory.Budget.Prune.{apply_token_budget_total}
use genkit_cowork.Memory.Store.{
  ledger, Store, stored, save_state, load_state, delete_session, list_sessions,
}
use genkit_cowork.Memory.Store.RoundTrip.{same_key, save_state_isolated, load_state-delete_session}
use genkit_cowork.Memory.Store.Listing.{Lists, list_sessions-Lists}

saved : validate_append_only_state before after ≡ ok tt
unfolding validate_append_only_state check_rows check_row scan_rows scan_row eqb
saved = refl

saved_later : validate_append_only_state after later ≡ ok tt
unfolding validate_append_only_state check_rows check_row scan_rows scan_row eqb
saved_later = refl

refused :
    (validate_append_only_state after before ≡ err (truncated messages 2 1))
    × (validate_append_only_state before (state (message (codes "m1") (pos 0) ∷ []) before.turns [])
        ≡ err (sequence_dropped messages 0 (pos 1)))
    × (validate_append_only_state before (state (message (codes "m1") (pos 4) ∷ []) before.turns [])
        ≡ err (sequence_changed messages 0 (pos 1) (pos 4)))
    × (validate_append_only_state before (state (m2 ∷ []) before.turns [])
        ≡ err (id_changed messages 0 (codes "m1") (codes "m2")))
    × (validate_session_ledger (state (m2 ∷ m1 ∷ []) [] []) ≡ err (not_increasing messages))
unfolding validate_append_only_state validate_session_ledger check_rows check_row scan_rows scan_row
    eqb
refused = (refl, refl, refl, refl, refl)

-- A positive sequence may be replaced by a negative one.
negative_accepted :
    validate_append_only_state before (state (message (codes "m1") (negsuc 4) ∷ []) before.turns [])
    ≡ ok tt
unfolding validate_append_only_state check_rows check_row scan_rows scan_row eqb
negative_accepted = refl

validate_iff_IsExtension_example :
    (validate_append_only_state before after ≡ ok tt) ↔ IsExtension before after
validate_iff_IsExtension_example = validate_iff_IsExtension before after

validate_trans_example : validate_append_only_state before later ≡ ok tt
validate_trans_example = validate_trans before after later (omega arith) saved saved_later

abbrev three : List SessionMessage
three = m1 ∷ m2 ∷ m3 ∷ []

sliding_window_exact_example :
    (filter_messages three sliding_window (pos 2) ≡ drop (length three - 2) three)
    × (length (filter_messages three sliding_window (pos 2)) ≡ min 2 (length three))
sliding_window_exact_example = sliding_window_exact three 2 (omega arith)

tail_ends_run : filter_messages three tail_ends_pruning (pos 1) ≡ m1 ∷ m3 ∷ []
unfolding filter_messages
tail_ends_run = refl

abbrev two_each : SessionMessage → ℤ
two_each m = pos 2

budget_run :
    (apply_token_budget three (pos 5) (some two_each) ≡ ok (m2 ∷ m3 ∷ []))
    × (apply_token_budget three (negsuc 0) none ≡ ok [])
unfolding apply_token_budget find_start message_cost add_64 ◌+ℤ◌ ◌-ℤ◌
budget_run = (refl, refl)

apply_token_budget_total_example :
    apply_token_budget three (pos 5) (some estimate_tokens) ≢ err empty_history
apply_token_budget_total_example = apply_token_budget_total three (pos 5) (some estimate_tokens)

-- A cost near the largest int makes the sum wrap around, and the message over the budget is kept.
abbrev huge : SessionMessage → ℤ
huge m = max_int64

budget_wraps : apply_token_budget (m1 ∷ m2 ∷ []) max_int64 (some huge) ≡ ok (m1 ∷ m2 ∷ [])
unfolding apply_token_budget find_start message_cost add_64 ◌+ℤ◌ ◌-ℤ◌
budget_wraps = refl

one_refuses : (save_state false t s (state [] [] []) one).0 ≡ err (ledger (truncated messages 1 0))
unfolding save_state stored lookup insert eqb validate_append_only_state check_rows check_row
    scan_rows scan_row
one_refuses = refl

other_key : same_key t s t (codes "other") ≡ false
unfolding eqb
other_key = refl

save_state_isolated_example :
    load_state false t (codes "other") keep_all (pos 0) (save_state false t s after one).1
    ≡ load_state false t (codes "other") keep_all (pos 0) one
save_state_isolated_example =
    save_state_isolated false t s t (codes "other") after false keep_all (pos 0) one other_key

load_state-delete_session_example :
    load_state false t s keep_all (pos 0) (delete_session false t s one).1
    ≡ (if same_key t s t s then ok none else load_state false t s keep_all (pos 0) one)
load_state-delete_session_example = load_state-delete_session t s t s keep_all (pos 0) one

list_run :
    list_sessions false t ((t, (codes "b", before) ∷ (codes "ab", before) ∷ []) ∷ [])
    ≡ ok (codes "ab" ∷ codes "b" ∷ [])
unfolding list_sessions sort_strings lookup keys eqb
list_run = refl

list_sessions-Lists_example :
    (ids : List Bytes) × (list_sessions false t one ≡ ok ids) × Lists t one ids
list_sessions-Lists_example = list_sessions-Lists t one

abbrev two : Store
two = (save_state false t s after one).1
