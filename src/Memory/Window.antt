-- ===== src/Memory/Window.antt =====
-- `filterMessages` of genkit-cowork/memory/sessions.go: the messages that a load returns. The
-- copies that the code makes are values here, and a nil slice is the empty list.
use genkit_cowork.Base.{
  ℕ, ◌-◌, ◌*◌, ◌<◌, min, List, [], ◌∷◌, ◌++◌, ◌≡◌, refl, sym, arith, length, take, drop,
  length-drop, drop_zero, drop-nil, leb, if◌then◌else◌,
}
use genkit_cowork.Base.Int.{ℤ, pos, pos_part, leb_ℤ}
use genkit_cowork.Memory.Types.{
  SessionMessage, PersistenceMode, keep_all, sliding_window, tail_ends_pruning,
}

-- the case `SlidingWindow`, for `0 < n`
sliding : ℕ → List SessionMessage → List SessionMessage
sliding n msgs = if leb (length msgs) n then msgs else drop (length msgs - n) msgs

-- the case `TailEndsPruning`, for `0 < n`
tail_ends : ℕ → List SessionMessage → List SessionMessage
tail_ends n msgs =
    if leb (length msgs) (2 * n) then msgs else take n msgs ++ drop (length msgs - n) msgs

-- `n <= 0` is the first test of both cases. The product `2*n` is not wrapped: the model is that of
-- a configured n below 2 ^ 62.
unfoldable pub filter_messages : List SessionMessage → PersistenceMode → ℤ → List SessionMessage
unfolding sliding tail_ends
filter_messages [] mode n = []
filter_messages msgs sliding_window n = if leb_ℤ n (pos 0) then msgs else sliding (pos_part n) msgs
filter_messages msgs tail_ends_pruning n =
    if leb_ℤ n (pos 0) then msgs else tail_ends (pos_part n) msgs
filter_messages msgs _ n = msgs

-- A load of all messages is one of the messages.
pub filter_messages-keep_all :
    (msgs : List SessionMessage) (n : ℤ) → filter_messages msgs keep_all n ≡ msgs
unfolding filter_messages
filter_messages-keep_all [] n = refl
filter_messages-keep_all (m ∷ ms) n = refl

-- A sliding window of n > 0 is exactly the last n messages, or all if there are no more than n.
pub sliding_window_exact :
    (msgs : List SessionMessage) (n : ℕ)
    → 0 < n
    → (filter_messages msgs sliding_window (pos n) ≡ drop (length msgs - n) msgs)
      × (length (filter_messages msgs sliding_window (pos n)) ≡ min n (length msgs))
unfolding filter_messages
sliding_window_exact [] n h = (sym (drop-nil (0 - n)), omega arith)
sliding_window_exact (m ∷ ms) n h = (
  ground (arith, drop_zero (length (m ∷ ms) - n) (m ∷ ms)),
  ground (arith, length-drop (length (m ∷ ms) - n) (m ∷ ms)),
)

-- what is left of a list between its first and its last `n` elements
pub record EndsOf (n : ℕ) (r xs : List SessionMessage) : Type 0 where
  pub first : take n r ≡ take n xs
  pub last : drop (length r - n) r ≡ drop (length xs - n) xs
  pub size : length r ≡ 2 * n
