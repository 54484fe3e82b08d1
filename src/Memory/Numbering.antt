-- ===== src/Memory/Numbering.antt =====
-- What `Session.Save` of genkit-cowork/memory/sessions.go does to the messages and the turns of a state
-- before it is stored: it numbers the new messages, moves their media into the asset store, and
-- bounds the turns that claim them.
pub mod Claimed
use genkit_cowork.Base.{
  ℕ, suc, ◌+◌, ◌-◌, not, Option, none, some, List, [], ◌∷◌, ◌++◌, length, take, drop, get_elem?,
  leb, ◌==◌, if◌then◌else◌, map,
}
use genkit_cowork.Base.Int.{ℤ, pos, negsuc, pos_part, ltb_ℤ, leb_ℤ, eqb_ℤ, add_64}
use genkit_cowork.Base.Bytes.{Bytes, eqb}
use genkit_cowork.Base.Result.{Result, ok, err, ◌>>=◌, ◌>>◌, fail_if}
use genkit_cowork.Memory.Types.{
  Message, MessageKind, unset, SessionMessage, TurnRecord, StateSnapshot, SessionAsset,
}
use genkit_cowork.Memory.Assets.{
  SaveError, turn_mismatch, unreferenced, out_of_range, kind_for_message, Supply, Taken, AssetStore,
  normalize_parts,
}

-- the last sequence of a table, or 0
abbrev pub last_sequence : List ℤ → ℤ
last_sequence [] = pos 0
last_sequence (z ∷ []) = z
last_sequence (z ∷ y ∷ zs) = last_sequence (y ∷ zs)

abbrev pub message_sequences : List SessionMessage → List ℤ
message_sequences = map (λ m. m.sequence)

abbrev pub turn_sequences : List TurnRecord → List ℤ
turn_sequences = map (λ t. t.sequence)

abbrev pub snapshot_sequences : List StateSnapshot → List ℤ
snapshot_sequences = map (λ s. s.sequence)

default_kind : MessageKind → Message → MessageKind
default_kind unset content = kind_for_message content.role
default_kind k content = k

-- The four assignments to a new message, with the last sequence and the supply threaded through.
unfoldable pub number_message : Supply → SessionMessage → ℤ → Taken → SessionMessage × ℤ × Taken
unfolding default_kind
number_message sup m last taken =
    let fresh_id = eqb m.message_id [] in
    let fresh_time = m.timestamp == 0 in
    let fresh_sequence = eqb_ℤ m.sequence (pos 0) in
    let next = add_64 last (pos 1) in
    (
      record m {
        message_id = if fresh_id then sup.uuid taken.ids else m.message_id;
        timestamp = if fresh_time then sup.now taken.times else m.timestamp;
        kind = default_kind m.kind m.content;
        sequence = if fresh_sequence then next else m.sequence;
      },
      if fresh_sequence then next else last,
      record {
        ids = if fresh_id then taken.ids + 1 else taken.ids;
        times = if fresh_time then taken.times + 1 else taken.times;
      },
    )

-- what the loop over the messages leaves
pub record Numbered : Type 0 where
  pub messages : List SessionMessage
  pub last : ℤ
  pub assets : List SessionAsset
  pub taken : Taken

-- the call of `normalizeMediaParts`, if there is an asset store
normalize_media :
    Supply
    → Option AssetStore
    → Bytes
    → Bytes
    → SessionMessage
    → List SessionAsset
    → Taken
    → Result SaveError (SessionMessage × List SessionAsset × Taken)
normalize_media sup none tenant session m assets taken = ok (m, assets, taken)
normalize_media sup (some put) tenant session m assets taken = do
  (parts, assets', taken') ←
      normalize_parts sup put tenant session m.message_id 0 m.content.content assets taken
  ok (record m { content = record m.content { content = parts } }, assets', taken')

-- The loop over the messages from the `i`th on; `old` is `existingMessages`.
unfoldable pub number_messages :
    Supply
    → Option AssetStore
    → Bytes
    → Bytes
    → ℕ
    → ℕ
    → List SessionMessage
    → ℤ
    → List SessionAsset
    → Taken
    → Result SaveError Numbered
unfolding normalize_media
number_messages sup store tenant session old i [] last assets taken =
    ok (record { messages = []; last = last; assets = assets; taken = taken })
number_messages sup store tenant session old i (m ∷ ms) last assets taken =
    let (m', last', taken') =
      if leb old i then number_message sup m last taken else (m, last, taken) in
    do
      (m'', assets', taken'') ← normalize_media sup store tenant session m' assets taken'
      rest ← number_messages sup store tenant session old (i + 1) ms last' assets' taken''
      ok (record rest { messages = m'' ∷ rest.messages })

-- The two sequences that bound a turn, where it has none; an index out of range panics.
claim_bounds : Option ℤ → Option ℤ → TurnRecord → ℤ → ℕ → Result SaveError (TurnRecord × ℤ × ℕ)
claim_bounds (some first) (some final) t last end = ok (
  record t {
    first_message_sequence =
        if eqb_ℤ t.first_message_sequence (pos 0) then first else t.first_message_sequence;
    last_message_sequence =
        if eqb_ℤ t.last_message_sequence (pos 0) then final else t.last_message_sequence;
  },
  last,
  end,
)
claim_bounds _ _ t last end = err out_of_range

-- an index into a slice, which may have wrapped around
at_index : List ℤ → ℤ → Option ℤ
at_index zs (pos i) = get_elem? zs i
at_index zs _ = none

-- one claim of a new turn on the new messages; `k` is its number in an error
unfoldable pub claim_turn : List ℤ → ℕ → TurnRecord → ℤ → ℕ → Result SaveError (TurnRecord × ℤ × ℕ)
unfolding claim_bounds at_index
claim_turn new_sequences k turn last cursor =
    let fresh = eqb_ℤ turn.sequence (pos 0) in
    let last' = if fresh then add_64 last (pos 1) else last in
    let turn' = record turn { sequence = if fresh then last' else turn.sequence } in
    let end = add_64 (pos cursor) turn.message_count in
    if leb_ℤ turn.message_count (pos 0)
    then ok (turn', last', cursor)
    else if ltb_ℤ (pos (length new_sequences)) end
    then err (turn_mismatch k turn.message_count (length new_sequences - cursor))
    else claim_bounds (get_elem? new_sequences cursor)
        (at_index new_sequences (add_64 end (negsuc 0))) turn' last' (pos_part end)

unfoldable pub claim_turns :
    List ℤ → ℕ → List TurnRecord → ℤ → ℕ → Result SaveError (List TurnRecord × ℕ)
claim_turns new_sequences k [] last cursor = ok ([], cursor)
claim_turns new_sequences k (t ∷ ts) last cursor = do
  (t', last', cursor') ← claim_turn new_sequences k t last cursor
  (ts', end) ← claim_turns new_sequences (k + 1) ts last' cursor'
  ok (t' ∷ ts', end)

abbrev pub last_or : SessionMessage → List SessionMessage → SessionMessage
last_or d [] = d
last_or d (m ∷ ms) = last_or m ms

-- the turn that a save with new messages and no new turn adds
default_turn : Bytes → ℤ → SessionMessage → SessionMessage → ℕ → TurnRecord
default_turn id seq first final count = record {
  turn_id = id;
  sequence = seq;
  flow_name = [];
  loop_turns = pos 0;
  finish_reason = [];
  started_at = first.timestamp;
  ended_at = final.timestamp;
  first_message_sequence = first.sequence;
  last_message_sequence = final.sequence;
  message_count = pos count;
  events = [];
}

-- The turns of a save whose new messages are `m ∷ ms`.
unfoldable pub save_turns :
    Supply
    → List TurnRecord
    → ℕ
    → ℤ
    → SessionMessage
    → List SessionMessage
    → Taken
    → Result SaveError (List TurnRecord × Taken)
unfolding default_turn
save_turns sup ts old last m ms taken =
    if leb (length ts) old
    then ok (
      ts
          ++ default_turn (sup.uuid taken.ids) (add_64 last (pos 1)) m (last_or m ms)
              (suc (length ms))
            ∷ [],
      record taken { ids = taken.ids + 1 },
    )
    else do
      (claimed, end) ← claim_turns (message_sequences (m ∷ ms)) 1 (drop old ts) last 0
      fail_if (not (end == suc (length ms))) (unreferenced (suc (length ms) - end))
      ok (take old ts ++ claimed, taken)
