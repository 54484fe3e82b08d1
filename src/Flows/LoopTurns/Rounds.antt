-- ===== src/Flows/LoopTurns/Rounds.antt =====
-- The turns of an agent loop count the messages that it added, each once.
use genkit_cowork.Base.{
  ℕ, suc, ◌+◌, min, take, Bool, true, false, Option, none, some, List, [], ◌∷◌, ◌≡◌, ◌≢◌, refl, ap,
  ◌∙◌, inl, inr, arith, length, Bool-cases,
}
use genkit_cowork.Memory.Types.{Role, Message}
use genkit_cowork.Flows.LoopTurns.{
  ToolExecutionRecord, ModelRecord, AgentLoopTurn, Reasons, is_model, is_tool, waits, as_tool,
  none_left, new_turn, with_model_record, add_tools, with_tool_message, close_turn, model_turn,
  round_alone, round_with_tool, tail_records, build_turns,
}

-- The messages of whole rounds: resumed tool messages, then a model message, then the tool message
-- that answers it, if any. The flag says that a resumed tool message still waits for its model.
pub data Rounds : Bool → List (Option Message) → Type 0 where
  done : Rounds false []
  waiting :
      {p : Bool} {ms : List (Option Message)} (m : Message)
      → waits m ≡ true
      → Rounds true ms
      → Rounds p (some m ∷ ms)
  alone :
      {p : Bool} {ms : List (Option Message)} (m : Message)
      → is_model m.role ≡ true
      → Rounds false ms
      → Rounds p (some m ∷ ms)
  answered :
      {p : Bool} {ms : List (Option Message)} (m t : Message)
      → is_model m.role ≡ true
      → is_tool t.role ≡ true
      → Rounds false ms
      → Rounds p (some m ∷ some t ∷ ms)

Rounds-ne-nil : {ms : List (Option Message)} → Rounds true ms → ms ≢ []
Rounds-ne-nil (waiting m w r) = cc
Rounds-ne-nil (alone m w r) = cc
Rounds-ne-nil (answered m t w v r) = cc

model_not_tool : (r : Role) → is_model r ≡ true → is_tool r ≡ false
model_not_tool Role.model h = refl
model_not_tool Role.user h = cc
model_not_tool Role.tool h = cc
model_not_tool Role.system h = refl
model_not_tool Role.other h = refl

model_waits_not : (m : Message) → is_model m.role ≡ true → waits m ≡ false
model_waits_not m h = rw (model_not_tool m.role h) refl

waits-is_tool : (m : Message) → waits m ≡ true → is_tool m.role ≡ true
waits-is_tool m h = ground arith

not_as_tool : (t : Message) → is_model t.role ≡ true → as_tool (some t) ≡ none
not_as_tool t h = rw (model_not_tool t.role h) refl

-- the messages that the turns claim
abbrev pub total_persisted : List AgentLoopTurn → ℕ
total_persisted [] = 0
total_persisted (t ∷ ts) = t.persisted_message_count + total_persisted ts

add_tools-persisted :
    (rs : List ToolExecutionRecord) (t : AgentLoopTurn)
    → (add_tools rs t).persisted_message_count ≡ t.persisted_message_count
unfolding add_tools
add_tools-persisted [] t = refl
add_tools-persisted (r ∷ rs) t = refl

close_turn-persisted :
    (reason : Reasons) (at_end : Bool) (rs : List ToolExecutionRecord) (t : AgentLoopTurn)
    → (close_turn reason at_end rs t).0.persisted_message_count ≡ t.persisted_message_count
unfolding close_turn
close_turn-persisted reason at_end rs t = elim (Bool-cases t.interrupted) [
  | inl stopped ↦ rw stopped (add_tools-persisted rs (record t { interrupted = true }))
  | inr runs_on ↦ rw runs_on refl
]

module _ (clock : ℕ → ℕ × ℕ) (reason : Reasons) where
  model_turn-persisted :
      (n resumed : ℕ) (models : List ModelRecord) (m : Message)
      → (model_turn clock reason n resumed models m).persisted_message_count ≡ suc resumed
  unfolding model_turn new_turn with_model_record
  model_turn-persisted n resumed [] m = omega arith
  model_turn-persisted n resumed (r ∷ models) m = omega arith

  round_alone-persisted :
      (n resumed : ℕ) (models : List ModelRecord) (tools : List ToolExecutionRecord) (m : Message)
      (at_end : Bool)
      → (round_alone clock reason n resumed models tools m at_end).0.persisted_message_count
        ≡ suc resumed
  unfolding round_alone
  round_alone-persisted n resumed models tools m at_end =
      close_turn-persisted reason at_end tools (model_turn clock reason n resumed models m)
      ∙ model_turn-persisted n resumed models m

  round_with_tool-persisted :
      (n resumed : ℕ) (models : List ModelRecord) (tools : List ToolExecutionRecord) (m t : Message)
      (at_end : Bool)
      → (round_with_tool clock reason n resumed models tools m t at_end).0.persisted_message_count
        ≡ suc (suc resumed)
  unfolding round_with_tool with_tool_message
  round_with_tool-persisted n resumed models tools m t at_end =
      let turn = model_turn clock reason n resumed models m in
      close_turn-persisted reason at_end _ (with_tool_message t tools turn)
      ∙ add_tools-persisted (take (min turn.tool_request_count (length tools)) tools) (record turn {
        persisted_message_count = turn.persisted_message_count + 1;
        tool_response_part_count = length t.content;
      })
      ∙ one_more (model_turn-persisted n resumed models m)
    where
      one_more : {k : ℕ} → k ≡ suc resumed → k + 1 ≡ suc (suc resumed)
      one_more h = omega arith

  module _ (n resumed : ℕ) (models : List ModelRecord) (tools : List ToolExecutionRecord) where
    build_turns-nil : build_turns clock reason n resumed models tools [] ≡ []
    unfolding build_turns
    build_turns-nil = refl

    build_turns-waits :
        (m : Message) (ms : List (Option Message))
        → waits m ≡ true
        → ms ≢ []
        → build_turns clock reason n resumed models tools (some m ∷ ms)
          ≡ build_turns clock reason n (suc resumed) models tools ms
    unfolding build_turns
    build_turns-waits m [] w h = absurd (h refl)
    build_turns-waits m (x ∷ ms) w h = ground (arith, w)

    build_turns-last :
        (m : Message)
        → is_model m.role ≡ true
        → build_turns clock reason n resumed models tools (some m ∷ [])
          ≡ (round_alone clock reason n resumed models tools m true).0 ∷ []
    unfolding build_turns
    build_turns-last m w = ground (arith, w)

    build_turns-alone :
        (m : Message) (x : Option Message) (ms : List (Option Message))
        → waits m ≡ false
        → is_model m.role ≡ true
        → as_tool x ≡ none
        → build_turns clock reason n resumed models tools (some m ∷ x ∷ ms)
          ≡ (round_alone clock reason n resumed models tools m false).0
            ∷ build_turns clock reason
                (suc n)
                0
                (tail_records models)
                (round_alone clock reason n resumed models tools m false).1
                (x ∷ ms)
    unfolding build_turns
    build_turns-alone m x ms v w a = ground (arith, v, w, a)

    build_turns-answered :
        (m t : Message) (ms : List (Option Message))
        → waits m ≡ false
        → is_model m.role ≡ true
        → is_tool t.role ≡ true
        → build_turns clock reason n resumed models tools (some m ∷ some t ∷ ms)
          ≡ (round_with_tool clock reason n resumed models tools m t (none_left ms)).0
            ∷ build_turns clock reason
                (suc n)
                0
                (tail_records models)
                (round_with_tool clock reason n resumed models tools m t (none_left ms)).1
                ms
    unfolding build_turns
    build_turns-answered m t ms v w a = ground (arith, v, w, a)

  -- what a run of the loop counts, with the tool messages that waited before it
  pub total-Rounds :
      (n resumed : ℕ) (models : List ModelRecord) (tools : List ToolExecutionRecord) {p : Bool}
      {ms : List (Option Message)}
      → Rounds p ms
      → (ms ≡ [] → resumed ≡ 0)
      → total_persisted (build_turns clock reason n resumed models tools ms) ≡ resumed + length ms
  total-Rounds n resumed models tools done z =
      ap total_persisted (build_turns-nil n resumed models tools) ∙ omega (arith, z refl)
  total-Rounds n resumed models tools (waiting {ms = ms} m w r) z =
      ap total_persisted (build_turns-waits n resumed models tools m ms w (Rounds-ne-nil r))
      ∙ total-Rounds n (suc resumed) models tools r (λ e. absurd (Rounds-ne-nil r e))
      ∙ omega arith
  total-Rounds n resumed models tools (alone m w done) z =
      ap total_persisted (build_turns-last n resumed models tools m w)
      ∙ omega (arith, round_alone-persisted n resumed models tools m true)
  total-Rounds n resumed models tools (alone m w (waiting {ms = ms} t v r)) z =
      ap total_persisted (
        build_turns-answered n resumed models tools m t ms (model_waits_not m w) w
          (waits-is_tool t v))
      ∙ omega (
        arith,
        round_with_tool-persisted n resumed models tools m t (none_left ms),
        total-Rounds (suc n) 0 (tail_records models)
            (round_with_tool clock reason n resumed models tools m t (none_left ms)).1 r
            (λ e. refl),
      )
  total-Rounds n resumed models tools (alone m w (alone {ms = ms} t v r)) z =
      ap total_persisted (
        build_turns-alone n resumed models tools m (some t) ms (model_waits_not m w) w
          (not_as_tool t v))
      ∙ omega (
        arith,
        round_alone-persisted n resumed models tools m false,
        total-Rounds (suc n) 0 (tail_records models)
            (round_alone clock reason n resumed models tools m false).1 {p = false} (alone t v r)
            (λ e. refl),
      )
  total-Rounds n resumed models tools (alone m w (answered {ms = ms} t u v v' r)) z =
      ap total_persisted (
        build_turns-alone n resumed models tools m (some t) (some u ∷ ms) (model_waits_not m w) w
          (not_as_tool t v))
      ∙ omega (
        arith,
        round_alone-persisted n resumed models tools m false,
        total-Rounds (suc n) 0 (tail_records models)
            (round_alone clock reason n resumed models tools m false).1 {p = false}
            (answered t u v v' r) (λ e. refl),
      )
  total-Rounds n resumed models tools (answered {ms = ms} m t w v r) z =
      ap total_persisted
        (build_turns-answered n resumed models tools m t ms (model_waits_not m w) w v)
      ∙ omega (
        arith,
        round_with_tool-persisted n resumed models tools m t (none_left ms),
        total-Rounds (suc n) 0 (tail_records models)
            (round_with_tool clock reason n resumed models tools m t (none_left ms)).1 r
            (λ e. refl),
      )
