-- ===== src/Flows/LoopTurns.antt =====
-- `buildAgentLoopTurnRecords` of genkit-cowork/flows/agent_loop.go: the turns of an agent loop, from the
-- messages that it added. A nil message is `none`. The two times that a turn reads from the clock are
-- a function of its number. What is left of the two lists of records stands for the two indices.
pub mod Rounds
use genkit_cowork.Base.{
  ℕ, suc, ◌+◌, min, Bool, true, false, not, ◌&&◌, Option, none, some, List, [], ◌∷◌, ◌++◌, length,
  take, drop, ltb, leb, if◌then◌else◌,
}
use genkit_cowork.Base.Int.{ℤ, pos}
use genkit_cowork.Base.Bytes.{Bytes, codes, eqb}
use genkit_cowork.Memory.Types.{Role, model, tool, system, Part, Metadata, Message}

pub record ToolExecutionRecord : Type 0 where
  pub tool_name : Bytes
  pub tool_ref : Bytes
  pub started_at : ℕ
  pub ended_at : ℕ
  pub duration : ℕ
  pub interrupted : Bool
  pub error : Bytes

pub record ModelRecord : Type 0 where
  pub started_at : ℕ
  pub ended_at : ℕ
  pub duration : ℕ
  pub input_tokens : ℤ
  pub output_tokens : ℤ
  pub total_tokens : ℤ
  pub error : Bytes

pub record AgentLoopTurn : Type 0 where
  pub turn_number : ℕ
  pub started_at : ℕ
  pub ended_at : ℕ
  pub response_role : Role
  pub finish_reason : Bytes
  pub input_tokens : ℤ
  pub output_tokens : ℤ
  pub total_tokens : ℤ
  pub persisted_message_count : ℕ
  pub tool_request_count : ℕ
  pub tool_response_part_count : ℕ
  pub interrupted : Bool
  pub tool_execution_summaries : List ToolExecutionRecord

abbrev pub is_system : Role → Bool
is_system system = true
is_system _ = false

abbrev pub is_model : Role → Bool
is_model model = true
is_model _ = false

abbrev pub is_tool : Role → Bool
is_tool tool = true
is_tool _ = false

has_system_role : Option Message → Bool
has_system_role none = false
has_system_role (some m) = is_system m.role

unfoldable pub conversation_history : List (Option Message) → List (Option Message)
unfolding has_system_role
conversation_history [] = []
conversation_history (m ∷ ms) =
    let rest = conversation_history ms in if has_system_role m then rest else m ∷ rest

resumed_key : Option Metadata → Bool
resumed_key none = false
resumed_key (some meta) = meta.resumed

unfoldable pub is_resumed_tool_message : Message → Bool
unfolding resumed_key
is_resumed_tool_message m = resumed_key m.metadata

unfoldable pub count_tool_requests : List Part → ℕ
count_tool_requests [] = 0
count_tool_requests (p ∷ ps) =
    let rest = count_tool_requests ps in if p.is_tool_request then suc rest else rest

unfoldable pub count_interrupts : List Part → ℕ
count_interrupts [] = 0
count_interrupts (p ∷ ps) =
    let rest = count_interrupts ps in if p.is_interrupt then suc rest else rest

unfoldable pub max_tool_end : ℕ → List ToolExecutionRecord → ℕ
max_tool_end end [] = end
max_tool_end end (r ∷ rs) = max_tool_end (if ltb end r.ended_at then r.ended_at else end) rs

-- the turn of a model message before its tools are added
new_turn : ℕ × ℕ → ℕ → Message → ℕ → AgentLoopTurn
unfolding count_tool_requests count_interrupts
new_turn (started, ended) number m resumed = record {
  turn_number = number;
  started_at = started;
  ended_at = ended;
  response_role = m.role;
  finish_reason = [];
  input_tokens = pos 0;
  output_tokens = pos 0;
  total_tokens = pos 0;
  persisted_message_count = 1 + resumed;
  tool_request_count = count_tool_requests m.content;
  tool_response_part_count = 0;
  interrupted = ltb 0 (count_interrupts m.content);
  tool_execution_summaries = [];
}

with_model_record : List ModelRecord → AgentLoopTurn → AgentLoopTurn
with_model_record [] turn = turn
with_model_record (r ∷ rs) turn = record turn {
  started_at = r.started_at;
  ended_at = r.ended_at;
  input_tokens = r.input_tokens;
  output_tokens = r.output_tokens;
  total_tokens = r.total_tokens;
}

-- The records of tools added to a turn: none leaves the turn as it is.
add_tools : List ToolExecutionRecord → AgentLoopTurn → AgentLoopTurn
unfolding max_tool_end
add_tools [] turn = turn
add_tools (r ∷ rs) turn =
    let all = turn.tool_execution_summaries ++ (r ∷ rs) in
    record turn { tool_execution_summaries = all; ended_at = max_tool_end turn.ended_at all }

-- the block for a tool message right behind the model message
with_tool_message : Message → List ToolExecutionRecord → AgentLoopTurn → AgentLoopTurn
unfolding add_tools
with_tool_message t records turn =
    add_tools (take (min turn.tool_request_count (length records)) records) (record turn {
      persisted_message_count = turn.persisted_message_count + 1;
      tool_response_part_count = length t.content;
    })

-- `response.FinishReason`, and Genkit's `FinishReasonInterrupted` and `FinishReasonStop`
pub record Reasons : Type 0 where
  pub response : Bytes
  pub interrupted : Bytes
  pub stop : Bytes

-- the end of a round: an interrupted turn takes all records that are left
close_turn :
    Reasons
    → Bool
    → List ToolExecutionRecord
    → AgentLoopTurn
    → AgentLoopTurn × List ToolExecutionRecord
unfolding add_tools
close_turn reasons at_end records turn =
    if turn.interrupted
    then (record (add_tools records turn) { finish_reason = reasons.interrupted }, [])
    else (
      record turn {
        finish_reason =
            if not at_end
            then codes "continue"
            else if eqb reasons.response []
            then reasons.stop
            else reasons.response;
      },
      records,
    )

abbrev tail_records : List ModelRecord → List ModelRecord
tail_records [] = []
tail_records (r ∷ rs) = rs

abbrev pub none_left : List (Option Message) → Bool
none_left [] = true
none_left _ = false

abbrev pub as_tool : Option Message → Option Message
as_tool none = none
as_tool (some t) = if is_tool t.role then some t else none

-- a message that waits for the next turn
abbrev pub waits : Message → Bool
waits m = is_tool m.role && is_resumed_tool_message m

module _ (clock : ℕ → ℕ × ℕ) (reasons : Reasons) where
  model_turn : ℕ → ℕ → List ModelRecord → Message → AgentLoopTurn
  unfolding new_turn with_model_record
  model_turn n resumed models m = with_model_record models (new_turn (clock n) (suc n) m resumed)

  round_alone :
      ℕ
      → ℕ
      → List ModelRecord
      → List ToolExecutionRecord
      → Message
      → Bool
      → AgentLoopTurn × List ToolExecutionRecord
  unfolding model_turn close_turn
  round_alone n resumed models tools m at_end =
      close_turn reasons at_end tools (model_turn n resumed models m)

  round_with_tool :
      ℕ
      → ℕ
      → List ModelRecord
      → List ToolExecutionRecord
      → Message
      → Message
      → Bool
      → AgentLoopTurn × List ToolExecutionRecord
  unfolding model_turn with_tool_message close_turn
  round_with_tool n resumed models tools m t at_end =
      let turn = model_turn n resumed models m in
      close_turn reasons at_end (drop (min turn.tool_request_count (length tools)) tools)
        (with_tool_message t tools turn)

  -- The loop. `n` turns are recorded, and `resumed` resumed tool messages wait for their turn.
  unfoldable pub build_turns :
      ℕ
      → ℕ
      → List ModelRecord
      → List ToolExecutionRecord
      → List (Option Message)
      → List AgentLoopTurn
  unfolding round_alone round_with_tool
  build_turns n resumed models tools [] = []
  build_turns n resumed models tools (none ∷ ms) = build_turns n resumed models tools ms
  build_turns n resumed models tools (some m ∷ []) = elim (is_model m.role) [
    | true ↦ (round_alone n resumed models tools m true).0 ∷ []
    | false ↦ []
  ]
  build_turns n resumed models tools (some m ∷ x ∷ ms) = elim (waits m) [
    | true ↦ build_turns n (suc resumed) models tools (x ∷ ms)
    | false ↦ elim (is_model m.role) [
      | false ↦ build_turns n resumed models tools (x ∷ ms)
      | true ↦ elim (as_tool x) [
        | none ↦
            let (turn, tools') = round_alone n resumed models tools m false in
            turn ∷ build_turns (suc n) 0 (tail_records models) tools' (x ∷ ms)
        | some t ↦
            let (turn, tools') = round_with_tool n resumed models tools m t (none_left ms) in
            turn ∷ build_turns (suc n) 0 (tail_records models) tools' ms
      ]
    ]
  ]

  unfoldable pub build_agent_loop_turn_records :
      List (Option Message) → ℕ → List ModelRecord → List ToolExecutionRecord → List AgentLoopTurn
  build_agent_loop_turn_records history prior_history_len models tools =
      build_turns 0 0 models tools (drop prior_history_len history)
