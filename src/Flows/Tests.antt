-- ===== src/Flows/Tests.antt =====
-- Runs of the flows at concrete inputs, and their theorems applied there.
use genkit_cowork.Base.{ℕ, suc, true, false, Option, none, some, List, [], ◌∷◌, ◌≡◌, refl, arith}
use genkit_cowork.Base.Int.{pos}
use genkit_cowork.Base.Bytes.{Bytes, codes, eqb}
use genkit_cowork.Base.Result.{ok}
use genkit_cowork.Memory.Types.{Role, model, tool, Part, Message, TurnRecord}
use genkit_cowork.Memory.Assets.{Supply}
use genkit_cowork.Memory.Numbering.{claim_turns}
use genkit_cowork.Flows.LoopTurns.{
  ToolExecutionRecord, AgentLoopTurn, Reasons, is_resumed_tool_message, count_tool_requests,
  count_interrupts, max_tool_end, build_turns,
}
use genkit_cowork.Flows.LoopTurns.Rounds.{Rounds, waiting, alone, answered, done}
use genkit_cowork.Flows.Message.{flow_turns}
use genkit_cowork.Flows.Message.Claims.{flow_turns-claimed}

abbrev supply : Supply
supply = record { uuid = λ k. k ∷ []; now = λ k. k }

abbrev clock : ℕ → ℕ × ℕ
clock n = (n, suc n)

abbrev reasons : Reasons
reasons = record { response = []; interrupted = codes "interrupted"; stop = codes "stop" }

abbrev request : Part
request = record {
  is_text = false;
  is_media = false;
  is_tool_request = true;
  is_interrupt = false;
  text = [];
  content_type = [];
}

abbrev said : Role → List Part → Message
said r parts = record { role = r; content = parts; metadata = none }

abbrev resumed : Message
resumed = record (said tool []) {
  metadata = some (record { generation_usage = none; resumed = true });
}

abbrev ran : ToolExecutionRecord
ran = record {
  tool_name = codes "bash";
  tool_ref = [];
  started_at = 5;
  ended_at = 9;
  duration = 4;
  interrupted = false;
  error = [];
}

-- a resumed tool message, a model message that asks for a tool, its answer, and the last message
abbrev added : List (Option Message)
added =
    some resumed
    ∷ some (said model (request ∷ []))
    ∷ some (said tool [])
    ∷ some (said model [])
    ∷ []

added-Rounds : Rounds false added
unfolding is_resumed_tool_message
added-Rounds = waiting resumed refl (
    answered (said model (request ∷ [])) (said tool []) refl refl (alone (said model []) refl done))

-- what a test reads of a turn
abbrev summary : AgentLoopTurn → ℕ × ℕ × Bytes
summary t = (t.persisted_message_count, t.ended_at, t.finish_reason)

abbrev summaries : List AgentLoopTurn → List (ℕ × ℕ × Bytes)
summaries [] = []
summaries (t ∷ ts) = summary t ∷ summaries ts

turns_run :
    summaries (build_turns clock reasons 0 0 [] (ran ∷ []) added)
    ≡ (3, 9, codes "continue") ∷ (1, 2, codes "stop") ∷ []
unfolding build_turns is_resumed_tool_message count_tool_requests count_interrupts max_tool_end eqb
turns_run = refl

flow_turns-claimed_example :
    (turns : List TurnRecord) × (claim_turns
        (pos 1 ∷ pos 2 ∷ pos 3 ∷ pos 4 ∷ pos 5 ∷ [])
        1
        (flow_turns supply
          (codes "handleMessage")
          true
          (build_turns clock reasons 0 0 [] (ran ∷ []) added))
        (pos 0)
        0
      ≡ ok (turns, 5))
flow_turns-claimed_example =
    flow_turns-claimed supply (codes "handleMessage") true clock reasons [] (ran ∷ []) added
      (pos 1 ∷ pos 2 ∷ pos 3 ∷ pos 4 ∷ pos 5 ∷ []) (pos 0) added-Rounds (omega arith) (omega arith)
      (omega arith)
