-- ===== src/Flows/Message.antt =====
-- genkit-cowork/flows/message.go: what the handleMessage flow stores of a run of the agent loop, and how
-- it merges configurations. The heartbeat flow stores its runs in the same way, under its own name
-- and without a user message.
pub mod Claims
use genkit_cowork.Base.{
  ℕ, zero, suc, ◌+◌, ◌-◌, ◌==◌, Bool, true, false, not, ◌&&◌, Option, none, some, List, [], ◌∷◌,
  ◌++◌, length, take, drop, map, ltb, if◌then◌else◌,
}
use genkit_cowork.Base.Int.{ℤ, pos, eqb_ℤ}
use genkit_cowork.Base.Bytes.{Bytes, codes, eqb}
use genkit_cowork.Memory.Types.{
  Role, user, model, tool, MessageOrigin, Message, SessionMessage, TurnEvent, TurnRecord,
}
use genkit_cowork.Memory.Assets.{Supply, Taken, kind_for_message}
use genkit_cowork.Flows.LoopTurns.{AgentLoopTurn}

-- `AgentLoopConfig`; the prompt function is a value of any type.
pub record AgentLoopConfig (Prompt : Type 0) : Type 0 where
  pub model : Bytes
  pub tools : Option (List Bytes)
  pub system_prompt : Option Prompt
  pub max_turns : ℤ

abbrev or_else {ℓ} : {A : Type ℓ} → Option A → Option A → Option A
or_else none b = b
or_else (some a) b = some a

unfoldable pub merge_agent_config :
    {Prompt : Type 0}
    → Option (AgentLoopConfig Prompt)
    → Option (AgentLoopConfig Prompt)
    → AgentLoopConfig Prompt
merge_agent_config none none = record {
  model = [];
  tools = none;
  system_prompt = none;
  max_turns = pos 0;
}
merge_agent_config none (some override) = override
merge_agent_config (some base) none = base
merge_agent_config (some base) (some override) = record {
  model = if eqb override.model [] then base.model else override.model;
  tools = or_else override.tools base.tools;
  system_prompt = or_else override.system_prompt base.system_prompt;
  max_turns = if eqb_ℤ override.max_turns (pos 0) then base.max_turns else override.max_turns;
}

unfoldable pub origin_for_role : Role → MessageOrigin → MessageOrigin
origin_for_role user origin = origin
origin_for_role model origin = MessageOrigin.model
origin_for_role tool origin = MessageOrigin.tool
origin_for_role _ origin = MessageOrigin.model

-- The new messages as they are appended to the state; `k` of them came before, each with one reading
-- of the clock.
unfoldable pub session_messages : Supply → MessageOrigin → ℕ → List Message → List SessionMessage
unfolding kind_for_message
session_messages sup origin k [] = []
session_messages sup origin k (m ∷ ms) =
    record {
      message_id = [];
      sequence = pos 0;
      origin = origin_for_role m.role origin;
      kind = kind_for_message m.role;
      content = m;
      timestamp = sup.now k;
    }
    ∷ session_messages sup origin (suc k) ms

abbrev event : Bytes → ℕ → TurnEvent
event name at_time = record { event_type = name; timestamp = at_time }

-- a turn of the loop as a record of the ledger, with `extra` messages of the flow's own
flow_turn : Supply → Bytes → ℕ → ℕ → AgentLoopTurn → TurnRecord
flow_turn sup name k extra t = record {
  turn_id = sup.uuid k;
  sequence = pos 0;
  flow_name = name;
  loop_turns = pos t.turn_number;
  finish_reason = t.finish_reason;
  started_at = t.started_at;
  ended_at = t.ended_at;
  first_message_sequence = pos 0;
  last_message_sequence = pos 0;
  message_count = pos (t.persisted_message_count + extra);
  events = event (codes "flow.input") t.started_at ∷ event (codes "flow.output") t.ended_at ∷ [];
}

flow_turns_from : Supply → Bytes → ℕ → List AgentLoopTurn → List TurnRecord
unfolding flow_turn
flow_turns_from sup name k [] = []
flow_turns_from sup name k (t ∷ ts) = flow_turn sup name k 0 t ∷ flow_turns_from sup name (suc k) ts

-- The turns that a flow appends. The first one also claims the message that a user submitted, where
-- the flow got one and did not resume a run.
unfoldable pub flow_turns : Supply → Bytes → Bool → List AgentLoopTurn → List TurnRecord
unfolding flow_turn flow_turns_from
flow_turns sup name submitted [] = []
flow_turns sup name submitted (t ∷ ts) =
    flow_turn sup name 0 (if submitted then 1 else 0) t ∷ flow_turns_from sup name 1 ts
