-- ===== src/Flows/EventTests.antt =====
-- Runs of the event bus at concrete inputs, and its theorems applied there.
use genkit_cowork.Base.{ℕ, List, [], ◌∷◌, ◌++◌, Option, none, some, ◌≡◌, refl}
use genkit_cowork.Base.Bytes.{Bytes, codes, eqb}
use genkit_cowork.Base.Dict.{lookup, insert}
use genkit_cowork.Flows.Event.{
  turn_start, turn_end, Event, EventHandler, EventBus, type_mismatch, handling, new_event_bus,
  or_empty, listed, subscribe, mark, mark_at, unsubscribe, deliver, and_then, deliver_all, emit,
}
use genkit_cowork.Flows.Event.Delivery.{made, subscribed, emit-unsubscribe}

abbrev turn_context : Bytes
turn_context = codes "TurnContext"

abbrev live : List ℕ → Option Bytes
live log = none

-- handlers that write the payload and their own number to a log
abbrev logs : ℕ → EventHandler ℕ Bytes (List ℕ)
logs n = record {
  payload_type = turn_context;
  handle = λ event. λ log. (log ++ event.payload ∷ n ∷ [], none);
}

abbrev fails : EventHandler ℕ Bytes (List ℕ)
fails = record {
  payload_type = turn_context;
  handle = λ event. λ log. (log ++ 0 ∷ [], some (codes "full"));
}

abbrev other_type : EventHandler ℕ Bytes (List ℕ)
other_type = record { payload_type = codes "AgentContext"; handle = λ event. λ log. (log, none) }

abbrev started : Event ℕ
started = record {
  event_type = turn_start;
  payload_type = turn_context;
  timestamp = 100;
  payload = 7;
}

abbrev one : EventBus ℕ Bytes (List ℕ)
one = subscribe new_event_bus turn_start (logs 1)

emit_run :
    (emit live (subscribe one turn_start (logs 2)) started [] ≡ (7 ∷ 1 ∷ 7 ∷ 2 ∷ [], none))
    × (emit live (unsubscribe turn_start 0 (subscribe one turn_start (logs 2))) started []
        ≡ (7 ∷ 2 ∷ [], none))
    × (emit live (subscribe one turn_end fails) started [] ≡ (7 ∷ 1 ∷ [], none))
    × (emit live (subscribe (subscribe one turn_start fails) turn_start (logs 2)) started []
        ≡ (7 ∷ 1 ∷ 0 ∷ [], some (handling (codes "full"))))
    × (emit live (subscribe one turn_start other_type) started []
        ≡ (7 ∷ 1 ∷ [], some (type_mismatch turn_start)))
unfolding emit deliver_all deliver and_then listed or_empty subscribe unsubscribe mark mark_at
    lookup insert eqb
emit_run = (refl, refl, refl, refl, refl)

emit-unsubscribe_example :
    emit live (unsubscribe turn_start one.next (subscribe one turn_start fails)) started []
    ≡ emit live one started []
emit-unsubscribe_example =
    emit-unsubscribe live one turn_start fails (subscribed turn_start (logs 1) made) started []
