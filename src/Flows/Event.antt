-- ===== src/Flows/Event.antt =====
-- The event bus of genkit-cowork/flows/event.go.
pub mod Delivery
use genkit_cowork.Base.{
  ℕ, ◌+◌, ◌==◌, Bool, true, false, List, [], ◌∷◌, ◌++◌, Option, none, some, if◌then◌else◌,
}
use genkit_cowork.Base.Bytes.{Bytes, codes, eqb}
use genkit_cowork.Base.Dict.{Dict, lookup, insert}

-- An `EventType` is a string; the code names these.
abbrev pub agent_start : Bytes
agent_start = codes "agent-start"

abbrev pub agent_end : Bytes
agent_end = codes "agent-end"

abbrev pub turn_start : Bytes
turn_start = codes "turn-start"

abbrev pub turn_end : Bytes
turn_end = codes "turn-end"

abbrev pub message_start : Bytes
message_start = codes "message-start"

abbrev pub message_update : Bytes
message_update = codes "message-update"

abbrev pub message_end : Bytes
message_end = codes "message-end"

abbrev pub tool_execution_start : Bytes
tool_execution_start = codes "tool-execution-start"

abbrev pub tool_execution_update : Bytes
tool_execution_update = codes "tool-execution-update"

abbrev pub tool_execution_end : Bytes
tool_execution_end = codes "tool-execution-end"

-- `Event[T]`: `payload_type` is the T, by which Go tells the handlers apart.
pub record Event (D : Type 0) : Type 0 where
  pub event_type : Bytes
  pub payload_type : Bytes
  pub timestamp : ℕ
  pub payload : D

-- `EventHandler[T]`: what it does to the state of the program, and its error.
pub record EventHandler (D E S : Type 0) : Type 0 where
  pub payload_type : Bytes
  pub handle : Event D → S → S × Option E

-- A `*subscriber`, with its address, and the flag of its unsubscribe function.
pub record Subscriber (D E S : Type 0) : Type 0 where
  pub address : ℕ
  pub handler : EventHandler D E S
  pub removed : Bool
  pub unsubscribed : Bool

pub record EventBus (D E S : Type 0) : Type 0 where
  pub next : ℕ
  pub subscribers : Dict (List (Subscriber D E S))

pub data EmitError (E : Type 0) : Type 0 where
  context : E → EmitError E
  type_mismatch : Bytes → EmitError E
  handling : E → EmitError E

module _ {D E S : Type 0} where
  abbrev pub new_event_bus : EventBus D E S
  new_event_bus = record { next = 0; subscribers = [] }

  -- no slice is an empty one
  unfoldable pub or_empty : Option (List (Subscriber D E S)) → List (Subscriber D E S)
  or_empty none = []
  or_empty (some subs) = subs

  unfoldable pub listed : Bytes → Dict (List (Subscriber D E S)) → List (Subscriber D E S)
  listed t d = or_empty (lookup t d)

  -- `&subscriber{handler: handler}`
  abbrev pub new_subscriber : EventBus D E S → EventHandler D E S → Subscriber D E S
  new_subscriber bus h = record {
    address = bus.next;
    handler = h;
    removed = false;
    unsubscribed = false;
  }

  unfoldable pub subscribe : EventBus D E S → Bytes → EventHandler D E S → EventBus D E S
  subscribe bus t h = record {
    next = bus.next + 1;
    subscribers = insert t (listed t bus.subscribers ++ new_subscriber bus h ∷ []) bus.subscribers;
  }

  unfoldable pub mark : Subscriber D E S → Subscriber D E S
  mark s = if s.unsubscribed then s else record s { unsubscribed = true; removed = true }

  unfoldable pub mark_at : ℕ → List (Subscriber D E S) → List (Subscriber D E S)
  mark_at a [] = []
  mark_at a (s ∷ subs) =
      let rest = mark_at a subs in if s.address == a then mark s ∷ rest else s ∷ rest

  -- The function that `Subscribe` returned for the subscriber at `a`, of events of type `t`.
  unfoldable pub unsubscribe : Bytes → ℕ → EventBus D E S → EventBus D E S
  unsubscribe t a bus = record bus {
    subscribers = insert t (mark_at a (listed t bus.subscribers)) bus.subscribers;
  }

-- a loop that goes on unless a round ended it
module _ {E S : Type 0} where
  unfoldable pub and_then :
      S × Option (EmitError E) → (S → S × Option (EmitError E)) → S × Option (EmitError E)
  and_then (s, some e) next = (s, some e)
  and_then (s, none) next = next s

module _ {D E S : Type 0} (ctx_err : S → Option E) where
  -- One round of the loop: the state, and the error with which the loop ends.
  unfoldable pub deliver : Event D → Subscriber D E S → S → S × Option (EmitError E)
  deliver event sub s = if sub.removed then (s, none) else elim (ctx_err s) [
    | some e ↦ (s, some (context e))
    | none ↦
        if eqb sub.handler.payload_type event.payload_type
        then (let (after, failure) = sub.handler.handle event s in
            elim failure [ none ↦ (after, none) | some e ↦ (after, some (handling e)) ])
        else (s, some (type_mismatch event.event_type))
  ]

  unfoldable pub deliver_all : Event D → List (Subscriber D E S) → S → S × Option (EmitError E)
  deliver_all event [] s = (s, none)
  deliver_all event (sub ∷ subs) s = and_then (deliver event sub s) (deliver_all event subs)

  unfoldable pub emit : EventBus D E S → Event D → S → S × Option (EmitError E)
  emit bus event s = deliver_all event (listed event.event_type bus.subscribers) s

  unfoldable pub emit_event :
      EventBus D E S → Bytes → Bytes → ℕ → D → S → S × Event D × Option (EmitError E)
  emit_event bus t payload_type now x s =
      let event : Event D = record {
        event_type = t;
        payload_type = payload_type;
        timestamp = now;
        payload = x;
      } in
      let (after, failure) = emit bus event s in (after, event, failure)
