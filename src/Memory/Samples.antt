-- ===== src/Memory/Samples.antt =====
-- Sample sessions for the tests of the memory package.
use genkit_cowork.Base.{none, List, [], ◌∷◌}
use genkit_cowork.Base.Int.{ℤ, pos}
use genkit_cowork.Base.Bytes.{Bytes, codes}
use genkit_cowork.Memory.Types.{
  user, Message, ui, episodic, SessionMessage, TurnRecord, StateSnapshot, SessionState,
}
use genkit_cowork.Memory.Store.{Store}

abbrev pub hello : Message
hello = record { role = user; content = []; metadata = none }

abbrev pub message : Bytes → ℤ → SessionMessage
message id seq = record {
  message_id = id;
  sequence = seq;
  origin = ui;
  kind = episodic;
  content = hello;
  timestamp = 7;
}

abbrev pub turn : Bytes → ℤ → ℤ → ℤ → ℤ → TurnRecord
turn id seq first last count = record {
  turn_id = id;
  sequence = seq;
  flow_name = [];
  loop_turns = pos 1;
  finish_reason = [];
  started_at = 7;
  ended_at = 8;
  first_message_sequence = first;
  last_message_sequence = last;
  message_count = count;
  events = [];
}

abbrev pub snapshot : Bytes → ℤ → StateSnapshot
snapshot id seq = record {
  snapshot_id = id;
  sequence = seq;
  captured_at = 9;
  tenant_id = codes "t";
  session_id = codes "s";
  message_count = pos 1;
  turn_sequence = pos 1;
  state_version = pos 1;
  state_checksum = [];
}

abbrev pub state : List SessionMessage → List TurnRecord → List StateSnapshot → SessionState
state ms ts ss = record {
  tenant_id = codes "t";
  messages = ms;
  turns = ts;
  snapshots = ss;
  assets = [];
  last_consolidate_at = 0;
}

abbrev pub m1 : SessionMessage
m1 = message (codes "m1") (pos 1)

abbrev pub m2 : SessionMessage
m2 = message (codes "m2") (pos 2)

abbrev pub m3 : SessionMessage
m3 = message (codes "m3") (pos 3)

abbrev pub before : SessionState
before = state (m1 ∷ []) (turn (codes "t1") (pos 1) (pos 1) (pos 1) (pos 1) ∷ []) []

abbrev pub after : SessionState
after =
    state (m1 ∷ m2 ∷ [])
      (turn (codes "t1") (pos 1) (pos 1) (pos 1) (pos 1)
        ∷ turn (codes "t2") (pos 2) (pos 2) (pos 2) (pos 1)
        ∷ [])
      (snapshot (codes "s1") (pos 1) ∷ [])

abbrev pub later : SessionState
later =
    state (m1 ∷ m2 ∷ m3 ∷ [])
      (turn (codes "t1") (pos 1) (pos 1) (pos 1) (pos 1)
        ∷ turn (codes "t2") (pos 2) (pos 2) (pos 2) (pos 1)
        ∷ [])
      (snapshot (codes "s1") (pos 1) ∷ [])

abbrev pub t : Bytes
t = codes "t"

abbrev pub s : Bytes
s = codes "s"

-- one stored session
abbrev pub one : Store
one = (t, (s, before) ∷ []) ∷ []
