-- ===== src/Flows/Heartbeat.antt =====
-- genkit-cowork/flows/heartbeat.go and heartbeat_result.go: the reply of a heartbeat, and the ticks of a
-- heartbeat, of which at most one runs the flow at a time.
pub mod Single
pub mod Reply
use genkit_cowork.Base.{
  ℕ, zero, suc, ◌+◌, ◌-◌, Bool, true, false, not, ◌&&◌, ◌||◌, Option, none, some, List, [], ◌∷◌,
  ◌++◌, length, take, drop, reverse, leb, ltb, ◌==◌, if◌then◌else◌,
}
use genkit_cowork.Base.Int.{ℤ, pos, ltb_ℤ, leb_ℤ}
use genkit_cowork.Base.Bytes.{Bytes, codes, eqb, has_prefix}
use genkit_cowork.Base.Result.{Result, ok, err}
use genkit_cowork.Memory.Types.{Part, Message}
use genkit_cowork.Tools.Trim.{trim_space}

pub data HeartbeatResultKind : Type 0 where
  ack alert skipped error : HeartbeatResultKind

pub data SkipReason : Type 0 where
  unset busy outside_hours errors : SkipReason

abbrev pub heartbeat_ok_token : Bytes
heartbeat_ok_token = codes "HEARTBEAT_OK"

unfoldable pub has_suffix : Bytes → Bytes → Bool
has_suffix s p = has_prefix (reverse s) (reverse p)

-- What stays of a trimmed reply without the token: behind it, or else before it.
unfoldable pub remaining : Bytes → Bytes
remaining trimmed =
    if has_prefix trimmed heartbeat_ok_token
    then trim_space (drop (length heartbeat_ok_token) trimmed)
    else trim_space (take (length trimmed - length heartbeat_ok_token) trimmed)

unfoldable pub parse_heartbeat_response : Bytes → ℤ → HeartbeatResultKind × Bytes
parse_heartbeat_response raw ack_max_chars =
    let trimmed = trim_space raw in
    if not (has_prefix trimmed heartbeat_ok_token) && not (has_suffix trimmed heartbeat_ok_token)
    then (alert, trimmed)
    else if leb_ℤ (pos (length (remaining trimmed))) ack_max_chars
    then (ack, remaining trimmed)
    else (alert, remaining trimmed)

pub record HeartbeatDelivery : Type 0 where
  pub show_ok : Bool
  pub show_alerts : Bool
  pub use_indicator : Bool

abbrev pub default_heartbeat_delivery : HeartbeatDelivery
default_heartbeat_delivery = record { show_ok = false; show_alerts = true; use_indicator = true }

unfoldable pub resolved_ack_max_chars : ℤ → ℤ
resolved_ack_max_chars n = if ltb_ℤ (pos 0) n then n else pos 300

unfoldable pub should_deliver : HeartbeatResultKind → HeartbeatDelivery → Bool
should_deliver ack delivery = delivery.show_ok
should_deliver alert delivery = delivery.show_alerts
should_deliver _ delivery = false

pub record HeartbeatOutput : Type 0 where
  pub kind : HeartbeatResultKind
  pub session_id : Bytes
  pub run_at : ℕ
  pub response : Option Message
  pub raw_content : Bytes
  pub delivery_content : Bytes
  pub should_deliver : Bool
  pub skip_reason : SkipReason
  pub err_message : Bytes
  pub turns : ℕ

unfoldable pub evaluate_heartbeat_result :
    Bytes → ℕ → Bytes → ℕ → ℤ → HeartbeatDelivery → Option Message → HeartbeatOutput
evaluate_heartbeat_result session run_at raw turns ack_max_chars delivery response =
    let (kind, stripped) = parse_heartbeat_response raw (resolved_ack_max_chars ack_max_chars) in
    record {
      kind = kind;
      session_id = session;
      run_at = run_at;
      response = response;
      raw_content = raw;
      delivery_content = stripped;
      should_deliver = should_deliver kind delivery;
      skip_reason = unset;
      err_message = [];
      turns = turns;
    }

abbrev pub skipped_result : Bytes → SkipReason → ℕ → HeartbeatOutput
skipped_result session reason now = record {
  kind = skipped;
  session_id = session;
  run_at = now;
  response = none;
  raw_content = [];
  delivery_content = [];
  should_deliver = false;
  skip_reason = reason;
  err_message = [];
  turns = 0;
}

abbrev pub error_result : Bytes → ℕ → Bytes → HeartbeatOutput
error_result session run_at message = record {
  kind = error;
  session_id = session;
  run_at = run_at;
  response = none;
  raw_content = [];
  delivery_content = [];
  should_deliver = false;
  skip_reason = unset;
  err_message = message;
  turns = 0;
}

-- `sessionID()`
unfoldable pub session_id_or_default : Bytes → Bytes
session_id_or_default id = if eqb id [] then codes "heartbeat" else id

unfoldable pub extract_text : Option Message → Bytes
extract_text none = []
extract_text (some m) = texts m.content
  where
    texts : List Part → Bytes
    texts [] = []
    texts (p ∷ ps) = (if p.is_text then p.text else []) ++ texts ps

-- What the goroutines that call `Run` share: the flag, the calls that are inside of `tryRun`, and the
-- results handed to `onResult`.
pub record Ticks : Type 0 where
  pub running : Bool
  pub inside : ℕ
  pub results : List HeartbeatOutput

-- what a call of `Run` has done when it returns, or when it enters `tryRun`
pub data Entered : Type 0 where
  returned entered : Entered

-- `Run` up to `tryRun`: `in_hours` is the answer of `ActiveHours.Contains`, `now` the time that a
-- skipped result reads.
unfoldable pub begin_run : Bytes → Bool → ℕ → Ticks → Entered × Ticks
begin_run session in_hours now s =
    if not in_hours
    then (
      returned,
      record s { results = s.results ++ skipped_result session outside_hours now ∷ [] },
    )
    else if s.running
    then (returned, record s { results = s.results ++ skipped_result session busy now ∷ [] })
    else (entered, record s { running = true; inside = suc s.inside })

outcome : Bytes → ℕ → Result Bytes HeartbeatOutput → HeartbeatOutput
outcome session tick (ok result) = result
outcome session tick (err e) = error_result session tick e

-- `Run` from the return of `tryRun` on, the deferred reset of the flag included
unfoldable pub end_run : Bytes → ℕ → Result Bytes HeartbeatOutput → Ticks → Ticks
unfolding outcome
end_run session tick r s = record {
  running = false;
  inside = s.inside - 1;
  results = s.results ++ outcome session tick r ∷ [];
}
