-- ===== src/Flows/HeartbeatTests.antt =====
-- Runs of the heartbeat at concrete inputs, and its theorems applied there.
use genkit_cowork.Base.{true, false, [], ◌∷◌, ◌≡◌, refl}
use genkit_cowork.Base.Int.{pos}
use genkit_cowork.Base.Bytes.{Bytes, codes, has_prefix}
use genkit_cowork.Tools.Runes.{first_rune, is_space}
use genkit_cowork.Tools.Trim.{trim_left_after, blank_after, trim_right_after, trim_space}
use genkit_cowork.Flows.Heartbeat.{
  ack, alert, busy, skipped_result, has_suffix, remaining, parse_heartbeat_response, Ticks,
  begin_run,
}
use genkit_cowork.Flows.Heartbeat.Single.{Single}

reply_run :
    (parse_heartbeat_response (codes " HEARTBEAT_OK all well\n") (pos 300)
      ≡ (ack, codes "all well"))
    × (parse_heartbeat_response (codes "disk full") (pos 300) ≡ (alert, codes "disk full"))
    × (parse_heartbeat_response (codes "too long HEARTBEAT_OK") (pos 3) ≡ (alert, codes "too long"))
unfolding parse_heartbeat_response remaining trim_space trim_left_after trim_right_after blank_after
    has_suffix has_prefix first_rune is_space
reply_run = (refl, refl, refl)

abbrev reply : Bytes
reply = codes "HEARTBEAT_OK"

abbrev session : Bytes
session = codes "heartbeat"

abbrev idle : Ticks
idle = record { running = false; inside = 0; results = [] }

-- a second call while the first one is inside
abbrev second : Ticks
second = (begin_run session true 2 (begin_run session true 1 idle).1).1

second_is_busy :
    second ≡ record { running = true; inside = 1; results = skipped_result session busy 2 ∷ [] }
unfolding begin_run
second_is_busy = refl
