-- ===== src/Flows/Heartbeat/Single.antt =====
-- At most one call of `Run` is inside of the flow, and every call ends in one result.
use genkit_cowork.Base.{ℕ, suc, ◌+◌, ◌≤◌, Bool, false, [], ◌≡◌, length, if◌then◌else◌}
use genkit_cowork.Base.Bytes.{Bytes}
use genkit_cowork.Base.Result.{Result}
use genkit_cowork.Flows.Heartbeat.{HeartbeatOutput, Ticks, begin_run, end_run}

-- Steps of the calls, in any order that goroutines can take: a call begins, or a call that is inside
-- ends. The number counts the calls that have begun.
pub data Steps (session : Bytes) : Ticks → ℕ → Type 0 where
  start : Steps session (record { running = false; inside = 0; results = [] }) 0
  begin :
      {s : Ticks} {n : ℕ} (in_hours : Bool) (now : ℕ)
      → Steps session s n
      → Steps session (begin_run session in_hours now s).1 (suc n)
  end :
      {s : Ticks} {n : ℕ} (tick : ℕ) (r : Result Bytes HeartbeatOutput)
      → 1 ≤ s.inside
      → Steps session s n
      → Steps session (end_run session tick r s) n

pub record Single (s : Ticks) (n : ℕ) : Type 0 where
  pub one : s.inside ≡ (if s.running then 1 else 0)
  pub each_once : length s.results + s.inside ≡ n
