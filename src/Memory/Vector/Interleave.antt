-- ===== src/Memory/Vector/Interleave.antt =====
-- Runs of saves, of the queue and of the worker, in any order.
use genkit_cowork.Base.{◌≤◌, Bool, true, false, List, [], ◌∷◌, ◌++◌, map, ◌≡◌, if◌then◌else◌}
use genkit_cowork.Base.Bytes.{Bytes}
use genkit_cowork.Base.Dict.{Dict}
use genkit_cowork.Base.Result.{Result}
use genkit_cowork.Os.Path.Distinct.{IsSegment}
use genkit_cowork.Memory.Types.{SessionMessage, SessionState}
use genkit_cowork.Memory.Store.RoundTrip.{same_key}
use genkit_cowork.Memory.Session.{Operator}
use genkit_cowork.Memory.Vector.{
  VectorIndexJob, VectorBackend, Worker, idle, indexing, VectorState, save_state, queue_offer,
  take_job, index_job, record_job, finish_job, delete_session,
}
use genkit_cowork.Memory.Vector.Ids.{count}
use genkit_cowork.Memory.Vector.Once.{Once}

-- what the index has taken in after a call: `log` lists the jobs that came into it
unfoldable pub index_log :
    {B : Type 0} → VectorBackend B → Worker → B → List VectorIndexJob → List VectorIndexJob
index_log back (indexing j) b log =
    if (back.index j.tenant_id j.session_id j.docs b).0 then log ++ j ∷ [] else log
index_log back _ b log = log

-- A state of ids, no two of the same.
abbrev pub NoDuplicates : SessionState → Type 0
NoDuplicates state =
    (y : Bytes) → count y (map (λ (m : SessionMessage). m.message_id) state.messages) ≤ 1

module _ {S B : Type 0} (op : Operator S) (back : VectorBackend B) (root : Bytes)
    (t n : Bytes) where
  -- One step of the operator, with what it adds to the log. Saves may fail or be cancelled, and the
  -- index may refuse a job. Deletes are of other sessions than `t`, `n`; the ids files can be read
  -- and written.
  pub data Step (v : VectorState S B) (log : List VectorIndexJob)
      : VectorState S B → List VectorIndexJob → Type 0 where
    save :
        (cancelled read_ok : Bool) (t' n' : Bytes) (state : SessionState)
        → IsSegment t'
        → IsSegment n'
        → NoDuplicates state
        → Step v log (save_state op root cancelled read_ok t' n' state v).1 log
    queue : Step v log (queue_offer v) log
    take : Step v log (take_job v) log
    index : Step v log (index_job back v) (index_log back v.worker v.backend log)
    record_ids : Step v log (record_job root true true v) log
    finish : Step v log (finish_job v) log
    delete :
        (cancelled remove_ok : Bool) (t' n' : Bytes)
        → IsSegment t'
        → IsSegment n'
        → same_key t' n' t n ≡ false
        → Step v log (delete_session op back root cancelled remove_ok t' n' v).1 log

  pub data Reach (v : VectorState S B) : VectorState S B → List VectorIndexJob → Type 0 where
    here : Reach v v []
    next :
        {u w : VectorState S B} {log more : List VectorIndexJob}
        → Reach v u log
        → Step u log w more
        → Reach v w more

-- nothing under way
pub record IsQuiet {S B : Type 0} (v : VectorState S B) : Type 0 where
  pub no_offers : v.offers ≡ []
  pub no_jobs : v.jobs ≡ []
  pub no_work : v.worker ≡ idle
