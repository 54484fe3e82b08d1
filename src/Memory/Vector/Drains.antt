-- ===== src/Memory/Vector/Drains.antt =====
-- The queue of the vector index comes to an end.
use genkit_cowork.Base.{ℕ, zero, suc, ◌+◌, ◌*◌, Bool, List, [], ◌∷◌, length}
use genkit_cowork.Base.Bytes.{Bytes}
use genkit_cowork.Memory.Vector.{
  VectorIndexJob, VectorBackend, Worker, idle, indexing, index_failed, index_done, recorded,
  VectorState, queue_first, take_first, index_at, record_at, finish_at,
}

-- the steps that are left to a worker
abbrev pub phase : Worker → ℕ
phase idle = 0
phase (indexing j) = 3
phase (index_done j) = 2
phase (index_failed j) = 1
phase (recorded j) = 1

module _ {S B : Type 0} (back : VectorBackend B) (root : Bytes) (read_ok write_ok : Bool) where
  abbrev pub work : VectorState S B → ℕ
  work v = 5 * length v.offers + 4 * length v.jobs + phase v.worker

  -- the next step, of the saves that wait for the queue first
  unfoldable pub worker_tick : Worker → VectorState S B → VectorState S B
  worker_tick idle v = take_first v.jobs idle v
  worker_tick (indexing j) v = index_at back (indexing j) v
  worker_tick (index_done j) v = record_at root read_ok write_ok (index_done j) v
  worker_tick (index_failed j) v = finish_at (index_failed j) v
  worker_tick (recorded j) v = finish_at (recorded j) v

  unfoldable pub tick_at : List VectorIndexJob → VectorState S B → VectorState S B
  tick_at [] v = worker_tick v.worker v
  tick_at (j ∷ js) v = queue_first (j ∷ js) v

  unfoldable pub drain : ℕ → VectorState S B → VectorState S B
  drain zero v = v
  drain (suc steps) v = drain steps (tick_at v.offers v)
