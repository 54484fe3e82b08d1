-- ===== src/Memory/Vector/Once.antt =====
-- No message comes into the vector index twice, however saves, the queue and the worker interleave.
use genkit_cowork.Base.{
  ℕ, ◌+◌, ◌≤◌, Bool, true, false, ◌||◌, List, [], ◌∷◌, ◌++◌, ◌≡◌, ◌⊎◌, inl, inr, refl, ap, ◌∙◌,
  arith, All, All-append, Bool-cases, if◌then◌else◌, length, ltb,
}
use genkit_cowork.Base.Bytes.{Bytes, codes, eqb, eqb_iff}
use genkit_cowork.Base.Dict.{Dict, insert, contains}
use genkit_cowork.Os.Path.Distinct.{IsSegment, eqb-join, eqb-with_slash}
use genkit_cowork.Memory.Store.RoundTrip.{same_key}
use genkit_cowork.Memory.Vector.{
  VectorIndexJob, message_ids, Worker, idle, indexing, index_failed, index_done, recorded,
  VectorState, ids_in, pending_session_key, indexed_ids_path, clear_pending, queue_first,
  take_first, record_at, finish_at, default_vector_index_queue_size,
}
use genkit_cowork.Memory.Vector.Ids.{
  count, count-contains, contains-count, contains-append, contains-insert, contains-clear_ids,
}

-- a session whose two ids are segments of a path
abbrev pub IsJob : VectorIndexJob → Type 0
IsJob j = IsSegment j.tenant_id × IsSegment j.session_id

abbrev pub HasJob : Worker → Type 0
HasJob idle = Unit
HasJob (indexing j) = IsJob j
HasJob (index_failed j) = IsJob j
HasJob (index_done j) = IsJob j
HasJob (recorded j) = IsJob j

pub or_left : {a : Bool} (b : Bool) → a ≡ true → (a || b) ≡ true
or_left b h = rw h refl

pub or_right : {b : Bool} (a : Bool) → b ≡ true → (a || b) ≡ true
or_right true h = refl
or_right false h = h

pub has_count : (x : Bytes) (ids : List Bytes) → 1 ≤ count x ids → contains x ids ≡ true
has_count x ids h = ground (arith, count-contains x ids)

module _ (c : ℕ) (root t n x : Bytes) (ht : IsSegment t) (hn : IsSegment n) where
  -- how often the message is in a job for the session
  unfoldable pub in_job : VectorIndexJob → ℕ
  in_job j = if same_key j.tenant_id j.session_id t n then count x (message_ids j) else 0

  unfoldable pub in_jobs : List VectorIndexJob → ℕ
  in_jobs [] = 0
  in_jobs (j ∷ js) = in_job j + in_jobs js

  pub in_jobs-append : (js ks : List VectorIndexJob) → in_jobs (js ++ ks) ≡ in_jobs js + in_jobs ks
  unfolding in_jobs
  in_jobs-append [] ks = omega arith
  in_jobs-append (j ∷ js) ks = omega (arith, in_jobs-append js ks)

  -- the message in the worker's job, while it is not indexed, and between that and its end
  abbrev pub at_worker : Worker → ℕ
  at_worker (indexing j) = in_job j
  at_worker (index_failed j) = in_job j
  at_worker _ = 0

  abbrev pub unrecorded : Worker → ℕ
  unrecorded (index_done j) = in_job j
  unrecorded _ = 0

  abbrev pub unfinished : Worker → ℕ
  unfinished (recorded j) = in_job j
  unfinished _ = 0

  -- `log` lists the jobs that came into the index.
  pub record OnceAt (offers jobs : List VectorIndexJob) (w : Worker)
      (pending indexed : Dict (List Bytes)) (log : List VectorIndexJob) : Type 0 where
    pub once : in_jobs log + (in_jobs offers + in_jobs jobs + at_worker w) ≤ 1
    pub marked :
        1 ≤ in_jobs offers + in_jobs jobs + at_worker w + unrecorded w + unfinished w
        → contains x (ids_in (pending_session_key t n) pending) ≡ true
    pub kept :
        1 ≤ in_jobs log
        → (contains x (ids_in (indexed_ids_path (c ∷ root) t n) indexed) ≡ true)
          ⊎ (1 ≤ unrecorded w)
    pub logged : unrecorded w + unfinished w ≤ in_jobs log
    pub finished :
        1 ≤ unfinished w → contains x (ids_in (indexed_ids_path (c ∷ root) t n) indexed) ≡ true
    pub offers_sound : All IsJob offers
    pub jobs_sound : All IsJob jobs
    pub worker_sound : HasJob w

  abbrev pub Once : {S B : Type 0} → VectorState S B → List VectorIndexJob → Type 0
  Once v log = OnceAt v.offers v.jobs v.worker v.pending v.indexed log

  pub eqb-key :
      (j : VectorIndexJob)
      → IsJob j
      → eqb (pending_session_key j.tenant_id j.session_id) (pending_session_key t n)
        ≡ same_key j.tenant_id j.session_id t n
  eqb-key j (ht', hn') = eqb-with_slash j.tenant_id j.session_id t n hn'.no_slash hn.no_slash

  indexed_ids_json : IsSegment (codes "indexed_ids.json")
  unfolding eqb
  indexed_ids_json = record {
    filled = refl;
    no_slash = (
      refl,
      (
        refl,
        (
          refl,
          (
            refl,
            (
              refl,
              (
                refl,
                (refl, (refl, (refl, (refl, (refl, (refl, (refl, (refl, (refl, (refl, tt)))))))))),
              ),
            ),
          ),
        ),
      ),
    );
    not_dot = refl;
    not_dot_dot = refl;
  }

  pub eqb-path :
      (j : VectorIndexJob)
      → IsJob j
      → eqb (indexed_ids_path (c ∷ root) j.tenant_id j.session_id) (indexed_ids_path (c ∷ root) t n)
        ≡ same_key j.tenant_id j.session_id t n
  unfolding indexed_ids_path
  eqb-path j (ht', hn') =
      eqb-join c root (codes "indexed_ids.json") j.tenant_id j.session_id t n indexed_ids_json
        (hn', (ht', tt)) (hn, (ht, tt))

  -- A job that has not the message leaves its mark alone.
  clear_pending-absent :
      (j : VectorIndexJob) (pending : Dict (List Bytes))
      → IsJob j
      → in_job j ≡ 0
      → contains x (ids_in (pending_session_key t n) (clear_pending j pending))
        ≡ contains x (ids_in (pending_session_key t n) pending)
  unfolding clear_pending in_job
  clear_pending-absent j pending hj none =
      contains-clear_ids x (pending_session_key t n) (pending_session_key j.tenant_id j.session_id)
        (message_ids j) pending
      ∙ rw (eqb-key j hj) (elim (Bool-cases (same_key j.tenant_id j.session_id t n)) [
        | inl ours ↦
            let absent : count x (message_ids j) ≡ 0 = rw ours at none in
            rw ours (ground (arith, contains-count x (message_ids j)))
        | inr other ↦ rw other refl
      ])

  -- Recording a job that has the message marks the message as indexed.
  insert-indexed :
      (j : VectorIndexJob) (indexed : Dict (List Bytes))
      → IsJob j
      → let path = indexed_ids_path (c ∷ root) j.tenant_id j.session_id in
        (1 ≤ in_job j) ⊎ (contains x (ids_in (indexed_ids_path (c ∷ root) t n) indexed) ≡ true)
        → contains x (
            ids_in
              (indexed_ids_path (c ∷ root) t n)
              (insert path (message_ids j ++ ids_in path indexed) indexed))
          ≡ true
  unfolding in_job
  insert-indexed j indexed hj h =
      let path = indexed_ids_path (c ∷ root) j.tenant_id j.session_id in
      let ids = message_ids j in
      contains-insert x (indexed_ids_path (c ∷ root) t n) path (ids ++ ids_in path indexed) indexed
      ∙ rw (eqb-path j hj) (elim (Bool-cases (same_key j.tenant_id j.session_id t n)) [
        | inr other ↦
            rw other
              (elim h [ inl here ↦ absurd (omega (arith, rw other at here)) | inr there ↦ there ])
        | inl ours ↦
            let one = (eqb_iff path (indexed_ids_path (c ∷ root) t n)).0 (eqb-path j hj ∙ ours) in
            rw (ours, contains-append)
              (elim h [
                | inl here ↦ or_left _ (has_count x ids (rw ours at here))
                | inr there ↦ or_right _ (ap (λ q. contains x (ids_in q indexed)) one ∙ there)
              ])
      ])

  take-OnceAt :
      (j : VectorIndexJob) (offers js : List VectorIndexJob) (p i : Dict (List Bytes))
      (log : List VectorIndexJob)
      → OnceAt offers (j ∷ js) idle p i log
      → OnceAt offers js (indexing j) p i log
  unfolding in_jobs
  take-OnceAt j offers js p i log inv = record {
    once = omega (arith, inv.once);
    marked = λ h. inv.marked (omega arith);
    kept = λ h. inv.kept h;
    logged = omega arith;
    finished = λ h. absurd (omega arith);
    offers_sound = inv.offers_sound;
    jobs_sound = inv.jobs_sound.1;
    worker_sound = inv.jobs_sound.0;
  }

  pub indexed-OnceAt :
      (j : VectorIndexJob) (offers js : List VectorIndexJob) (p i : Dict (List Bytes))
      (log : List VectorIndexJob)
      → OnceAt offers js (indexing j) p i log
      → OnceAt offers js (index_done j) p i (log ++ j ∷ [])
  unfolding in_jobs
  indexed-OnceAt j offers js p i log inv = record {
    once = omega (arith, inv.once, in_jobs-append log (j ∷ []));
    marked = λ h. inv.marked (omega arith);
    kept = λ h. ground (arith, inv.kept, in_jobs-append log (j ∷ []));
    logged = omega (arith, in_jobs-append log (j ∷ []));
    finished = λ h. absurd (omega arith);
    offers_sound = inv.offers_sound;
    jobs_sound = inv.jobs_sound;
    worker_sound = inv.worker_sound;
  }

  pub failed-OnceAt :
      (j : VectorIndexJob) (offers js : List VectorIndexJob) (p i : Dict (List Bytes))
      (log : List VectorIndexJob)
      → OnceAt offers js (indexing j) p i log
      → OnceAt offers js (index_failed j) p i log
  failed-OnceAt j offers js p i log inv = record {
    once = inv.once;
    marked = inv.marked;
    kept = inv.kept;
    logged = inv.logged;
    finished = λ h. absurd (omega arith);
    offers_sound = inv.offers_sound;
    jobs_sound = inv.jobs_sound;
    worker_sound = inv.worker_sound;
  }

  recorded-OnceAt :
      (j : VectorIndexJob) (offers js : List VectorIndexJob) (p i : Dict (List Bytes))
      (log : List VectorIndexJob)
      → OnceAt offers js (index_done j) p i log
      → let path = indexed_ids_path (c ∷ root) j.tenant_id j.session_id in
        OnceAt offers js (recorded j) p (insert path (message_ids j ++ ids_in path i) i) log
  recorded-OnceAt j offers js p i log inv = record {
    once = inv.once;
    marked = λ h. inv.marked (omega arith);
    kept = λ h. inl (insert-indexed j i inv.worker_sound (either (inv.kept h)));
    logged = omega (arith, inv.logged);
    finished = λ h. insert-indexed j i inv.worker_sound (inl h);
    offers_sound = inv.offers_sound;
    jobs_sound = inv.jobs_sound;
    worker_sound = inv.worker_sound;
  }
    where
      either : {P Q : Type 0} → P ⊎ Q → Q ⊎ P
      either (inl p) = inr p
      either (inr q) = inl q

  -- The end of a job that failed or was recorded.
  cleared-OnceAt :
      (j : VectorIndexJob) (offers js : List VectorIndexJob) (w : Worker) (p i : Dict (List Bytes))
      (log : List VectorIndexJob)
      → IsJob j
      → unrecorded w ≡ 0
      → (1 ≤ in_jobs offers + in_jobs js → in_job j ≡ 0)
      → OnceAt offers js w p i log
      → OnceAt offers js idle (clear_pending j p) i log
  cleared-OnceAt j offers js w p i log hj nothing_new none inv = record {
    once = omega (arith, inv.once);
    marked = λ h. clear_pending-absent j p hj (none (omega arith)) ∙ inv.marked (omega arith);
    kept = λ h. ground (arith, inv.kept);
    logged = omega arith;
    finished = λ h. absurd (omega arith);
    offers_sound = inv.offers_sound;
    jobs_sound = inv.jobs_sound;
    worker_sound = tt;
  }

  queued-OnceAt :
      (j : VectorIndexJob) (offers js : List VectorIndexJob) (w : Worker) (p i : Dict (List Bytes))
      (log : List VectorIndexJob)
      → OnceAt (j ∷ offers) js w p i log
      → OnceAt offers (js ++ j ∷ []) w p i log
  unfolding in_jobs
  queued-OnceAt j offers js w p i log inv = record {
    once = omega (arith, inv.once, in_jobs-append js (j ∷ []));
    marked = λ h. inv.marked (omega (arith, in_jobs-append js (j ∷ [])));
    kept = inv.kept;
    logged = inv.logged;
    finished = inv.finished;
    offers_sound = inv.offers_sound.1;
    jobs_sound = All-append IsJob js (j ∷ []) inv.jobs_sound (inv.offers_sound.0, tt);
    worker_sound = inv.worker_sound;
  }

  dropped-OnceAt :
      (j : VectorIndexJob) (offers js : List VectorIndexJob) (w : Worker) (p i : Dict (List Bytes))
      (log : List VectorIndexJob)
      → OnceAt (j ∷ offers) js w p i log
      → OnceAt offers js w (clear_pending j p) i log
  unfolding in_jobs
  dropped-OnceAt j offers js w p i log inv = record {
    once = omega (arith, inv.once);
    marked = λ h.
        clear_pending-absent j p inv.offers_sound.0 (omega (arith, inv.once, inv.logged))
        ∙ inv.marked (omega arith);
    kept = inv.kept;
    logged = inv.logged;
    finished = inv.finished;
    offers_sound = inv.offers_sound.1;
    jobs_sound = inv.jobs_sound;
    worker_sound = inv.worker_sound;
  }

  module _ {S B : Type 0} (v : VectorState S B) (log : List VectorIndexJob) (inv : Once v log) where
    pub take-Once :
        (js : List VectorIndexJob) (w : Worker)
        → OnceAt v.offers js w v.pending v.indexed log
        → Once (take_first js w v) log
    unfolding take_first
    take-Once (j ∷ js) idle at = take-OnceAt j v.offers js v.pending v.indexed log at
    take-Once (j ∷ js) (indexing k) at = inv
    take-Once (j ∷ js) (index_failed k) at = inv
    take-Once (j ∷ js) (index_done k) at = inv
    take-Once (j ∷ js) (recorded k) at = inv
    take-Once [] w at = inv

    pub finish-Once :
        (w : Worker) → OnceAt v.offers v.jobs w v.pending v.indexed log → Once (finish_at w v) log
    unfolding finish_at
    finish-Once (index_failed j) at =
        cleared-OnceAt j v.offers v.jobs (index_failed j) v.pending v.indexed log at.worker_sound
          refl (λ h. omega (arith, at.once)) at
    finish-Once (recorded j) at =
        cleared-OnceAt j v.offers v.jobs (recorded j) v.pending v.indexed log at.worker_sound refl
          (λ h. omega (arith, at.once, at.logged)) at
    finish-Once idle at = inv
    finish-Once (indexing j) at = inv
    finish-Once (index_done j) at = inv

    pub record-Once :
        (w : Worker)
        → OnceAt v.offers v.jobs w v.pending v.indexed log
        → Once (record_at (c ∷ root) true true w v) log
    unfolding record_at
    record-Once (index_done j) at = recorded-OnceAt j v.offers v.jobs v.pending v.indexed log at
    record-Once (index_failed j) at = inv
    record-Once (recorded j) at = inv
    record-Once idle at = inv
    record-Once (indexing j) at = inv

    pub queue-Once :
        (offers : List VectorIndexJob)
        → OnceAt offers v.jobs v.worker v.pending v.indexed log
        → Once (queue_first offers v) log
    unfolding queue_first
    queue-Once [] at = inv
    queue-Once (j ∷ js) at =
        elim (Bool-cases (ltb (length v.jobs) default_vector_index_queue_size)) [
          | inl room ↦ rw room (queued-OnceAt j js v.jobs v.worker v.pending v.indexed log at)
          | inr full ↦ rw full (dropped-OnceAt j js v.jobs v.worker v.pending v.indexed log at)
        ]
