-- ===== src/Memory/Vector.antt =====
-- `VectorOperator` of genkit-cowork/memory/vector_sessions.go: a backend that hands the text of new
-- messages to a vector index, by a queue and one worker. Each part that runs under the mutex, each
-- use of the queue and each call of the index is one step, between which others may come. The flags
-- of a step say which of its calls of the operating system work; the ids file is a list of ids.
pub mod Ids
pub mod Once
pub mod Interleave
pub mod Drains
use genkit_cowork.Base.{
  ℕ, ◌==◌, Bool, true, false, not, ◌&&◌, ◌||◌, Option, none, some, List, [], ◌∷◌, ◌++◌, map, length,
  ltb, leb, if◌then◌else◌,
}
use genkit_cowork.Base.Int.{ℤ, pos, leb_ℤ}
use genkit_cowork.Base.Bytes.{Bytes, codes, eqb}
use genkit_cowork.Base.Dict.{Dict, lookup, insert, erase, contains}
use genkit_cowork.Base.Result.{Result, err, ok}
use genkit_cowork.Os.Path.{slash, join}
use genkit_cowork.Memory.Types.{
  Part, SessionMessage, MessageKind, MessageOrigin, SessionState, PersistenceMode, keep_all,
}
use genkit_cowork.Memory.Store.{StoreError}
use genkit_cowork.Memory.Session.{Operator}

-- a document of the index, with its metadata
pub record IndexDoc : Type 0 where
  pub text : Bytes
  pub message_id : Bytes
  pub session_id : Bytes
  pub kind : MessageKind
  pub origin : MessageOrigin

pub record VectorIndexJob : Type 0 where
  pub tenant_id : Bytes
  pub session_id : Bytes
  pub docs : List IndexDoc

-- `job.messageID`
abbrev pub message_ids : VectorIndexJob → List Bytes
message_ids j = map (λ (d : IndexDoc). d.message_id) j.docs

-- `VectorBackend`; a document that a search returns is given by its "messageID".
pub record VectorBackend (B : Type 0) : Type 0 where
  pub index : Bytes → Bytes → List IndexDoc → B → Bool × B
  pub delete : Bytes → Bytes → B → Bool × B
  pub retrieve_session : Bytes → Bytes → Bytes → ℤ → B → Option (List Bytes)
  pub retrieve_tenant : Bytes → Bytes → ℤ → B → Option (List Bytes)

-- where the worker is with its job
pub data Worker : Type 0 where
  idle : Worker
  indexing index_failed index_done recorded : VectorIndexJob → Worker

-- `offers` are the jobs of saves that have not come to the queue yet.
pub record VectorState (S B : Type 0) : Type 0 where
  pub base : S
  pub backend : B
  pub indexed : Dict (List Bytes)
  pub pending : Dict (List Bytes)
  pub offers : List VectorIndexJob
  pub jobs : List VectorIndexJob
  pub worker : Worker

pub data VectorError : Type 0 where
  context_cancelled read_indexed_ids backend_delete remove_indexed_ids : VectorError
  backend_retrieve : VectorError
  base_failed : StoreError → VectorError

abbrev pub default_vector_index_queue_size : ℕ
default_vector_index_queue_size = 64

-- a missing set of ids is an empty one
abbrev pub or_no_ids : Option (List Bytes) → List Bytes
or_no_ids none = []
or_no_ids (some ids) = ids

abbrev pub ids_in : Bytes → Dict (List Bytes) → List Bytes
ids_in key d = or_no_ids (lookup key d)

abbrev pub pending_session_key : Bytes → Bytes → Bytes
pending_session_key tenant session = tenant ++ slash ∷ session

unfoldable pub indexed_ids_path : Bytes → Bytes → Bytes → Bytes
indexed_ids_path root tenant session =
    join (root ∷ tenant ∷ session ∷ codes "indexed_ids.json" ∷ [])

-- the texts of a message's parts, with spaces between them; the first list is the part written so far
unfoldable pub text_from : Bytes → List Part → Bytes
text_from so_far [] = so_far
text_from so_far (p ∷ ps) =
    text_from
      (if p.is_text then so_far ++ (if eqb so_far [] then p.text else 0x20 ∷ p.text) else so_far) ps

abbrev pub message_text : SessionMessage → Bytes
message_text m = text_from [] m.content.content

abbrev pub document_of : Bytes → SessionMessage → IndexDoc
document_of session m = record {
  text = message_text m;
  message_id = m.message_id;
  session_id = session;
  kind = m.kind;
  origin = m.origin;
}

-- the guards of the loop over the messages of a save
unfoldable pub is_new : List Bytes → List Bytes → SessionMessage → Bool
is_new indexed pending m =
    not (eqb m.message_id [])
    && not (contains m.message_id indexed || contains m.message_id pending)
    && not (eqb (message_text m) [])

unfoldable pub new_docs : List Bytes → List Bytes → Bytes → List SessionMessage → List IndexDoc
new_docs indexed pending session [] = []
new_docs indexed pending session (m ∷ ms) =
    let rest = new_docs indexed pending session ms in
    if is_new indexed pending m then document_of session m ∷ rest else rest

-- `delete(ids, id)` for each of a job's ids
unfoldable pub without : List Bytes → List Bytes → List Bytes
without ids [] = []
without ids (x ∷ xs) = let rest = without ids xs in if contains x ids then rest else x ∷ rest

abbrev pub put_ids : Bytes → List Bytes → Dict (List Bytes) → Dict (List Bytes)
put_ids key [] pending = erase key pending
put_ids key (id ∷ ids) pending = insert key (id ∷ ids) pending

unfoldable pub clear_ids :
    Bytes → List Bytes → Option (List Bytes) → Dict (List Bytes) → Dict (List Bytes)
clear_ids key ids none pending = pending
clear_ids key ids (some found) pending = put_ids key (without ids found) pending

unfoldable pub clear_pending : VectorIndexJob → Dict (List Bytes) → Dict (List Bytes)
clear_pending j pending =
    let key = pending_session_key j.tenant_id j.session_id in
    clear_ids key (message_ids j) (lookup key pending) pending

module _ {S B : Type 0} where
  -- the documents of a save, marked as pending and offered to the queue
  unfoldable pub offer_docs : Bytes → Bytes → List IndexDoc → VectorState S B → VectorState S B
  offer_docs tenant session [] v = v
  offer_docs tenant session (d ∷ docs) v =
      let key = pending_session_key tenant session in
      let job : VectorIndexJob = record {
        tenant_id = tenant;
        session_id = session;
        docs = d ∷ docs;
      } in
      record v {
        pending = insert key (message_ids job ++ ids_in key v.pending) v.pending;
        offers = v.offers ++ job ∷ [];
      }

  -- the part of a save that runs under the mutex
  unfoldable pub find_new :
      Bytes → Bytes → Bytes → List SessionMessage → VectorState S B → VectorState S B
  find_new root tenant session messages v =
      let indexed = ids_in (indexed_ids_path root tenant session) v.indexed in
      let pending = ids_in (pending_session_key tenant session) v.pending in
      offer_docs tenant session (new_docs indexed pending session messages) v

  unfoldable pub after_base :
      Bool
      → Bytes
      → Bytes
      → Bytes
      → SessionState
      → Result StoreError (Unit {0}) × S
      → VectorState S B
      → Result VectorError (Unit {0}) × VectorState S B
  after_base read_ok root tenant session state (err e, base) v =
      (err (base_failed e), record v { base = base })
  after_base read_ok root tenant session state (ok _, base) v =
      if read_ok
      then (ok tt, find_new root tenant session state.messages (record v { base = base }))
      else (err read_indexed_ids, record v { base = base })

  unfoldable pub save_state :
      Operator S
      → Bytes
      → Bool
      → Bool
      → Bytes
      → Bytes
      → SessionState
      → VectorState S B
      → Result VectorError (Unit {0}) × VectorState S B
  save_state op root cancelled read_ok tenant session state v =
      if cancelled
      then (err context_cancelled, v)
      else after_base read_ok root tenant session state (op.save_state tenant session state v.base)
          v

  -- the `select` of a save: its job is queued, or dropped if the queue is full
  unfoldable pub queue_first : List VectorIndexJob → VectorState S B → VectorState S B
  queue_first [] v = v
  queue_first (j ∷ js) v =
      if ltb (length v.jobs) default_vector_index_queue_size
      then record v { offers = js; jobs = v.jobs ++ j ∷ [] }
      else record v { offers = js; pending = clear_pending j v.pending }

  abbrev pub queue_offer : VectorState S B → VectorState S B
  queue_offer v = queue_first v.offers v

  -- the steps of `processVectorIndexJobs`
  unfoldable pub take_first : List VectorIndexJob → Worker → VectorState S B → VectorState S B
  take_first (j ∷ js) idle v = record v { jobs = js; worker = indexing j }
  take_first (j ∷ js) _ v = v
  take_first [] _ v = v

  abbrev pub take_job : VectorState S B → VectorState S B
  take_job v = take_first v.jobs v.worker v

  unfoldable pub indexed_by : VectorIndexJob → Bool × B → VectorState S B → VectorState S B
  indexed_by j (true, backend) v = record v { backend = backend; worker = index_done j }
  indexed_by j (false, backend) v = record v { backend = backend; worker = index_failed j }

  unfoldable pub index_at : VectorBackend B → Worker → VectorState S B → VectorState S B
  index_at back (indexing j) v =
      indexed_by j (back.index j.tenant_id j.session_id j.docs v.backend) v
  index_at back _ v = v

  abbrev pub index_job : VectorBackend B → VectorState S B → VectorState S B
  index_job back v = index_at back v.worker v

  unfoldable pub record_at : Bytes → Bool → Bool → Worker → VectorState S B → VectorState S B
  record_at root read_ok write_ok (index_done j) v =
      let path = indexed_ids_path root j.tenant_id j.session_id in
      if read_ok && write_ok
      then record v {
        indexed = insert path (message_ids j ++ ids_in path v.indexed) v.indexed;
        worker = recorded j;
      }
      else record v { worker = index_failed j }
  record_at root read_ok write_ok _ v = v

  abbrev pub record_job : Bytes → Bool → Bool → VectorState S B → VectorState S B
  record_job root read_ok write_ok v = record_at root read_ok write_ok v.worker v

  unfoldable pub finish_at : Worker → VectorState S B → VectorState S B
  finish_at (index_failed j) v = record v { pending = clear_pending j v.pending; worker = idle }
  finish_at (recorded j) v = record v { pending = clear_pending j v.pending; worker = idle }
  finish_at _ v = v

  abbrev pub finish_job : VectorState S B → VectorState S B
  finish_job v = finish_at v.worker v

  unfoldable pub load_state :
      Operator S
      → Bool
      → Bytes
      → Bytes
      → PersistenceMode
      → ℤ
      → VectorState S B
      → Result VectorError (Option SessionState)
  load_state op cancelled tenant session mode n v =
      if cancelled
      then err context_cancelled
      else elim (op.load_state tenant session mode n v.base) [
        | err e ↦ err (base_failed e)
        | ok found ↦ ok found
      ]

  -- Deleting is not atomic: the base, the backend, and then the two records of what is indexed. The
  -- flags say that the removal of the ids file works.
  unfoldable pub deleted_records :
      Bytes
      → Bool
      → Bytes
      → Bytes
      → VectorState S B
      → Result VectorError (Unit {0}) × VectorState S B
  deleted_records root remove_ok tenant session v =
      let w : VectorState S B = record v {
        pending = erase (pending_session_key tenant session) v.pending;
      } in
      if remove_ok
      then (ok tt, record w { indexed = erase (indexed_ids_path root tenant session) w.indexed })
      else (err remove_indexed_ids, w)

  unfoldable pub deleted_backend :
      Bytes
      → Bool
      → Bytes
      → Bytes
      → Bool × B
      → VectorState S B
      → Result VectorError (Unit {0}) × VectorState S B
  deleted_backend root remove_ok tenant session (false, backend) v =
      (err backend_delete, record v { backend = backend })
  deleted_backend root remove_ok tenant session (true, backend) v =
      deleted_records root remove_ok tenant session (record v { backend = backend })

  unfoldable pub deleted_base :
      VectorBackend B
      → Bytes
      → Bool
      → Bytes
      → Bytes
      → Result StoreError (Unit {0}) × S
      → VectorState S B
      → Result VectorError (Unit {0}) × VectorState S B
  deleted_base back root remove_ok tenant session (err e, base) v =
      (err (base_failed e), record v { base = base })
  deleted_base back root remove_ok tenant session (ok _, base) v =
      deleted_backend root remove_ok tenant session (back.delete tenant session v.backend)
        (record v { base = base })

  unfoldable pub delete_session :
      Operator S
      → VectorBackend B
      → Bytes
      → Bool
      → Bool
      → Bytes
      → Bytes
      → VectorState S B
      → Result VectorError (Unit {0}) × VectorState S B
  delete_session op back root cancelled remove_ok tenant session v =
      if cancelled
      then (err context_cancelled, v)
      else deleted_base back root remove_ok tenant session (op.delete_session tenant session v.base)
          v

-- `msgMap[id] = msg` for each message: of two with one id the later one is found.
unfoldable pub message_map : List SessionMessage → Dict SessionMessage → Dict SessionMessage
message_map [] d = d
message_map (m ∷ ms) d = message_map ms (insert m.message_id m d)

unfoldable pub found_messages : List Bytes → Dict SessionMessage → List SessionMessage
found_messages [] d = []
found_messages (id ∷ ids) d =
    let rest = found_messages ids d in elim (lookup id d) [ none ↦ rest | some m ↦ m ∷ rest ]

-- the loop of `SearchTenant`, which stops at `top_k` results
unfoldable pub found_up_to :
    ℤ → List Bytes → Dict SessionMessage → List SessionMessage → List SessionMessage
found_up_to top_k [] d results = results
found_up_to top_k (id ∷ ids) d results =
    let skipped = found_up_to top_k ids d results in
    elim (lookup id d) [
      | none ↦ skipped
      | some m ↦
          let more = results ++ m ∷ [] in
          let rest = found_up_to top_k ids d more in
          if leb_ℤ top_k (pos (length more)) then more else rest
    ]

module _ {S B : Type 0} (op : Operator S) (back : VectorBackend B) where
  unfoldable pub search_loaded :
      List Bytes
      → Result StoreError (Option SessionState)
      → Result VectorError (List SessionMessage)
  search_loaded ids (err e) = err (base_failed e)
  search_loaded ids (ok none) = ok []
  search_loaded ids (ok (some state)) = ok (found_messages ids (message_map state.messages []))

  unfoldable pub search_found :
      Bytes
      → Bytes
      → Option (List Bytes)
      → VectorState S B
      → Result VectorError (List SessionMessage)
  search_found tenant session none v = err backend_retrieve
  search_found tenant session (some []) v = ok []
  search_found tenant session (some (id ∷ ids)) v =
      search_loaded (id ∷ ids) (op.load_state tenant session keep_all (pos 0) v.base)

  unfoldable pub search_session :
      Bool → Bytes → Bytes → Bytes → ℤ → VectorState S B → Result VectorError (List SessionMessage)
  search_session cancelled tenant session query top_k v =
      if cancelled
      then err context_cancelled
      else if leb_ℤ top_k (pos 0)
      then ok []
      else search_found tenant session (back.retrieve_session tenant session query top_k v.backend)
          v

  -- the messages of all sessions of a tenant
  unfoldable pub gather :
      Bytes → List Bytes → S → Dict SessionMessage → Result VectorError (Dict SessionMessage)
  gather tenant [] base d = ok d
  gather tenant (session ∷ sessions) base d =
      elim (op.load_state tenant session keep_all (pos 0) base) [
        | err e ↦ err (base_failed e)
        | ok found ↦
            gather tenant sessions base
              (elim found [ none ↦ d | some state ↦ message_map state.messages d ])
      ]

  unfoldable pub tenant_found :
      Bytes → ℤ → Option (List Bytes) → VectorState S B → Result VectorError (List SessionMessage)
  tenant_found tenant top_k none v = err backend_retrieve
  tenant_found tenant top_k (some []) v = ok []
  tenant_found tenant top_k (some (id ∷ ids)) v = elim (op.list_sessions tenant v.base) [
    | err e ↦ err (base_failed e)
    | ok sessions ↦ elim (gather tenant sessions v.base []) [
      | err e ↦ err e
      | ok d ↦ ok (found_up_to top_k (id ∷ ids) d [])
    ]
  ]

  unfoldable pub search_tenant :
      Bool → Bytes → Bytes → ℤ → VectorState S B → Result VectorError (List SessionMessage)
  search_tenant cancelled tenant query top_k v =
      if cancelled
      then err context_cancelled
      else if leb_ℤ top_k (pos 0)
      then ok []
      else tenant_found tenant top_k (back.retrieve_tenant tenant query top_k v.backend) v

  unfoldable pub list_sessions : Bool → Bytes → VectorState S B → Result VectorError (List Bytes)
  list_sessions cancelled tenant v =
      if cancelled then err context_cancelled else elim (op.list_sessions tenant v.base) [
        | err e ↦ err (base_failed e)
        | ok sessions ↦ ok sessions
      ]
