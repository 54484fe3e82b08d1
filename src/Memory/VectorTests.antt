-- ===== src/Memory/VectorTests.antt =====
-- Runs of the vector backend at concrete inputs, and its theorems applied there.
use genkit_cowork.Base.{true, false, none, some, List, [], ◌∷◌, ◌++◌, ◌≡◌, refl, map}
use genkit_cowork.Base.Int.{pos}
use genkit_cowork.Base.Bytes.{Bytes, codes, eqb}
use genkit_cowork.Base.Dict.{lookup, insert, erase, contains}
use genkit_cowork.Base.Result.{ok}
use genkit_cowork.Os.Path.{
  segments_from, up, enter, enter_all, show_parts, show_path, clean, with_slashes, join,
}
use genkit_cowork.Memory.Types.{SessionState, SessionMessage, user, ui, episodic}
use genkit_cowork.Memory.Samples.{state}
use genkit_cowork.Memory.Session.{Operator}
use genkit_cowork.Memory.Vector.{
  IndexDoc, VectorBackend, idle, VectorState, indexed_ids_path, text_from, is_new, new_docs,
  without, clear_ids, clear_pending, offer_docs, find_new, after_base, save_state, queue_first,
  queue_offer, take_first, take_job, indexed_by, index_at, record_at, finish_at, deleted_records,
  deleted_backend, deleted_base, delete_session, message_map, found_messages, search_loaded,
  search_found, search_session,
}
use genkit_cowork.Memory.Vector.Interleave.{index}
use genkit_cowork.Memory.Vector.Drains.{worker_tick, tick_at, drain}

abbrev said : Bytes → Bytes → SessionMessage
said id text = record {
  message_id = id;
  sequence = pos 1;
  origin = ui;
  kind = episodic;
  content = record {
    role = user;
    content =
        record {
          is_text = true;
          is_media = false;
          is_tool_request = false;
          is_interrupt = false;
          text = text;
          content_type = [];
        }
        ∷ [];
    metadata = none;
  };
  timestamp = 7;
}

abbrev two : SessionState
two = state (said (codes "a") (codes "hi") ∷ said (codes "b") [] ∷ []) [] []

-- a base that keeps nothing, and an index that is the list of the ids in it
abbrev base : Operator (Unit {0})
base = record {
  save_state = λ t. λ s. λ x. λ w. (ok tt, w);
  load_state = λ t. λ s. λ m. λ k. λ w. ok (some two);
  delete_session = λ t. λ s. λ w. (ok tt, w);
  list_sessions = λ t. λ w. ok (codes "s" ∷ []);
}

abbrev ids : VectorBackend (List Bytes)
ids = record {
  index = λ t. λ s. λ docs. λ b. (true, b ++ map (λ (d : IndexDoc). d.message_id) docs);
  delete = λ t. λ s. λ b. (true, []);
  retrieve_session = λ t. λ s. λ q. λ k. λ b. some b;
  retrieve_tenant = λ t. λ q. λ k. λ b. some b;
}

abbrev empty : VectorState (Unit {0}) (List Bytes)
empty = record {
  base = tt;
  backend = [];
  indexed = [];
  pending = [];
  offers = [];
  jobs = [];
  worker = idle;
}

abbrev root : Bytes
root = codes "/data"

abbrev t : Bytes
t = codes "t"

abbrev s : Bytes
s = codes "s"

abbrev saved : VectorState (Unit {0}) (List Bytes)
saved = (save_state base root false true t s two empty).1

-- A save indexes the message that has a text; saving it again offers nothing.
index_run :
    ((drain ids root true true 9 saved).backend ≡ codes "a" ∷ [])
    × ((save_state base root false true t s two (drain ids root true true 9 saved)).1.offers ≡ [])
    × (search_session base ids false t s (codes "q") (pos 3) (drain ids root true true 9 saved)
        ≡ ok (said (codes "a") (codes "hi") ∷ []))
unfolding save_state after_base find_new new_docs is_new text_from offer_docs drain tick_at
    worker_tick queue_first take_first index_at indexed_by record_at finish_at clear_pending
    clear_ids without indexed_ids_path join with_slashes clean segments_from enter_all enter up
    show_path show_parts eqb lookup insert erase contains search_session search_found search_loaded
    message_map found_messages
index_run = (refl, refl, refl)

-- A session that is deleted while its job waits comes back into the index.
deleted_run :
    (drain ids root true true 9
      ((delete_session base ids root false true t s (queue_offer saved)).1)).backend
    ≡ codes "a" ∷ []
unfolding save_state after_base find_new new_docs is_new text_from offer_docs drain tick_at
    worker_tick queue_first take_first index_at indexed_by record_at finish_at clear_pending
    clear_ids without indexed_ids_path join with_slashes clean segments_from enter_all enter up
    show_path show_parts eqb lookup insert erase contains delete_session deleted_base
    deleted_backend deleted_records
deleted_run = refl

abbrev taken : VectorState (Unit {0}) (List Bytes)
taken = take_job (queue_offer saved)
