-- ===== src/Memory/Session/Appends.antt =====
-- A `Session.Save` of fresh messages over the in-memory backend, from its load to its store.
use genkit_cowork.Base.{
  ℕ, suc, ◌+◌, ◌≤◌, none, List, [], ◌∷◌, ◌++◌, ◌≡◌, refl, arith, map, length, length-append,
  drop-append_length, leb-true, ltb-false_of, ==_refl,
}
use genkit_cowork.Base.Int.{pos}
use genkit_cowork.Base.Bytes.{Bytes}
use genkit_cowork.Base.Result.{ok}
use genkit_cowork.Memory.Types.{
  SessionMessage, TurnRecord, StateSnapshot, SessionAsset, SessionState,
}
use genkit_cowork.Memory.Ledger.{message_row, turn_row, snapshot_row}
use genkit_cowork.Memory.Assets.{Supply, Taken}
use genkit_cowork.Memory.Numbering.{
  last_or, last_sequence, message_sequences, Numbered, number_messages, save_turns,
}
use genkit_cowork.Memory.Session.{
  SessionOptions, World, prepare, append_entries, add_snapshot, new_snapshot,
}
use genkit_cowork.Memory.Session.Kept.{
  IsNumbered, Window, Cuts-append, Kept, last_sequence-IsNumbered, IsNumbered-append,
}
use genkit_cowork.Memory.Session.Fresh.{
  IsFresh, AllSame, next_64, number_messages-old, number_messages-fresh,
}

-- What a client saves: a state with the stored tables, and messages behind the stored ones.
abbrev pub extended : SessionState → SessionState → List SessionMessage → SessionState
extended e x ms = record x { messages = e.messages ++ ms; turns = e.turns; snapshots = e.snapshots }

-- The tables have room for a save of `count` messages.
pub record HasRoom (e : SessionState) (count : ℕ) : Type 0 where
  pub messages_fit : length e.messages + count ≤ 0x7fff_ffff_ffff_ffff
  pub turns_fit : suc (length e.turns) ≤ 0x7fff_ffff_ffff_ffff
  pub snapshots_fit : suc (length e.snapshots) ≤ 0x7fff_ffff_ffff_ffff

-- What is stored after it: the same tables, with the messages, one turn and one snapshot behind.
pub record Appended (e final : SessionState) (ms : List SessionMessage) : Type 0 where
  pub added : List SessionMessage
  pub turn : TurnRecord
  pub snapshot : StateSnapshot
  pub messages_eq : final.messages ≡ e.messages ++ added
  pub same : AllSame ms added
  pub turns_eq : final.turns ≡ e.turns ++ turn ∷ []
  pub snapshots_eq : final.snapshots ≡ e.snapshots ++ snapshot ∷ []

last-numbered :
    (k : ℕ) (m : SessionMessage) (ms : List SessionMessage)
    → IsNumbered k (map message_row (m ∷ ms))
    → (last_or m ms).sequence ≡ pos (k + suc (length ms))
last-numbered k m [] h = ground arith
last-numbered k m (n ∷ ns) h = ground (arith, last-numbered (suc k) n ns h.1)

save_turns-default :
    (sup : Supply) (ts : List TurnRecord) (k : ℕ) (m : SessionMessage) (ms : List SessionMessage)
    (taken : Taken)
    → IsNumbered k (map message_row (m ∷ ms))
    → suc (length ts) ≤ 0x7fff_ffff_ffff_ffff
    → (t : TurnRecord) × (taken' : Taken) × (save_turns sup ts
          (length ts)
          (pos (length ts))
          m
          ms
          taken
        ≡ ok (ts ++ t ∷ [], taken'))
      × (t.sequence ≡ pos (suc (length ts)))
      × Window k (suc (length ms)) t
unfolding save_turns
save_turns-default sup ts k m ms taken num b =
    rw (leb-true (length ts) (length ts) (omega arith), next_64 (length ts) b)
      (_, _, refl, refl, record { first = num.0; last = last-numbered k m ms num; claimed = refl })

-- the loop over the messages, from the first one
number_all :
    (sup : Supply) (t n : Bytes) (es ms : List SessionMessage) (assets : List SessionAsset)
    (taken : Taken)
    → IsNumbered 0 (map message_row es)
    → IsFresh ms
    → length es + length ms ≤ 0x7fff_ffff_ffff_ffff
    → (added : List SessionMessage) × (r : Numbered) × (number_messages sup none t n
          (length es)
          0
          (es ++ ms)
          (last_sequence (message_sequences es))
          assets
          taken
        ≡ ok r)
      × (r.messages ≡ es ++ added)
      × IsNumbered (length es) (map message_row added)
      × AllSame ms added
number_all sup t n es ms assets taken num f b =
    let (r, run, more, same, a) =
      number_messages-fresh sup t n (length es) (length es) ms (length es) assets taken
        (omega arith) f b in
    (
      r.messages,
      record r { messages = es ++ r.messages },
      rw (last_sequence-IsNumbered message_row es num) (
          number_messages-old sup t n (length es) 0 es ms (pos (length es)) assets taken r
            (omega arith) run),
      refl,
      more,
      same,
    )

-- A kept state stays so with messages that are numbered on, and a turn that names them.
Appended-Kept :
    (e final : SessionState) (ms : List SessionMessage) (p : Appended e final ms)
    → Kept e
    → IsNumbered (length e.messages) (map message_row p.added)
    → p.turn.sequence ≡ pos (suc (length e.turns))
    → p.snapshot.sequence ≡ pos (suc (length e.snapshots))
    → 1 ≤ length p.added
    → Window (length e.messages) (length p.added) p.turn
    → Kept final
Appended-Kept e final ms p kept num seq seq' some_added window = record {
  messages_numbered = rw p.messages_eq (
      IsNumbered-append message_row (length e.messages) 0 e.messages p.added (omega arith)
        kept.messages_numbered num);
  turns_numbered = rw p.turns_eq (
      IsNumbered-append turn_row (length e.turns) 0 e.turns (p.turn ∷ []) (omega arith)
        kept.turns_numbered (seq, tt));
  snapshots_numbered = rw p.snapshots_eq (
      IsNumbered-append snapshot_row (length e.snapshots) 0 e.snapshots (p.snapshot ∷ [])
        (omega arith) kept.snapshots_numbered (seq', tt));
  cut =
      rw (p.messages_eq, p.turns_eq, length-append e.messages p.added)
        (Cuts-append 0 e.turns (length e.messages) (length p.added) p.turn kept.cut some_added
          window);
}

append_entries-fresh :
    (w : World) (o : SessionOptions) (n : Bytes) (e y : SessionState) (m : SessionMessage)
    (ms added : List SessionMessage) (taken : Taken)
    → Kept e
    → IsNumbered (length e.messages) (map message_row added)
    → AllSame (m ∷ ms) added
    → HasRoom e (suc (length ms))
    → (final : SessionState) × (append_entries w o n e (extended e y added) taken added ≡ ok final)
      × Appended e final (m ∷ ms)
      × Kept final
unfolding append_entries add_snapshot new_snapshot
append_entries-fresh w o n e y m ms [] taken kept num same room = absurd same
append_entries-fresh w o n e y m ms (a ∷ rest) taken kept num same room =
    let (t, taken', run, seq, window) =
      save_turns-default w.supply e.turns (length e.messages) a rest taken num room.turns_fit in
    rw
      (
        last_sequence-IsNumbered turn_row e.turns kept.turns_numbered,
        last_sequence-IsNumbered snapshot_row e.snapshots kept.snapshots_numbered,
        run,
        next_64 (length e.snapshots) room.snapshots_fit,
        ==_refl (length e.snapshots),
      )
      (let p : Appended e _ (m ∷ ms) = record {
        added = a ∷ rest;
        turn = t;
        snapshot = _;
        messages_eq = refl;
        same = same;
        turns_eq = refl;
        snapshots_eq = refl;
      } in
        (_, refl, p, Appended-Kept e _ (m ∷ ms) p kept num seq refl (omega arith) window))

pub prepare-fresh :
    (w : World) (o : SessionOptions) (n : Bytes) (e x : SessionState) (m : SessionMessage)
    (ms : List SessionMessage)
    → o.asset_store ≡ none
    → Kept e
    → IsFresh (m ∷ ms)
    → HasRoom e (suc (length ms))
    → (final : SessionState) × (prepare w o n e (extended e x (m ∷ ms)) ≡ ok final)
      × Appended e final (m ∷ ms)
      × Kept final
unfolding prepare
prepare-fresh w o n e x m ms no_store kept f room =
    let (added, r, run, split, num, same) =
      number_all w.supply x.tenant_id n e.messages (m ∷ ms) x.assets (record { ids = 0; times = 0 })
        kept.messages_numbered f room.messages_fit in
    rw
      (
        ltb-false_of (length (e.messages ++ m ∷ ms)) (length e.messages)
            (omega (arith, length-append e.messages (m ∷ ms))),
        ltb-false_of (length e.turns) (length e.turns) (omega arith),
        ltb-false_of (length e.snapshots) (length e.snapshots) (omega arith),
        no_store,
        run,
        split,
        drop-append_length e.messages added,
      )
      (append_entries-fresh w o n e (record x { assets = r.assets }) m ms added r.taken kept num
        same room)
