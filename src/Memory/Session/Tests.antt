-- ===== src/Memory/Session/Tests.antt =====
-- Runs of the session store at concrete inputs, and its theorems applied there.
use genkit_cowork.Base.{◌+◌, some, List, [], ◌∷◌, ◌++◌, ◌≡◌, refl, arith}
use genkit_cowork.Base.Int.{ℤ, pos, ◌+ℤ◌, add_64}
use genkit_cowork.Base.Bytes.{codes, eqb}
use genkit_cowork.Base.Result.{ok}
use genkit_cowork.Base.Dict.{lookup}
use genkit_cowork.Memory.Types.{SessionMessage, SessionState}
use genkit_cowork.Memory.Samples.{m1, message, before, turn, snapshot, state, t, s, one}
use genkit_cowork.Memory.Ledger.{messages}
use genkit_cowork.Memory.Store.{stored}
use genkit_cowork.Memory.Numbering.{number_message, number_messages, save_turns}
use genkit_cowork.Memory.Session.{
  SessionOptions, default_operator, default_options, for_tenant, World, prepare, save_session,
}
use genkit_cowork.Memory.Session.Kept.{Kept}
use genkit_cowork.Memory.Session.Appends.{extended, HasRoom, Appended}
use genkit_cowork.Memory.Session.Saves.{save_session-fresh}
use genkit_cowork.Memory.Turns.Cover.{Reads, concat, messages_for_turn-concat}

abbrev world : World
world = record {
  supply = record { uuid = λ k. codes "id" ++ k ∷ []; now = λ k. 100 + k };
  checksum = λ x. codes "sum";
}

abbrev options : SessionOptions
options = for_tenant t default_options

abbrev fresh : SessionMessage
fresh = message [] (pos 0)

before_kept_there : stored t s one ≡ some before
unfolding stored lookup eqb
before_kept_there = refl

before-Kept : Kept before
before-Kept = record {
  messages_numbered = (refl, tt);
  turns_numbered = (refl, tt);
  snapshots_numbered = tt;
  cut = (1, omega arith, record { first = refl; last = refl; claimed = refl }, refl);
}

before-HasRoom : HasRoom before 2
before-HasRoom = record {
  messages_fit = omega arith;
  turns_fit = omega arith;
  snapshots_fit = omega arith;
}

abbrev two_more : SessionState
two_more = extended before before (fresh ∷ fresh ∷ [])

save_session-fresh_example :
    (final : SessionState) × ((save_session default_operator world options s (some two_more) one).0
      ≡ ok tt)
    × (stored t s (save_session default_operator world options s (some two_more) one).1
        ≡ some (record final { tenant_id = t }))
    × Appended before final (fresh ∷ fresh ∷ [])
    × Kept final
save_session-fresh_example =
    save_session-fresh world options s before fresh (fresh ∷ []) one (some before) refl
      before_kept_there before-Kept (refl, (refl, tt)) before-HasRoom

-- the sequences and the turn of that save
saved_sequences :
    prepare world options s before two_more
    ≡ ok (
        state
          (m1
            ∷ record (message (codes "id" ++ 0 ∷ []) (pos 2)) { timestamp = 7 }
            ∷ record (message (codes "id" ++ 1 ∷ []) (pos 3)) { timestamp = 7 }
            ∷ [])
          (before.turns
            ++ record (turn (codes "id" ++ 2 ∷ []) (pos 2) (pos 2) (pos 3) (pos 2)) {
              loop_turns = pos 0;
              ended_at = 7;
            }
              ∷ [])
          (record (snapshot (codes "id" ++ 3 ∷ []) (pos 1)) {
            captured_at = 100;
            message_count = pos 3;
            turn_sequence = pos 2;
            state_checksum = codes "sum";
          }
            ∷ []))
unfolding prepare number_messages number_message save_turns eqb add_64 ◌+ℤ◌
saved_sequences = refl

abbrev two_each : SessionMessage → ℤ
two_each m = pos 2

messages_for_turn-concat_example :
    (ws : List (List SessionMessage)) × Reads before before.turns ws × (concat ws ≡ before.messages)
messages_for_turn-concat_example = messages_for_turn-concat before before-Kept
