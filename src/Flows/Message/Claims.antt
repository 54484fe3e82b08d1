-- ===== src/Flows/Message/Claims.antt =====
-- The turns that a flow appends claim its new messages, all of them, so that `Session.Save` does not
-- refuse them.
use genkit_cowork.Base.{
  ℕ, suc, ◌+◌, ◌≤◌, Bool, false, Option, List, [], ◌∷◌, ◌≡◌, refl, ap, ◌∙◌, arith, length,
  if◌then◌else◌,
}
use genkit_cowork.Base.Int.{ℤ}
use genkit_cowork.Base.Bytes.{Bytes}
use genkit_cowork.Base.Result.{ok}
use genkit_cowork.Memory.Types.{Message, TurnRecord}
use genkit_cowork.Memory.Assets.{Supply}
use genkit_cowork.Memory.Numbering.{claim_turns}
use genkit_cowork.Memory.Numbering.Claimed.{total_claimed, claim_turns-total}
use genkit_cowork.Flows.LoopTurns.{
  ModelRecord, ToolExecutionRecord, AgentLoopTurn, Reasons, build_turns,
}
use genkit_cowork.Flows.LoopTurns.Rounds.{Rounds, total_persisted, total-Rounds}
use genkit_cowork.Flows.Message.{flow_turn, flow_turns_from, flow_turns}

total-flow_turns_from :
    (sup : Supply) (name : Bytes) (k : ℕ) (ts : List AgentLoopTurn)
    → total_claimed (flow_turns_from sup name k ts) ≡ total_persisted ts
unfolding flow_turns_from flow_turn
total-flow_turns_from sup name k [] = refl
total-flow_turns_from sup name k (t ∷ ts) = omega (arith, total-flow_turns_from sup name (suc k) ts)

total-flow_turns :
    (sup : Supply) (name : Bytes) (submitted : Bool) (ts : List AgentLoopTurn)
    → 1 ≤ total_persisted ts
    → total_claimed (flow_turns sup name submitted ts)
      ≡ total_persisted ts + (if submitted then 1 else 0)
unfolding flow_turns flow_turn
total-flow_turns sup name submitted [] h = absurd (omega arith)
total-flow_turns sup name submitted (t ∷ ts) h = omega (arith, total-flow_turns_from sup name 1 ts)

-- If an agent loop has added whole rounds, at least one, then the turns that a flow appends are
-- accepted by the claims of a save, and claim exactly the new messages: those of the loop, and the one
-- of the user before them, where one was submitted.
pub flow_turns-claimed :
    (sup : Supply) (name : Bytes) (submitted : Bool) (clock : ℕ → ℕ × ℕ) (reason : Reasons)
    (models : List ModelRecord) (tools : List ToolExecutionRecord) (added : List (Option Message))
    (sequences : List ℤ) (last : ℤ)
    → Rounds false added
    → 1 ≤ length added
    → length sequences ≡ length added + (if submitted then 1 else 0)
    → length sequences ≤ 0x7fff_ffff_ffff_ffff
    → (turns : List TurnRecord) × (claim_turns sequences 1
          (flow_turns sup name submitted (build_turns clock reason 0 0 models tools added))
          last
          0
        ≡ ok (turns, length sequences))
flow_turns-claimed sup name submitted clock reason models tools added sequences last r some_added
      long fits =
    let ts = build_turns clock reason 0 0 models tools added in
    let total = total-Rounds clock reason 0 0 models tools r (λ e. refl) in
    let claimed = total-flow_turns sup name submitted ts (omega (arith, total)) in
    let (turns, e) =
      claim_turns-total sequences 1 (flow_turns sup name submitted ts) last 0
        (omega (arith, claimed, total)) fits in
    (turns, e ∙ ap (λ k. ok (turns, k)) (omega (arith, claimed, total)))
