-- ===== src/Agent/Ending.antt =====
-- How `run` of apps/agent-worker/src/agents/base.agent.ts ends.
use codemind_backend.Common.{
  either_way, ℕ, suc, ◌+◌, ◌≤◌, Bool, not, ◌&&◌, String, List, [], ltb, ◌==◌, ◌≡◌, arith,
}
use codemind_backend.Tokens.{TokenUsage}
use codemind_backend.Json.{Value}
use codemind_backend.Schema.{validate, Validated}
use codemind_backend.Agent.{
  Agent, Message, Block, ToolUse, RunEnd, gave_up, out_of_fuel, emitted, fence_tripped, on_emit,
  run, superseded, finish, finish_checked, is_ok, min_evidence_turns,
}
use codemind_backend.Agent.Induction.{Leads, take_turn-Leads, run-leads}

-- What an end says about the turns that were taken.
abbrev pub Timely : Agent → RunEnd → Type 0
Timely a (emitted turn truncated v u) = (1 ≤ turn) × (turn ≤ a.max_turns + 1)
Timely a (gave_up why u) = Unit
Timely a (fence_tripped m c) =
    (turn : ℕ) × (1 ≤ turn) × (turn ≤ a.max_turns + 1) × (a.check_alive turn ≡ superseded m c)
Timely a out_of_fuel = ⊥

finish_checked-Timely :
    (a : Agent) (turn : ℕ) (truncated : Bool) (usage : TokenUsage) (r : Validated)
    → 1 ≤ turn
    → turn ≤ a.max_turns + 1
    → Timely a (finish_checked turn truncated usage r)
finish_checked-Timely a turn truncated usage (Validated.ok v) started early = (started, early)
finish_checked-Timely a turn truncated usage (Validated.failed es) started early = tt

finish-Timely :
    (a : Agent) (turn : ℕ) (payload : Value) (usage : TokenUsage) (truncated : Bool)
    → 1 ≤ turn
    → turn ≤ a.max_turns + 1
    → Timely a (finish a turn payload usage truncated)
unfolding finish
finish-Timely a turn payload usage truncated started early =
    finish_checked-Timely a turn truncated usage (validate a.schema payload []) started early

on_emit-Timely :
    (a : Agent) (turn repair : ℕ) (low must : Bool) (messages : List Message) (usage : TokenUsage)
    (content : List Block) (emit : ToolUse)
    → 1 ≤ turn
    → turn ≤ a.max_turns + 1
    → Leads
        (λ r ms u. 1 ≤ suc turn)
        (Timely a)
        (on_emit a turn repair low must messages usage content emit)
unfolding on_emit
on_emit-Timely a turn repair low must messages usage content emit started early =
    let end = finish-Timely a turn emit.input usage must started early in
    either_way (Leads (λ r ms u. 1 ≤ suc turn) (Timely a))
      (not (is_ok (validate a.schema emit.input [])) && (repair == 0) && not low) _ _ (omega arith)
      (either_way (Leads (λ r ms u. 1 ≤ suc turn) (Timely a))
        (not must && ltb turn (min_evidence_turns a) && not low) _ _ (omega arith) end)

-- The loop always ends: with the rounds that `run` grants it never runs out of fuel, an output is
-- emitted on a turn from 1 to `maxTurns + 1`, and a fence is reported only where the check of such a
-- turn reported it.
pub run-Timely : (a : Agent) (first_message : String) → Timely a (run a first_message)
run-Timely a first_message =
    run-leads a (λ turn r ms u. 1 ≤ turn) (Timely a)
      (λ turn repair messages usage in_time small started.
        let early : turn ≤ a.max_turns + 1 = omega (arith, in_time, small) in
        take_turn-Leads a _ (Timely a) turn repair messages usage
          (λ m c e. (turn, started, early, e)) (λ why. tt) (λ content spent e n ms k. omega arith)
          (λ content spent emit e found.
            on_emit-Timely a turn repair _ _ messages _ content emit started early))
      (λ turn repair messages usage late p. tt) first_message tt (omega arith)
