-- ===== src/Agent/Protocol.antt =====
-- What `run` of apps/agent-worker/src/agents/base.agent.ts relies on and owes in its conversation
-- with the model: the forced emit tool, and an answer to every tool call.
use codemind_backend.Common.{
  either_known, ℕ, suc, ◌+◌, ◌≤◌, Bool, true, false, not, ◌&&◌, ◌||◌, String, none, List, [], ltb,
  ◌==◌, ◌≡◌, ◌≢◌, inl, inr, sym, ◌∙◌, ap, subst, arith, Bool-cases,
}
use codemind_backend.Tokens.{TokenUsage}
use codemind_backend.Json.{Value}
use codemind_backend.Schema.{validate, Validated}
use codemind_backend.Agent.{
  Agent, Message, Block, ToolUse, RunEnd, gave_up, never_emitted, find_emit, on_emit, tool_uses,
  run, reply, must_finish_at, budget_low, finish, finish_checked, is_ok, min_evidence_turns,
}
use codemind_backend.Agent.Induction.{Leads, take_turn-Leads, run-leads}

-- A reply under the forced tool choice calls the emit tool.
pub record Obeys (a : Agent) : Type 0 where
  pub some_turn : 1 ≤ a.max_turns
  pub forced :
      (turn : ℕ) (messages : List Message) (content : List Block) (spent : TokenUsage)
      → a.converse turn messages true ≡ reply content spent
      → find_emit a.emit_name (tool_uses content) ≢ none

abbrev Spoken : RunEnd → Type 0
Spoken (gave_up never_emitted u) = ⊥
Spoken e = Unit

finish_checked-Spoken :
    (turn : ℕ) (truncated : Bool) (usage : TokenUsage) (r : Validated)
    → Spoken (finish_checked turn truncated usage r)
finish_checked-Spoken turn truncated usage (Validated.ok v) = tt
finish_checked-Spoken turn truncated usage (Validated.failed es) = tt

finish-Spoken :
    (a : Agent) (turn : ℕ) (payload : Value) (usage : TokenUsage) (truncated : Bool)
    → Spoken (finish a turn payload usage truncated)
unfolding finish
finish-Spoken a turn payload usage truncated =
    finish_checked-Spoken turn truncated usage (validate a.schema payload [])

repair_lem :
    (turn top repair : ℕ) (refused low : Bool)
    → turn ≤ top + repair
    → (refused && (repair == 0) && not low) ≡ true
    → suc turn ≤ top + 1
repair_lem turn top repair refused low h e = ground (arith, h, e)

early_lem :
    (turn top : ℕ) (low early : Bool)
    → turn ≤ top
    → (not (turn == top || low) && early && not low) ≡ true
    → suc turn ≤ top
early_lem turn top low early h e = ground (arith, h, e)

on_emit-Spoken :
    (a : Agent) (turn repair : ℕ) (low : Bool) (messages : List Message) (usage : TokenUsage)
    (content : List Block) (emit : ToolUse)
    → turn ≤ a.max_turns + repair
    → Leads
        (λ r ms u. suc turn ≤ a.max_turns + r)
        Spoken
        (on_emit a turn repair low
          (turn == a.max_turns + repair || low)
          messages
          usage
          content
          emit)
unfolding on_emit
on_emit-Spoken a turn repair low messages usage content emit h =
    let R = Leads (λ r ms u. suc turn ≤ a.max_turns + r) Spoken in
    let must = turn == a.max_turns + repair || low in
    either_known R (not (is_ok (validate a.schema emit.input [])) && (repair == 0) && not low) _ _
      (λ e. repair_lem turn a.max_turns repair _ low h e)
      (λ k.
        either_known R (not must && ltb turn (min_evidence_turns a) && not low) _ _
          (λ e. early_lem turn (a.max_turns + repair) low _ h e)
          (λ e. finish-Spoken a turn emit.input usage must))

not_last : (turn top : ℕ) (low : Bool) → turn ≤ top → (turn == top || low) ≡ false → suc turn ≤ top
not_last turn top low h e = ground (arith, h, e)

silent_lem :
    (a : Agent) (turn repair : ℕ) (messages : List Message) (usage spent : TokenUsage)
    (content : List Block)
    → Obeys a
    → turn ≤ a.max_turns + repair
    → a.converse turn messages (must_finish_at a turn repair usage) ≡ reply content spent
    → find_emit a.emit_name (tool_uses content) ≡ none
    → suc turn ≤ a.max_turns + repair
silent_lem a turn repair messages usage spent content o h e n =
    elim (Bool-cases (must_finish_at a turn repair usage)) [
      | inl must ↦
          absurd
            (o.forced turn messages content spent (ap (a.converse turn messages) (sym must) ∙ e) n)
      | inr free ↦ not_last turn (a.max_turns + repair) (budget_low a usage) h free
    ]

-- Where the model calls the emit tool whenever that tool is forced, and the agent has at least one
-- turn, no run gives up for want of an emit.
pub run-Spoken :
    (a : Agent) (first_message : String) (u : TokenUsage)
    → Obeys a
    → run a first_message ≢ gave_up never_emitted u
run-Spoken a first_message u o e = subst Spoken e (
    run-leads a (λ turn r ms u. turn ≤ a.max_turns + r) Spoken
      (λ turn repair messages usage in_time small started.
        take_turn-Leads a _ Spoken turn repair messages usage (λ m c e. tt) (λ why. tt)
          (λ content spent e n ms k.
            silent_lem a turn repair messages usage spent content o in_time e n)
          (λ content spent emit e found.
            on_emit-Spoken a turn repair (budget_low a usage) messages _ content emit in_time))
      (λ turn repair messages usage late p. absurd (omega (arith, late, p))) first_message tt
      (omega (arith, o.some_turn)))
