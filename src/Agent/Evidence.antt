-- ===== src/Agent/Evidence.antt =====
-- What stands behind an output that `run` of apps/agent-worker/src/agents/base.agent.ts emits.
use codemind_backend.Common.{ℕ, ◌+◌, ◌≤◌, Bool, true, false, [], ◌≡◌}
use codemind_backend.Tokens.{TokenUsage, add_tokens, total_tokens}
use codemind_backend.Json.{Value}
use codemind_backend.Schema.{validate, Validated}
use codemind_backend.Agent.{
  Agent, RunEnd, emitted, min_evidence_turns, mark_truncated, reserve_tokens,
}
use codemind_backend.Schema.Conforms.{Conforms}

-- Why an output is emitted on a turn: it is marked as forced, and the turn is the cap or one beyond it,
-- or the tokens that the conversation had used before the turn left no more than the reserve; or it is
-- not marked, and the turns of the evidence floor were taken.
pub data Deep (a : Agent) (turn : ℕ) (truncated : Bool) (usage : TokenUsage) : Type 0 where
  capped : truncated ≡ true → a.max_turns ≤ turn → Deep a turn truncated usage
  spent_out :
      (before spent : TokenUsage)
      → truncated ≡ true
      → usage ≡ add_tokens before spent
      → a.token_budget ≤ total_tokens before + reserve_tokens
      → Deep a turn truncated usage
  unforced : truncated ≡ false → min_evidence_turns a ≤ turn → Deep a turn truncated usage

-- What is true of an emitted output: it stands deep enough in the conversation, and it is what the
-- validator made of a payload that conforms to the agent's schema, marked if it was forced.
pub record Grounded (a : Agent) (turn : ℕ) (truncated : Bool) (v : Value) (usage : TokenUsage)
    : Type 0 where
  pub deep : Deep a turn truncated usage
  pub payload : Value
  pub fits : Conforms a.schema payload
  pub value : Value
  pub kept : validate a.schema payload [] ≡ Validated.ok value
  pub marked : v ≡ mark_truncated truncated value

abbrev Ended : Agent → RunEnd → Type 0
Ended a (emitted turn truncated v u) = Grounded a turn truncated v u
Ended a e = Unit
