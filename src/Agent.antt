-- ===== src/Agent.antt =====
-- The evidence loop of an agent: `run`, `runTools`, `finish`, `remainingBudget` and `failure` of
-- apps/agent-worker/src/agents/base.agent.ts.
-- Parameters: the language model, the graph tools and the fence. Messages are kept as their blocks;
-- what is only shown (logs, the progress line) and the cache markers are left out.
pub mod Answers
pub mod Ending
pub mod Evidence
pub mod Induction
pub mod Budget
pub mod Input
pub mod Protocol
use codemind_backend.Common.{
  ℕ, zero, suc, ◌+◌, ◌-◌, min, Bool, true, false, not, ◌&&◌, ◌||◌, String, Option, none, some, List,
  [], ◌∷◌, ◌++◌, map, leb, ltb, ◌==◌, str_eq, if◌then◌else◌,
}
use codemind_backend.Tokens.{TokenUsage, no_tokens, add_tokens, total_tokens}
use codemind_backend.Json.{Value, Fields, end, field}
use codemind_backend.Schema.{Spec, SchemaError, Validated, ok, failed, validate}

pub record ToolUse : Type 0 where
  pub id : String
  pub name : String
  pub input : Value

-- A content block of a reply; `other` stands for thinking blocks.
pub data Block : Type 0 where
  text : String → Block
  tool_use : ToolUse → Block
  other : Block

pub record ToolResult : Type 0 where
  pub tool_use_id : String
  pub content : String
  pub is_error : Bool

pub data Message : Type 0 where
  user : String → Message
  assistant : List Block → Message
  tool_results : List ToolResult → Message

pub data Reply : Type 0 where
  reply : List Block → TokenUsage → Reply
  rejects : String → Reply

pub data Pulse : Type 0 where
  alive : Pulse
  superseded : (message_epoch current : ℕ) → Pulse
  unknown : String → Pulse

pub data ToolOutcome : Type 0 where
  returns throws : String → ToolOutcome

-- An agent with what it runs on: `has_tools` says whether it was given a tool context. `evidence_turns` is `Math.ceil(maxTurns * MIN_EVIDENCE_FRACTION)`;
-- `converse` may depend on the turn, the conversation and whether the emit tool is forced.
pub record Agent : Type 0 where
  pub emit_name : String
  pub schema : Spec
  pub max_turns : ℕ
  pub evidence_turns : ℕ
  pub token_budget : ℕ
  pub has_tools : Bool
  pub check_alive : ℕ → Pulse
  pub converse : ℕ → List Message → Bool → Reply
  pub find_tool : String → Option (Value → ToolOutcome)

pub data Failure : Type 0 where
  no_tools : Failure
  never_emitted : Failure
  invalid_output : List SchemaError → Failure
  error : String → Failure

-- How a run ends; an emitted output carries its turn and whether it was forced.
pub data RunEnd : Type 0 where
  emitted : (turn : ℕ) → (truncated : Bool) → Value → TokenUsage → RunEnd
  gave_up : Failure → TokenUsage → RunEnd
  fence_tripped : (message_epoch current : ℕ) → RunEnd
  out_of_fuel : RunEnd

-- RESERVE_TOKENS
abbrev pub reserve_tokens : ℕ
reserve_tokens = 8000

-- `remaining <= RESERVE_TOKENS`, with the subtraction of `remainingBudget` on the other side.
abbrev pub budget_low : Agent → TokenUsage → Bool
budget_low a usage = leb a.token_budget (total_tokens usage + reserve_tokens)

-- `Math.min(this.maxTurns - 1, …)`
abbrev pub min_evidence_turns : Agent → ℕ
min_evidence_turns a = min (a.max_turns - 1) a.evidence_turns

abbrev pub tool_uses : List Block → List ToolUse
tool_uses [] = []
tool_uses (tool_use u ∷ bs) = u ∷ tool_uses bs
tool_uses (text t ∷ bs) = tool_uses bs
tool_uses (other ∷ bs) = tool_uses bs

-- `toolUses.find((b) => b.name === emitTool.name)`
unfoldable pub find_emit : String → List ToolUse → Option ToolUse
find_emit name [] = none
find_emit name (u ∷ us) = if str_eq u.name name then some u else find_emit name us

abbrev pub outcome_result : String → ToolOutcome → ToolResult
outcome_result id (returns out) = record { tool_use_id = id; content = out; is_error = false }
outcome_result id (throws msg) = record { tool_use_id = id; content = msg; is_error = true }

abbrev pub tool_result : ToolUse → Option (Value → ToolOutcome) → ToolResult
tool_result u none = record { tool_use_id = u.id; content = "Unknown tool"; is_error = true }
tool_result u (some run) = outcome_result u.id (run u.input)

unfoldable pub run_tools : Agent → List ToolUse → List ToolResult
run_tools a us = map (λ u. tool_result u (a.find_tool u.name)) us

-- `output.truncated = true`
abbrev set_property : String → Value → Fields → Fields
set_property k v end = field k v end
set_property k v (field j x fs) =
    if str_eq j k then field k v fs else field j x (set_property k v fs)

abbrev pub mark_truncated : Bool → Value → Value
mark_truncated true (Value.object fs) =
    Value.object (set_property "truncated" (Value.boolean true) fs)
mark_truncated _ v = v

abbrev finish_checked : ℕ → Bool → TokenUsage → Validated → RunEnd
finish_checked turn truncated usage (ok v) =
    emitted turn truncated (mark_truncated truncated v) usage
finish_checked turn truncated usage (failed es) = gave_up (invalid_output es) usage

unfoldable pub finish : Agent → ℕ → Value → TokenUsage → Bool → RunEnd
finish a turn payload usage truncated =
    finish_checked turn truncated usage (validate a.schema payload [])

abbrev pub is_ok : Validated → Bool
is_ok (ok v) = true
is_ok (failed es) = false

-- What a turn leads to: the run ends, or goes on with the conversation, the repair turns granted so
-- far and the usage.
pub data Next : Type 0 where
  ends : RunEnd → Next
  goes_on : (repair_turns : ℕ) → List Message → TokenUsage → Next

-- The only result that follows a rejected emit.
abbrev pub rejection : List Block → ToolUse → String → List Message
rejection content emit why =
    assistant content
    ∷ tool_results (record { tool_use_id = emit.id; content = why; is_error = true } ∷ [])
    ∷ []

-- An emit: it is sent back once to be repaired, or because it comes too early, or it ends the run.
unfoldable pub on_emit :
    Agent → ℕ → ℕ → Bool → Bool → List Message → TokenUsage → List Block → ToolUse → Next
on_emit a turn repair low must_finish messages usage content emit =
    if not (is_ok (validate a.schema emit.input [])) && (repair == 0) && not low
    then goes_on 1 (messages ++ rejection content emit "Rejected") usage
    else if not must_finish && ltb turn (min_evidence_turns a) && not low
    then goes_on repair (messages ++ rejection content emit "Not yet") usage
    else ends (finish a turn emit.input usage must_finish)

-- A reply with tool calls.
unfoldable pub on_tool_uses :
    Agent → ℕ → ℕ → Bool → Bool → List Message → TokenUsage → List Block → List ToolUse → Next
on_tool_uses a turn repair low must_finish messages usage content uses =
    elim (find_emit a.emit_name uses) [
      | some emit ↦ on_emit a turn repair low must_finish messages usage content emit
      | none ↦
          goes_on repair (messages ++ assistant content ∷ tool_results (run_tools a uses) ∷ [])
            usage
    ]

abbrev pub nudge : List Block → List Message
nudge content = assistant content ∷ user "Call the emit tool with your findings now." ∷ []

unfoldable pub on_reply :
    Agent → ℕ → ℕ → Bool → Bool → List Message → TokenUsage → List Block → Next
on_reply a turn repair low must_finish messages usage content = elim (tool_uses content) [
  | [] ↦ goes_on repair (messages ++ nudge content) usage
  | u ∷ us ↦ on_tool_uses a turn repair low must_finish messages usage content (u ∷ us)
]

-- `turn === this.maxTurns + repairTurns || remaining <= RESERVE_TOKENS`
abbrev pub must_finish_at : Agent → ℕ → ℕ → TokenUsage → Bool
must_finish_at a turn repair usage = turn == a.max_turns + repair || budget_low a usage

abbrev pub heard : Agent → ℕ → ℕ → List Message → TokenUsage → Reply → Next
heard a turn repair messages usage (rejects why) = ends (gave_up (error why) usage)
heard a turn repair messages usage (reply content spent) =
    on_reply a turn repair (budget_low a usage) (must_finish_at a turn repair usage) messages
      (add_tokens usage spent) content

abbrev pub checked : Agent → ℕ → ℕ → List Message → TokenUsage → Pulse → Next
checked a turn repair messages usage (superseded m c) = ends (fence_tripped m c)
checked a turn repair messages usage (unknown why) = ends (gave_up (error why) usage)
checked a turn repair messages usage alive =
    heard a turn repair messages usage
      (a.converse turn messages (must_finish_at a turn repair usage))

-- One turn of the loop.
unfoldable pub take_turn : Agent → ℕ → ℕ → List Message → TokenUsage → Next
take_turn a turn repair messages usage = checked a turn repair messages usage (a.check_alive turn)

-- The `for` loop, on fuel.
unfoldable pub loop : Agent → ℕ → ℕ → ℕ → List Message → TokenUsage → RunEnd
loop a zero turn repair messages usage = out_of_fuel
loop a (suc fuel) turn repair messages usage = elim (leb turn (a.max_turns + repair)) [
  | false ↦ gave_up never_emitted usage
  | true ↦ elim (take_turn a turn repair messages usage) [
    | ends e ↦ e
    | goes_on repair' messages' usage' ↦ loop a fuel (suc turn) repair' messages' usage'
  ]
]

-- At most one repair turn is granted, so two rounds more than `maxTurns` are enough.
unfoldable pub run : Agent → String → RunEnd
run a first_message =
    if a.has_tools
    then loop a (a.max_turns + 2) 1 0 (user first_message ∷ []) no_tokens
    else gave_up no_tools no_tokens
