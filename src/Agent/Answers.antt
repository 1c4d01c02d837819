-- ===== src/Agent/Answers.antt =====
-- Which tool calls of the model `run` of apps/agent-worker/src/agents/base.agent.ts answers.
use codemind_backend.Common.{
  either_way, ℕ, Bool, not, ◌&&◌, String, Option, none, some, List, [], ◌∷◌, ◌++◌, ltb, ◌==◌, ◌≡◌,
  ◌⊎◌, inl, inr, refl, sym, ◌∙◌, ap, subst, map, Option-cases,
}
use codemind_backend.Tokens.{TokenUsage}
use codemind_backend.Json.{Value}
use codemind_backend.Schema.{validate}
use codemind_backend.Agent.{
  Agent, Message, Block, ToolUse, Next, ends, goes_on, user, find_emit, on_emit, on_tool_uses, run,
  is_ok, min_evidence_turns, rejection, assistant, tool_results, run_tools, tool_result,
  outcome_result, ToolResult, ToolOutcome, returns, throws,
}

abbrev pub result_id : ToolResult → String
result_id r = r.tool_use_id

abbrev pub use_id : ToolUse → String
use_id u = u.id

outcome_result-id : (id : String) (o : ToolOutcome) → result_id (outcome_result id o) ≡ id
outcome_result-id id (returns out) = refl
outcome_result-id id (throws msg) = refl

tool_result-id :
    (u : ToolUse) (t : Option (Value → ToolOutcome)) → result_id (tool_result u t) ≡ u.id
tool_result-id u none = refl
tool_result-id u (some run) = outcome_result-id u.id (run u.input)

-- Every tool call of a reply is answered, in its order, whether the tool exists, returns or throws.
pub run_tools-answers :
    (a : Agent) (us : List ToolUse) → map result_id (run_tools a us) ≡ map use_id us
unfolding run_tools
run_tools-answers a [] = refl
run_tools-answers a (u ∷ us) =
    ap (λ id. id ∷ map result_id (run_tools a us)) (tool_result-id u (a.find_tool u.name))
    ∙ ap (λ ids. u.id ∷ ids) (run_tools-answers a us)

-- The ids of the tool calls that a conversation answers.
abbrev pub answered : List Message → List String
answered [] = []
answered (tool_results rs ∷ ms) = map result_id rs ++ answered ms
answered (user t ∷ ms) = answered ms
answered (assistant bs ∷ ms) = answered ms

append_assoc : (xs ys zs : List String) → (xs ++ ys) ++ zs ≡ xs ++ (ys ++ zs)
append_assoc [] ys zs = refl
append_assoc (x ∷ xs) ys zs = ap (λ l. x ∷ l) (append_assoc xs ys zs)

append_nil : (xs : List String) → xs ++ [] ≡ xs
append_nil [] = refl
append_nil (x ∷ xs) = ap (λ l. x ∷ l) (append_nil xs)

answered-append : (ms ns : List Message) → answered (ms ++ ns) ≡ answered ms ++ answered ns
answered-append [] ns = refl
answered-append (tool_results rs ∷ ms) ns =
    ap (λ l. map result_id rs ++ l) (answered-append ms ns)
    ∙ sym (append_assoc (map result_id rs) (answered ms) (answered ns))
answered-append (user t ∷ ms) ns = answered-append ms ns
answered-append (assistant bs ∷ ms) ns = answered-append ms ns

-- Where a reply with tool calls does not end the run: it had no emit and all its calls are answered,
-- or it had one and that is the only call answered.
abbrev pub Answers : Agent → List Message → List ToolUse → List Message → Type 0
Answers a messages uses after =
    ((find_emit a.emit_name uses ≡ none) × (answered after ≡ answered messages ++ map use_id uses))
    ⊎ ((emit : ToolUse) × (find_emit a.emit_name uses ≡ some emit)
        × (answered after ≡ answered messages ++ emit.id ∷ []))

abbrev AnswersOn : Agent → List Message → List ToolUse → Next → Type 0
AnswersOn a messages uses (ends e) = Unit
AnswersOn a messages uses (goes_on r after u) = Answers a messages uses after

rejection-Answers :
    (a : Agent) (messages : List Message) (uses : List ToolUse) (content : List Block)
    (emit : ToolUse) (why : String)
    → find_emit a.emit_name uses ≡ some emit
    → Answers a messages uses (messages ++ rejection content emit why)
rejection-Answers a messages uses content emit why h =
    inr (emit, h, answered-append messages (rejection content emit why))

on_emit-Answers :
    (a : Agent) (turn repair : ℕ) (low must : Bool) (messages : List Message) (usage : TokenUsage)
    (content : List Block) (uses : List ToolUse) (emit : ToolUse)
    → find_emit a.emit_name uses ≡ some emit
    → AnswersOn a messages uses (on_emit a turn repair low must messages usage content emit)
unfolding on_emit
on_emit-Answers a turn repair low must messages usage content uses emit h =
    let R = AnswersOn a messages uses in
    either_way R (not (is_ok (validate a.schema emit.input [])) && (repair == 0) && not low) _ _
      (rejection-Answers a messages uses content emit "Rejected" h)
      (either_way R (not must && ltb turn (min_evidence_turns a) && not low) _ _
        (rejection-Answers a messages uses content emit "Not yet" h) tt)

on_tool_uses-AnswersOn :
    (a : Agent) (turn repair : ℕ) (low must : Bool) (messages : List Message) (usage : TokenUsage)
    (content : List Block) (uses : List ToolUse)
    → AnswersOn a messages uses (on_tool_uses a turn repair low must messages usage content uses)
unfolding on_tool_uses
on_tool_uses-AnswersOn a turn repair low must messages usage content uses =
    elim (Option-cases (find_emit a.emit_name uses)) [
      | inl none_ ↦
          rw (none_, AnswersOn)
            (inl (
              none_,
              answered-append messages (assistant content ∷ tool_results (run_tools a uses) ∷ [])
                  ∙ ap (λ l. answered messages ++ l)
                      (append_nil (map result_id (run_tools a uses)) ∙ run_tools-answers a uses),
            ))
      | inr (emit, found) ↦
          rw (found, AnswersOn)
            (on_emit-Answers a turn repair low must messages usage content uses emit found)
    ]

-- Where a reply with tool calls does not end the run: it had no emit call and every call of it is
-- answered, in order, or it had one, which was sent back, and the emit call is the only one of the
-- reply that is answered.
pub on_tool_uses-Answers :
    (a : Agent) (turn repair repair' : ℕ) (low must : Bool) (messages after : List Message)
    (usage usage' : TokenUsage) (content : List Block) (uses : List ToolUse)
    → on_tool_uses a turn repair low must messages usage content uses ≡ goes_on repair' after usage'
    → Answers a messages uses after
on_tool_uses-Answers a turn repair repair' low must messages after usage usage' content uses e =
    subst (AnswersOn a messages uses) e
      (on_tool_uses-AnswersOn a turn repair low must messages usage content uses)
