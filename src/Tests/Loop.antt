-- ===== src/Tests/Loop.antt =====
-- The evidence loop of an agent with small scripted models.
use codemind_backend.Common.{
  ℕ, true, false, none, some, List, [], ◌∷◌, ◌≡◌, ◌≢◌, refl, subst, arith,
}
use codemind_backend.Tokens.{TokenUsage, no_tokens, add_tokens}
use codemind_backend.Json.{Value, end, field, property}
use codemind_backend.Schema.{str, obj, prop, empty, validate}
use codemind_backend.Agent.{
  Agent, Block, tool_use, tool_uses, ToolUse, Message, reply, alive, returns, gave_up,
  never_emitted, goes_on, run, on_tool_uses, find_emit, on_emit, rejection,
}
use codemind_backend.Agent.Input.{Context}
use codemind_backend.Agent.Ending.{Timely, run-Timely}
use codemind_backend.Agent.Protocol.{Obeys, run-Spoken}
use codemind_backend.Agent.Answers.{Answers, on_tool_uses-Answers}

abbrev payload : Value
payload = Value.object (field "summary" (Value.string "short") end)

abbrev emit : ToolUse
emit = record { id = "u1"; name = "emit_docs"; input = payload }

abbrev search : ToolUse
search = record { id = "u2"; name = "search_nodes"; input = Value.null }

abbrev spent : TokenUsage
spent = record { input = 50; output = 10; cache_creation = none; cache_read = none }

-- A model that emits on every turn.
abbrev eager : Agent
eager = record {
  emit_name = "emit_docs";
  schema = obj (prop "summary" str empty);
  max_turns = 3;
  evidence_turns = 2;
  token_budget = 60000;
  has_tools = true;
  check_alive = λ turn. alive;
  converse = λ turn ms forced. reply (tool_use emit ∷ tool_use search ∷ []) spent;
  find_tool = λ name. some (λ input. returns "found");
}

run-Timely_example : Timely eager (run eager "Analyse.")
run-Timely_example = run-Timely eager "Analyse."

abbrev usage_of_two : TokenUsage
usage_of_two = add_tokens (add_tokens no_tokens spent) spent

eager-forced :
    (content : List Block) (u : TokenUsage)
    → reply (tool_use emit ∷ tool_use search ∷ []) spent ≡ reply content u
    → find_emit "emit_docs" (tool_uses content) ≢ none
unfolding find_emit
eager-forced content u e =
    let same : tool_use emit ∷ tool_use search ∷ [] ≡ content = cc in
    subst (λ c. find_emit "emit_docs" (tool_uses c) ≢ none) same (λ n. cc)

eager-Obeys : Obeys eager
eager-Obeys = record {
  some_turn = omega arith;
  forced = λ turn ms content u e. eager-forced content u e;
}

run-Spoken_example : run eager "Analyse." ≢ gave_up never_emitted no_tokens
run-Spoken_example = run-Spoken eager "Analyse." no_tokens eager-Obeys

abbrev sent_back : List Message
sent_back = rejection (tool_use search ∷ tool_use emit ∷ []) emit "Not yet"

early_emit :
    on_tool_uses eager 1 0 false false [] spent
      (tool_use search ∷ tool_use emit ∷ [])
      (search ∷ emit ∷ [])
    ≡ goes_on 0 sent_back spent
unfolding on_tool_uses on_emit find_emit validate property
early_emit = refl

on_tool_uses-Answers_example : Answers eager [] (search ∷ emit ∷ []) sent_back
on_tool_uses-Answers_example =
    on_tool_uses-Answers eager 1 0 0 false false [] sent_back spent spent
      (tool_use search ∷ tool_use emit ∷ []) (search ∷ emit ∷ []) early_emit

-- A body that shows the graph's context behind a title.
abbrev titled : Context → List ℕ
titled c = 35 ∷ 32 ∷ c.graph_context

abbrev small : Context
small = record { graph_context = 1 ∷ []; additional_context = []; file_tree = 2 ∷ 3 ∷ [] }
