-- ===== src/Tests/Conversations.antt =====
-- The dialect, the chat and the schemas of the tools at concrete values.
use mathlib.Core.Option.{some-injective}
use codemind_backend.Common.{
  true, false, none, some, List, [], ◌∷◌, map, All, ◌⊎◌, ◌≡◌, refl, ap, sym,
}
use codemind_backend.Tokens.{TokenUsage, no_tokens, add_tokens, total_tokens}
use codemind_backend.Json.{Value, nil, cons, end, field, property}
use codemind_backend.Schema.{
  Spec, str, num, arr, optional, obj, prop, empty, validate, is_optional, ok,
}
use codemind_backend.Schema.Published.{json_schema, properties_of, required_of}
use codemind_backend.Schema.Refines.{
  Satisfies, string_, items_, item_, no_items, fields_, has, lacks, fitted, json_schema-Refines,
}
use codemind_backend.Agent.{
  Agent, Block, text, tool_use, tool_uses, ToolUse, Message, user, assistant, tool_results, reply,
  alive, returns, goes_on, take_turn, on_reply, on_tool_uses, find_emit, on_emit,
}
use codemind_backend.Dialect.{Codec, to_mistral_messages, param_of}
use codemind_backend.Dialect.Valid.{Follows}
use codemind_backend.Dialect.Loop.{begins, goes, Crowded, Turns-Follows}
use codemind_backend.Chat.{
  Assistant, Checkout, Setting, ChatMessage, from_user, ask, answer_with_loop, answered,
  question_of, is_off_topic, ensure_graph, do_reindex, usable_path, answer_on, answer_loop,
  extract_text, run_tool,
}
use codemind_backend.Chat.Gate.{Guarded, ask-Guarded}
use codemind_backend.Chat.Conversation.{Obeys, Translated, answer_with_loop-Follows}
use codemind_backend.Text.{trim, trim_start, trim_end, is_space, is_empty, concat}

-- A codec of the empty object.
abbrev codec : Codec
codec = record { stringify = λ v. "{}"; parse = λ s. some (Value.object end) }

abbrev search : ToolUse
search = record { id = "u2"; name = "search_nodes"; input = Value.null }

abbrev said : List Block
said = text "Reading." ∷ tool_use search ∷ []

abbrev emit : ToolUse
emit = record {
  id = "u1";
  name = "emit_docs";
  input = Value.object (field "summary" (Value.string "short") end);
}

abbrev spent : TokenUsage
spent = record { input = 50; output = 10; cache_creation = none; cache_read = none }

-- A model that emits, and does nothing else.
abbrev hasty : Agent
hasty = record {
  emit_name = "emit_docs";
  schema = obj (prop "summary" str empty);
  max_turns = 3;
  evidence_turns = 2;
  token_budget = 60000;
  has_tools = true;
  check_alive = λ turn. alive;
  converse = λ turn ms forced. reply (tool_use emit ∷ []) spent;
  find_tool = λ name. none;
}

abbrev sent_back : List Message
sent_back =
    user "Analyse."
    ∷ assistant (tool_use emit ∷ [])
    ∷ tool_results (record { tool_use_id = "u1"; content = "Not yet"; is_error = true } ∷ [])
    ∷ []

hasty_goes_on :
    take_turn hasty 1 0 (user "Analyse." ∷ []) no_tokens
    ≡ goes_on 0 sent_back (add_tokens no_tokens spent)
unfolding take_turn on_reply on_tool_uses find_emit on_emit validate property total_tokens no_tokens
    add_tokens
hasty_goes_on = refl

Turns-Follows_example :
    Follows [] (to_mistral_messages codec "system" (map param_of sent_back))
    ⊎ Crowded hasty "Analyse." 2
Turns-Follows_example =
    Turns-Follows codec "system" hasty "Analyse." 2 0 sent_back (add_tokens no_tokens spent)
      (goes begins hasty_goes_on)

abbrev findings : Spec
findings = obj (prop "summary" str (prop "steps" (arr str) (prop "score" (optional num) empty)))

abbrev good : Value
good = Value.object (
    field "steps" (Value.array (cons (Value.string "read") nil))
      (field "summary" (Value.string "short") end))

good-Satisfies : Satisfies (json_schema findings) good
unfolding json_schema properties_of required_of property is_optional
good-Satisfies =
    fields_
      (has (λ e. cc) string_ (has (λ e. cc) (items_ (item_ string_ no_items)) (lacks refl fitted)))
      ((λ e. cc), ((λ e. cc), tt)) (refl, (refl, tt))

json_schema-Refines_example : (w : Value) × (validate findings good [] ≡ ok w)
json_schema-Refines_example = json_schema-Refines findings good [] good-Satisfies

-- A model that reads once and then answers, and never calls a tool that it is not offered.
abbrev chatting : Assistant
chatting = record {
  converse = λ with_tools ms. elim with_tools [
    | true ↦ some (text " " ∷ tool_use search ∷ [])
    | false ↦ some (text " The guard is missing. " ∷ [])
  ];
  find_tool = λ name. some (λ input. returns "found");
}

chatting-Obeys : Obeys chatting
chatting-Obeys = record {
  quiet = λ ms content same.
      let c : text " The guard is missing. " ∷ [] ≡ content = some-injective _ content same in
      sym (ap tool_uses c);
}

answer_with_loop-Follows_example :
    All (Translated codec "system") (answer_with_loop chatting "Where is the guard?").sent
answer_with_loop-Follows_example =
    answer_with_loop-Follows chatting codec "system" "Where is the guard?" chatting-Obeys

abbrev checkout : Checkout
checkout = record {
  stored_path = some none;
  exists_sync = λ p. false;
  opens = λ p. true;
  downloads = some "/tmp/repos/1-chat";
  indexes = λ p. true;
  stores = λ p. true;
}

abbrev setting : Setting
setting = record {
  job_found = true;
  has_report = true;
  gate = some " ALLOW";
  checkout = checkout;
  assistant_of = λ path. chatting;
  prompt = "Where is the guard?";
  from_report = none;
  refusal = "I can only answer questions about this repository.";
  to_upper = λ s. s;
}

abbrev question : List ChatMessage
question = record { role = from_user; content = " Where is the guard? " } ∷ []

is_answered : (ask setting question).answer ≡ answered "The guard is missing." true
unfolding ask question_of is_off_topic ensure_graph usable_path do_reindex answer_on
    answer_with_loop answer_loop extract_text run_tool trim trim_start trim_end is_space is_empty
    concat
is_answered = refl

ask-Guarded_example : Guarded setting question (ask setting question)
ask-Guarded_example = ask-Guarded setting question
