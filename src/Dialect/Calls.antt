-- ===== src/Dialect/Calls.antt =====
-- What survives the way to the dialect of libs/common/src/llm/llm-client.service.ts and back.
use codemind_backend.Common.{String, Option, none, some, List, [], map, ◌≡◌, ◌≢◌}
use codemind_backend.Agent.{ToolUse}
use codemind_backend.Dialect.{
  Codec, DialectMessage, system, user, tool, assistant, Call, or_empty, function_call, Completion,
}

-- The arguments of a call survive JSON: they are written as a text that is not empty and that parses
-- to them.
abbrev pub Survives : Codec → ToolUse → Type 0
Survives k u =
    (k.stringify (or_empty u.input) ≢ "")
    × (k.parse (k.stringify (or_empty u.input)) ≡ some (or_empty u.input))

-- A message of the dialect, as the SDK would answer with it; only an assistant's carries anything.
abbrev pub completion_of : Option String → List Call → Completion
completion_of content calls = record {
  content = content;
  tool_calls = map function_call calls;
  prompt_tokens = none;
  completion_tokens = none;
}

abbrev pub echoed : DialectMessage → Completion
echoed (assistant content calls) = completion_of (some content) calls
echoed (system t) = completion_of none []
echoed (user t) = completion_of none []
echoed (tool id t) = completion_of none []

-- A call whose missing arguments are the empty object.
abbrev pub normalized : ToolUse → ToolUse
normalized u = record u { input = or_empty u.input }
