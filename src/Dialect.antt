-- ===== src/Dialect.antt =====
-- The translation of libs/common/src/llm/llm-client.service.ts between the content blocks that the
-- agents speak and the chat-completions dialect of OpenAI and Mistral.
-- JSON.stringify and JSON.parse are a parameter, the record `Codec`.
pub mod Calls
pub mod Loop
pub mod Valid
use codemind_backend.Common.{
  ℕ, Bool, true, false, String, Option, none, some, List, [], ◌∷◌, ◌++◌, map, str_eq, str_append,
  if◌then◌else◌,
}
use codemind_backend.Tokens.{TokenUsage, or_zero}
use codemind_backend.Json.{Value, end}
use codemind_backend.Agent.{
  Block, text, tool_use, other, ToolUse, ToolResult, Message, tool_results,
}

pub record Codec : Type 0 where
  pub stringify : Value → String
  pub parse : String → Option Value

-- The content of a `tool_result`: a string, or blocks, of which `none` is one that is not text.
pub data Content : Type 0 where
  plain : String → Content
  blocks : List (Option String) → Content

pub data Part : Type 0 where
  result : (tool_use_id : String) → Content → (is_error : Bool) → Part
  said : String → Part
  skipped : Part

-- `Anthropic.MessageParam`
pub data Param : Type 0 where
  user_text : String → Param
  user_parts : List Part → Param
  assistant_text : String → Param
  assistant_blocks : List Block → Param

pub record Call : Type 0 where
  pub id : String
  pub name : String
  pub arguments : String

-- `MistralMessage`; an assistant without calls has an empty list.
pub data DialectMessage : Type 0 where
  system : String → DialectMessage
  user : String → DialectMessage
  tool : (tool_call_id content : String) → DialectMessage
  assistant : (content : String) → (tool_calls : List Call) → DialectMessage

-- `parts.join('\n')`
unfoldable pub join_lines : List String → String
join_lines [] = ""
join_lines (x ∷ []) = x
join_lines (x ∷ y ∷ ys) = str_append x (str_append "\n" (join_lines (y ∷ ys)))

abbrev pub text_or_empty : Option String → String
text_or_empty none = ""
text_or_empty (some t) = t

abbrev pub raw_text : Content → String
raw_text (plain t) = t
raw_text (blocks ts) = join_lines (map text_or_empty ts)

-- `toolResultText`
unfoldable pub tool_result_text : Content → Bool → String
tool_result_text c is_error = if is_error then str_append "ERROR: " (raw_text c) else raw_text c

-- The results of a user message, and the text that stands beside them.
abbrev pub tool_messages : List Part → List DialectMessage
tool_messages [] = []
tool_messages (result id c e ∷ ps) = tool id (tool_result_text c e) ∷ tool_messages ps
tool_messages (said t ∷ ps) = tool_messages ps
tool_messages (skipped ∷ ps) = tool_messages ps

abbrev pub said_texts : List Part → List String
said_texts [] = []
said_texts (said t ∷ ps) = t ∷ said_texts ps
said_texts (result id c e ∷ ps) = said_texts ps
said_texts (skipped ∷ ps) = said_texts ps

abbrev pub trailing_user : List String → List DialectMessage
trailing_user [] = []
trailing_user (t ∷ ts) = user (join_lines (t ∷ ts)) ∷ []

-- `input ?? {}`
abbrev pub or_empty : Value → Value
or_empty Value.undefined = Value.object end
or_empty Value.null = Value.object end
or_empty v = v

abbrev pub block_texts : List Block → List String
block_texts [] = []
block_texts (text t ∷ bs) = t ∷ block_texts bs
block_texts (tool_use u ∷ bs) = block_texts bs
block_texts (other ∷ bs) = block_texts bs

abbrev pub call_of : Codec → ToolUse → Call
call_of k u = record { id = u.id; name = u.name; arguments = k.stringify (or_empty u.input) }

abbrev pub block_calls : Codec → List Block → List Call
block_calls k [] = []
block_calls k (tool_use u ∷ bs) = call_of k u ∷ block_calls k bs
block_calls k (text t ∷ bs) = block_calls k bs
block_calls k (other ∷ bs) = block_calls k bs

abbrev pub assistant_message : Codec → List Block → DialectMessage
assistant_message k bs = assistant (join_lines (block_texts bs)) (block_calls k bs)

-- The messages that one message becomes.
abbrev pub translate : Codec → Param → List DialectMessage
translate k (user_text t) = user t ∷ []
translate k (user_parts ps) = tool_messages ps ++ trailing_user (said_texts ps)
translate k (assistant_text t) = assistant_message k (text t ∷ []) ∷ []
translate k (assistant_blocks bs) = assistant_message k bs ∷ []

abbrev pub translate_all : Codec → List Param → List DialectMessage
translate_all k [] = []
translate_all k (m ∷ ms) = translate k m ++ translate_all k ms

-- `toMistralMessages`
unfoldable pub to_mistral_messages : Codec → String → List Param → List DialectMessage
to_mistral_messages k prompt ms = system prompt ∷ translate_all k ms

-- What the SDK answers with; a call of another type than `function` is `other_call`.
pub data ReplyCall : Type 0 where
  function_call : Call → ReplyCall
  other_call : ReplyCall

pub record Completion : Type 0 where
  pub content : Option String
  pub tool_calls : List ReplyCall
  pub prompt_tokens : Option ℕ
  pub completion_tokens : Option ℕ

abbrev pub parsed_or_empty : Option Value → Value
parsed_or_empty none = Value.object end
parsed_or_empty (some v) = v

-- `parseToolArgs`
unfoldable pub parse_tool_args : Codec → String → Value
parse_tool_args k args = if str_eq args "" then Value.object end else parsed_or_empty (k.parse args)

-- `if (message?.content && …)`
unfoldable pub spoken : Option String → List Block
spoken none = []
spoken (some t) = if str_eq t "" then [] else text t ∷ []

abbrev pub use_of : Codec → Call → ToolUse
use_of k c = record { id = c.id; name = c.name; input = parse_tool_args k c.arguments }

abbrev pub called : Codec → List ReplyCall → List Block
called k [] = []
called k (function_call c ∷ cs) = tool_use (use_of k c) ∷ called k cs
called k (other_call ∷ cs) = called k cs

-- The content and the usage that `converseOpenAiDialect` makes of the SDK's answer.
unfoldable pub read_content : Codec → Completion → List Block
read_content k r = spoken r.content ++ called k r.tool_calls

unfoldable pub read_completion_usage : Completion → TokenUsage
read_completion_usage r = record {
  input = or_zero r.prompt_tokens;
  output = or_zero r.completion_tokens;
  cache_creation = some 0;
  cache_read = some 0;
}

-- A message of the agents' loop, as the loop hands it to the client.
abbrev pub part_of : ToolResult → Part
part_of r = result r.tool_use_id (plain r.content) r.is_error

abbrev pub param_of : Message → Param
param_of (Message.user t) = user_text t
param_of (Message.assistant bs) = assistant_blocks bs
param_of (tool_results rs) = user_parts (map part_of rs)
