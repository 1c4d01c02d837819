-- ===== src/Chat.antt =====
-- The chat about a finished analysis in apps/api-gateway/src/jobs/chat.service.ts: `ask`, `isOffTopic`,
-- `ensureGraph`, `doReindex`, `answerWithLoop`, `answerFromReport` and `runTool`.
-- The model, the tools, Redis, the download and the index are parameters: an answer is `none` where
-- the call rejects. The prompts' texts are parameters too; the requests of the loop are returned.
pub mod Bounds
pub mod Gate
pub mod Conversation
use codemind_backend.Common.{
  ℕ, zero, suc, Bool, true, false, not, ◌&&◌, ◌||◌, String, Option, none, some, List, [], ◌∷◌, ◌++◌,
  map, ◌==◌, if◌then◌else◌,
}
use codemind_backend.Json.{Value}
use codemind_backend.Text.{is_empty, trim, concat}
use codemind_backend.Agent.{
  Block, ToolUse, ToolResult, ToolOutcome, Message, user, assistant, tool_results, tool_uses,
  tool_result,
}
use codemind_backend.Dialect.{block_texts}
use text.Mathlib.Text.{starts_with}

-- What `answerWithLoop` calls: the model, with or without tools, and the tools.
pub record Assistant : Type 0 where
  pub converse : (with_tools : Bool) → List Message → Option (List Block)
  pub find_tool : String → Option (Value → ToolOutcome)

pub record Request : Type 0 where
  pub with_tools : Bool
  pub messages : List Message

-- How a loop ends: with an answer, or with a call of the model that rejected.
pub record LoopEnd : Type 0 where
  pub answer : Option String
  pub sent : List Request

unfoldable pub extract_text : List Block → String
extract_text content = trim (concat (block_texts content))

unfoldable pub run_tool : Assistant → ToolUse → ToolResult
run_tool a u = tool_result u (a.find_tool u.name)

abbrev pub or_text : String → String → String
or_text t fallback = if is_empty t then fallback else t

abbrev pub sending : Bool → List Message → LoopEnd → LoopEnd
sending with_tools ms r = record {
  answer = r.answer;
  sent = record { with_tools = with_tools; messages = ms } ∷ r.sent;
}

abbrev pub ended : Option String → LoopEnd
ended answer = record { answer = answer; sent = [] }

abbrev pub insist : List Message → List Message
insist convo =
    convo
    ++ user "Answer the question now using what you have read. Be specific and cite file:line." ∷ []

abbrev pub final_answer : List Block → String
final_answer content =
    or_text (extract_text content)
      "I read through the relevant code but couldn't compose an answer. Try rephrasing the question."

-- The call after the loop, that has no tools.
unfoldable pub force_answer : Assistant → List Message → LoopEnd
force_answer a convo = sending false (insist convo) (elim (a.converse false (insist convo)) [
  | none ↦ ended none
  | some content ↦ ended (some (final_answer content))
])

abbrev pub without_tools : List ToolUse → Bool
without_tools [] = true
without_tools (u ∷ us) = false

abbrev pub read_on : Assistant → List Message → List Block → List Message
read_on a convo content =
    convo ++ assistant content ∷ tool_results (map (run_tool a) (tool_uses content)) ∷ []

-- The turns of `answerWithLoop` that are left; without any, the answer is forced.
unfoldable pub answer_loop : Assistant → ℕ → List Message → LoopEnd
unfolding force_answer
answer_loop a zero convo = force_answer a convo
answer_loop a (suc left) convo =
    let last = left == 0 in
    sending (not last) convo (elim (a.converse (not last) convo) [
      | none ↦ ended none
      | some content ↦
          let goes_on = answer_loop a left (read_on a convo content) in
          if (without_tools (tool_uses content) || last) && not (is_empty (extract_text content))
          then ended (some (extract_text content))
          else if last
          then force_answer a (convo ++ assistant content ∷ [])
          else goes_on
    ])

-- MAX_TURNS is 6.
unfoldable pub answer_with_loop : Assistant → String → LoopEnd
unfolding answer_loop
answer_with_loop a prompt = answer_loop a 6 (user prompt ∷ [])

-- What `ensureGraph` and `doReindex` call.
pub record Checkout : Type 0 where
  pub stored_path : Option (Option String)
  pub exists_sync : String → Bool
  pub opens : String → Bool
  pub downloads : Option String
  pub indexes : String → Bool
  pub stores : String → Bool

unfoldable pub do_reindex : Checkout → Option String
do_reindex c = elim c.downloads [
  | none ↦ none
  | some path ↦ if c.indexes path && c.stores path then some path else none
]

abbrev pub opened : Checkout → Option String → Option String
opened c none = none
opened c (some path) = if is_empty path then none else if c.opens path then some path else none

-- The path that is kept, if it is not empty and exists, or else that of a new index.
unfoldable pub usable_path : Checkout → Option String → Option String
unfolding do_reindex
usable_path c none = do_reindex c
usable_path c (some path) =
    if is_empty path then do_reindex c else if c.exists_sync path then some path else do_reindex c

unfoldable pub ensure_graph : Checkout → Option String
unfolding usable_path
ensure_graph c = elim c.stored_path [ none ↦ none | some stored ↦ opened c (usable_path c stored) ]

-- `to_upper` is `toUpperCase`; a rejection lets the question through.
unfoldable pub is_off_topic : (String → String) → Option String → Bool
is_off_topic to_upper none = false
is_off_topic to_upper (some t) = starts_with (to_upper (trim t)) "REFUSE"

pub data Role : Type 0 where
  from_user from_assistant : Role

pub record ChatMessage : Type 0 where
  pub role : Role
  pub content : String

-- The last message of the user, trimmed; without any, the empty question.
unfoldable pub question_of : List ChatMessage → String
question_of ms = trim (last_asked "" ms)
  where
    last_asked : String → List ChatMessage → String
    last_asked q [] = q
    last_asked q (m ∷ rest) = elim m.role [
      | from_user ↦ last_asked m.content rest
      | from_assistant ↦ last_asked q rest
    ]

-- The job as `getJob` gives it, and whatever else a question needs: `gate` is the model's verdict
-- on its topic, `from_report` its answer from the report.
pub record Setting : Type 0 where
  pub job_found : Bool
  pub has_report : Bool
  pub gate : Option String
  pub checkout : Checkout
  pub assistant_of : String → Assistant
  pub prompt : String
  pub from_report : Option String
  pub refusal : String
  pub to_upper : String → String

pub data Answer : Type 0 where
  not_found : Answer
  bad_request : String → Answer
  refused : String → Answer
  answered : String → (used_graph : Bool) → Answer

-- The answer, and the requests that the loop sent.
pub record Asked : Type 0 where
  pub answer : Answer
  pub sent : List Request

abbrev pub reply_of : Option String → Bool → Answer
reply_of none used =
    bad_request "The assistant is unavailable right now. Please try again in a moment."
reply_of (some t) used = answered t used

unfoldable pub answer_from_report : Option String → Option String
answer_from_report none = none
answer_from_report (some t) = some (
    or_text (trim t)
      "I couldn't find anything in the analysis to answer that. Try asking about the architecture, security, dependencies, code quality, or docs.")

unfoldable pub answer_on : Setting → Option String → Asked
unfolding answer_with_loop answer_from_report
answer_on s none = record { answer = reply_of (answer_from_report s.from_report) false; sent = [] }
answer_on s (some path) =
    let r = answer_with_loop (s.assistant_of path) s.prompt in
    record { answer = reply_of r.answer true; sent = r.sent }

abbrev pub unsent : Answer → Asked
unsent a = record { answer = a; sent = [] }

unfoldable pub ask : Setting → List ChatMessage → Asked
unfolding answer_on ensure_graph is_off_topic question_of
ask s ms =
    if not s.job_found
    then unsent not_found
    else if not s.has_report
    then unsent (
        bad_request
          "The report for this job is not ready yet — analysis must finish before you can ask about it.")
    else if is_empty (question_of ms)
    then unsent (bad_request "Ask a question about this repository.")
    else if is_off_topic s.to_upper s.gate
    then unsent (refused s.refusal)
    else answer_on s (ensure_graph s.checkout)
