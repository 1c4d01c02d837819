-- ===== src/Chat/Conversation.antt =====
-- The requests that `answerWithLoop` of apps/api-gateway/src/jobs/chat.service.ts sends, in the dialect
-- of libs/common/src/llm/llm-client.service.ts.
use codemind_backend.Common.{
  ℕ, zero, suc, true, false, not, ◌&&◌, ◌||◌, String, Option, none, some, List, [], ◌∷◌, ◌++◌, map,
  All, All-map, ◌==◌, ◌≡◌, inl, inr, refl, sym, ◌∙◌, arith, subst, either_known, either_way,
  Option-cases, if◌then◌else◌,
}
use codemind_backend.Text.{is_empty}
use codemind_backend.Json.{Value}
use codemind_backend.Agent.{
  Block, ToolUse, ToolOutcome, returns, throws, Message, user, assistant, tool_results, tool_uses,
  tool_result, outcome_result,
}
use codemind_backend.Agent.Answers.{result_id, use_id}
use codemind_backend.Dialect.{Codec, to_mistral_messages, param_of}
use codemind_backend.Dialect.Valid.{Follows, Owes, Owes-append, to_mistral_messages-Follows}
use codemind_backend.Chat.{
  Assistant, LoopEnd, Request, extract_text, run_tool, sending, ended, insist, force_answer,
  without_tools, read_on, answer_loop, answer_with_loop,
}

-- A model that calls no tool where it is offered none.
pub record Obeys (a : Assistant) : Type 0 where
  pub quiet :
      (ms : List Message) (content : List Block)
      → a.converse false ms ≡ some content
      → tool_uses content ≡ []

abbrev Sent : LoopEnd → Type 0
Sent r = All (λ q. Owes [] q.messages) r.sent

tool_result-id :
    (u : ToolUse) (o : Option (Value → ToolOutcome)) → result_id (tool_result u o) ≡ u.id
tool_result-id u none = refl
tool_result-id u (some run) = go (run u.input)
  where
    go : (o : ToolOutcome) → result_id (outcome_result u.id o) ≡ u.id
    go (returns t) = refl
    go (throws t) = refl

run_tool-ids :
    (a : Assistant) (us : List ToolUse) → map result_id (map (run_tool a) us) ≡ map use_id us
unfolding run_tool
run_tool-ids a [] = refl
run_tool-ids a (u ∷ us) = rw (tool_result-id u (a.find_tool u.name), run_tool-ids a us) refl

read_on-Owes :
    (a : Assistant) (convo : List Message) (content : List Block)
    → Owes [] convo
    → Owes [] (read_on a convo content)
read_on-Owes a convo content h = Owes-append [] convo _ h (run_tool-ids a (tool_uses content), tt)

insist-Owes : (convo : List Message) → Owes [] convo → Owes [] (insist convo)
insist-Owes convo h = Owes-append [] convo _ h tt

quiet-Owes :
    (convo : List Message) (content : List Block)
    → tool_uses content ≡ []
    → Owes [] convo
    → Owes [] (convo ++ assistant content ∷ [])
quiet-Owes convo content e h =
    Owes-append [] convo _ h (subst (λ us. Owes (map use_id us) []) (sym e) tt)

force_answer-Sent :
    (a : Assistant) (convo : List Message) → Owes [] convo → Sent (force_answer a convo)
unfolding force_answer
force_answer-Sent a convo h = elim (Option-cases (a.converse false (insist convo))) [
  | inl e ↦ rw (e, force_answer) (insist-Owes convo h, tt)
  | inr (content, e) ↦ rw (e, force_answer) (insist-Owes convo h, tt)
]

answer_loop-Sent :
    (a : Assistant)
    → Obeys a
    → (left : ℕ) (convo : List Message) → Owes [] convo
    → Sent (answer_loop a left convo)
unfolding answer_loop
answer_loop-Sent a o zero convo h = force_answer-Sent a convo h
answer_loop-Sent a o (suc left) convo h = elim (Option-cases (a.converse (not (left == 0)) convo)) [
  | inl e ↦ rw (e, answer_loop) (h, tt)
  | inr (content, e) ↦
      rw (e, answer_loop)
        (
          h,
          either_way Sent
              ((without_tools (tool_uses content) || left == 0)
                && not (is_empty (extract_text content)))
              _ _ tt
              (either_known Sent (left == 0) _ _
                (λ last.
                  force_answer-Sent a _
                    (quiet-Owes convo content (o.quiet convo content (rw last at e)) h))
                (λ more. answer_loop-Sent a o left _ (read_on-Owes a convo content h))),
        )
]

abbrev pub Translated : Codec → String → Request → Type 0
Translated k system q = Follows [] (to_mistral_messages k system (map param_of q.messages))

-- Where the model calls no tool when it is offered none, every request that the loop sends is
-- translated to a conversation that keeps the ordering rule of the dialect: each tool call is
-- answered, in order, before anything else is said.
pub answer_with_loop-Follows :
    (a : Assistant) (k : Codec) (system prompt : String)
    → Obeys a
    → All (Translated k system) (answer_with_loop a prompt).sent
unfolding answer_with_loop
answer_with_loop-Follows a k system prompt o =
    All-map {A = Request} _ _ (answer_loop a 6 (user prompt ∷ [])).sent
      (λ q. to_mistral_messages-Follows k system q.messages)
      (answer_loop-Sent a o 6 (user prompt ∷ []) tt)

answer_loop-step :
    (a : Assistant) (left : ℕ) (convo : List Message) (content : List Block)
    → a.converse (not (left == 0)) convo ≡ some content
    → answer_loop a (suc left) convo
      ≡ sending (not (left == 0)) convo (
          if (without_tools (tool_uses content) || left == 0)
            && not (is_empty (extract_text content))
          then ended (some (extract_text content))
          else if left == 0
          then force_answer a (convo ++ assistant content ∷ [])
          else answer_loop a left (read_on a convo content))
unfolding answer_loop
answer_loop-step a left convo content e = rw (e, answer_loop) refl

-- A reply of a turn that is not the last, with neither a tool call nor text, is answered by a user
-- message without any content, and the loop goes on.
pub answer_loop-silent :
    (a : Assistant) (left : ℕ) (convo : List Message) (content : List Block)
    → a.converse true convo ≡ some content
    → tool_uses content ≡ []
    → is_empty (extract_text content) ≡ true
    → answer_loop a (suc (suc left)) convo
      ≡ sending true convo
          (answer_loop a (suc left) (convo ++ assistant content ∷ tool_results [] ∷ []))
answer_loop-silent a left convo content e quiet silent =
    let more : (suc left == 0) ≡ false = ground arith in
    answer_loop-step a (suc left) convo content (rw more e) ∙ rw (more, silent, quiet) refl
