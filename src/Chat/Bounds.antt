-- ===== src/Chat/Bounds.antt =====
-- How far a question goes in `answerWithLoop` of apps/api-gateway/src/jobs/chat.service.ts.
use codemind_backend.Common.{
  ℕ, zero, suc, ◌≤◌, Bool, true, false, not, ◌&&◌, ◌||◌, String, none, some, List, [], ◌∷◌, length,
  ◌==◌, ◌≡◌, inl, inr, refl, sym, arith, either_known, either_way, Option-cases,
}
use mathlib.Core.Option.{some-injective}
use codemind_backend.Text.{is_empty}
use codemind_backend.Agent.{Block, Message, user, tool_uses}
use codemind_backend.Chat.{
  Assistant, LoopEnd, extract_text, sending, ended, insist, final_answer, force_answer,
  without_tools, answer_loop, answer_with_loop,
}

-- A loop that sent no more than so many requests, and whose answer, if it has one, is not empty.
pub record Short (n : ℕ) (r : LoopEnd) : Type 0 where
  pub few : length r.sent ≤ n
  pub said : (t : String) → r.answer ≡ some t → is_empty t ≡ false

sending-Short :
    (n : ℕ) (b : Bool) (ms : List Message) (r : LoopEnd)
    → Short n r
    → Short (suc n) (sending b ms r)
sending-Short n b ms r s = record { few = omega (arith, s.few); said = s.said }

thrown-Short : (n : ℕ) → Short n (ended none)
thrown-Short n = record { few = omega arith; said = λ t e. absurd cc }

said-Short : (n : ℕ) (t : String) → is_empty t ≡ false → Short n (ended (some t))
said-Short n t h = record { few = omega arith; said = λ u e. rw (sym (some-injective t u e)) h }

final_answer-said : (content : List Block) → is_empty (final_answer content) ≡ false
unfolding is_empty
final_answer-said content =
    either_known (λ t. is_empty t ≡ false) (is_empty (extract_text content)) _ _ (λ e. refl)
      (λ e. e)

force_answer-Short : (a : Assistant) (convo : List Message) → Short 1 (force_answer a convo)
unfolding force_answer
force_answer-Short a convo = elim (Option-cases (a.converse false (insist convo))) [
  | inl e ↦ rw (e, force_answer) (sending-Short 0 _ _ _ (thrown-Short 0))
  | inr (content, e) ↦
      rw (e, force_answer) (sending-Short 0 _ _ _ (said-Short 0 _ (final_answer-said content)))
]

not-empty : (b c : Bool) → b && not c ≡ true → c ≡ false
not-empty true true h = sym h
not-empty true false h = refl
not-empty false c h = absurd cc

answer_loop-Short :
    (a : Assistant) (left : ℕ) (convo : List Message) → Short (suc left) (answer_loop a left convo)
unfolding answer_loop
answer_loop-Short a zero convo = force_answer-Short a convo
answer_loop-Short a (suc left) convo = elim (Option-cases (a.converse (not (left == 0)) convo)) [
  | inl e ↦ rw (e, answer_loop) (sending-Short (suc left) _ _ _ (thrown-Short (suc left)))
  | inr (content, e) ↦
      rw (e, answer_loop)
        (sending-Short (suc left) _ _ _ (
          either_known (Short (suc left))
            ((without_tools (tool_uses content) || left == 0)
              && not (is_empty (extract_text content)))
            _ _ (λ h. said-Short (suc left) _ (not-empty _ _ h))
            (λ h.
              either_way (Short (suc left)) (left == 0) _ _ (wider left _ (force_answer-Short a _))
                (answer_loop-Short a left _))))
]
  where
    wider : (n : ℕ) (r : LoopEnd) → Short 1 r → Short (suc n) r
    wider n r s = record { few = omega (arith, s.few); said = s.said }

-- A question to the loop costs at most 7 calls of the model, whatever the model and the tools
-- answer, and its answer, if no call rejects, is never the empty text.
pub answer_with_loop-Short : (a : Assistant) (prompt : String) → Short 7 (answer_with_loop a prompt)
unfolding answer_with_loop
answer_with_loop-Short a prompt = answer_loop-Short a 6 (user prompt ∷ [])
