-- ===== src/Chat/Gate.antt =====
-- What `ask` of apps/api-gateway/src/jobs/chat.service.ts lets through to the model.
use mathlib.Core.Option.{some-injective}
use codemind_backend.Common.{
  subst, ◌≤◌, Bool, true, false, not, String, Option, none, some, List, [], length, ◌≡◌, ◌⊎◌, inl,
  inr, refl, sym, arith, either_known,
}
use codemind_backend.Text.{is_empty, trim}
use codemind_backend.Chat.{
  Setting, Answer, Asked, ChatMessage, answered, unsent, reply_of, answer_from_report, answer_on,
  ask, ensure_graph, is_off_topic, question_of,
}
use codemind_backend.Chat.Bounds.{answer_with_loop-Short}

-- What the loop may be called for.
pub record Admitted (s : Setting) (ms : List ChatMessage) : Type 0 where
  pub found : s.job_found ≡ true
  pub reported : s.has_report ≡ true
  pub asked : is_empty (question_of ms) ≡ false
  pub on_topic : is_off_topic s.to_upper s.gate ≡ false

-- The answers that a question may get: none of them is empty, at most 7 calls were made, and where
-- any was, the question was admitted and its graph is open.
pub record Guarded (s : Setting) (ms : List ChatMessage) (r : Asked) : Type 0 where
  pub few : length r.sent ≤ 7
  pub free :
      (r.sent ≡ []) ⊎ (Admitted s ms × ((path : String) × (ensure_graph s.checkout ≡ some path)))
  pub said : (t : String) (used : Bool) → r.answer ≡ answered t used → is_empty t ≡ false

unsent-Guarded :
    (s : Setting) (ms : List ChatMessage) (a : Answer)
    → ((t : String) (used : Bool) → a ≡ answered t used → is_empty t ≡ false)
    → Guarded s ms (unsent a)
unsent-Guarded s ms a h = record { few = omega arith; free = inl refl; said = h }

reply_of-said :
    (o : Option String) (b : Bool)
    → ((t : String) → o ≡ some t → is_empty t ≡ false)
    → (t : String) (used : Bool) → reply_of o b ≡ answered t used
    → is_empty t ≡ false
reply_of-said none b h t used e = absurd cc
reply_of-said (some u) b h t used e = h t cc

answer_from_report-said :
    (o : Option String) (t : String) → answer_from_report o ≡ some t → is_empty t ≡ false
unfolding answer_from_report is_empty
answer_from_report-said none t e = absurd cc
answer_from_report-said (some u) t e =
    subst (λ x. is_empty x ≡ false) (some-injective _ t e)
      (either_known (λ x. is_empty x ≡ false) (is_empty (trim u)) _ _ (λ h. refl) (λ h. h))

answer_on-Guarded :
    (s : Setting) (ms : List ChatMessage)
    → Admitted s ms
    → (o : Option String) → ensure_graph s.checkout ≡ o
    → Guarded s ms (answer_on s o)
unfolding answer_on
answer_on-Guarded s ms ad none e =
    unsent-Guarded s ms _ (reply_of-said _ false (answer_from_report-said s.from_report))
answer_on-Guarded s ms ad (some path) e =
    let r = answer_with_loop-Short (s.assistant_of path) s.prompt in
    record { few = r.few; free = inr (ad, (path, e)); said = reply_of-said _ true r.said }

flip : (b : Bool) → not b ≡ false → b ≡ true
flip true h = refl
flip false h = sym h

-- Whatever the model, the tools, Redis and the download answer: a question about a job that the
-- user does not own, one without a report, an empty one and one that the gate refuses make no call
-- of the loop's model; the others at most 7, and those only on a graph that was opened. No answer
-- is the empty text.
pub ask-Guarded : (s : Setting) (ms : List ChatMessage) → Guarded s ms (ask s ms)
unfolding ask
ask-Guarded s ms =
    either_known (Guarded s ms) (not s.job_found) _ _
      (λ e. unsent-Guarded s ms _ (λ t u d. absurd cc))
      (λ found.
        either_known (Guarded s ms) (not s.has_report) _ _
          (λ e. unsent-Guarded s ms _ (λ t u d. absurd cc))
          (λ reported.
            either_known (Guarded s ms) (is_empty (question_of ms)) _ _
              (λ e. unsent-Guarded s ms _ (λ t u d. absurd cc))
              (λ asked.
                either_known (Guarded s ms) (is_off_topic s.to_upper s.gate) _ _
                  (λ e. unsent-Guarded s ms _ (λ t u d. absurd cc))
                  (λ on_topic.
                    answer_on-Guarded s ms
                      (record {
                        found = flip _ found;
                        reported = flip _ reported;
                        asked = asked;
                        on_topic = on_topic;
                      })
                      _ refl))))
