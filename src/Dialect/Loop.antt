-- ===== src/Dialect/Loop.antt =====
-- The conversations that `run` of apps/agent-worker/src/agents/base.agent.ts sends, in the dialect of
-- libs/common/src/llm/llm-client.service.ts.
use mathlib.Core.Option.{some-injective}
use codemind_backend.Common.{
  either_way, either_known, ◌⊎◌, ◌<◌, ◌≤◌, none, length, str_eq, ap, arith, ℕ, suc, Bool, true, not,
  ◌&&◌, String, some, List, [], ◌∷◌, ◌++◌, map, ◌≡◌, inl, inr, refl, sym, subst, ltb, ◌==◌,
}
use codemind_backend.Tokens.{TokenUsage, no_tokens}
use codemind_backend.Schema.{validate}
use codemind_backend.Agent.{
  Agent, Block, ToolUse, Message, user, tool_results, tool_uses, reply, RunEnd, goes_on, find_emit,
  on_emit, take_turn, nudge, rejection, is_ok, min_evidence_turns, must_finish_at,
}
use codemind_backend.Agent.Answers.{use_id, run_tools-answers}
use codemind_backend.Agent.Induction.{Leads, Kept, take_turn-Leads}
use codemind_backend.Dialect.{Codec, to_mistral_messages, param_of}
use codemind_backend.Dialect.Valid.{Follows, Owes, Owes-append, to_mistral_messages-Follows}

-- The states in which the loop takes a turn, from its first message on.
pub data Turns (a : Agent) (first_message : String)
    : ℕ → ℕ → List Message → TokenUsage → Type 0 where
  begins : Turns a first_message 1 0 (user first_message ∷ []) no_tokens
  goes :
      {turn repair repair' : ℕ} {ms ms' : List Message} {u u' : TokenUsage}
      → Turns a first_message turn repair ms u
      → take_turn a turn repair ms u ≡ goes_on repair' ms' u'
      → Turns a first_message (suc turn) repair' ms' u'

-- Before a turn, a reply of the run called the emit tool and another one beside it.
pub record Crowded (a : Agent) (first_message : String) (before : ℕ) : Type 0 where
  pub turn : ℕ
  pub repair : ℕ
  pub messages : List Message
  pub usage : TokenUsage
  pub spent : TokenUsage
  pub content : List Block
  pub emit : ToolUse
  pub earlier : turn < before
  pub taken : Turns a first_message turn repair messages usage
  pub said : a.converse turn messages (must_finish_at a turn repair usage) ≡ reply content spent
  pub found : find_emit a.emit_name (tool_uses content) ≡ some emit
  pub others : 2 ≤ length (tool_uses content)

Crowded-later :
    {a : Agent} {first_message : String} {n : ℕ}
    → Crowded a first_message n
    → Crowded a first_message (suc n)
Crowded-later c = record {
  turn = c.turn;
  repair = c.repair;
  messages = c.messages;
  usage = c.usage;
  spent = c.spent;
  content = c.content;
  emit = c.emit;
  earlier = omega (arith, c.earlier);
  taken = c.taken;
  said = c.said;
  found = c.found;
  others = c.others;
}

-- An emit call is the only call of its reply, or there are two at least.
lone_or :
    (name : String) (us : List ToolUse) (emit : ToolUse)
    → find_emit name us ≡ some emit
    → (us ≡ emit ∷ []) ⊎ (2 ≤ length us)
unfolding find_emit
lone_or name [] emit h = absurd cc
lone_or name (u ∷ []) emit h =
    either_known (λ o. o ≡ some emit → ((u ∷ []) ≡ (emit ∷ [])) ⊎ (2 ≤ 1)) (str_eq u.name name)
      (some u) none (λ e k. inl (ap (λ x. x ∷ []) (some-injective u emit k))) (λ e k. absurd cc) h
lone_or name (u ∷ v ∷ us) emit h = inr (omega arith)

nudge-Owes : (content : List Block) → tool_uses content ≡ [] → Owes [] (nudge content)
nudge-Owes content none_ =
    subst (λ us. Owes (map use_id us) (user "Call the emit tool with your findings now." ∷ []))
      (sym none_) tt

Kept-Owes :
    (a : Agent) (ms : List Message) (content : List Block) (after : List Message)
    → Kept a ms content after
    → Owes [] ms
    → Owes [] after
Kept-Owes a ms content after (inl (none_, e)) h =
    subst (Owes []) (sym e) (Owes-append [] ms (nudge content) h (nudge-Owes content none_))
Kept-Owes a ms content after (inr e) h =
    subst (Owes []) (sym e) (Owes-append [] ms _ h (run_tools-answers a (tool_uses content), tt))

rejection-Owes :
    (ms : List Message) (content : List Block) (emit : ToolUse) (why : String)
    → tool_uses content ≡ emit ∷ []
    → Owes [] ms
    → Owes [] (ms ++ rejection content emit why)
rejection-Owes ms content emit why alone h = Owes-append [] ms (rejection content emit why) h (
    subst
      (λ us.
        Owes (map use_id us) (
          tool_results (record { tool_use_id = emit.id; content = why; is_error = true } ∷ [])
          ∷ []))
      (sym alone) (refl, tt))

abbrev Free : RunEnd → Type 0
Free e = Unit

-- What holds of the conversation with either rejection holds of what goes on.
on_emit-Leads :
    (P : List Message → Type 0) (a : Agent) (turn repair : ℕ) (low must : Bool) (ms : List Message)
    (usage : TokenUsage) (content : List Block) (emit : ToolUse)
    → ((why : String) → P (ms ++ rejection content emit why))
    → Leads (λ r after u. P after) Free (on_emit a turn repair low must ms usage content emit)
unfolding on_emit
on_emit-Leads P a turn repair low must ms usage content emit h =
    let R = Leads (λ r after u. P after) Free in
    either_way R (not (is_ok (validate a.schema emit.input [])) && (repair == 0) && not low) _ _
      (h "Rejected")
      (either_way R (not must && ltb turn (min_evidence_turns a) && not low) _ _ (h "Not yet") tt)

abbrev Kempt : Agent → String → ℕ → List Message → Type 0
Kempt a first_message turn ms = Owes [] ms ⊎ Crowded a first_message turn

take_turn-Kempt :
    (a : Agent) (first_message : String) (turn repair : ℕ) (ms : List Message) (usage : TokenUsage)
    → Turns a first_message turn repair ms usage
    → Owes [] ms
    → Leads
        (λ r after u. Kempt a first_message (suc turn) after)
        Free
        (take_turn a turn repair ms usage)
take_turn-Kempt a first_message turn repair ms usage t h =
    let P = Kempt a first_message (suc turn) in
    take_turn-Leads a (λ r after u. P after) Free turn repair ms usage (λ m c e. tt) (λ why. tt)
      (λ content spent e n after k. inl (Kept-Owes a ms content after k h))
      (λ content spent emit e found. on_emit-Leads P a turn repair _ _ ms _ content emit (λ why.
        elim (lone_or a.emit_name (tool_uses content) emit found) [
          | inl alone ↦ inl (rejection-Owes ms content emit why alone h)
          | inr others ↦ inr (record {
            turn = turn;
            repair = repair;
            messages = ms;
            usage = usage;
            spent = spent;
            content = content;
            emit = emit;
            earlier = omega arith;
            taken = t;
            said = e;
            found = found;
            others = others;
          })
        ]))

Turns-Kempt :
    {a : Agent} {first_message : String} {turn repair : ℕ} {ms : List Message} {u : TokenUsage}
    → Turns a first_message turn repair ms u
    → Kempt a first_message turn ms
Turns-Kempt begins = inl tt
Turns-Kempt {a} {first_message} (goes {turn} {repair} {ms = ms} {u = u} t e) =
    elim (Turns-Kempt t) [
      | inl h ↦
          subst (Leads (λ r after u. Kempt a first_message (suc turn) after) Free) e
            (take_turn-Kempt a first_message turn repair ms u t h)
      | inr c ↦ inr (Crowded-later c)
    ]

-- Every conversation that the agents' loop sends, on whichever turn, keeps the ordering rule of the
-- chat-completions dialect once it is translated, unless on an earlier turn of the run a reply called
-- the emit tool and another one beside it.
pub Turns-Follows :
    (k : Codec) (prompt : String) (a : Agent) (first_message : String) (turn repair : ℕ)
    (ms : List Message) (u : TokenUsage)
    → Turns a first_message turn repair ms u
    → Follows [] (to_mistral_messages k prompt (map param_of ms)) ⊎ Crowded a first_message turn
Turns-Follows k prompt a first_message turn repair ms u t = elim (Turns-Kempt t) [
  | inl h ↦ inl (to_mistral_messages-Follows k prompt ms h)
  | inr c ↦ inr c
]
