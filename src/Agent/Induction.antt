-- ===== src/Agent/Induction.antt =====
-- Induction on the turns of `run` in apps/agent-worker/src/agents/base.agent.ts.
use codemind_backend.Common.{
  either_way, ◌⊎◌, ◌++◌, ℕ, zero, suc, ◌+◌, ◌≤◌, ◌<◌, Bool, String, none, some, List, [], ◌∷◌, leb,
  ◌≡◌, inl, inr, refl, ap, subst, arith, Bool-cases, Option-cases, List-cases,
}
use codemind_backend.Tokens.{TokenUsage, no_tokens, add_tokens}
use codemind_backend.Agent.{
  nudge, run_tools, assistant, tool_results, Agent, Message, Reply, Pulse, Block, ToolUse, RunEnd,
  Next, ends, goes_on, gave_up, no_tools, never_emitted, user, find_emit, on_emit, on_tool_uses,
  on_reply, heard, checked, take_turn, tool_uses, loop, run, alive, superseded, unknown, error,
  fence_tripped, must_finish_at, budget_low, reply, rejects,
}

-- What a turn establishes: `Q` of an end, `P` of what goes on.
abbrev pub Leads : (ℕ → List Message → TokenUsage → Type 0) → (RunEnd → Type 0) → Next → Type 0
Leads P Q (ends e) = Q e
Leads P Q (goes_on repair messages usage) = P repair messages usage

-- What holds of both branches of a test holds of the test.
-- How the conversation goes on after a reply without an emit.
abbrev pub Kept : Agent → List Message → List Block → List Message → Type 0
Kept a messages content after =
    ((tool_uses content ≡ []) × (after ≡ messages ++ nudge content))
    ⊎ (after ≡ messages ++ assistant content ∷ tool_results (run_tools a (tool_uses content)) ∷ [])

-- A turn leads from what it is taken with to `P` or `Q` where each thing that can happen in it does.
module _ (a : Agent) (P : ℕ → List Message → TokenUsage → Type 0) (Q : RunEnd → Type 0)
    (turn repair : ℕ) (messages : List Message) (usage : TokenUsage)
    (fence : (m c : ℕ) → a.check_alive turn ≡ superseded m c → Q (fence_tripped m c))
    (broken : (why : String) → Q (gave_up (error why) usage))
    (silent : (content : List Block) (spent : TokenUsage)
      → a.converse turn messages (must_finish_at a turn repair usage) ≡ reply content spent
      → find_emit a.emit_name (tool_uses content) ≡ none
      → (messages' : List Message) → Kept a messages content messages'
      → P repair messages' (add_tokens usage spent))
    (speaks : (content : List Block) (spent : TokenUsage) (emit : ToolUse)
      → a.converse turn messages (must_finish_at a turn repair usage) ≡ reply content spent
      → find_emit a.emit_name (tool_uses content) ≡ some emit
      → Leads P Q (
          on_emit a turn repair
            (budget_low a usage)
            (must_finish_at a turn repair usage)
            messages
            (add_tokens usage spent)
            content
            emit)) where
  on_tool_uses-Leads :
      (content : List Block) (spent : TokenUsage)
      → a.converse turn messages (must_finish_at a turn repair usage) ≡ reply content spent
      → Leads P Q (
          on_tool_uses a turn repair
            (budget_low a usage)
            (must_finish_at a turn repair usage)
            messages
            (add_tokens usage spent)
            content
            (tool_uses content))
  unfolding on_tool_uses
  on_tool_uses-Leads content spent e =
      elim (Option-cases (find_emit a.emit_name (tool_uses content))) [
        | inl none_ ↦ rw (none_, Leads) (silent content spent e none_ _ (inr refl))
        | inr (emit, found) ↦ rw (found, Leads) (speaks content spent emit e found)
      ]

  on_reply-Leads :
      (content : List Block) (spent : TokenUsage)
      → a.converse turn messages (must_finish_at a turn repair usage) ≡ reply content spent
      → Leads P Q (
          on_reply a turn repair
            (budget_low a usage)
            (must_finish_at a turn repair usage)
            messages
            (add_tokens usage spent)
            content)
  unfolding on_reply find_emit
  on_reply-Leads content spent e = elim (List-cases (tool_uses content)) [
    | inl none_ ↦
        rw (none_, Leads)
          (silent content spent e (ap (find_emit a.emit_name) none_) _ (inl (none_, refl)))
    | inr (u, us, more) ↦
        let h = on_tool_uses-Leads content spent e in
        rw (more, Leads)
          (subst
            (λ uses. Leads P Q (
              on_tool_uses a turn repair (budget_low a usage) (must_finish_at a turn repair usage)
                messages (add_tokens usage spent) content uses))
            more h)
  ]

  heard-Leads :
      (r : Reply)
      → a.converse turn messages (must_finish_at a turn repair usage) ≡ r
      → Leads P Q (heard a turn repair messages usage r)
  heard-Leads (rejects why) e = broken why
  heard-Leads (reply content spent) e = on_reply-Leads content spent e

  checked-Leads :
      (p : Pulse) → a.check_alive turn ≡ p → Leads P Q (checked a turn repair messages usage p)
  checked-Leads (superseded m c) e = fence m c e
  checked-Leads (unknown why) e = broken why
  checked-Leads alive e = heard-Leads _ refl

  pub take_turn-Leads : Leads P Q (take_turn a turn repair messages usage)
  unfolding take_turn
  take_turn-Leads = checked-Leads (a.check_alive turn) refl

module _ (a : Agent) where
  abbrev Small : ℕ → List Message → TokenUsage → Type 0
  Small repair messages usage = repair ≤ 1

  abbrev Any : RunEnd → Type 0
  Any e = Unit

  on_emit-Small :
      (turn repair : ℕ) (low must : Bool) (messages : List Message) (usage : TokenUsage)
      (content : List Block) (emit : ToolUse)
      → repair ≤ 1
      → Leads Small Any (on_emit a turn repair low must messages usage content emit)
  unfolding on_emit
  on_emit-Small turn repair low must messages usage content emit h = ground arith

  -- A turn grants no repair turn beyond the first.
  take_turn-Small :
      (turn repair : ℕ) (messages : List Message) (usage : TokenUsage)
      → repair ≤ 1
      → Leads Small Any (take_turn a turn repair messages usage)
  take_turn-Small turn repair messages usage h =
      take_turn-Leads a Small Any turn repair messages usage (λ m c e. tt) (λ why. tt)
        (λ content spent e n ms k. h)
        (λ content spent emit e found. on_emit-Small turn repair _ _ messages _ content emit h)

-- Where every turn of the loop leads from `P` to `P` or to an end with `Q`, a run ends with `Q`.
module _ (a : Agent) (P : ℕ → ℕ → List Message → TokenUsage → Type 0) (Q : RunEnd → Type 0)
    (turn_leads : (turn repair : ℕ) (messages : List Message) (usage : TokenUsage)
      → turn ≤ a.max_turns + repair
      → repair ≤ 1
      → P turn repair messages usage
      → Leads (P (suc turn)) Q (take_turn a turn repair messages usage))
    (over : (turn repair : ℕ) (messages : List Message) (usage : TokenUsage)
      → a.max_turns + repair < turn
      → P turn repair messages usage
      → Q (gave_up never_emitted usage)) where
  after :
      (fuel turn : ℕ) (n : Next)
      → ((r : ℕ) (ms : List Message) (u : TokenUsage)
          → r ≤ 1
          → P (suc turn) r ms u
          → Q (loop a fuel (suc turn) r ms u))
      → Leads (P (suc turn)) Q n
      → Leads (λ r ms u. r ≤ 1) (λ e. Unit) n
      → Q (elim n [
        | ends e ↦ e
        | goes_on repair' messages' usage' ↦ loop a fuel (suc turn) repair' messages' usage'
      ])
  after fuel turn (ends e) go q small = q
  after fuel turn (goes_on r ms u) go p small = go r ms u small p

  loop-leads :
      (fuel turn repair : ℕ) (messages : List Message) (usage : TokenUsage)
      → 1 ≤ fuel
      → a.max_turns + 3 ≤ turn + fuel
      → repair ≤ 1
      → P turn repair messages usage
      → Q (loop a fuel turn repair messages usage)
  unfolding loop
  loop-leads zero turn repair messages usage some_fuel enough small p =
      absurd (omega (arith, some_fuel))
  loop-leads (suc fuel) turn repair messages usage some_fuel enough small p =
      elim (Bool-cases (leb turn (a.max_turns + repair))) [
        | inl more ↦
            let in_time : turn ≤ a.max_turns + repair = ground (arith, more) in
            rw (more, loop)
              (after fuel turn _
                (λ r ms u sm.
                  loop-leads fuel (suc turn) r ms u (omega (arith, in_time, enough, small))
                    (omega (arith, enough)) sm)
                (turn_leads turn repair messages usage in_time small p)
                (take_turn-Small a turn repair messages usage small))
        | inr no_more ↦
            rw (no_more, loop) (over turn repair messages usage (ground (arith, no_more)) p)
      ]

  pub run-leads :
      (first_message : String)
      → Q (gave_up no_tools no_tokens)
      → P 1 0 (user first_message ∷ []) no_tokens
      → Q (run a first_message)
  unfolding run
  run-leads first_message q p =
      either_way Q a.has_tools _ _
        (loop-leads (a.max_turns + 2) 1 0 _ _ (omega arith) (omega arith) (omega arith) p) q
