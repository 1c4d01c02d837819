-- ===== src/Worker/Progress.antt =====
-- Progress of apps/agent-worker/src/jobs: what one message adds to the record of its job, and when
-- the synthesizer is woken.
use codemind_backend.Common.{
  ℕ, suc, ◌+◌, Bool, true, false, ◌||◌, String, Option, none, some, List, [], ◌∷◌, ◌⊎◌,
  either_known, ◌≡◌, ◌↔◌, inl, inr, refl, ap, arith, leb, ◌==◌, ◌≤◌, if◌then◌else◌, Bool-cases,
  leb→le,
}
use codemind_backend.Tokens.{TokenUsage, no_tokens, or_zero, total_tokens}
use codemind_backend.Json.{Value, end}
use codemind_backend.World.{
  World, Event, ResultRow, job_progress, ready_for_synthesis, agent_eq, sadd, AgentMessage,
  AgentType, AgentSet, architecture, security, dependency, quality, docs, scard, bit, epoch_of,
}
use codemind_backend.World.Action.{rejected, ok, thrown, call, ack, catch, ◌>>=◌, ◌>>◌, call_calm}
use codemind_backend.Worker.{
  Services, AgentResult, run_agent, process, recover, handle, infra_failure_row, result_row,
}
use codemind_backend.Worker.Fence.{
  Runs, advanced, advance_lem, record_infra_failure_lem, load_facts_lem, process_thrown,
}

-- The tokens of a run are counted where it succeeded.
abbrev pub counted : AgentResult → World → World
counted r w =
    if r.success
    then record w { tokens_used = some (or_zero w.tokens_used + total_tokens r.tokens_used) }
    else w

abbrev pub recorded : AgentMessage → AgentResult → World → World
recorded m r w = record w { results = result_row m.agent_type r ∷ w.results }

counted_calm : (r : AgentResult) (w : World) → w.outages ≡ [] → (counted r w).outages ≡ []
counted_calm r w h = ground arith

run_agent_ok :
    (s : Services) (m : AgentMessage) (w w' : World) (r : AgentResult)
    → Runs s m w (ok r w')
    → w'.outages ≡ []
    → run_agent s m w ≡ ok r (counted r w')
unfolding run_agent
run_agent_ok s m w w' r h calm =
    rw (h.opens, ◌>>=◌)
      (rw (load_facts_lem s m.epoch h.opened h.still_calm, ◌>>=◌)
        (rw (h.runs, ◌>>=◌)
          (elim (Bool-cases r.success) [
            | inl yes_ ↦ rw yes_ (rw (call_calm _ _ w' calm, ◌>>=◌, ◌>>◌) refl)
            | inr no_ ↦ rw no_ refl
          ])))

process_ok :
    (s : Services) (m : AgentMessage) (w w' : World) (r : AgentResult)
    → Runs s m w (ok r w')
    → w'.outages ≡ []
    → process s m w ≡ ack (advanced m.agent_type (recorded m r (counted r w')))
unfolding process
process_ok s m w w' r h calm =
    let spare : leb s.job_token_budget (or_zero w.tokens_used) ≡ false =
      ground (arith, h.in_budget) in
    let after = counted_calm r w' calm in
    rw (call_calm _ _ w h.calm, ◌>>=◌)
      (rw spare (
        rw (run_agent_ok s m w w' r h calm, ◌>>=◌)
          (rw (call_calm _ _ (counted r w') after, ◌>>=◌)
            (rw (advance_lem m.agent_type (recorded m r (counted r w')) after, ◌>>=◌) refl))))

bit_le : (b c : Bool) → (b ≡ true → c ≡ true) → bit b ≤ bit c
bit_le true c h = rw (h refl) (omega arith)
bit_le false c h = omega arith

bit-eq : (b c : Bool) → bit b ≡ bit c → b ≡ c
bit-eq b c h = ground arith

module _ (d e : AgentSet) (sub : (a : AgentType) → d a ≡ true → e a ≡ true) where
  below : (a : AgentType) → bit (d a) ≤ bit (e a)
  below a = bit_le (d a) (e a) (sub a)

  scard-full : scard e ≤ scard d → (a : AgentType) → bit (d a) ≡ bit (e a)
  unfolding scard
  scard-full h architecture =
      omega (arith, below architecture, below security, below dependency, below quality, below docs)
  scard-full h security =
      omega (arith, below architecture, below security, below dependency, below quality, below docs)
  scard-full h dependency =
      omega (arith, below architecture, below security, below dependency, below quality, below docs)
  scard-full h quality =
      omega (arith, below architecture, below security, below dependency, below quality, below docs)
  scard-full h docs =
      omega (arith, below architecture, below security, below dependency, below quality, below docs)

  scard-same : ((a : AgentType) → d a ≡ e a) → scard e ≤ scard d
  unfolding scard
  scard-same h = omega (
    arith,
    ap bit (h architecture),
    ap bit (h security),
    ap bit (h dependency),
    ap bit (h quality),
    ap bit (h docs),
  )

  -- With no agent done that is not expected, the counts of the two sets reach completion exactly
  -- when every expected agent is done.
  pub scard-le_iff : (leb (scard e) (scard d) ≡ true) ↔ ((a : AgentType) → d a ≡ e a)
  scard-le_iff = (
    λ h a. bit-eq (d a) (e a) (scard-full (leb→le _ _ h) a),
    λ h. let full : scard e ≤ scard d = scard-same h in ground arith,
  )

abbrev pub AllDone : World → Type 0
AllDone w = (x : AgentType) → w.agents_done x ≡ w.agents_expected x

abbrev pub progress : AgentType → World → Event
progress a w = job_progress a (scard w.agents_done) (scard w.agents_expected)

-- What a message adds once its row is stored: its agent is done, no other agent's mark and no
-- expectation changes, and the progress is published, with the wakeup of the synthesizer behind it
-- exactly when the agents that are done are the expected ones.
abbrev pub Counted : AgentType → World → World → Type 0
Counted a before after =
    ((x : AgentType) → after.agents_done x ≡ (agent_eq a x || before.agents_done x))
    × (after.agents_expected ≡ before.agents_expected)
    × ((after.events ≡ progress a after ∷ before.events)
        ⊎ (after.events ≡ ready_for_synthesis ∷ progress a after ∷ before.events))
    × ((after.events ≡ ready_for_synthesis ∷ progress a after ∷ before.events) ↔ AllDone after)

-- No agent is done, this one included, that is not expected.
abbrev pub Expects : AgentType → World → Type 0
Expects a w =
    (x : AgentType) → (agent_eq a x || w.agents_done x) ≡ true → w.agents_expected x ≡ true

-- The published events, for either outcome of the comparison of the counts.
woken_iff :
    {P : Type 0} (b : Bool) (e : Event) (a : AgentType) (d n : ℕ) (es : List Event)
    → e ≡ job_progress a d n
    → ((b ≡ true) ↔ P)
    → let told = if b then ready_for_synthesis ∷ e ∷ es else e ∷ es in
      ((told ≡ e ∷ es) ⊎ (told ≡ ready_for_synthesis ∷ e ∷ es))
      × ((told ≡ ready_for_synthesis ∷ e ∷ es) ↔ P)
woken_iff true e a d n es k h = (inr refl, ((λ x. h.0 refl), (λ x. refl)))
woken_iff false e a d n es k h =
    (inl refl, ((λ x. absurd (cc)), (λ x. let f = h.1 x in absurd (cc))))

advanced-Counted : (a : AgentType) (w : World) → Expects a w → Counted a w (advanced a w)
advanced-Counted a w sub =
    let told =
      woken_iff (leb (scard w.agents_expected) (scard (sadd a w.agents_done))) _ a _ _ w.events refl
        (scard-le_iff (sadd a w.agents_done) w.agents_expected sub) in
    ((λ x. refl), refl, told.0, told.1)

-- The rows after a message: the ones before it, and one of its agent.
pub record Stores (a : AgentType) (output : Value) (tokens : TokenUsage) (success : Bool)
    (duration : Option ℕ) (error : Option String) (before after : World) : Type 0 where
  pub row : ResultRow
  pub stored : after.results ≡ row ∷ before.results
  pub of_agent : row.agent_type ≡ a
  pub with_output : row.raw_output ≡ output
  pub with_tokens : row.tokens_used ≡ tokens
  pub with_success : row.success ≡ success
  pub with_duration : row.duration_ms ≡ duration
  pub with_error : row.error ≡ error

pub record Completes (m : AgentMessage) (r : AgentResult) (before after : World) : Type 0 where
  pub stores :
      Stores m.agent_type r.output r.tokens_used r.success (some r.duration_ms) r.error before after
  pub spent :
      or_zero after.tokens_used
      ≡ or_zero before.tokens_used + (if r.success then total_tokens r.tokens_used else 0)
  pub counts : Counted m.agent_type before after
  pub settled : (after.acked ≡ suc before.acked) × (after.nacked ≡ before.nacked)

abbrev acknowledged : World → World
acknowledged w = record w { acked = suc w.acked }

advanced-Completes :
    (m : AgentMessage) (r : AgentResult) (w : World)
    → Expects m.agent_type w
    → Completes m r w (acknowledged (advanced m.agent_type (recorded m r (counted r w))))
advanced-Completes m r w sub =
    either_known (λ c. Completes m r w (acknowledged (advanced m.agent_type (recorded m r c))))
      r.success _ _
      (λ e. record {
        stores = stored refl;
        spent = rw e refl;
        counts = advanced-Counted m.agent_type w sub;
        settled = (refl, refl);
      })
      (λ e. record {
        stores = stored refl;
        spent = rw e (omega arith);
        counts = advanced-Counted m.agent_type w sub;
        settled = (refl, refl);
      })
  where
    stored :
        {after : World}
        → after.results ≡ result_row m.agent_type r ∷ w.results
        → Stores m.agent_type r.output r.tokens_used r.success (some r.duration_ms) r.error w after
    stored h = record {
      row = result_row m.agent_type r;
      stored = h;
      of_agent = refl;
      with_output = refl;
      with_tokens = refl;
      with_success = refl;
      with_duration = refl;
      with_error = refl;
    }

-- One message of the live run, with budget left: a row with the output, the tokens, the success, the
-- duration and the error of the agent's result is stored, its tokens are counted exactly if the run
-- succeeded, its agent and no other is marked done, the progress is published, the synthesizer is woken
-- exactly when the agents that are done are the expected ones, and the message is acked and not nacked.
-- (No await of the handler rejects, and no agent is done that is not expected.)
pub handle-Completes :
    (s : Services) (m : AgentMessage) (w w' : World) (r : AgentResult)
    → Runs s m w (ok r w')
    → w'.outages ≡ []
    → Expects m.agent_type w'
    → (after : World) × (handle s m w ≡ ok tt after) × Completes m r w' after
unfolding handle
handle-Completes s m w w' r h calm sub =
    let live : (or_zero m.epoch == epoch_of w) ≡ true = ground (arith, h.live) in
    (
      acknowledged (advanced m.agent_type (recorded m r (counted r w'))),
      rw (call_calm _ _ w h.calm, ◌>>=◌, catch)
          (rw live (rw (process_ok s m w w' r h calm, catch) refl)),
      advanced-Completes m r w' sub,
    )

-- A run that fails for any other reason than the fence, whatever the epoch has become while it ran: a
-- row of the agent is stored that is no success, has the error's text and counts no tokens; the agent
-- is marked done, the progress is published, the synthesizer is woken exactly when the agents that are
-- done are the expected ones, and the message is nacked and not acked. (The message was live when it was
-- taken, with budget left, no await of the handler rejects, and no agent is done that is not expected.)
pub handle-late_failure :
    (s : Services) (m : AgentMessage) (w w' : World) (text : String)
    → Runs s m w (thrown (rejected text) w')
    → w'.outages ≡ []
    → Expects m.agent_type w'
    → (after : World) × (handle s m w ≡ ok tt after)
      × Stores m.agent_type (Value.object end) no_tokens false none (some text) w' after
      × (after.tokens_used ≡ w'.tokens_used)
      × Counted m.agent_type w' after
      × (after.nacked ≡ suc w'.nacked)
      × (after.acked ≡ w'.acked)
unfolding handle recover call
handle-late_failure s m w w' text h calm sub =
    let final =
      advanced m.agent_type
        (record w' { results = infra_failure_row m.agent_type text ∷ w'.results }) in
    (
      record final { nacked = suc final.nacked },
      ground (
        arith,
        process_thrown s m w w' (rejected text) h,
        h.live,
        h.calm,
        record_infra_failure_lem m.agent_type text w' calm,
      ),
      record {
        row = infra_failure_row m.agent_type text;
        stored = refl;
        of_agent = refl;
        with_output = refl;
        with_tokens = refl;
        with_success = refl;
        with_duration = refl;
        with_error = refl;
      },
      refl,
      advanced-Counted m.agent_type w' sub,
      refl,
      refl,
    )
