-- ===== src/Worker/Fence.antt =====
-- The epoch fence of apps/agent-worker/src/jobs: what a message of a superseded run can do.
use codemind_backend.Common.{
  ℕ, suc, String, Option, [], ◌∷◌, ◌≡◌, ◌≢◌, refl, arith, leb, ◌<◌, if◌then◌else◌,
}
use codemind_backend.Tokens.{or_zero}
use codemind_backend.World.{
  World, AgentMessage, AgentType, sadd, scard, epoch_of, job_progress, ready_for_synthesis,
}
use codemind_backend.World.Action.{Error, fenced, Outcome, ok, thrown, call, ◌>>=◌, ◌>>◌, call_calm}
use codemind_backend.Worker.{
  Services, AgentResult, advance, record_infra_failure, load_facts, run_agent, process, recover,
  handle, handle_dead_letter, infra_failure_row, parse_facts,
}

-- A message whose epoch is not the current one changes nothing but the count of acks: whatever the
-- services do, they are not called. (No await rejects.)
pub handle-drops_stale :
    (s : Services) (m : AgentMessage) (w : World)
    → w.outages ≡ []
    → or_zero m.epoch ≢ epoch_of w
    → handle s m w ≡ ok tt (record w { acked = suc w.acked })
unfolding handle call
handle-drops_stale s m w no_outage stale = ground arith

-- The same for a message that was dead-lettered by a run that has been superseded.
pub handle_dead_letter-drops_stale :
    (m : AgentMessage) (w : World)
    → w.outages ≡ []
    → or_zero m.epoch ≢ epoch_of w
    → handle_dead_letter m w ≡ ok tt (record w { acked = suc w.acked })
unfolding handle_dead_letter call
handle_dead_letter-drops_stale m w no_outage stale = ground arith

-- The state after SADD, the progress event and the wakeup, if every expected agent is done.
abbrev pub advanced : AgentType → World → World
advanced a w =
    let done_count = scard (sadd a w.agents_done) in
    let expected_count = scard w.agents_expected in
    record w {
      agents_done = sadd a w.agents_done;
      events =
          if leb expected_count done_count
          then ready_for_synthesis ∷ job_progress a done_count expected_count ∷ w.events
          else job_progress a done_count expected_count ∷ w.events;
    }

pub advance_lem : (a : AgentType) (w : World) → w.outages ≡ [] → advance a w ≡ ok tt (advanced a w)
unfolding advance call
advance_lem a w h = ground arith

pub record_infra_failure_lem :
    (a : AgentType) (text : String) (w : World)
    → w.outages ≡ []
    → record_infra_failure a text w
      ≡ ok tt (advanced a (record w { results = infra_failure_row a text ∷ w.results }))
unfolding record_infra_failure
record_infra_failure_lem a text w h =
    rw (call_calm _ _ w h, ◌>>=◌, ◌>>◌)
      (advance_lem a (record w { results = infra_failure_row a text ∷ w.results }) h)

-- What the services do in one run of `handle`, when no await of the handler itself rejects.
pub record Runs (s : Services) (m : AgentMessage) (w : World) (out : Outcome AgentResult)
    : Type 0 where
  pub live : or_zero m.epoch ≡ epoch_of w
  pub in_budget : or_zero w.tokens_used < s.job_token_budget
  pub calm : w.outages ≡ []
  pub context : String
  pub opened : World
  pub opens : s.open_context m w ≡ ok context opened
  pub still_calm : opened.outages ≡ []
  pub runs : s.run m context (parse_facts s (opened.repo_facts (or_zero m.epoch))) opened ≡ out

pub load_facts_lem :
    (s : Services) (e : Option ℕ) (w : World)
    → w.outages ≡ []
    → load_facts s e w ≡ ok (parse_facts s (w.repo_facts (or_zero e))) w
unfolding load_facts call
load_facts_lem s e w h = rw h

run_agent_thrown :
    (s : Services) (m : AgentMessage) (w w' : World) (e : Error)
    → Runs s m w (thrown e w')
    → run_agent s m w ≡ thrown e w'
unfolding run_agent
run_agent_thrown s m w w' e r =
    rw (r.opens, ◌>>=◌)
      (rw (load_facts_lem s m.epoch r.opened r.still_calm, ◌>>=◌) (rw (r.runs, ◌>>=◌) refl))

pub process_thrown :
    (s : Services) (m : AgentMessage) (w w' : World) (e : Error)
    → Runs s m w (thrown e w')
    → process s m w ≡ thrown e w'
unfolding process call
process_thrown s m w w' e r = ground (arith, run_agent_thrown s m w w' e r, r.calm, r.in_budget)

-- A fence that trips while the agent runs leaves everything as the run left it, but for one ack: no
-- result is recorded, and the completion of the live run does not advance. (The message was live when
-- it was taken, with budget left, and no await of the handler rejects.)
pub handle-fence_trip :
    (s : Services) (m : AgentMessage) (w w' : World) (x y : ℕ)
    → Runs s m w (thrown (fenced x y) w')
    → handle s m w ≡ ok tt (record w' { acked = suc w'.acked })
unfolding handle recover call
handle-fence_trip s m w w' x y r =
    ground (arith, process_thrown s m w w' (fenced x y) r, r.live, r.calm)
