-- ===== src/Orchestrator/Dispatch.antt =====
-- What apps/orchestrator/src/jobs/orchestrator.consumer.ts dispatches, and how it settles a message.
use mathlib.Core.List.{reverse}
use codemind_backend.Common.{
  ℕ, suc, ◌+◌, false, not, String, none, some, List, [], ◌∷◌, map, All, ◌≡◌, ◌≢◌, ◌||◌, ◌++◌, ◌⊎◌,
  inl, inr, refl, sym, subst, any, ==-refl, arith, Bool-cases, length, ◌==◌, if◌then◌else◌,
}
use codemind_backend.World.{
  World, AgentType, AgentSet, architecture, security, quality, docs, dependency, agent_eq,
  no_agents, scard, AnalysisMessage, AgentMessage, Manifest, JobRow, running, failed, epoch_of,
  job_status, job_failed,
}
use codemind_backend.World.Action.{ok, ◌>>=◌, ◌>>◌, call, catch, call_calm, update_job_calm}
use codemind_backend.Orchestrator.{
  Tools, select_agents, emit_all, dispatch, sadd_all, superseded, on_analysis_requested,
  run_analysis, mark_running, mark_failed, analyse, agents_to_run, epoch_or, no_source_files,
}

-- A message stamped with another epoch than the current one does nothing but get acked: no tool is
-- called, and the job's status stays. (No await rejects.)
pub on_analysis_requested-drops_stale :
    (t : Tools) (now : ℕ) (msg : AnalysisMessage) (w : World) (e : ℕ)
    → w.outages ≡ []
    → msg.epoch ≡ some e
    → e ≢ epoch_of w
    → on_analysis_requested t now msg w ≡ ok tt (record w { acked = suc w.acked })
unfolding on_analysis_requested call
on_analysis_requested-drops_stale t now msg w e calm stamped stale = ground arith

-- As many agents are expected of a fresh run as messages are sent to agents, none of them twice; the
-- dependency agent is among them exactly when the checkout has a manifest file.
pub select_agents-counts :
    (m : Manifest)
    → (scard (sadd_all (select_agents m) no_agents) ≡ length (select_agents m))
      × (sadd_all (select_agents m) no_agents dependency ≡ not (length m.files_found == 0))
      × (length (select_agents m) ≡ (if length m.files_found == 0 then 4 else 5))
unfolding select_agents scard
select_agents-counts m = elim (Bool-cases (length m.files_found == 0)) [
  | inl bare ↦ rw bare (refl, refl, refl)
  | inr with_manifest ↦ rw with_manifest (refl, refl, refl)
]

-- What an agent's message carries.
abbrev pub Stamped : String → ℕ → ℕ → AgentMessage → Type 0
Stamped path total epoch m =
    (m.epoch ≡ some epoch) × (m.repo_path ≡ path) × (m.total_agents ≡ total)

emit_all-Stamped :
    (path : String) (total : ℕ) (m : Manifest) (epoch : ℕ) (agents : List AgentType)
    (queue : List AgentMessage)
    → All (Stamped path total epoch) queue
    → All (Stamped path total epoch) (emit_all path total m epoch agents queue)
unfolding emit_all
emit_all-Stamped path total m epoch [] queue h = h
emit_all-Stamped path total m epoch (a ∷ as_) queue h =
    emit_all-Stamped path total m epoch as_ _ ((refl, refl, refl), h)

abbrev pub types : List AgentMessage → List AgentType
types ms = map (λ m. m.agent_type) ms

length-emit_all :
    (path : String) (total : ℕ) (m : Manifest) (epoch : ℕ) (agents : List AgentType)
    (queue : List AgentMessage)
    → length (emit_all path total m epoch agents queue) ≡ length agents + length queue
unfolding emit_all
length-emit_all path total m epoch [] queue = omega arith
length-emit_all path total m epoch (a ∷ as_) queue = omega (
  arith,
  length-emit_all path total m epoch as_ (
      record {
        repo_path = path;
        agent_type = a;
        total_agents = total;
        epoch = some epoch;
        has_dockerfile = m.has_dockerfile;
      }
      ∷ queue),
)

-- Tools that resolve, and leave the job's state alone.
pub record Resolves (t : Tools) (path : String) (nodes : ℕ) (facts : String) (m : Manifest)
    : Type 0 where
  pub checks_out : (u r : String) (e : ℕ) (w : World) → t.checkout u r e w ≡ ok path w
  pub indexes : (w : World) → t.index path w ≡ ok nodes w
  pub finds_facts : (w : World) → t.build_facts path w ≡ ok facts w
  pub finds_manifest : (w : World) → t.build_manifest path w ≡ ok m w

-- A live message: its job is there, no await rejects, and it is not superseded.
pub record Live (msg : AnalysisMessage) (r : JobRow) (w : World) : Type 0 where
  pub calm : w.outages ≡ []
  pub found : w.row ≡ some r
  pub current : superseded msg.epoch (epoch_of w) ≡ false

abbrev pub marked_running : JobRow → World → World
marked_running r w = record w {
  row = some (record r { status = running });
  cached_status = some running;
  events = job_status running ∷ w.events;
}

mark_running_lem :
    (r : JobRow) (w : World)
    → w.outages ≡ []
    → w.row ≡ some r
    → mark_running w ≡ ok tt (marked_running r w)
unfolding mark_running
mark_running_lem r w calm found =
    let updated : World = record w { row = some (record r { status = running }) } in
    let cached : World = record updated { cached_status = some running } in
    rw (update_job_calm (λ x. record x { status = running }) r w calm found, ◌>>=◌, ◌>>◌)
      (rw (call_calm _ _ updated calm, ◌>>=◌, ◌>>◌) (call_calm _ _ cached calm))

abbrev pub marked_failed : ℕ → String → JobRow → World → World
marked_failed now reason r w = record w {
  row = some (record r { status = failed; completed_at = some now; error = some reason });
  cached_status = some failed;
  events = job_failed reason ∷ w.events;
}

pub mark_failed_lem :
    (now : ℕ) (reason : String) (r : JobRow) (w : World)
    → w.outages ≡ []
    → w.row ≡ some r
    → mark_failed now reason w ≡ ok tt (marked_failed now reason r w)
unfolding mark_failed
mark_failed_lem now reason r w calm found =
    let f =
      λ (x : JobRow). record x { status = failed; completed_at = some now; error = some reason } in
    let updated : World = record w { row = some (f r) } in
    let cached : World = record updated { cached_status = some failed } in
    rw (update_job_calm f r w calm found, ◌>>=◌, ◌>>◌)
      (rw (call_calm _ _ updated calm, ◌>>=◌, ◌>>◌) (call_calm _ _ cached calm))

-- The message is acked as soon as the job runs.
abbrev pub taken : JobRow → World → World
taken r w = let m = marked_running r w in record m { acked = suc m.acked }

module _ (t : Tools) (now : ℕ) (msg : AnalysisMessage) (r : JobRow) (w final : World) where
  -- Behind the fence, an analysis that resolves is the whole of it.
  passed_fence :
      Live msg r w
      → run_analysis t now msg (epoch_or msg.epoch (epoch_of w)) w ≡ ok tt final
      → on_analysis_requested t now msg w ≡ ok tt final
  unfolding on_analysis_requested
  passed_fence live e =
      rw (call_calm _ _ w live.calm, ◌>>=◌) (rw (live.current, catch) (rw (e, catch) refl))

-- A repository with no indexed source: the job runs, then fails with the reason, and no agent is sent
-- for. (The message is live, its tools resolve, and no await rejects.)
pub no_source-fails :
    (t : Tools) (now : ℕ) (msg : AnalysisMessage) (r : JobRow) (w : World) (path facts : String)
    (m : Manifest)
    → Resolves t path 0 facts m
    → Live msg r w
    → on_analysis_requested t now msg w
      ≡ ok tt (marked_failed now no_source_files (record r { status = running }) (taken r w))
unfolding run_analysis
no_source-fails t now msg r w path facts m good live = passed_fence t now msg r w _ live (
    rw (mark_running_lem r w live.calm live.found, ◌>>=◌, ◌>>◌)
      (rw (good.checks_out msg.user_id msg.repo_full_name _ (taken r w), ◌>>=◌)
        (rw (good.indexes (taken r w), ◌>>=◌)
          (mark_failed_lem now no_source_files (record r { status = running }) (taken r w) live.calm
            refl))))

-- A fresh run that was sent for: the graph's path and the facts of this run are stored, the selected
-- agents are expected besides those that were, and each is sent a message of this run.
abbrev pub dispatched : String → String → Manifest → ℕ → World → World
dispatched path facts m epoch w = record w {
  graph_path = some path;
  repo_facts = λ e. if e == epoch then some facts else w.repo_facts e;
  agents_expected = sadd_all (select_agents m) w.agents_expected;
  agent_queue = emit_all path (length (select_agents m)) m epoch (select_agents m) w.agent_queue;
}

analyse_fresh :
    (t : Tools) (msg : AnalysisMessage) (w : World) (path facts : String) (nodes epoch : ℕ)
    (m : Manifest)
    → Resolves t path nodes facts m
    → w.outages ≡ []
    → msg.retry_agent_types ≡ none
    → analyse t msg path epoch w ≡ ok tt (dispatched path facts m epoch w)
unfolding analyse dispatch agents_to_run
analyse_fresh t msg w path facts nodes epoch m good calm fresh =
    let placed : World = record w { graph_path = some path } in
    let described : World = record placed {
      repo_facts = λ e. if e == epoch then some facts else w.repo_facts e;
    } in
    rw (call_calm _ _ w calm, ◌>>=◌, ◌>>◌)
      (rw (good.finds_facts placed, ◌>>=◌)
        (rw (call_calm _ _ placed calm, ◌>>=◌, ◌>>◌)
          (rw (good.finds_manifest described, ◌>>=◌)
            (rw (fresh, ◌>>=◌, ◌>>◌) (rw (call_calm _ _ described calm, ◌>>=◌, ◌>>◌) refl)))))

-- The types of the agents that a checkout is analysed by.
abbrev pub AnalysedBy : Manifest → List AgentType → Type 0
AnalysedBy m agents =
    ((length m.files_found ≡ 0) × (agents ≡ architecture ∷ security ∷ quality ∷ docs ∷ []))
    ⊎ ((length m.files_found ≢ 0)
        × (agents ≡ architecture ∷ security ∷ quality ∷ docs ∷ dependency ∷ []))

select_agents-AnalysedBy : (m : Manifest) → AnalysedBy m (select_agents m)
unfolding select_agents
select_agents-AnalysedBy m = elim (Bool-cases (length m.files_found == 0)) [
  | inl bare ↦ inl (ground (arith, bare), rw bare refl)
  | inr with_manifest ↦ inr ((λ e. ground (arith, e, with_manifest)), rw with_manifest refl)
]

-- The messages that are put before a queue, one for each agent, the last one first; and the agents
-- that are expected then.
pub record Sends (path : String) (m : Manifest) (epoch : ℕ) (agents : List AgentType)
    (queue : List AgentMessage) (expecting : AgentSet) : Type 0 where
  pub sent : List AgentMessage
  pub queued : emit_all path (length agents) m epoch agents queue ≡ sent ++ queue
  pub stamped : All (Stamped path (length agents) epoch) sent
  pub addressed : reverse (types sent) ≡ agents
  pub expected :
      (a : AgentType) → sadd_all agents expecting a ≡ (any (agent_eq a) agents || expecting a)

abbrev message_to : String → ℕ → Manifest → ℕ → AgentType → AgentMessage
message_to path total m epoch a = record {
  repo_path = path;
  agent_type = a;
  total_agents = total;
  epoch = some epoch;
  has_dockerfile = m.has_dockerfile;
}

module _ (path : String) (m : Manifest) (epoch : ℕ) (queue : List AgentMessage)
    (expecting : AgentSet) where
  abbrev four_agents : List AgentType
  four_agents = architecture ∷ security ∷ quality ∷ docs ∷ []

  abbrev five_agents : List AgentType
  five_agents = architecture ∷ security ∷ quality ∷ docs ∷ dependency ∷ []

  four-expected :
      (a : AgentType)
      → sadd_all four_agents expecting a ≡ (any (agent_eq a) four_agents || expecting a)
  four-expected architecture = refl
  four-expected security = refl
  four-expected dependency = refl
  four-expected quality = refl
  four-expected docs = refl

  five-expected :
      (a : AgentType)
      → sadd_all five_agents expecting a ≡ (any (agent_eq a) five_agents || expecting a)
  five-expected architecture = refl
  five-expected security = refl
  five-expected dependency = refl
  five-expected quality = refl
  five-expected docs = refl

  messages-Stamped :
      (total : ℕ) (agents : List AgentType)
      → All (Stamped path total epoch) (map (message_to path total m epoch) agents)
  messages-Stamped total [] = tt
  messages-Stamped total (a ∷ agents) = ((refl, refl, refl), messages-Stamped total agents)

  four-Sends : Sends path m epoch four_agents queue expecting
  unfolding emit_all
  four-Sends = record {
    sent = map (message_to path 4 m epoch) (docs ∷ quality ∷ security ∷ architecture ∷ []);
    queued = refl;
    stamped = messages-Stamped 4 (docs ∷ quality ∷ security ∷ architecture ∷ []);
    addressed = refl;
    expected = four-expected;
  }

  five-Sends : Sends path m epoch five_agents queue expecting
  unfolding emit_all
  five-Sends = record {
    sent =
        map (message_to path 5 m epoch)
          (dependency ∷ docs ∷ quality ∷ security ∷ architecture ∷ []);
    queued = refl;
    stamped = messages-Stamped 5 (dependency ∷ docs ∷ quality ∷ security ∷ architecture ∷ []);
    addressed = refl;
    expected = five-expected;
  }

  AnalysedBy-Sends :
      (agents : List AgentType) → AnalysedBy m agents → Sends path m epoch agents queue expecting
  AnalysedBy-Sends agents (inl (bare, e)) =
      subst (λ as_. Sends path m epoch as_ queue expecting) (sym e) four-Sends
  AnalysedBy-Sends agents (inr (with_manifest, e)) =
      subst (λ as_. Sends path m epoch as_ queue expecting) (sym e) five-Sends

-- What a dispatch comes to.
pub record Dispatched (path facts : String) (m : Manifest) (epoch : ℕ) (r : JobRow)
    (before after : World) : Type 0 where
  pub runs : after.row ≡ some (record r { status = running })
  pub told : after.events ≡ job_status running ∷ before.events
  pub settled : (after.acked ≡ suc before.acked) × (after.nacked ≡ before.nacked)
  pub found_graph : after.graph_path ≡ some path
  pub found_facts : after.repo_facts epoch ≡ some facts
  pub agents : List AgentType
  pub selected : AnalysedBy m agents
  pub sent : List AgentMessage
  pub queued : after.agent_queue ≡ sent ++ before.agent_queue
  pub stamped : All (Stamped path (length agents) epoch) sent
  pub addressed : reverse (types sent) ≡ agents
  pub expected :
      (a : AgentType)
      → after.agents_expected a ≡ (any (agent_eq a) agents || before.agents_expected a)

dispatched-Dispatched :
    (path facts : String) (m : Manifest) (epoch : ℕ) (r : JobRow) (w : World)
    → Dispatched path facts m epoch r w (dispatched path facts m epoch (taken r w))
dispatched-Dispatched path facts m epoch r w =
    let selected = select_agents-AnalysedBy m in
    let s =
      AnalysedBy-Sends path m epoch w.agent_queue w.agents_expected (select_agents m) selected in
    record {
      runs = refl;
      told = refl;
      settled = (refl, refl);
      found_graph = refl;
      found_facts = rw (==-refl epoch) refl;
      agents = select_agents m;
      selected = selected;
      sent = s.sent;
      queued = s.queued;
      stamped = s.stamped;
      addressed = s.addressed;
      expected = s.expected;
    }

-- A fresh live message whose tools resolve on a checkout with source: the job runs, the message is
-- acked and not nacked, the path of the graph and the facts of the run are stored; and four agents, or
-- with a manifest file the dependency agent besides, are expected, besides those that were, and are sent
-- one message each, in that order, with the path, the epoch of the run and their number. (No await
-- rejects.)
pub on_analysis_requested-dispatches :
    (t : Tools) (now : ℕ) (msg : AnalysisMessage) (r : JobRow) (w : World) (path facts : String)
    (nodes : ℕ) (m : Manifest)
    → Resolves t path (suc nodes) facts m
    → Live msg r w
    → msg.retry_agent_types ≡ none
    → (after : World) × (on_analysis_requested t now msg w ≡ ok tt after)
      × Dispatched path facts m (epoch_or msg.epoch (epoch_of w)) r w after
unfolding run_analysis
on_analysis_requested-dispatches t now msg r w path facts nodes m good live fresh =
    let some_nodes : (suc nodes == 0) ≡ false = ground arith in
    let epoch = epoch_or msg.epoch (epoch_of w) in
    (
      dispatched path facts m epoch (taken r w),
      passed_fence t now msg r w _ live (
          rw (mark_running_lem r w live.calm live.found, ◌>>=◌, ◌>>◌)
            (rw (good.checks_out msg.user_id msg.repo_full_name _ (taken r w), ◌>>=◌)
              (rw (good.indexes (taken r w), ◌>>=◌)
                (rw some_nodes (
                  analyse_fresh t msg (taken r w) path facts (suc nodes) epoch m good live.calm
                    fresh))))),
      dispatched-Dispatched path facts m epoch r w,
    )
