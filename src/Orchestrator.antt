-- ===== src/Orchestrator.antt =====
-- The orchestrator: `onAnalysisRequested` of apps/orchestrator/src/jobs/orchestrator.consumer.ts,
-- job-failure-recorder.service.ts, analysis-dlq.consumer.ts and
-- apps/orchestrator/src/dispatch/agent-dispatch.service.ts.
-- Parameters: the user lookup with the decryption of the token, the download, the index, the facts
-- and the manifest of the checkout.
pub mod DeadLetters
pub mod Dispatch
use codemind_backend.Common.{
  ℕ, suc, Bool, true, false, not, String, Option, none, some, List, [], ◌∷◌, ◌++◌, ◌==◌, ◌&&◌,
  length, if◌then◌else◌,
}
use codemind_backend.World.{
  World, AgentType, architecture, security, quality, docs, dependency, JobStatus, running, failed,
  AnalysisMessage, AgentMessage, Manifest, AgentSet, sadd, epoch_of, job_status, job_failed,
}
use codemind_backend.World.Action.{
  Error, rejected, Action, ◌>>=◌, ◌>>◌, pure, catch, get, put, publish, update_job, ack,
}

-- `checkout` looks the user up, decrypts the token and downloads the repository to the directory of
-- the run; `node_count` is 0 where the index has no graph.
pub record Tools : Type 0 where
  pub checkout : (user repo : String) → (epoch : ℕ) → Action String
  pub index : String → Action ℕ
  pub build_facts : String → Action String
  pub build_manifest : String → Action Manifest

unfoldable pub select_agents : Manifest → List AgentType
select_agents m =
    let agents = architecture ∷ security ∷ quality ∷ docs ∷ [] in
    if not (length m.files_found == 0) then agents ++ dependency ∷ [] else agents

-- The loop of `dispatch`; the newest message stands first in the queue's list.
unfoldable pub emit_all :
    String → ℕ → Manifest → ℕ → List AgentType → List AgentMessage → List AgentMessage
emit_all path total m epoch [] queue = queue
emit_all path total m epoch (a ∷ as_) queue =
    let message : AgentMessage = record {
      repo_path = path;
      agent_type = a;
      total_agents = total;
      epoch = some epoch;
      has_dockerfile = m.has_dockerfile;
    } in
    emit_all path total m epoch as_ (message ∷ queue)

-- `emit` is not awaited, so the dispatch cannot reject.
unfoldable pub dispatch : String → List AgentType → Manifest → ℕ → Action (Unit {0})
dispatch path agents m epoch w =
    pure tt (record w { agent_queue = emit_all path (length agents) m epoch agents w.agent_queue })

-- `reason.slice(0, 500)` bounds the text; the texts are not cut here.
unfoldable pub mark_failed : ℕ → String → Action (Unit {0})
mark_failed now reason = do
  update_job (λ r. record r { status = failed; completed_at = some now; error = some reason })
  put (λ w. record w { cached_status = some failed })
  publish (job_failed reason)

unfoldable pub mark_running : Action (Unit {0})
mark_running = do
  update_job (λ r. record r { status = running })
  put (λ w. record w { cached_status = some running })
  publish (job_status running)

abbrev pub sadd_all : List AgentType → AgentSet → AgentSet
sadd_all [] s = s
sadd_all (a ∷ as_) s = sadd_all as_ (sadd a s)

abbrev pub no_source_files : String
no_source_files =
    "No supported source files (JS, TS, Python, or Go) found to analyze in this repository."

-- The agents of a retry (`isRetry`), or a fresh selection, which is then expected.
abbrev pub fresh_agents : Manifest → Action (List AgentType)
fresh_agents m = do
  put (λ w. record w { agents_expected = sadd_all (select_agents m) w.agents_expected })
  pure (select_agents m)

unfoldable pub agents_to_run : Option (List AgentType) → Manifest → Action (List AgentType)
agents_to_run (some (a ∷ as_)) m = pure (a ∷ as_)
agents_to_run _ m = fresh_agents m

abbrev pub epoch_or : Option ℕ → ℕ → ℕ
epoch_or none current = current
epoch_or (some e) current = e

-- From the indexed checkout to the dispatch.
unfoldable pub analyse : Tools → AnalysisMessage → String → ℕ → Action (Unit {0})
analyse t msg path epoch = do
  put (λ w. record w { graph_path = some path })
  facts ← t.build_facts path
  put (λ w. record w { repo_facts = λ e. if e == epoch then some facts else w.repo_facts e })
  manifest ← t.build_manifest path
  agents ← agents_to_run msg.retry_agent_types manifest
  dispatch path agents manifest epoch

unfoldable pub run_analysis : Tools → ℕ → AnalysisMessage → ℕ → Action (Unit {0})
run_analysis t now msg epoch = do
  mark_running
  ack
  path ← t.checkout msg.user_id msg.repo_full_name epoch
  node_count ← t.index path
  if node_count == 0 then mark_failed now no_source_files else analyse t msg path epoch

abbrev pub superseded : Option ℕ → ℕ → Bool
superseded none current = false
superseded (some e) current = not (e == current)

abbrev message_of : Error → String
message_of (rejected m) = m
message_of _ = "error"

unfoldable pub on_analysis_requested : Tools → ℕ → AnalysisMessage → Action (Unit {0})
on_analysis_requested t now msg = do
  current ← get epoch_of
  if superseded msg.epoch current
      then ack
      else catch (run_analysis t now msg (epoch_or msg.epoch current))
          (λ e. mark_failed now (message_of e))

abbrev pub delivery_limit_exhausted : String
delivery_limit_exhausted =
    "Orchestrator crashed/failed 3x processing this job — exhausted delivery-limit"

-- `AnalysisDlqConsumer.handle`, which reads no epoch.
unfoldable pub handle_dead_analysis : ℕ → AnalysisMessage → Action (Unit {0})
handle_dead_analysis now msg = do
  catch (mark_failed now delivery_limit_exhausted) (λ _. pure tt)
  ack
