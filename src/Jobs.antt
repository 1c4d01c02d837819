-- ===== src/Jobs.antt =====
-- The job operations of the gateway: apps/api-gateway/src/jobs/jobs.service.ts.
-- A database id is not part of the state of one job; times are arguments.
pub mod Access
pub mod Latest
pub mod Stop
use codemind_backend.Common.{
  ℕ, suc, Bool, true, false, not, String, Option, none, some, List, [], ◌∷◌, ◌++◌, map, any, keep,
  str_eq, if◌then◌else◌,
}
use codemind_backend.Tokens.{TokenUsage, total_tokens}
use codemind_backend.Json.{Value}
use codemind_backend.World.{
  World, AgentType, JobStatus, pending, running, done, failed, cancelled, JobRow, ResultRow, Report,
  AnalysisMessage, AgentSet, agent_eq, no_agents, srem, epoch_of, job_status,
}
use codemind_backend.World.Action.{
  not_found, bad_request, Action, ◌>>=◌, ◌>>◌, pure, throw, call, get, peek, put, publish,
  update_job,
}

-- `if (!job || job.userId !== userId) throw new NotFoundException(…)`
abbrev pub job_not_found : {A : Type 0} → Action A
job_not_found = throw (not_found "Job not found")

abbrev pub owned : String → Option JobRow → Action JobRow
owned user none = job_not_found
owned user (some r) = if str_eq r.user_id user then pure r else job_not_found

unfoldable pub find_owned : String → Action JobRow
find_owned user = do row ← get (λ w. w.row); owned user row

unfoldable pub create_analysis_job : String → String → ℕ → Action JobRow
create_analysis_job user repo now = do
  let job : JobRow = record {
    user_id = user;
    repo_full_name = repo;
    status = pending;
    completed_at = none;
    error = none;
    created_at = now;
  }
  put (λ w. record w { row = some job })
  put (λ w. record w { cached_status = some pending })
  let message : AnalysisMessage = record {
    user_id = user;
    repo_full_name = repo;
    retry_agent_types = none;
    epoch = some 0;
  }
  put (λ w. record w { analysis_queue = message ∷ w.analysis_queue })
  pure job

-- `latestByType`: a Map in the order of insertion, filled from the newest row on.
abbrev pub of_type : AgentType → ResultRow → Bool
of_type a r = agent_eq r.agent_type a

unfoldable pub latest_from : List ResultRow → List ResultRow → List ResultRow
latest_from latest [] = latest
latest_from latest (row ∷ rows) =
    latest_from (if any (of_type row.agent_type) latest then latest else latest ++ row ∷ []) rows

unfoldable pub latest_by_type : List ResultRow → List ResultRow
unfolding latest_from
latest_by_type rows = latest_from [] rows

pub record AgentResultSummary : Type 0 where
  pub agent_type : AgentType
  pub success : Bool
  pub error : Option String
  pub raw_output : Value
  pub tokens_used : TokenUsage
  pub total : ℕ
  pub duration_ms : Option ℕ

-- A failed agent's output is served as `null`.
unfoldable pub summary : ResultRow → AgentResultSummary
summary row = record {
  agent_type = row.agent_type;
  success = row.success;
  error = row.error;
  raw_output = if row.success then row.raw_output else Value.null;
  tokens_used = row.tokens_used;
  total = total_tokens row.tokens_used;
  duration_ms = row.duration_ms;
}

unfoldable pub get_latest_agent_results : Action (List AgentResultSummary)
get_latest_agent_results = do rows ← get (λ w. w.results); pure (map summary (latest_by_type rows))

-- The job with its report, by one query, and its agents' results.
unfoldable pub get_job : String → Action (JobRow × Option Report × List AgentResultSummary)
get_job user = do
  job ← find_owned user
  report ← peek (λ w. w.report)
  results ← get_latest_agent_results
  pure (job, report, results)

abbrev pub or_not_ready : Option Report → Action Report
or_not_ready none = throw (not_found "Report not found or not yet ready")
or_not_ready (some r) = pure r

unfoldable pub get_report_for_export : String → Action Report
get_report_for_export user = do
  job ← find_owned user
  report ← get (λ w. w.report)
  or_not_ready report

abbrev pub in_progress : JobStatus → Bool
in_progress pending = true
in_progress running = true
in_progress _ = false

abbrev pub failed_types : List AgentResultSummary → List AgentType
failed_types rs = map (λ r. r.agent_type) (keep (λ r. not r.success) rs)

abbrev pub srem_all : List AgentType → AgentSet → AgentSet
srem_all [] s = s
srem_all (a ∷ as_) s = srem_all as_ (srem a s)

abbrev pub remove_done : List AgentType → Action (Option (List AgentType))
remove_done [] = throw (bad_request "Nothing to retry — all agents succeeded")
remove_done (a ∷ as_) = do
  put (λ w. record w { agents_done = srem_all (a ∷ as_) w.agents_done })
  pure (some (a ∷ as_))

-- The agents to run again: of a finished job those that failed, else all.
unfoldable pub retry_types : JobStatus → Action (Option (List AgentType))
retry_types done = do results ← get_latest_agent_results; remove_done (failed_types results)
retry_types _ = pure none

abbrev pub reset : JobRow → JobRow
reset r = record r { status = pending; completed_at = none; error = none }

abbrev pub analysis_message : String → JobRow → Option (List AgentType) → ℕ → AnalysisMessage
analysis_message user job types epoch = record {
  user_id = user;
  repo_full_name = job.repo_full_name;
  retry_agent_types = types;
  epoch = some epoch;
}

unfoldable pub retry_job : String → Action JobRow
retry_job user = do
  job ← find_owned user
  if in_progress job.status then throw (bad_request "Job is already in progress") else pure tt
  types ← retry_types job.status
  update_job reset
  put (λ w. record w { cached_status = some pending })
  epoch ← get epoch_of
  put (λ w. record w { analysis_queue = analysis_message user job types epoch ∷ w.analysis_queue })
  pure (reset job)

-- `redis.incr(jobEpochKey(jobId))`, which returns the new value.
unfoldable pub bump_epoch : Action ℕ
bump_epoch = call (λ w. suc (epoch_of w)) (λ w. record w { epoch = some (suc (epoch_of w)) })

abbrev pub clear_run : World → World
clear_run w = record w {
  agents_done = no_agents;
  agents_expected = no_agents;
  graph_path = none;
  tokens_used = none;
  synthesizing = false;
}

unfoldable pub force_stop_and_retry : String → Action JobRow
force_stop_and_retry user = do
  job ← find_owned user
  epoch ← bump_epoch
  put clear_run
  update_job reset
  put (λ w. record w { cached_status = some pending })
  put (λ w. record w { analysis_queue = analysis_message user job none epoch ∷ w.analysis_queue })
  pure (reset job)

abbrev pub cancel_row : ℕ → JobRow → JobRow
cancel_row now r = record r {
  status = cancelled;
  completed_at = some now;
  error = some "Cancelled by user";
}

unfoldable pub cancel_job : String → ℕ → Action JobRow
cancel_job user now = do
  job ← find_owned user
  if in_progress job.status
      then pure tt
      else throw (bad_request "Only a pending or running job can be cancelled")
  _ ← bump_epoch
  put clear_run
  update_job (cancel_row now)
  put (λ w. record w { cached_status = some cancelled })
  publish (job_status cancelled)
  pure (cancel_row now job)
