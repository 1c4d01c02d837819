-- ===== src/Pipeline/Retry.antt =====
-- A retry of a finished job: retryJob of apps/api-gateway/src/jobs/jobs.service.ts against the check
-- for an existing report in apps/synthesizer/src/synthesis/synthesizer.service.ts.
use codemind_backend.Common.{String, some, ◌≡◌, subst}
use codemind_backend.World.{World, JobRow, Report}
use codemind_backend.World.Action.{Outcome, ok, state_of}
use codemind_backend.World.Triple.{Keeps, Ends}
use codemind_backend.Synthesizer.Guards.{NotDone, HasStale, synthesize-Keeps, sweep-Keeps}
use codemind_backend.Jobs.{retry_job}
use codemind_backend.Pipeline.{
  Step, Reach, outages_change, lock_expires, counters_lost, retried, force_stopped, was_cancelled,
  analysed, analysis_died, worked, work_died, woken, swept, here, next,
}
use codemind_backend.Pipeline.Stale.{ends_state, S, Keeps-handle, Keeps-dead_letter}
use codemind_backend.Pipeline.StaleJobs.{
  retry_resets, Keeps-retry, Keeps-force_stop, Keeps-cancel, Keeps-analysis, Keeps-dead_analysis,
}

module _ (rep : Report) where
  after :
      {A : Type 0} {m : World → Outcome A}
      → Keeps (S rep) m
      → (w : World) → S rep w
      → S rep (state_of (m w))
  after {m} k w h = ends_state (S rep) (m w) (k.at w h)

  step_keeps : (w : World) {v : World} → Step (S rep) w v → S rep w → S rep v
  step_keeps w (outages_change l) h = h
  step_keeps w lock_expires h = h
  step_keeps w counters_lost h = h
  step_keeps w (retried user) h = after (Keeps-retry rep user) w h
  step_keeps w (force_stopped user) h = after (Keeps-force_stop rep user) w h
  step_keeps w (was_cancelled user now) h = after (Keeps-cancel rep user now) w h
  step_keeps w (analysed t now m q) h = after (Keeps-analysis rep t now m q) w h
  step_keeps w (analysis_died now m) h = after (Keeps-dead_analysis rep now m) w h
  step_keeps w (worked s m q) h = after (Keeps-handle rep s m q) w h
  step_keeps w (work_died m) h = after (Keeps-dead_letter rep m) w h
  step_keeps w (woken r now) h = after (synthesize-Keeps rep r now) w h
  step_keeps w (swept r now) h = after (sweep-Keeps rep r now) w h

  reach_keeps : {w v : World} → Reach (S rep) w v → S rep w → S rep v
  reach_keeps here h = h
  reach_keeps (next {u} r s) h = step_keeps u s (reach_keeps r h)

  -- Once a job that has a report is retried, it is never `done` again, and the report stays the old
  -- one: this holds after any steps of the gateway, the orchestrator, the worker, the two dead-letter
  -- consumers, the synthesizer and its sweep, whatever awaits reject. The graph library, the agents'
  -- runs and the orchestrator's tools are assumed not to touch the job's row and its report.
  pub retried_job-never_done :
      (user : String) (x : JobRow) (w w' v : World)
      → w.report ≡ some rep
      → retry_job user w ≡ ok x w'
      → Reach (HasStale rep) w' v
      → (v.report ≡ some rep) × NotDone v.row
  retried_job-never_done user x w w' v reported e r = reach_keeps r (
      subst (Ends (λ _ u. S rep u) (λ _ u. u.report ≡ some rep)) e
        ((retry_resets rep user).at w reported))
