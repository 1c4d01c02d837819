-- ===== src/Tests/Finishing.antt =====
-- The synthesizer, the orchestrator and the pipeline at concrete states of a job.
use codemind_backend.Common.{ℕ, true, false, some, [], ◌∷◌, ◌≡◌, refl, arith}
use codemind_backend.World.{World}
use codemind_backend.World.Action.{ok, pure}
use codemind_backend.Synthesizer.{synthesize}
use codemind_backend.Synthesizer.Guards.{NotDone}
use codemind_backend.Synthesizer.Outcomes.{Free}
use codemind_backend.Orchestrator.{
  on_analysis_requested, handle_dead_analysis, delivery_limit_exhausted,
}
use codemind_backend.Orchestrator.Dispatch.{
  Resolves, Live, Dispatched, marked_failed, on_analysis_requested-drops_stale,
  on_analysis_requested-dispatches,
}
use codemind_backend.Orchestrator.DeadLetters.{
  stale_dead_letter-fails_live_run, rejected_start-Unsettled,
}
use codemind_backend.Jobs.{
  retry_job, reset, retry_types, get_latest_agent_results, latest_by_type, latest_from, summary,
  find_owned,
}
use codemind_backend.World.Action.{call, update_job}
use codemind_backend.World.Action.{state_of}
use codemind_backend.Pipeline.{here, next, woken}
use codemind_backend.Pipeline.Retry.{retried_job-never_done}
use codemind_backend.Tests.Data.{
  running_row, done_row, failed_docs, good_quality, report, world, done_world, request,
  stale_request, manifest, tools, composed, renderer,
}

abbrev all_failed : World
all_failed = record world { results = failed_docs ∷ [] }

all_failed-Free : Free running_row all_failed
all_failed-Free = record {
  calm = refl;
  unclaimed = refl;
  unreported = refl;
  found = refl;
  live = refl;
}

abbrev half_failed : World
half_failed = record world { results = failed_docs ∷ good_quality ∷ [] }

superseded-dropped :
    on_analysis_requested (tools 9) 700 stale_request world ≡ ok tt (record world { acked = 1 })
superseded-dropped =
    on_analysis_requested-drops_stale (tools 9) 700 stale_request world 2 refl refl (omega arith)

tools-Resolves : (nodes : ℕ) → Resolves (tools nodes) "/tmp/repos/1-3" nodes "facts" manifest
tools-Resolves nodes = record {
  checks_out = λ u r e w. refl;
  indexes = λ w. refl;
  finds_facts = λ w. refl;
  finds_manifest = λ w. refl;
}

request-Live : Live request running_row world
request-Live = record { calm = refl; found = refl; current = refl }

on_analysis_requested-dispatches_example :
    (after : World) × (on_analysis_requested (tools 9) 700 request world ≡ ok tt after)
    × Dispatched "/tmp/repos/1-3" "facts" manifest 3 running_row world after
on_analysis_requested-dispatches_example =
    on_analysis_requested-dispatches (tools 9) 700 request running_row world "/tmp/repos/1-3"
      "facts" 8 manifest (tools-Resolves 9) request-Live refl

stale_dead_letter-fails_live_run_example :
    (on_analysis_requested (tools 9) 700 stale_request world ≡ ok tt (record world { acked = 1 }))
    × (handle_dead_analysis 700 stale_request world
        ≡ ok tt
            (record (marked_failed 700 delivery_limit_exhausted running_row world) { acked = 1 }))
stale_dead_letter-fails_live_run_example =
    stale_dead_letter-fails_live_run (tools 9) 700 stale_request running_row world 2 refl refl refl
      (omega arith)

abbrev flaky : World
flaky = record world { outages = false ∷ true ∷ [] }

rejected_start-Unsettled_example :
    on_analysis_requested (tools 9) 700 request flaky
    ≡ ok tt (marked_failed 700 "outage" running_row (record flaky { outages = [] }))
rejected_start-Unsettled_example =
    rejected_start-Unsettled (tools 9) 700 request running_row flaky refl refl refl

abbrev retried_world : World
retried_world = state_of (retry_job "ada" done_world)

retried_now : retry_job "ada" done_world ≡ ok (reset done_row) retried_world
unfolding retry_job retry_types get_latest_agent_results latest_by_type latest_from summary
    find_owned call update_job
retried_now = refl

abbrev after_wakeup : World
after_wakeup = state_of (synthesize (renderer (pure composed)) 700 retried_world)

retried_job-never_done_example : (after_wakeup.report ≡ some report) × NotDone after_wakeup.row
retried_job-never_done_example =
    retried_job-never_done report "ada" (reset done_row) done_world retried_world after_wakeup refl
      retried_now (next here (woken (renderer (pure composed)) 700))
