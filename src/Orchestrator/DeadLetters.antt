-- ===== src/Orchestrator/DeadLetters.antt =====
-- Where apps/orchestrator/src/jobs loses track of a message: a dead letter of a superseded run, and an
-- analysis whose job cannot be marked running.
use codemind_backend.Common.{ℕ, suc, true, false, some, [], ◌∷◌, ◌≡◌, ◌≢◌, refl}
use codemind_backend.World.{World, JobRow, AnalysisMessage, epoch_of}
use codemind_backend.World.Action.{ok, catch, call, ◌>>=◌, ◌>>◌, update_job, after_outage}
use codemind_backend.Orchestrator.{
  Tools, superseded, on_analysis_requested, run_analysis, mark_running, handle_dead_analysis,
  delivery_limit_exhausted,
}
use codemind_backend.Orchestrator.Dispatch.{
  on_analysis_requested-drops_stale, mark_failed_lem, marked_failed,
}

-- A message of a superseded run is dropped by the consumer, but once it is dead-lettered it marks the
-- live run's job as failed. (No await rejects.)
pub stale_dead_letter-fails_live_run :
    (t : Tools) (now : ℕ) (msg : AnalysisMessage) (r : JobRow) (w : World) (e : ℕ)
    → w.outages ≡ []
    → w.row ≡ some r
    → msg.epoch ≡ some e
    → e ≢ epoch_of w
    → (on_analysis_requested t now msg w ≡ ok tt (record w { acked = suc w.acked }))
      × (handle_dead_analysis now msg w
          ≡ ok tt (record (marked_failed now delivery_limit_exhausted r w) { acked = suc w.acked }))
unfolding handle_dead_analysis
stale_dead_letter-fails_live_run t now msg r w e calm found stamped stale = (
  on_analysis_requested-drops_stale t now msg w e calm stamped stale,
  rw (mark_failed_lem now delivery_limit_exhausted r w calm found, catch, ◌>>=◌, ◌>>◌) refl,
)

-- Where the first await of marking the job running rejects, the update of its row, and no other await
-- does, the handler of a message that is not superseded resolves with the job marked failed, and has
-- neither acked its message nor nacked it.
pub rejected_start-Unsettled :
    (t : Tools) (now : ℕ) (msg : AnalysisMessage) (r : JobRow) (w : World)
    → superseded msg.epoch (epoch_of w) ≡ false
    → w.outages ≡ false ∷ true ∷ []
    → w.row ≡ some r
    → on_analysis_requested t now msg w
      ≡ ok tt (marked_failed now "outage" r (record w { outages = [] }))
unfolding on_analysis_requested run_analysis mark_running update_job call
rejected_start-Unsettled t now msg r w live down found =
    rw (down, after_outage, ◌>>=◌, ◌>>◌)
      (rw (live, catch) (mark_failed_lem now "outage" r (record w { outages = [] }) refl found))
