-- ===== src/Pipeline/StaleJobs.antt =====
-- The gateway and the orchestrator keep a job that has a report and is not `done` so: see Retry.antt.
use codemind_backend.Common.{ℕ, Bool, String, Option, none, some, List, [], ◌∷◌, ◌≡◌, ◌==◌, str_eq}
use codemind_backend.World.{
  World, AgentType, AnalysisMessage, Manifest, JobRow, JobStatus, pending, running, done, failed,
  cancelled, Report,
}
use codemind_backend.World.Action.{call, ack}
use codemind_backend.World.Triple.{
  Triple, Keeps, Triple-call, Triple-bind, Triple-catch, Triple-if, Triple-update_job, Triple-pure,
  Triple-throw,
}
use codemind_backend.Orchestrator.{
  Tools, on_analysis_requested, run_analysis, analyse, agents_to_run, fresh_agents, mark_running,
  mark_failed, dispatch, handle_dead_analysis, superseded, no_source_files,
}
use codemind_backend.Jobs.{
  owned, find_owned, retry_job, retry_types, remove_done, failed_types, get_latest_agent_results,
  force_stop_and_retry, cancel_job, bump_epoch, reset, cancel_row, in_progress,
}
use codemind_backend.Pipeline.{ToolsRespect}
use codemind_backend.Pipeline.Stale.{S, Keeps-call, Keeps-row, Keeps-pure, Keeps-throw}

-- The parts of a retry before the row is reset keep any property that does not read what they change.
module _ {P : World → Type 0}
    (skip : (w : World) (l : List Bool) → P w → P (record w { outages = l })) where
  plain : {A : Type 0} (read : World → A) → Keeps P (call read (λ w. w))
  plain read = Triple-call read (λ w. w) skip (λ w h. h) (λ w h. h)

  pub Keeps-owned : (user : String) (o : Option JobRow) → Keeps P (owned user o)
  Keeps-owned user none = Triple-throw _ (λ w h. h)
  Keeps-owned user (some r) =
      Triple-if (str_eq r.user_id user) _ _ (λ _. Triple-pure r (λ w h. h))
        (λ _. Triple-throw _ (λ w h. h))

  pub Keeps-find_owned : (user : String) → Keeps P (find_owned user)
  unfolding find_owned
  Keeps-find_owned user = Triple-bind _ _ (plain _) (λ row. Keeps-owned user row)

  pub Keeps-remove_done :
      ((w : World) (f : AgentType → Bool) → P w → P (record w { agents_done = f }))
      → (ts : List AgentType) → Keeps P (remove_done ts)
  Keeps-remove_done set [] = Triple-throw _ (λ w h. h)
  Keeps-remove_done set (a ∷ as_) =
      Triple-bind _ _ (Triple-call _ _ skip (λ w h. set w _ h) (λ w h. h))
        (λ _. Triple-pure _ (λ w h. h))

  pub Keeps-retry_types :
      ((w : World) (f : AgentType → Bool) → P w → P (record w { agents_done = f }))
      → (s : JobStatus) → Keeps P (retry_types s)
  unfolding retry_types get_latest_agent_results
  Keeps-retry_types set done =
      Triple-bind _ _ (Triple-bind _ _ (plain _) (λ rows. Triple-pure _ (λ w h. h)))
        (λ results. Keeps-remove_done set (failed_types results))
  Keeps-retry_types set pending = Triple-pure none (λ w h. h)
  Keeps-retry_types set running = Triple-pure none (λ w h. h)
  Keeps-retry_types set failed = Triple-pure none (λ w h. h)
  Keeps-retry_types set cancelled = Triple-pure none (λ w h. h)

module _ (rep : Report) where
  abbrev Reported : World → Type 0
  Reported w = w.report ≡ some rep

  -- A retry that goes through leaves a row that is not `done`.
  pub retry_resets :
      (user : String) → Triple Reported (retry_job user) (λ _ w. S rep w) (λ _ w. Reported w)
  unfolding retry_job
  retry_resets user = Triple-bind _ _ (Keeps-find_owned (λ w l h. h) user) λ job.
      Triple-bind _ _
        (Triple-if (in_progress job.status) _ _ (λ _. Triple-throw _ (λ w h. h))
          (λ _. Triple-pure tt (λ w h. h)))
        λ _. Triple-bind _ _ (Keeps-retry_types (λ w l h. h) (λ w f h. h) job.status) λ types.
          Triple-bind {R = λ _ w. S rep w} _ _
            (Triple-update_job reset (λ w l h. h) (λ w r h. (h, λ e. cc)) (λ e w h. h))
            λ _. Triple-bind _ _ (Triple-call _ _ (λ w l h. h) (λ w h. h) (λ w h. h.0)) λ _.
              Triple-bind _ _ (Triple-call _ _ (λ w l h. h) (λ w h. h) (λ w h. h.0)) λ epoch.
                Triple-bind _ _ (Triple-call _ _ (λ w l h. h) (λ w h. h) (λ w h. h.0))
                  λ _. Triple-pure _ (λ w h. h)

  pub Keeps-retry : (user : String) → Keeps (S rep) (retry_job user)
  unfolding retry_job
  Keeps-retry user = Triple-bind _ _ (Keeps-find_owned (λ w l h. h) user) λ job.
      Triple-bind _ _
        (Triple-if (in_progress job.status) _ _ (λ _. Keeps-throw rep _) (λ _. Keeps-pure rep tt))
        λ _. Triple-bind _ _ (Keeps-retry_types (λ w l h. h) (λ w f h. h) job.status) λ types.
          Triple-bind _ _ (Keeps-row rep reset (λ r e. cc)) λ _.
            Triple-bind _ _ (Keeps-call rep _ _ (λ w h. h)) λ _.
              Triple-bind _ _ (Keeps-call rep _ _ (λ w h. h))
                λ epoch. Triple-bind _ _ (Keeps-call rep _ _ (λ w h. h)) λ _. Keeps-pure rep _

  pub Keeps-force_stop : (user : String) → Keeps (S rep) (force_stop_and_retry user)
  unfolding force_stop_and_retry bump_epoch
  Keeps-force_stop user = Triple-bind _ _ (Keeps-find_owned (λ w l h. h) user) λ job.
      Triple-bind _ _ (Keeps-call rep _ _ (λ w h. h)) λ epoch.
        Triple-bind _ _ (Keeps-call rep _ _ (λ w h. h)) λ _.
          Triple-bind _ _ (Keeps-row rep reset (λ r e. cc)) λ _.
            Triple-bind _ _ (Keeps-call rep _ _ (λ w h. h))
              λ _. Triple-bind _ _ (Keeps-call rep _ _ (λ w h. h)) λ _. Keeps-pure rep _

  pub Keeps-cancel : (user : String) (now : ℕ) → Keeps (S rep) (cancel_job user now)
  unfolding cancel_job bump_epoch
  Keeps-cancel user now = Triple-bind _ _ (Keeps-find_owned (λ w l h. h) user) λ job.
      Triple-bind _ _
        (Triple-if (in_progress job.status) _ _ (λ _. Keeps-pure rep tt) (λ _. Keeps-throw rep _))
        λ _. Triple-bind _ _ (Keeps-call rep _ _ (λ w h. h)) λ epoch.
          Triple-bind _ _ (Keeps-call rep _ _ (λ w h. h)) λ _.
            Triple-bind _ _ (Keeps-row rep (cancel_row now) (λ r e. cc)) λ _.
              Triple-bind _ _ (Keeps-call rep _ _ (λ w h. h))
                λ _. Triple-bind _ _ (Keeps-call rep _ _ (λ w h. h)) λ _. Keeps-pure rep _

  Keeps-mark_failed : (now : ℕ) (reason : String) → Keeps (S rep) (mark_failed now reason)
  unfolding mark_failed
  Keeps-mark_failed now reason =
      Triple-bind _ _ (Keeps-row rep _ (λ r e. cc))
        λ _. Triple-bind _ _ (Keeps-call rep _ _ (λ w h. h)) (λ _. Keeps-call rep _ _ (λ w h. h))

  Keeps-mark_running : Keeps (S rep) mark_running
  unfolding mark_running
  Keeps-mark_running =
      Triple-bind _ _ (Keeps-row rep _ (λ r e. cc))
        λ _. Triple-bind _ _ (Keeps-call rep _ _ (λ w h. h)) (λ _. Keeps-call rep _ _ (λ w h. h))

  Keeps-fresh_agents : (m : Manifest) → Keeps (S rep) (fresh_agents m)
  Keeps-fresh_agents m = Triple-bind _ _ (Keeps-call rep _ _ (λ w h. h)) (λ _. Keeps-pure rep _)

  Keeps-agents : (ts : Option (List AgentType)) (m : Manifest) → Keeps (S rep) (agents_to_run ts m)
  unfolding agents_to_run
  Keeps-agents none m = Keeps-fresh_agents m
  Keeps-agents (some []) m = Keeps-fresh_agents m
  Keeps-agents (some (a ∷ as_)) m = Keeps-pure rep _

  Keeps-analyse :
      (t : Tools) (msg : AnalysisMessage) (path : String) (epoch : ℕ)
      → ToolsRespect (S rep) t
      → Keeps (S rep) (analyse t msg path epoch)
  unfolding analyse dispatch
  Keeps-analyse t msg path epoch q = Triple-bind _ _ (Keeps-call rep _ _ (λ w h. h)) λ _.
      Triple-bind _ _ (q.facts_keep path) λ facts.
        Triple-bind _ _ (Keeps-call rep _ _ (λ w h. h)) λ _.
          Triple-bind _ _ (q.manifest_keeps path) λ manifest.
            Triple-bind _ _ (Keeps-agents msg.retry_agent_types manifest)
              λ agents. record { at = λ w h. h }

  Keeps-run_analysis :
      (t : Tools) (now : ℕ) (msg : AnalysisMessage) (epoch : ℕ)
      → ToolsRespect (S rep) t
      → Keeps (S rep) (run_analysis t now msg epoch)
  unfolding run_analysis
  Keeps-run_analysis t now msg epoch q = Triple-bind _ _ Keeps-mark_running λ _.
      Triple-bind {R = λ _ w. S rep w} ack _ (record { at = λ w h. h })
        λ _. Triple-bind _ _ (q.checkout_keeps msg.user_id msg.repo_full_name epoch) λ path.
          Triple-bind _ _ (q.index_keeps path) λ nodes.
            Triple-if (nodes == 0) _ _ (λ _. Keeps-mark_failed now no_source_files)
              (λ _. Keeps-analyse t msg path epoch q)

  pub Keeps-analysis :
      (t : Tools) (now : ℕ) (msg : AnalysisMessage)
      → ToolsRespect (S rep) t
      → Keeps (S rep) (on_analysis_requested t now msg)
  unfolding on_analysis_requested
  Keeps-analysis t now msg q = Triple-bind _ _ (Keeps-call rep _ _ (λ w h. h)) λ current.
      Triple-if (superseded msg.epoch current) _ _ (λ _. record { at = λ w h. h })
        (λ _. Triple-catch _ _ (Keeps-run_analysis t now msg _ q) (λ e. Keeps-mark_failed now _))

  pub Keeps-dead_analysis :
      (now : ℕ) (msg : AnalysisMessage) → Keeps (S rep) (handle_dead_analysis now msg)
  unfolding handle_dead_analysis
  Keeps-dead_analysis now msg =
      Triple-bind _ _ (Triple-catch _ _ (Keeps-mark_failed now _) (λ e. Keeps-pure rep tt))
        (λ _. record { at = λ w h. h })
