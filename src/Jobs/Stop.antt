-- ===== src/Jobs/Stop.antt =====
-- Retry, force-stop and cancel of apps/api-gateway/src/jobs/jobs.service.ts: their exact effects, and
-- that a stopped run is fenced off.
use codemind_backend.Common.{
  ℕ, suc, ◌≤◌, ◌<◌, true, false, String, none, some, [], ◌∷◌, map, ◌≡◌, ◌⊎◌, inl, inr, refl, sym,
  subst, ◌∙◌, ap, arith, Bool-cases, if◌then◌else◌,
}
use codemind_backend.Tokens.{or_zero}
use codemind_backend.World.{
  World, AgentMessage, pending, done, cancelled, JobRow, epoch_of, job_status,
}
use codemind_backend.World.Action.{
  bad_request, ok, thrown, ◌>>=◌, ◌>>◌, call_calm, update_job_calm, state_of,
}
use codemind_backend.Worker.{Services, handle, handle_dead_letter}
use codemind_backend.Worker.Fence.{handle-drops_stale, handle_dead_letter-drops_stale}
use codemind_backend.Jobs.{
  in_progress, retry_job, retry_types, remove_done, failed_types, summary, latest_by_type,
  force_stop_and_retry, cancel_job, bump_epoch, clear_run, reset, cancel_row, analysis_message,
  get_latest_agent_results,
}
use codemind_backend.Jobs.Access.{find_owned-owner}

-- The caller owns the job, and no await rejects.
pub record Owner (user : String) (r : JobRow) (w : World) : Type 0 where
  pub calm : w.outages ≡ []
  pub found : w.row ≡ some r
  pub own : r.user_id ≡ user

-- A new generation of the job, with the state of the old run gone.
abbrev pub next_run : World → World
next_run w = clear_run (record w { epoch = some (suc (epoch_of w)) })

abbrev pub force_stopped : String → JobRow → World → World
force_stopped user r w =
    let n = next_run w in
    record n {
      row = some (reset r);
      cached_status = some pending;
      analysis_queue = analysis_message user r none (suc (epoch_of w)) ∷ n.analysis_queue;
    }

abbrev pub cancelled_at : ℕ → JobRow → World → World
cancelled_at now r w =
    let n = next_run w in
    record n {
      row = some (cancel_row now r);
      cached_status = some cancelled;
      events = job_status cancelled ∷ n.events;
    }

bump_epoch_lem :
    (w : World)
    → w.outages ≡ []
    → bump_epoch w ≡ ok (suc (epoch_of w)) (record w { epoch = some (suc (epoch_of w)) })
unfolding bump_epoch
bump_epoch_lem w h = call_calm _ _ w h

-- A force-stop by the owner, whatever the job's status is: the epoch is bumped, the state of the run is
-- wiped, the row is `pending` again and a message of the new epoch is queued. (No await rejects.)
pub force_stop_and_retry_lem :
    (user : String) (r : JobRow) (w : World)
    → Owner user r w
    → force_stop_and_retry user w ≡ ok (reset r) (force_stopped user r w)
unfolding force_stop_and_retry
force_stop_and_retry_lem user r w o =
    let bumped : World = record w { epoch = some (suc (epoch_of w)) } in
    let fresh : World = next_run w in
    let reset_ : World = record fresh { row = some (reset r) } in
    let cached : World = record reset_ { cached_status = some pending } in
    rw (find_owned-owner user r w o.calm o.found o.own, ◌>>=◌)
      (rw (bump_epoch_lem w o.calm, ◌>>=◌)
        (rw (call_calm _ _ bumped o.calm, ◌>>=◌, ◌>>◌)
          (rw (update_job_calm reset r fresh o.calm o.found, ◌>>=◌, ◌>>◌)
            (rw (call_calm _ _ reset_ o.calm, ◌>>=◌, ◌>>◌)
              (rw (call_calm _ _ cached o.calm, ◌>>=◌, ◌>>◌) refl)))))

-- Cancelling a job in progress: the epoch is bumped, the state of the run is wiped, the row and the
-- cached status are `cancelled`, and the event is published. Any other job is refused, unchanged. (The owner asks
-- and no await rejects.)
pub cancel_job_lem :
    (user : String) (now : ℕ) (r : JobRow) (w : World)
    → Owner user r w
    → cancel_job user now w ≡ (
        if in_progress r.status
        then ok (cancel_row now r) (cancelled_at now r w)
        else thrown (bad_request "Only a pending or running job can be cancelled") w)
unfolding cancel_job
cancel_job_lem user now r w o =
    let bumped : World = record w { epoch = some (suc (epoch_of w)) } in
    let fresh : World = next_run w in
    let ended : World = record fresh { row = some (cancel_row now r) } in
    let cached : World = record ended { cached_status = some cancelled } in
    rw (find_owned-owner user r w o.calm o.found o.own, ◌>>=◌)
      (elim (Bool-cases (in_progress r.status)) [
        | inl active ↦
            rw (active, ◌>>=◌, ◌>>◌)
              (rw (bump_epoch_lem w o.calm, ◌>>=◌)
                (rw (call_calm _ _ bumped o.calm, ◌>>=◌, ◌>>◌)
                  (rw (update_job_calm (cancel_row now) r fresh o.calm o.found, ◌>>=◌, ◌>>◌)
                    (rw (call_calm _ _ ended o.calm, ◌>>=◌, ◌>>◌)
                      (rw (call_calm _ _ cached o.calm, ◌>>=◌, ◌>>◌) refl)))))
        | inr over ↦ rw (over, ◌>>=◌, ◌>>◌) refl
      ])

-- The worker does nothing with a message in this state but ack it.
abbrev pub IsDropped : Services → AgentMessage → World → Type 0
IsDropped s m w =
    (handle s m w ≡ ok tt (record w { acked = suc w.acked }))
    × (handle_dead_letter m w ≡ ok tt (record w { acked = suc w.acked }))

fenced-IsDropped :
    (s : Services) (m : AgentMessage) (w : World)
    → w.outages ≡ []
    → or_zero m.epoch < epoch_of w
    → IsDropped s m w
fenced-IsDropped s m w calm old = (
  handle-drops_stale s m w calm (omega arith),
  handle_dead_letter-drops_stale m w calm (omega arith),
)

-- A message of any generation up to the one that was current is dropped, by the worker and by the
-- dead-letter consumer alike, after its owner's force-stop and after a cancel that went through. (No await rejects.)
pub stop-fences :
    (s : Services) (user : String) (now : ℕ) (r x : JobRow) (w w' : World) (m : AgentMessage)
    → Owner user r w
    → or_zero m.epoch ≤ epoch_of w
    → (force_stop_and_retry user w ≡ ok x w') ⊎ (cancel_job user now w ≡ ok x w')
    → IsDropped s m w'
stop-fences s user now r x w w' m o old (inl forced) =
    subst (IsDropped s m) (ap state_of (sym (force_stop_and_retry_lem user r w o) ∙ forced))
      (fenced-IsDropped s m (force_stopped user r w) o.calm (omega arith))
stop-fences s user now r x w w' m o old (inr stopped) = elim (Bool-cases (in_progress r.status)) [
  | inl active ↦
      subst (IsDropped s m)
        (ap state_of (rw active at (sym (cancel_job_lem user now r w o) ∙ stopped)))
        (fenced-IsDropped s m (cancelled_at now r w) o.calm (omega arith))
  | inr over ↦ ground (arith, rw over at (sym (cancel_job_lem user now r w o) ∙ stopped))
]

retry_types_lem :
    (r : JobRow) (w : World)
    → w.outages ≡ []
    → r.status ≡ done
    → retry_types r.status w ≡ remove_done (failed_types (map summary (latest_by_type w.results))) w
unfolding retry_types get_latest_agent_results
retry_types_lem r w calm e = rw (e, retry_types, ◌>>=◌) (rw (call_calm _ _ w calm, ◌>>=◌) refl)

-- The job is in progress, or it is finished and the newest attempt of every agent succeeded.
abbrev pub CannotRetry : JobRow → World → Type 0
CannotRetry r w =
    (in_progress r.status ≡ true)
    ⊎ ((r.status ≡ done) × (failed_types (map summary (latest_by_type w.results)) ≡ []))

-- Retrying is refused as a bad request, with nothing changed, where the job is in progress, and where
-- it is finished and the newest attempt of every agent succeeded. (The owner asks and no await
-- rejects.)
pub retry_job-refuses :
    (user : String) (r : JobRow) (w : World)
    → Owner user r w
    → CannotRetry r w
    → (text : String) × (retry_job user w ≡ thrown (bad_request text) w)
unfolding retry_job
retry_job-refuses user r w o (inl busy) = (
  "Job is already in progress",
  rw (find_owned-owner user r w o.calm o.found o.own, ◌>>=◌) (rw (busy, ◌>>=◌, ◌>>◌) refl),
)
retry_job-refuses user r w o (inr (is_done, nothing)) =
    let idle : in_progress r.status ≡ false = rw is_done refl in
    (
      "Nothing to retry — all agents succeeded",
      rw (find_owned-owner user r w o.calm o.found o.own, ◌>>=◌)
          (rw (idle, ◌>>=◌, ◌>>◌)
            (rw (retry_types_lem r w o.calm is_done, ◌>>=◌) (rw (nothing, remove_done) refl))),
    )
