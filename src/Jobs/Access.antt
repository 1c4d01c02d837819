-- ===== src/Jobs/Access.antt =====
-- Who may act on a job: the ownership check of apps/api-gateway/src/jobs/jobs.service.ts.
use codemind_backend.Common.{ℕ, String, Option, none, some, [], ◌≡◌, ◌≢◌, refl, arith, str_eq_iff}
use codemind_backend.World.{World, JobRow}
use codemind_backend.World.Action.{not_found, Outcome, ok, thrown, ◌>>=◌, call_calm}
use codemind_backend.Jobs.{
  owned, find_owned, get_job, get_report_for_export, retry_job, force_stop_and_retry, cancel_job,
}

-- The job does not exist, or it is somebody else's.
abbrev pub Foreign : String → Option JobRow → Type 0
Foreign user none = Unit
Foreign user (some r) = r.user_id ≢ user

owned-Foreign :
    (user : String) (o : Option JobRow) (w : World)
    → Foreign user o
    → owned user o w ≡ thrown (not_found "Job not found") w
owned-Foreign user none w h = refl
owned-Foreign user (some r) w h = ground (arith, str_eq_iff r.user_id user)

find_owned-Foreign :
    (user : String) (w : World)
    → w.outages ≡ []
    → Foreign user w.row
    → find_owned user w ≡ thrown (not_found "Job not found") w
unfolding find_owned
find_owned-Foreign user w calm h = rw (call_calm _ _ w calm, ◌>>=◌) (owned-Foreign user w.row w h)

abbrev pub Refused : {A : Type 0} → World → Outcome A → Type 0
Refused w o = o ≡ thrown (not_found "Job not found") w

-- To somebody who does not own the job, each operation on it answers as if the job did not exist, and
-- changes nothing: reading it, exporting its report, retrying, force-stopping and cancelling it. (No
-- await rejects.)
pub Foreign-Refused :
    (user : String) (now : ℕ) (w : World)
    → w.outages ≡ []
    → Foreign user w.row
    → Refused w (get_job user w)
      × Refused w (get_report_for_export user w)
      × Refused w (retry_job user w)
      × Refused w (force_stop_and_retry user w)
      × Refused w (cancel_job user now w)
unfolding get_job get_report_for_export retry_job force_stop_and_retry cancel_job
Foreign-Refused user now w calm h =
    let e = find_owned-Foreign user w calm h in
    (rw (e, ◌>>=◌), rw (e, ◌>>=◌), rw (e, ◌>>=◌), rw (e, ◌>>=◌), rw (e, ◌>>=◌))

-- The owner's operations get past the check.
pub find_owned-owner :
    (user : String) (r : JobRow) (w : World)
    → w.outages ≡ []
    → w.row ≡ some r
    → r.user_id ≡ user
    → find_owned user w ≡ ok r w
unfolding find_owned
find_owned-owner user r w calm found own =
    rw (call_calm _ _ w calm, ◌>>=◌) (rw (found, owned) (ground (arith, str_eq_iff r.user_id user)))
