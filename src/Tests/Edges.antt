-- ===== src/Tests/Edges.antt =====
-- The execution gate, the share links, the rate limit and the retries at concrete states.
use codemind_backend.Common.{
  ℕ, ◌<◌, ◌≤◌, max, true, false, String, none, some, [], ◌∷◌, ◌≡◌, ◌⊎◌, refl, arith, length,
  if◌then◌else◌, leb,
}
use codemind_backend.World.{docs, architecture}
use codemind_backend.Slots.{
  Waiter, Gate, Reach, start, acquire_slot, timer_fires, arrives, fires, here, next,
}
use codemind_backend.Slots.Safety.{gate_safe}
use codemind_backend.Share.{
  Job, Share, Store, ShareLink, found, owned_report, find_live, create_or_get_link,
}
use codemind_backend.RateLimit.{
  fresh, can_activate, after, submits, hour_passes, submissions, too_many_requests,
}
use codemind_backend.RateLimit.Laws.{lost_expiry-locks_out}
use codemind_backend.Retry.{Outcome, returned, threw, defaults, attempt_from, retry_with_backoff}

abbrev slow : Waiter
slow = record { agent_type = docs; ticket = 1 }

abbrev first : Waiter
first = record { agent_type = architecture; ticket = 2 }

abbrev queued : Gate
queued = timer_fires (acquire_slot first (acquire_slot slow (start 1)))

queued-Reach : Reach (start 1) queued
unfolding acquire_slot start
queued-Reach = next (next (next here (arrives slow)) (arrives first)) (fires refl)

gate_safe_example :
    (length queued.active ≤ max 1 1)
    × ((queued.waiters ≡ [])
        ⊎ (queued.timer ≡ true)
        ⊎ ((queued.available ≡ 0) × (0 < length queued.active)))
gate_safe_example = gate_safe 1 queued queued-Reach

abbrev job : Job
job = record { id = "j1"; user_id = "ada"; report_id = some "r1" }

abbrev store : Store
store = record { jobs = job ∷ []; shares = [] }

abbrev share : Share
share = record {
  token = "t1";
  report_id = "r1";
  created_by = "ada";
  created_at = 5;
  revoked_at = none;
}

abbrev link : ShareLink
link = record { token = "t1"; created_at = 5 }

abbrev shared : Store
shared = record store { shares = share ∷ [] }

shared_now : create_or_get_link "j1" "ada" "t1" 5 store ≡ found (link, shared)
unfolding create_or_get_link owned_report find_live
shared_now = refl

abbrev revoked : Store
revoked = record store { shares = record share { revoked_at = some 7 } ∷ [] }

lost_expiry-locks_out_example :
    (can_activate 2 false
      (after 2 (submits false ∷ hour_passes ∷ []) (can_activate 2 true fresh).1)).0
    ≡ too_many_requests
unfolding submissions
lost_expiry-locks_out_example =
    lost_expiry-locks_out 2 (submits false ∷ hour_passes ∷ []) false (omega arith)

abbrev third_time : ℕ → Outcome String
third_time n = if leb 3 n then returned "up" else threw "refused"

retried_waits : (retry_with_backoff defaults third_time).waits ≡ 1000 ∷ 2000 ∷ []
unfolding retry_with_backoff attempt_from
retried_waits = refl
