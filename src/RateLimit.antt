-- ===== src/RateLimit.antt =====
-- The cap on job submissions: apps/api-gateway/src/jobs/job-rate-limit.guard.ts.
-- The state is one user's counter in Redis: its value, and whether it has an expiry set.
pub mod Laws
use codemind_backend.Common.{
  ℕ, zero, suc, ◌+◌, Bool, true, false, Option, none, some, List, [], ◌∷◌, ltb, ◌==◌, if◌then◌else◌,
}
use codemind_backend.Tokens.{or_zero}

pub record Counter : Type 0 where
  pub count : Option ℕ
  pub expires : Bool

pub data Verdict : Type 0 where
  allowed too_many_requests unavailable : Verdict

-- `count > limit`
abbrev pub decide_by : ℕ → ℕ → Verdict
decide_by limit count = if ltb limit count then too_many_requests else allowed

-- `canActivate`, where `incr` goes through and `expire` may reject.
unfoldable pub can_activate : ℕ → Bool → Counter → Verdict × Counter
can_activate limit expire_rejects c =
    let count = or_zero c.count + 1 in
    if count == 1
    then (if expire_rejects
        then (unavailable, record { count = some count; expires = false })
        else (decide_by limit count, record { count = some count; expires = true }))
    else (decide_by limit count, record { count = some count; expires = c.expires })

-- The end of the window: Redis deletes a key that has an expiry, and keeps one that has none.
unfoldable pub window_ends : Counter → Counter
window_ends c = if c.expires then record { count = none; expires = false } else c

abbrev pub weight : Verdict → ℕ
weight allowed = 1
weight v = 0

-- How many of `n` submissions of one window are allowed.
unfoldable pub allowed_of : ℕ → ℕ → Counter → ℕ
allowed_of limit zero c = 0
allowed_of limit (suc n) c =
    let (v, c') = can_activate limit false c in weight v + allowed_of limit n c'

-- A user's hours: submissions, each with whether `expire` rejects, and the ends of windows.
pub data Event : Type 0 where
  submits : (expire_rejects : Bool) → Event
  hour_passes : Event

unfoldable pub after : ℕ → List Event → Counter → Counter
after limit [] c = c
after limit (submits b ∷ es) c = after limit es (can_activate limit b c).1
after limit (hour_passes ∷ es) c = after limit es (window_ends c)

unfoldable pub submissions : List Event → ℕ
submissions [] = 0
submissions (submits b ∷ es) = suc (submissions es)
submissions (hour_passes ∷ es) = submissions es

abbrev pub fresh : Counter
fresh = record { count = none; expires = false }
