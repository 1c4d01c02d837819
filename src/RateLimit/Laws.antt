-- ===== src/RateLimit/Laws.antt =====
-- What apps/api-gateway/src/jobs/job-rate-limit.guard.ts keeps to, and where it cannot.
use codemind_backend.Common.{
  ℕ, zero, suc, ◌+◌, ◌-◌, ◌≤◌, min, Bool, true, false, some, List, [], ◌∷◌, ◌≡◌, refl, arith, ap,
  ◌∙◌,
}
use codemind_backend.RateLimit.{
  Counter, too_many_requests, can_activate, window_ends, allowed_of, Event, submits, hour_passes,
  after, submissions, fresh,
}

allowed_of_lem :
    (limit n k : ℕ) (e : Bool)
    → allowed_of limit n (record { count = some (suc k); expires = e }) ≡ min n (limit - suc k)
unfolding allowed_of can_activate
allowed_of_lem limit zero k e = omega arith
allowed_of_lem limit (suc n) k e =
    let rest = allowed_of_lem limit n (suc k) e in ground (arith, rest)

-- Of any number of submissions within one window, exactly the first `limit` are allowed.
pub allowed_of-fresh : (limit n : ℕ) → allowed_of limit n fresh ≡ min n limit
unfolding allowed_of can_activate
allowed_of-fresh limit zero = omega arith
allowed_of-fresh limit (suc n) = ground (arith, allowed_of_lem limit n 0 true)

abbrev stuck : ℕ → Counter
stuck k = record { count = some (suc k); expires = false }

can_activate-stuck : (limit k : ℕ) (b : Bool) → (can_activate limit b (stuck k)).1 ≡ stuck (suc k)
unfolding can_activate
can_activate-stuck limit k b = ground arith

after-stuck :
    (limit k : ℕ) (es : List Event) → after limit es (stuck k) ≡ stuck (submissions es + k)
unfolding after window_ends submissions
after-stuck limit k [] = ap stuck (omega arith)
after-stuck limit k (submits b ∷ es) =
    ap (after limit es) (can_activate-stuck limit k b)
    ∙ after-stuck limit (suc k) es
    ∙ ap stuck (omega arith)
after-stuck limit k (hour_passes ∷ es) = after-stuck limit k es

first : (limit : ℕ) → (can_activate limit true fresh).1 ≡ stuck 0
unfolding can_activate
first limit = refl

refuses :
    (limit k : ℕ) (b : Bool)
    → limit ≤ suc k
    → (can_activate limit b (stuck k)).0 ≡ too_many_requests
unfolding can_activate
refuses limit k b h = ground (arith, h)

-- Where `expire` rejects on a user's first submission, the counter never expires: after `limit`
-- submissions in all, over however many hours, every later one is refused.
pub lost_expiry-locks_out :
    (limit : ℕ) (es : List Event) (b : Bool)
    → limit ≤ suc (submissions es)
    → (can_activate limit b (after limit es (can_activate limit true fresh).1)).0
      ≡ too_many_requests
lost_expiry-locks_out limit es b h =
    ap (λ c. (can_activate limit b (after limit es c)).0) (first limit)
    ∙ ap (λ c. (can_activate limit b c).0) (after-stuck limit 0 es)
    ∙ refuses limit (submissions es + 0) b (omega (arith, h))
