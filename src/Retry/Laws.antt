-- ===== src/Retry/Laws.antt =====
-- What `retryWithBackoff` of libs/common/src/util/retry.ts does.
use codemind_backend.Common.{
  List, ◌∷◌, ℕ, zero, suc, ◌+◌, ◌-◌, ◌*◌, ◌≤◌, min, max, false, [], leb, String, All, length, ◌≡◌,
  ◌⊎◌, inl, inr, refl, sym, arith,
}
use codemind_backend.Retry.{
  Outcome, returned, threw, RetryOptions, Attempts, later, step, attempt_from, retry_with_backoff,
}

module _ {T : Type 0} (opts : RetryOptions) (fn : ℕ → Outcome T) where
  -- The attempts from one on, as many as there were waits, all threw.
  abbrev pub Threw : ℕ → List ℕ → Type 0
  Threw k [] = Unit
  Threw k (wait ∷ waits) = ((err : String) × (fn k ≡ threw err)) × Threw (k + 1) waits

  -- `retryWithBackoff` from an attempt on: it stops at the first attempt that returns or at the last
  -- one allowed, with what that attempt gave; it waits once before each attempt after the first, and
  -- never longer than the bound.
  pub record Backs (attempt last : ℕ) (r : Attempts T) : Type 0 where
    pub reached : (attempt ≤ r.count) × (r.count ≤ last)
    pub given : r.outcome ≡ fn r.count
    pub stopped : ((x : T) × (r.outcome ≡ returned x)) ⊎ (r.count ≡ last)
    pub earlier_threw : Threw attempt r.waits
    pub one_wait_each : attempt + length r.waits ≡ r.count
    pub bounded : All (λ d. d ≤ opts.max_delay_ms) r.waits

  ended :
      (attempt last : ℕ) (o : Outcome T)
      → fn attempt ≡ o
      → attempt ≤ last
      → (((x : T) × (o ≡ returned x)) ⊎ (attempt ≡ last))
      → Backs attempt last (record { outcome = o; count = attempt; waits = [] })
  ended attempt last o e in_time s = record {
    reached = (omega arith, in_time);
    given = sym e;
    stopped = s;
    earlier_threw = tt;
    one_wait_each = omega arith;
    bounded = tt;
  }

  went_on :
      (attempt last wait : ℕ) (err : String) (r : Attempts T)
      → fn attempt ≡ threw err
      → wait ≤ opts.max_delay_ms
      → Backs (attempt + 1) last r
      → Backs attempt last (later opts fn wait r)
  went_on attempt last wait err r e short b = record {
    reached = (omega (arith, b.reached.0), b.reached.1);
    given = b.given;
    stopped = b.stopped;
    earlier_threw = ((err, e), b.earlier_threw);
    one_wait_each = omega (arith, b.one_wait_each);
    bounded = (short, b.bounded);
  }

  more_lem :
      (attempt left retries : ℕ)
      → 1 ≤ attempt
      → attempt + suc left ≡ max 1 retries
      → leb retries attempt ≡ false
  more_lem attempt left retries some_ sum = ground (arith, some_, sum)

  attempt_from-Backs :
      (left attempt delay : ℕ)
      → 1 ≤ attempt
      → attempt + left ≡ max 1 opts.retries
      → Backs attempt (max 1 opts.retries) (attempt_from opts fn left attempt delay)
  unfolding attempt_from
  attempt_from-Backs zero attempt delay some_ sum =
      ended attempt _ (fn attempt) refl (omega (arith, sum)) (inr (omega (arith, sum)))
  attempt_from-Backs (suc left) attempt delay some_ sum = go (fn attempt) refl (
      attempt_from-Backs left (attempt + 1) (min (delay * opts.factor) opts.max_delay_ms)
        (omega arith) (omega (arith, sum)))
    where
      go :
          (o : Outcome T)
          → fn attempt ≡ o
          → Backs (attempt + 1) (max 1 opts.retries) (
              attempt_from opts fn left (attempt + 1) (min (delay * opts.factor) opts.max_delay_ms))
          → Backs attempt (max 1 opts.retries) (
              step opts fn attempt delay
                (attempt_from opts fn left
                  (attempt + 1)
                  (min (delay * opts.factor) opts.max_delay_ms))
                o)
      go (returned x) e rest = ended attempt _ (returned x) e (omega (arith, sum)) (inl (x, refl))
      go (threw err) e rest =
          let more : leb opts.retries attempt ≡ false =
            more_lem attempt left opts.retries some_ sum in
          rw (more, step) (went_on attempt _ _ err _ e (omega arith) rest)

  -- The first attempt that returns is the result, and with none among the `retries` allowed (at least
  -- one is made) the last one's error is thrown; there is one wait after each earlier attempt, all of
  -- which threw, and none is longer than `maxDelayMs`.
  pub retry_with_backoff-Backs : Backs 1 (max 1 opts.retries) (retry_with_backoff opts fn)
  unfolding retry_with_backoff
  retry_with_backoff-Backs =
      attempt_from-Backs (opts.retries - 1) 1 opts.min_delay_ms (omega arith) (omega arith)
