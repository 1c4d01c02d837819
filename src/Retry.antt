-- ===== src/Retry.antt =====
-- libs/common/src/util/retry.ts: `retryWithBackoff`. The operation is given by the outcome of each
-- attempt, numbered from 1; the result lists the waits in order.
pub mod Laws
use codemind_backend.Common.{
  ℕ, zero, suc, ◌+◌, ◌-◌, ◌*◌, min, max, Bool, true, false, List, [], ◌∷◌, leb, if◌then◌else◌,
  String,
}

pub data Outcome {ℓ} (T : Type ℓ) : Type ℓ where
  returned : T → Outcome T
  threw : String → Outcome T

pub record RetryOptions : Type 0 where
  pub retries : ℕ
  pub min_delay_ms : ℕ
  pub max_delay_ms : ℕ
  pub factor : ℕ

-- The defaults of `opts`
abbrev pub defaults : RetryOptions
defaults = record { retries = 10; min_delay_ms = 1000; max_delay_ms = 15000; factor = 2 }

pub record Attempts {ℓ} (T : Type ℓ) : Type ℓ where
  pub outcome : Outcome T
  pub count : ℕ
  pub waits : List ℕ

module _ {ℓ} {T : Type ℓ} (opts : RetryOptions) (fn : ℕ → Outcome T) where
  abbrev pub later : ℕ → Attempts T → Attempts T
  later wait r = record r { waits = wait ∷ r.waits }

  abbrev pub step : ℕ → ℕ → Attempts T → Outcome T → Attempts T
  step attempt delay rest (returned x) = record {
    outcome = returned x;
    count = attempt;
    waits = [];
  }
  step attempt delay rest (threw err) =
      if leb opts.retries attempt
      then record { outcome = threw err; count = attempt; waits = [] }
      else later (min delay opts.max_delay_ms) rest

  -- The `for` loop; `left` is how many attempts may follow, and with none left the loop gives up
  -- whatever `retries` says.
  unfoldable pub attempt_from : (left attempt delay : ℕ) → Attempts T
  attempt_from zero attempt delay = record { outcome = fn attempt; count = attempt; waits = [] }
  attempt_from (suc left) attempt delay =
      step attempt delay
        (attempt_from left (attempt + 1) (min (delay * opts.factor) opts.max_delay_ms)) (fn attempt)

  -- No attempt is made beyond `retries`.
  unfoldable pub retry_with_backoff : Attempts T
  retry_with_backoff = attempt_from (opts.retries - 1) 1 opts.min_delay_ms
