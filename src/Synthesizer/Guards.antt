-- ===== src/Synthesizer/Guards.antt =====
-- What keeps apps/synthesizer/src/synthesis/synthesizer.service.ts from writing a report twice, or
-- for a job that its owner cancelled.
use codemind_backend.Common.{
  ℕ, true, not, Option, none, some, [], ◌≡◌, ◌≢◌, ◌⊎◌, inl, inr, arith, ltb,
}
use codemind_backend.World.{World, done, JobRow, Report}
use codemind_backend.World.Action.{ok, call}
use codemind_backend.World.Triple.{
  Keeps, Triple-call, Triple-bind, Triple-catch, Triple-if, Triple-pure,
}
use codemind_backend.Synthesizer.{
  Renderer, claim, synthesize, is_some, is_cancelled, is_running, is_stalled, sweep,
}

-- The lock is taken, the job has a report, or its owner cancelled it.
abbrev pub Blocked : World → Type 0
Blocked w = (w.synthesizing ≡ true) ⊎ (is_some w.report ≡ true) ⊎ (is_cancelled w.row ≡ true)

-- A wakeup for a job whose lock is taken, that has a report, or that was cancelled, does nothing but
-- take the lock, whatever the renderer is. (No await rejects.)
pub synthesize-Blocked :
    (r : Renderer) (now : ℕ) (w : World)
    → w.outages ≡ []
    → Blocked w
    → synthesize r now w ≡ ok tt (record w { synthesizing = true })
unfolding synthesize claim call
synthesize-Blocked r now w calm (inl locked) = ground arith
synthesize-Blocked r now w calm (inr b) = ground arith

-- The job has this report, and its row is not `done`.
abbrev pub NotDone : Option JobRow → Type 0
NotDone none = Unit
NotDone (some r) = r.status ≢ done

abbrev pub HasStale : Report → World → Type 0
HasStale rep w = (w.report ≡ some rep) × NotDone w.row

module _ (rep : Report) where
  keep_call :
      {A : Type 0} (read : World → A) (write : World → World)
      → ((w : World) → HasStale rep w → HasStale rep (write w))
      → Keeps (HasStale rep) (call read write)
  keep_call read write h = Triple-call read write (λ w r p. p) h (λ w p. p)

  pub synthesize-Keeps : (r : Renderer) (now : ℕ) → Keeps (HasStale rep) (synthesize r now)
  unfolding synthesize claim
  synthesize-Keeps r now = Triple-bind _ _ (keep_call _ _ (λ w h. h)) λ claimed.
      Triple-if (not claimed) _ _ (λ _. Triple-pure tt (λ w h. h))
        λ _.
          Triple-bind {R = λ existing w. HasStale rep w × (existing ≡ some rep)} _ _
            (Triple-call _ _ (λ w l p. p) (λ w h. (h, h.0)) (λ w p. p))
            λ existing.
              Triple-if (is_some existing) _ _ (λ _. Triple-pure tt (λ w h. h.0))
                λ no_report. record { at = λ w h. cc }

  pub is_stalled-Keeps : (now : ℕ) → Keeps (HasStale rep) (is_stalled now)
  unfolding is_stalled
  is_stalled-Keeps now = Triple-bind _ _ (keep_call _ _ (λ w h. h)) λ d.
      Triple-bind _ _ (keep_call _ _ (λ w h. h)) λ e.
        Triple-if (ltb 0 e) _ _ (λ _. Triple-pure _ (λ w h. h))
          λ _. Triple-bind _ _ (keep_call _ _ (λ w h. h)) λ c. record { at = λ w h. h }

  pub sweep-Keeps : (r : Renderer) (now : ℕ) → Keeps (HasStale rep) (sweep r now)
  unfolding sweep
  sweep-Keeps r now = Triple-bind _ _ (keep_call _ _ (λ w h. h)) λ row.
      Triple-if (is_running row) _ _
        (λ _.
          Triple-catch _ _
            (Triple-bind _ _ (is_stalled-Keeps now) λ stalled.
              Triple-if stalled _ _ (λ _. synthesize-Keeps r now) (λ _. Triple-pure tt (λ w h. h)))
            (λ e. Triple-pure tt (λ w h. h)))
        (λ _. Triple-pure tt (λ w h. h))
