-- ===== src/Pipeline/Stale.antt =====
-- The worker keeps a job that has a report and is not `done` so: see Retry.antt.
use codemind_backend.Common.{ℕ, String, Option, none, ◌≢◌, leb, ◌==◌}
use codemind_backend.Tokens.{or_zero}
use codemind_backend.World.{World, AgentType, AgentMessage, JobRow, done, Report}
use codemind_backend.World.Action.{
  Error, fenced, not_found, bad_request, rejected, Outcome, ok, thrown, state_of, ◌>>◌, call, pure,
  throw, nack, catch, update_job,
}
use codemind_backend.World.Triple.{
  Keeps, Ends, Triple-call, Triple-bind, Triple-catch, Triple-if, Triple-pure, Triple-throw,
  Triple-update_job,
}
use codemind_backend.Worker.{
  Services, advance, record_infra_failure, load_facts, run_agent, process, recover, handle,
  handle_dead_letter,
}
use codemind_backend.Synthesizer.Guards.{HasStale}
use codemind_backend.Pipeline.{Respects}

-- An action that ends in a state with `P` either way ends in one.
pub ends_state :
    {A : Type 0} (P : World → Type 0) (o : Outcome A)
    → Ends (λ _ w. P w) (λ _ w. P w) o
    → P (state_of o)
ends_state P (ok a w) h = h
ends_state P (thrown e w) h = h

module _ (rep : Report) where
  abbrev pub S : World → Type 0
  S = HasStale rep

  pub Keeps-call :
      {A : Type 0} (read : World → A) (write : World → World)
      → ((w : World) → S w → S (write w))
      → Keeps S (call read write)
  Keeps-call read write h = Triple-call read write (λ w r p. p) h (λ w p. p)

  pub Keeps-row :
      (f : JobRow → JobRow) → ((r : JobRow) → (f r).status ≢ done) → Keeps S (update_job f)
  Keeps-row f h = Triple-update_job f (λ w r p. p) (λ w r p. (p.0, h r)) (λ e w p. p)

  pub Keeps-pure : {A : Type 0} (a : A) → Keeps S (pure a)
  Keeps-pure a = Triple-pure a (λ w h. h)

  pub Keeps-throw : {A : Type 0} (e : Error) → Keeps S (throw {A = A} e)
  Keeps-throw e = Triple-throw e (λ w h. h)

  -- The worker.
  pub Keeps-advance : (a : AgentType) → Keeps S (advance a)
  unfolding advance
  Keeps-advance a = Triple-bind _ _ (Keeps-call _ _ (λ w h. h)) λ _.
      Triple-bind _ _ (Keeps-call _ _ (λ w h. h)) λ d.
        Triple-bind _ _ (Keeps-call _ _ (λ w h. h)) λ x.
          Triple-bind _ _ (Keeps-call _ _ (λ w h. h))
            λ _. Triple-if (leb x d) _ _ (λ _. Keeps-call _ _ (λ w h. h)) (λ _. Keeps-pure tt)

  pub Keeps-failure : (a : AgentType) (t : String) → Keeps S (record_infra_failure a t)
  unfolding record_infra_failure
  Keeps-failure a t = Triple-bind _ _ (Keeps-call _ _ (λ w h. h)) (λ _. Keeps-advance a)

  pub Keeps-facts : (s : Services) (e : Option ℕ) → Keeps S (load_facts s e)
  unfolding load_facts
  Keeps-facts s e =
      Triple-catch _ _ (Triple-bind _ _ (Keeps-call _ _ (λ w h. h)) (λ raw. Keeps-pure _))
        (λ x. Keeps-pure none)

  pub Keeps-run_agent : (s : Services) (m : AgentMessage) → Respects S s → Keeps S (run_agent s m)
  unfolding run_agent
  Keeps-run_agent s m q = Triple-bind _ _ (q.open_keeps m) λ c.
      Triple-bind _ _ (Keeps-facts s m.epoch) λ f. Triple-bind _ _ (q.run_keeps m c f) λ r.
        Triple-bind _ _
          (Triple-if r.success _ _ (λ _. Keeps-call _ _ (λ w h. h)) (λ _. Keeps-pure tt))
          (λ _. Keeps-pure r)

  pub Keeps-process : (s : Services) (m : AgentMessage) → Respects S s → Keeps S (process s m)
  unfolding process
  Keeps-process s m q = Triple-bind _ _ (Keeps-call _ _ (λ w h. h)) λ spent.
      Triple-bind _ _
        (Triple-if (leb s.job_token_budget spent) _ _ (λ _. Keeps-pure _)
          (λ _. Keeps-run_agent s m q))
        λ r.
          Triple-bind _ _ (Keeps-call _ _ (λ w h. h))
            λ _. Triple-bind _ _ (Keeps-advance m.agent_type) λ _. record { at = λ w h. h }

  pub Keeps-record :
      (a : AgentType) (t : String)
      → Keeps S (catch (record_infra_failure a t) (λ _. pure tt) >> nack)
  Keeps-record a t =
      Triple-bind _ _ (Triple-catch _ _ (Keeps-failure a t) (λ e. Keeps-pure tt))
        (λ _. record { at = λ w h. h })

  pub Keeps-recover : (m : AgentMessage) (e : Error) → Keeps S (recover m e)
  unfolding recover
  Keeps-recover m (fenced x y) = record { at = λ w h. h }
  Keeps-recover m (rejected t) = Keeps-record m.agent_type _
  Keeps-recover m (not_found t) = Keeps-record m.agent_type _
  Keeps-recover m (bad_request t) = Keeps-record m.agent_type _

  pub Keeps-handle : (s : Services) (m : AgentMessage) → Respects S s → Keeps S (handle s m)
  unfolding handle
  Keeps-handle s m q =
      Triple-catch _ (recover m)
        (Triple-bind _ _ (Keeps-call _ _ (λ w h. h)) λ current.
          Triple-if (or_zero m.epoch == current) _ _ (λ _. Keeps-process s m q)
            (λ _. record { at = λ w h. h }))
        (λ e. Keeps-recover m e)

  pub Keeps-dead_letter : (m : AgentMessage) → Keeps S (handle_dead_letter m)
  unfolding handle_dead_letter
  Keeps-dead_letter m =
      Triple-bind _ _
        (Triple-catch _ _
          (Triple-bind _ _ (Keeps-call _ _ (λ w h. h)) λ current.
            Triple-if (or_zero m.epoch == current) _ _ (λ _. Keeps-failure m.agent_type _)
              (λ _. Keeps-pure tt))
          (λ e. Keeps-pure tt))
        (λ _. record { at = λ w h. h })
