-- ===== src/Worker/Settled.antt =====
-- Every way out of the handlers of apps/agent-worker/src/jobs settles the broker's message once.
use codemind_backend.Common.{ℕ, suc, String, Option, none, ◌≡◌, ◌⊎◌, inl, inr, refl, ap, leb, ◌==◌}
use codemind_backend.Tokens.{or_zero}
use codemind_backend.World.{World, AgentMessage, AgentType}
use codemind_backend.World.Action.{
  Error, fenced, rejected, not_found, bad_request, call, ack, nack, pure, catch, ◌>>◌,
}
use codemind_backend.World.Triple.{
  Triple, Keeps, Ends, Triple-call, Triple-bind, Triple-catch, Triple-if, Triple-pure,
}
use codemind_backend.Worker.{
  Services, advance, record_infra_failure, load_facts, run_agent, process, recover, handle,
  handle_dead_letter,
}

abbrev pub Counts : ℕ → ℕ → World → Type 0
Counts a n w = (w.acked ≡ a) × (w.nacked ≡ n)

-- The message is settled: one ack more, or one nack more.
abbrev pub Settled : ℕ → ℕ → World → Type 0
Settled a n w = Counts (suc a) n w ⊎ Counts a (suc n) w

module _ {A : Type 0} {a n : ℕ} where
  call-Counts :
      (read : World → A) (write : World → World)
      → ((w : World) → Counts a n w → Counts a n (write w))
      → Keeps (Counts a n) (call read write)
  call-Counts read write h = Triple-call read write (λ w r p. p) h (λ w p. p)

module _ {a n : ℕ} where
  ack_settles : {E : Error → World → Type 0} → Triple (Counts a n) ack (λ _ w. Settled a n w) E
  ack_settles = record { at = λ w h. inl (ap suc h.0, h.1) }

  nack_settles : {E : Error → World → Type 0} → Triple (Counts a n) nack (λ _ w. Settled a n w) E
  nack_settles = record { at = λ w h. inr (h.0, ap suc h.1) }

  advance-Counts : (t : AgentType) → Keeps (Counts a n) (advance t)
  unfolding advance
  advance-Counts t = Triple-bind _ _ (call-Counts _ _ (λ w h. h)) λ _.
      Triple-bind _ _ (call-Counts _ _ (λ w h. h)) λ d.
        Triple-bind _ _ (call-Counts _ _ (λ w h. h)) λ x.
          Triple-bind _ _ (call-Counts _ _ (λ w h. h)) λ _.
            Triple-if (leb x d) _ _ (λ _. call-Counts _ _ (λ w h. h))
              (λ _. Triple-pure tt (λ w h. h))

  record_infra_failure-Counts :
      (t : AgentType) (m : String) → Keeps (Counts a n) (record_infra_failure t m)
  unfolding record_infra_failure
  record_infra_failure-Counts t m =
      Triple-bind _ _ (call-Counts _ _ (λ w h. h)) (λ _. advance-Counts t)

-- The graph library and the agent's run do not settle broker messages.
pub record LeavesCounts (s : Services) : Type 0 where
  pub open_counts : (m : AgentMessage) (a n : ℕ) → Keeps (Counts a n) (s.open_context m)
  pub run_counts :
      (m : AgentMessage) (c : String) (f : Option String) (a n : ℕ)
      → Keeps (Counts a n) (s.run m c f)

module _ (s : Services) (q : LeavesCounts s) {a n : ℕ} where
  load_facts-Counts : (e : Option ℕ) → Keeps (Counts a n) (load_facts s e)
  unfolding load_facts
  load_facts-Counts e =
      Triple-catch _ _
        (Triple-bind _ _ (call-Counts _ _ (λ w h. h)) λ raw. Triple-pure _ (λ w h. h))
        (λ x. Triple-pure none (λ w h. h))

  run_agent-Counts : (m : AgentMessage) → Keeps (Counts a n) (run_agent s m)
  unfolding run_agent
  run_agent-Counts m = Triple-bind _ _ (q.open_counts m a n) λ c.
      Triple-bind _ _ (load_facts-Counts m.epoch) λ f. Triple-bind _ _ (q.run_counts m c f a n) λ r.
        Triple-bind _ _
          (Triple-if r.success _ _ (λ _. call-Counts _ _ (λ w h. h))
            (λ _. Triple-pure tt (λ w h. h)))
          (λ _. Triple-pure r (λ w h. h))

  process_settles :
      (m : AgentMessage)
      → Triple (Counts a n) (process s m) (λ _ w. Settled a n w) (λ _ w. Counts a n w)
  unfolding process
  process_settles m = Triple-bind _ _ (call-Counts _ _ (λ w h. h)) λ spent.
      Triple-bind _ _
        (Triple-if (leb s.job_token_budget spent) _ _ (λ _. Triple-pure _ (λ w h. h))
          (λ _. run_agent-Counts m))
        λ r.
          Triple-bind _ _ (call-Counts _ _ (λ w h. h))
            λ _. Triple-bind _ _ (advance-Counts m.agent_type) λ _. ack_settles

module _ {a n : ℕ} where
  fail_settles :
      (m : AgentMessage) (text : String) {E : Error → World → Type 0}
      → Triple
          (Counts a n)
          (catch (record_infra_failure m.agent_type text) (λ _. pure tt) >> nack)
          (λ _ w. Settled a n w)
          E
  fail_settles m text =
      Triple-bind _ _
        (Triple-catch _ _ (record_infra_failure-Counts m.agent_type text)
          (λ e. Triple-pure tt (λ w h. h)))
        (λ _. nack_settles)

  recover_settles :
      (m : AgentMessage) (e : Error) {E : Error → World → Type 0}
      → Triple (Counts a n) (recover m e) (λ _ w. Settled a n w) E
  unfolding recover
  recover_settles m (fenced x y) = ack_settles
  recover_settles m (rejected t) = fail_settles m _
  recover_settles m (not_found t) = fail_settles m _
  recover_settles m (bad_request t) = fail_settles m _

-- Whatever awaits reject, and whatever the agent's run does, `handle` resolves, and the message
-- has then been settled exactly once: one ack more and no nack more, or one nack more and no ack
-- more. The graph library and the run are assumed not to settle broker messages.
pub handle-settles_once :
    (s : Services) (m : AgentMessage) (w : World)
    → LeavesCounts s
    → Ends (λ _ w'. Settled w.acked w.nacked w') (λ _ _. ⊥) (handle s m w)
unfolding handle
handle-settles_once s m w q =
    (Triple-catch {P = Counts w.acked w.nacked} _ (recover m)
        (Triple-bind _ _ (call-Counts _ _ (λ w h. h)) λ current.
          Triple-if (or_zero m.epoch == current) _ _ (λ _. process_settles s q m)
            (λ _. ack_settles))
        (λ e. recover_settles m e)).at
      w (refl, refl)

-- A dead-lettered message is acked exactly once, whatever awaits reject.
pub handle_dead_letter-acks :
    (m : AgentMessage) (w : World)
    → Ends (λ _ w'. Counts (suc w.acked) w.nacked w') (λ _ _. ⊥) (handle_dead_letter m w)
unfolding handle_dead_letter
handle_dead_letter-acks m w =
    (Triple-bind {P = Counts w.acked w.nacked} _ _
        (Triple-catch _ _
          (Triple-bind _ _ (call-Counts _ _ (λ w h. h)) λ current.
            Triple-if (or_zero m.epoch == current) _ _
              (λ _. record_infra_failure-Counts m.agent_type _) (λ _. Triple-pure tt (λ w h. h)))
          (λ e. Triple-pure tt (λ w h. h)))
        (λ _. record { at = λ w h. (ap suc h.0, h.1) })).at
      w (refl, refl)
