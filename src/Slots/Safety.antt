-- ===== src/Slots/Safety.antt =====
-- What holds of the execution gate of apps/agent-worker/src/jobs/agent.consumer.ts between events.
use codemind_backend.Common.{
  ℕ, ◌+◌, ◌≤◌, ◌<◌, max, true, false, [], ◌∷◌, ◌++◌, length, length-append, ◌≡◌, ◌⊎◌, inl, inr,
  refl, ap, ◌∙◌, arith,
}
use codemind_backend.Slots.{
  Gate, start, acquire_slot, grant_next, timer_fires, release_slot, Step, Reach, arrives, fires,
  ends, here, next,
}
use codemind_backend.Slots.Order.{Fair, grant_loop-Fair}

pub record Inv (g : Gate) : Type 0 where
  pub some_slot : 1 ≤ g.max_concurrent
  pub accounted : g.available + length g.active ≡ g.max_concurrent
  pub attended : (g.waiters ≡ []) ⊎ (g.available ≡ 0) ⊎ (g.timer ≡ true)

start-Inv : (c : ℕ) → Inv (start c)
unfolding start
start-Inv c = record { some_slot = omega arith; accounted = omega arith; attended = inl refl }

grant_next-Inv :
    (g : Gate)
    → 1 ≤ g.max_concurrent
    → g.available + length g.active ≡ g.max_concurrent
    → Inv (grant_next g)
unfolding grant_next
grant_next-Inv g pos sum =
    let f = grant_loop-Fair g.available g.waiters g.active in
    record {
      some_slot = pos;
      accounted = omega (arith, f.conserved);
      attended = elim f.no_idle_slot [ inl e ↦ inl e | inr e ↦ inr (inl e) ];
    }

step-Inv : {g h : Gate} → Step g h → Inv g → Inv h
unfolding acquire_slot timer_fires release_slot
step-Inv (arrives x) i = record {
  some_slot = i.some_slot;
  accounted = i.accounted;
  attended = inr (inr refl);
}
step-Inv {g} (fires t) i = grant_next-Inv (record g { timer = false }) i.some_slot i.accounted
step-Inv {g} (ends x before after held) i =
    grant_next-Inv (record g { active = before ++ after; available = g.available + 1 }) i.some_slot
      (omega (
        arith,
        i.accounted,
        ap length held,
        length-append before (x ∷ after),
        length-append before after,
      ))

max-step : {g h : Gate} → Step g h → h.max_concurrent ≡ g.max_concurrent
unfolding acquire_slot timer_fires release_slot grant_next
max-step (arrives x) = refl
max-step (fires t) = refl
max-step (ends x before after held) = refl

Reach-Inv : {g h : Gate} → Reach g h → Inv g → Inv h
Reach-Inv here i = i
Reach-Inv (next r s) i = step-Inv s (Reach-Inv r i)

Reach-max : {g h : Gate} → Reach g h → h.max_concurrent ≡ g.max_concurrent
Reach-max here = refl
Reach-max (next r s) = max-step s ∙ Reach-max r

-- After any events, at most `Math.max(1, AGENT_CONCURRENCY)` handlers hold a slot, and nobody waits
-- in vain: where somebody waits, the timer is running, or every slot is taken and so at least one
-- handler holds one, whose end will hand it on.
pub gate_safe :
    (concurrency : ℕ) (g : Gate)
    → Reach (start concurrency) g
    → (length g.active ≤ max 1 concurrency)
      × ((g.waiters ≡ []) ⊎ (g.timer ≡ true) ⊎ ((g.available ≡ 0) × (0 < length g.active)))
unfolding start
gate_safe concurrency g r =
    let i = Reach-Inv r (start-Inv concurrency) in
    (
      omega (arith, i.accounted, Reach-max r),
      elim i.attended [
        | inl e ↦ inl e
        | inr (inl full) ↦ inr (inr (full, omega (arith, i.accounted, i.some_slot)))
        | inr (inr t) ↦ inr (inl t)
      ],
    )

-- A handler's end with somebody waiting hands the slot on at once: no slot stays free with a waiter
-- behind it, and each new holder comes no later in ORDER than any waiter left.
pub release_slot-Fair :
    (g : Gate)
    → let h = release_slot g in
      Fair
        (g.available + 1)
        g.waiters
        g.active
        (record { left = h.available; waiting = h.waiters; holders = h.active })
unfolding release_slot grant_next
release_slot-Fair g = grant_loop-Fair (g.available + 1) g.waiters g.active
