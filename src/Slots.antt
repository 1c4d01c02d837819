-- ===== src/Slots.antt =====
-- The execution gate of apps/agent-worker/src/jobs/agent.consumer.ts: `acquireSlot`, `grantNext` and
-- `releaseSlot`. A waiter is its agent type and a number that tells it apart (the promise that is
-- resolved). `active` lists the waiters that hold a slot; the source keeps no such list.
pub mod Order
pub mod Safety
use codemind_backend.Common.{
  ℕ, zero, suc, ◌+◌, max, Bool, true, false, List, [], ◌∷◌, ◌++◌, leb, if◌then◌else◌, ◌≡◌,
}
use codemind_backend.World.{AgentType, order_index}

pub record Waiter : Type 0 where
  pub agent_type : AgentType
  pub ticket : ℕ

pub record Gate : Type 0 where
  pub max_concurrent : ℕ
  pub available : ℕ
  pub waiters : List Waiter
  pub timer : Bool
  pub active : List Waiter

-- `Math.max(1, AGENT_CONCURRENCY)`
unfoldable pub start : ℕ → Gate
start concurrency = record {
  max_concurrent = max 1 concurrency;
  available = max 1 concurrency;
  waiters = [];
  timer = false;
  active = [];
}

-- A waiter is pushed behind those that wait; the first one starts the timer.
unfoldable pub acquire_slot : Waiter → Gate → Gate
acquire_slot x g = record g { waiters = g.waiters ++ x ∷ []; timer = true }

abbrev pub place : Waiter → ℕ
place x = order_index x.agent_type

-- The stable sort by the place in ORDER.
unfoldable pub insert : Waiter → List Waiter → List Waiter
insert x [] = x ∷ []
insert x (y ∷ ys) =
    let later = y ∷ insert x ys in if leb (place x) (place y) then x ∷ y ∷ ys else later

unfoldable pub sort : List Waiter → List Waiter
unfolding insert
sort [] = []
sort (x ∷ xs) = insert x (sort xs)

pub record Granted : Type 0 where
  pub left : ℕ
  pub waiting : List Waiter
  pub holders : List Waiter

-- The loop of `grantNext`, a round for each free slot.
unfoldable pub grant_loop : ℕ → List Waiter → List Waiter → Granted
grant_loop zero waiting holders = record { left = 0; waiting = waiting; holders = holders }
grant_loop (suc n) waiting holders = elim (sort waiting) [
  | [] ↦ record { left = suc n; waiting = []; holders = holders }
  | x ∷ rest ↦ grant_loop n rest (x ∷ holders)
]

unfoldable pub grant_next : Gate → Gate
grant_next g =
    let r = grant_loop g.available g.waiters g.active in
    record g { available = r.left; waiters = r.waiting; active = r.holders }

unfoldable pub timer_fires : Gate → Gate
timer_fires g = grant_next (record g { timer = false })

unfoldable pub release_slot : Gate → Gate
release_slot g = grant_next (record g { available = g.available + 1 })

-- A message arrives, the timer fires, or a handler that holds a slot ends, however it does.
pub data Step (g : Gate) : Gate → Type 0 where
  arrives : (x : Waiter) → Step g (acquire_slot x g)
  fires : g.timer ≡ true → Step g (timer_fires g)
  ends :
      (x : Waiter) (before after : List Waiter)
      → g.active ≡ before ++ x ∷ after
      → Step g (release_slot (record g { active = before ++ after }))

pub data Reach (g : Gate) : Gate → Type 0 where
  here : Reach g g
  next : {h k : Gate} → Reach g h → Step h k → Reach g k
