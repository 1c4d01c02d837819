-- ===== src/Tests/Messages.antt =====
-- The agent worker and the gateway at concrete states of a job.
use codemind_backend.Common.{suc, none, some, true, false, [], ◌∷◌, ◌≡◌, inr, refl, arith}
use codemind_backend.World.{
  World, AgentType, architecture, security, dependency, quality, docs, AgentSet, sadd, no_agents,
}
use codemind_backend.World.Action.{ok, thrown, rejected, fenced}
use codemind_backend.World.Triple.{Ends}
use codemind_backend.Worker.{handle, handle_dead_letter}
use codemind_backend.Worker.Settled.{Settled, LeavesCounts, handle-settles_once}
use codemind_backend.Worker.Fence.{Runs, handle_dead_letter-drops_stale}
use codemind_backend.Worker.Progress.{
  Expects, Completes, Stores, Counted, handle-Completes, handle-late_failure,
}
use codemind_backend.Tokens.{no_tokens}
use codemind_backend.Json.{Value, end}
use codemind_backend.Jobs.{cancel_job, cancel_row}
use codemind_backend.Jobs.Stop.{Owner, cancelled_at, IsDropped, cancel_job_lem, stop-fences}
use codemind_backend.Tests.Data.{
  running_row, world, message, stale_message, docs_result, working, interrupted, broken,
}

working-LeavesCounts : LeavesCounts working
working-LeavesCounts = record {
  open_counts = λ m a n. record { at = λ w h. h };
  run_counts = λ m c f a n. record { at = λ w h. h };
}

handle-settles_once_example :
    Ends
      (λ _ w'. Settled 0 0 w')
      (λ _ _. ⊥)
      (handle working message (record world { outages = false ∷ true ∷ [] }))
handle-settles_once_example =
    handle-settles_once working message (record world { outages = false ∷ true ∷ [] })
      working-LeavesCounts

stale-dropped : handle_dead_letter stale_message world ≡ ok tt (record world { acked = 1 })
stale-dropped = handle_dead_letter-drops_stale stale_message world refl (omega arith)

interrupted-Runs : Runs interrupted message world (thrown (fenced 3 4) world)
interrupted-Runs = record {
  live = refl;
  in_budget = omega arith;
  calm = refl;
  context = "context";
  opened = world;
  opens = refl;
  still_calm = refl;
  runs = refl;
}

working-Runs : Runs working message world (ok docs_result world)
working-Runs = record {
  live = refl;
  in_budget = omega arith;
  calm = refl;
  context = "context";
  opened = world;
  opens = refl;
  still_calm = refl;
  runs = refl;
}

docs-Expects : Expects docs world
docs-Expects architecture h = cc
docs-Expects security h = cc
docs-Expects dependency h = cc
docs-Expects quality h = refl
docs-Expects docs h = refl

handle-Completes_example :
    (after : World) × (handle working message world ≡ ok tt after)
    × Completes message docs_result world after
handle-Completes_example =
    handle-Completes working message world world docs_result working-Runs refl docs-Expects

broken-Runs : Runs broken message world (thrown (rejected "socket closed") world)
broken-Runs = record {
  live = refl;
  in_budget = omega arith;
  calm = refl;
  context = "context";
  opened = world;
  opens = refl;
  still_calm = refl;
  runs = refl;
}

handle-late_failure_example :
    (after : World) × (handle broken message world ≡ ok tt after)
    × Stores docs (Value.object end) no_tokens false none (some "socket closed") world after
    × (after.tokens_used ≡ world.tokens_used)
    × Counted docs world after
    × (after.nacked ≡ suc world.nacked)
    × (after.acked ≡ world.acked)
handle-late_failure_example =
    handle-late_failure broken message world world "socket closed" broken-Runs refl docs-Expects

abbrev only_docs : AgentSet
only_docs = sadd docs no_agents

abbrev docs_and_quality : AgentSet
docs_and_quality = sadd docs (sadd quality no_agents)

only_docs-sub : (a : AgentType) → only_docs a ≡ true → docs_and_quality a ≡ true
only_docs-sub architecture h = cc
only_docs-sub security h = cc
only_docs-sub dependency h = cc
only_docs-sub quality h = refl
only_docs-sub docs h = refl

world-Owner : Owner "ada" running_row world
world-Owner = record { calm = refl; found = refl; own = refl }

abbrev stopped : World
stopped = cancelled_at 500 running_row world

cancelled_now : cancel_job "ada" 500 world ≡ ok (cancel_row 500 running_row) stopped
cancelled_now = cancel_job_lem "ada" 500 running_row world world-Owner

stop-fences_example : IsDropped working message stopped
stop-fences_example =
    stop-fences working "ada" 500 running_row (cancel_row 500 running_row) world stopped message
      world-Owner (omega arith) (inr cancelled_now)
