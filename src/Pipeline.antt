-- ===== src/Pipeline.antt =====
-- The services together: a step of the pipeline is one handler of one service, on the state of one
-- job, or something that the environment does to that state.
mod Stale
mod StaleJobs
pub mod Retry
use codemind_backend.Common.{ℕ, Bool, false, String, Option, none, some, List, ◌≡◌}
use codemind_backend.World.{World, AgentMessage, AnalysisMessage, no_agents}
use codemind_backend.World.Action.{state_of}
use codemind_backend.World.Triple.{Keeps}
use codemind_backend.Worker.{Services, handle, handle_dead_letter}
use codemind_backend.Orchestrator.{Tools, on_analysis_requested, handle_dead_analysis}
use codemind_backend.Synthesizer.{Renderer, synthesize, sweep}
use codemind_backend.Jobs.{retry_job, force_stop_and_retry, cancel_job}

-- What the code behind the parameters leaves alone.
pub record Respects (P : World → Type 0) (s : Services) : Type 0 where
  pub open_keeps : (m : AgentMessage) → Keeps P (s.open_context m)
  pub run_keeps : (m : AgentMessage) (c : String) (f : Option String) → Keeps P (s.run m c f)

pub record ToolsRespect (P : World → Type 0) (t : Tools) : Type 0 where
  pub checkout_keeps : (u r : String) (e : ℕ) → Keeps P (t.checkout u r e)
  pub index_keeps : (p : String) → Keeps P (t.index p)
  pub facts_keep : (p : String) → Keeps P (t.build_facts p)
  pub manifest_keeps : (p : String) → Keeps P (t.build_manifest p)

-- The environment sets what rejects next, the synthesizer's lock expires, and Redis may lose the
-- counters of a run.
pub data Step (P : World → Type 0) (w : World) : World → Type 0 where
  outages_change : (l : List Bool) → Step P w (record w { outages = l })
  lock_expires : Step P w (record w { synthesizing = false })
  counters_lost : Step P w (record w { agents_done = no_agents; agents_expected = no_agents })
  retried : (user : String) → Step P w (state_of (retry_job user w))
  force_stopped : (user : String) → Step P w (state_of (force_stop_and_retry user w))
  was_cancelled : (user : String) (now : ℕ) → Step P w (state_of (cancel_job user now w))
  analysed :
      (t : Tools) (now : ℕ) (m : AnalysisMessage)
      → ToolsRespect P t
      → Step P w (state_of (on_analysis_requested t now m w))
  analysis_died :
      (now : ℕ) (m : AnalysisMessage) → Step P w (state_of (handle_dead_analysis now m w))
  worked : (s : Services) (m : AgentMessage) → Respects P s → Step P w (state_of (handle s m w))
  work_died : (m : AgentMessage) → Step P w (state_of (handle_dead_letter m w))
  woken : (r : Renderer) (now : ℕ) → Step P w (state_of (synthesize r now w))
  swept : (r : Renderer) (now : ℕ) → Step P w (state_of (sweep r now w))

pub data Reach (P : World → Type 0) (w : World) : World → Type 0 where
  here : Reach P w w
  next : {u v : World} → Reach P w u → Step P u v → Reach P w v
