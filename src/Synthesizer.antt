-- ===== src/Synthesizer.antt =====
-- The synthesizer: `synthesize`, `failJob`, `loadFacts` and `sweepStalledJobs` of
-- apps/synthesizer/src/synthesis/synthesizer.service.ts.
-- Parameter: what turns the agents' results into a report (the findings register, the call of the
-- language model, the diagrams, the renderer), which gives the text and the tokens of the call.
pub mod Guards
pub mod Outcomes
use codemind_backend.Common.{
  ℕ, suc, ◌+◌, ◌-◌, Bool, true, false, not, String, Option, none, some, List, [], ◌∷◌, keep, leb,
  ltb, ◌==◌, ◌&&◌, ◌||◌, length, if◌then◌else◌,
}
use codemind_backend.Tokens.{TokenUsage, total_tokens}
use codemind_backend.World.{
  World, JobStatus, running, done, failed, cancelled, JobRow, ResultRow, Report, no_agents, scard,
  epoch_of, job_complete, job_failed,
}
use codemind_backend.World.Action.{
  Error, rejected, Action, ◌>>=◌, ◌>>◌, pure, catch, call, get, peek, put, publish, update_job,
}
use codemind_backend.Jobs.{latest_by_type}

pub record Composed : Type 0 where
  pub markdown : String
  pub synthesis_usage : TokenUsage

-- `compose` is the findings, callSonnet, the diagrams and the rendering, from the newest result of
-- each agent and the facts.
pub record Renderer : Type 0 where
  pub compose : List ResultRow → Option String → Action Composed
  pub parse : String → Option String

abbrev pub none_succeeded : String
none_succeeded =
    "Analysis could not be completed — none of the agents produced a result. This usually means the code graph failed to build for this repository. Please retry."

unfoldable pub fail_job : ℕ → String → Action (Unit {0})
fail_job now reason = do
  update_job (λ r. record r { status = failed; completed_at = some now })
  put (λ w. record w { cached_status = some failed })
  put (λ w. record w { agents_done = no_agents; agents_expected = no_agents })
  publish (job_failed reason)

abbrev pub parse_facts : Renderer → Option String → Option String
parse_facts r none = none
parse_facts r (some text) = r.parse text

unfoldable pub load_facts : Renderer → Action (Option String)
load_facts r =
    catch (do epoch ← get epoch_of; raw ← get (λ w. w.repo_facts epoch); pure (parse_facts r raw))
      (λ e. pure none)

abbrev pub agent_tokens : List ResultRow → ℕ
agent_tokens [] = 0
agent_tokens (r ∷ rs) = total_tokens r.tokens_used + agent_tokens rs

-- Steps 1b to 5, for a list with a success.
unfoldable pub write_report : Renderer → ℕ → List ResultRow → Action (Unit {0})
write_report r now results = do
  facts ← load_facts r
  composed ← r.compose results facts
  let report : Report = record {
    markdown = composed.markdown;
    total_tokens = agent_tokens results + total_tokens composed.synthesis_usage;
  }
  put (λ w. record w { report = some report })
  update_job (λ row. record row { status = done; completed_at = some now })
  put (λ w. record w { cached_status = some done })
  put (λ w. record w { agents_done = no_agents; agents_expected = no_agents })
  publish job_complete

abbrev message_of : Error → String
message_of (rejected m) = m
message_of _ = "error"

abbrev pub no_success : List ResultRow → Bool
no_success results = length (keep (λ r. r.success) results) == 0

-- The `try` with its `catch`.
unfoldable pub run_synthesis : Renderer → ℕ → Action (Unit {0})
run_synthesis r now =
    catch
      (do
        rows ← get (λ w. w.results)
        let results = latest_by_type rows
        if no_success results then fail_job now none_succeeded else write_report r now results)
      (λ e. fail_job now (message_of e))

abbrev pub is_cancelled : Option JobRow → Bool
is_cancelled none = false
is_cancelled (some row) = elim row.status [ cancelled ↦ true | _ ↦ false ]

abbrev pub is_some {ℓ} : {A : Type ℓ} → Option A → Bool
is_some none = false
is_some (some a) = true

-- `redis.set(jobSynthesizingLockKey(jobId), '1', 'EX', 300, 'NX')`; that the lock expires is a step
-- of the environment.
unfoldable pub claim : Action Bool
claim = call (λ w. not w.synthesizing) (λ w. record w { synthesizing = true })

unfoldable pub synthesize : Renderer → ℕ → Action (Unit {0})
synthesize r now = do
  claimed ← claim
  if not claimed then pure tt else do
    existing ← get (λ w. w.report)
    if is_some existing then pure tt else do
      current ← get (λ w. w.row)
      if is_cancelled current then pure tt else run_synthesis r now

abbrev pub is_running : Option JobRow → Bool
is_running none = false
is_running (some row) = elim row.status [ running ↦ true | _ ↦ false ]

abbrev pub created : Option JobRow → ℕ
created none = 0
created (some row) = row.created_at

-- STALLED_MIN_AGE_MS
abbrev pub stalled_min_age : ℕ
stalled_min_age = 300000

-- Whether the sweep takes a running job to be finished: by the two counters, or, where these are
-- gone, by its age and its result rows.
unfoldable pub is_stalled : ℕ → Action Bool
is_stalled now = do
  done_count ← get (λ w. scard w.agents_done)
  expected ← get (λ w. scard w.agents_expected)
  if ltb 0 expected then pure (leb expected done_count) else do
    agent_count ← get (λ w. length w.results)
    created_at ← peek (λ w. created w.row)
    pure (not (agent_count == 0) && ltb stalled_min_age (now - created_at))

-- One round of `sweepStalledJobs`: the job is looked at if its row says `running`.
unfoldable pub sweep : Renderer → ℕ → Action (Unit {0})
sweep r now = do
  row ← get (λ w. w.row)
  if is_running row
      then catch (do stalled ← is_stalled now; if stalled then synthesize r now else pure tt)
          (λ e. pure tt)
      else pure tt
