-- ===== src/Synthesizer/Outcomes.antt =====
-- How an unhindered synthesis of apps/synthesizer/src/synthesis/synthesizer.service.ts ends.
use mathlib.Core.List.{Memᴰ}
use codemind_backend.Common.{
  ℕ, ◌+◌, true, false, not, String, none, some, List, [], ◌∷◌, ◌≡◌, ◌⊎◌, inl, inr, refl, arith, All,
}
use codemind_backend.Tokens.{total_tokens}
use codemind_backend.World.{
  World, done, failed, JobRow, Report, ResultRow, no_agents, epoch_of, job_complete, job_failed,
}
use codemind_backend.World.Action.{
  rejected, Outcome, ok, thrown, ◌>>=◌, ◌>>◌, catch, call_calm, update_job_calm,
}
use codemind_backend.Jobs.{latest_by_type}
use codemind_backend.Synthesizer.{
  Renderer, Composed, synthesize, run_synthesis, fail_job, parse_facts, agent_tokens, no_success,
  none_succeeded, is_cancelled, is_some, claim,
}

-- Nothing keeps the synthesis from running, and no await rejects.
pub record Free (row : JobRow) (w : World) : Type 0 where
  pub calm : w.outages ≡ []
  pub unclaimed : w.synthesizing ≡ false
  pub unreported : w.report ≡ none
  pub found : w.row ≡ some row
  pub live : is_cancelled (some row) ≡ false

abbrev pub claimed : World → World
claimed w = record w { synthesizing = true }

abbrev pub failed_job : ℕ → String → JobRow → World → World
failed_job now reason row w = record w {
  row = some (record row { status = failed; completed_at = some now });
  cached_status = some failed;
  agents_done = no_agents;
  agents_expected = no_agents;
  events = job_failed reason ∷ w.events;
}

fail_job_lem :
    (now : ℕ) (reason : String) (row : JobRow) (w : World)
    → w.outages ≡ []
    → w.row ≡ some row
    → fail_job now reason w ≡ ok tt (failed_job now reason row w)
unfolding fail_job
fail_job_lem now reason row w calm found =
    let f = λ (r : JobRow). record r { status = failed; completed_at = some now } in
    let updated : World = record w { row = some (f row) } in
    let cached : World = record updated { cached_status = some failed } in
    let cleared : World = record cached { agents_done = no_agents; agents_expected = no_agents } in
    rw (update_job_calm f row w calm found, ◌>>=◌, ◌>>◌)
      (rw (call_calm _ _ updated calm, ◌>>=◌, ◌>>◌)
        (rw (call_calm _ _ cached calm, ◌>>=◌, ◌>>◌) (call_calm _ _ cleared calm)))

-- Past the claim and the two guards.
starts :
    (r : Renderer) (now : ℕ) (row : JobRow) (w : World)
    → Free row w
    → synthesize r now w ≡ run_synthesis r now (claimed w)
unfolding synthesize claim
starts r now row w f =
    let open_ : not w.synthesizing ≡ true = ground (arith, f.unclaimed) in
    let fresh : is_some w.report ≡ false = ground (arith, f.unreported) in
    let live : is_cancelled w.row ≡ false = rw f.found f.live in
    rw (call_calm _ _ w f.calm, ◌>>=◌)
      (rw open_ (
        rw (call_calm _ _ (claimed w) f.calm, ◌>>=◌)
          (rw fresh (rw (call_calm _ _ (claimed w) f.calm, ◌>>=◌) (rw live refl)))))

-- Where no agent's newest attempt succeeded, the job fails with the reason, no report is written, and
-- the renderer is not called. (The job is free to be synthesized, and no await rejects.)
pub synthesize-none_succeeded :
    (r : Renderer) (now : ℕ) (row : JobRow) (w : World)
    → Free row w
    → no_success (latest_by_type w.results) ≡ true
    → synthesize r now w ≡ ok tt (failed_job now none_succeeded row (claimed w))
unfolding run_synthesis
synthesize-none_succeeded r now row w f none_good = rw (starts r now row w f) (
    rw (call_calm _ _ (claimed w) f.calm, run_synthesis, catch, ◌>>=◌)
      (rw none_good (rw (fail_job_lem now none_succeeded row (claimed w) f.calm f.found) refl)))

-- The report counts the tokens of each agent's newest attempt once, and those of the synthesis call.
abbrev pub reported : Composed → ℕ → JobRow → World → World
reported c now row w = record w {
  report = some (record {
    markdown = c.markdown;
    total_tokens = agent_tokens (latest_by_type w.results) + total_tokens c.synthesis_usage;
  });
  row = some (record row { status = done; completed_at = some now });
  cached_status = some done;
  agents_done = no_agents;
  agents_expected = no_agents;
  events = job_complete ∷ w.events;
}

-- What the renderer is called with.
abbrev pub Composes : Renderer → World → Outcome Composed → Type 0
Composes r w o =
    r.compose (latest_by_type w.results) (parse_facts r (w.repo_facts (epoch_of w))) w ≡ o

-- How composing the report ends: with one, or with the reason why not.
abbrev pub answered : Composed ⊎ String → World → Outcome Composed
answered (inl c) w = ok c w
answered (inr why) w = thrown (rejected why) w

abbrev pub Unsuccessful : ResultRow → Type 0
Unsuccessful x = x.success ≡ false

-- What a failed synthesis leaves.
pub record Failed (reason : String) (now : ℕ) (row : JobRow) (before after : World) : Type 0 where
  pub unreported : after.report ≡ none
  pub stopped : after.row ≡ some (record row { status = failed; completed_at = some now })
  pub told : after.events ≡ job_failed reason ∷ before.events

-- What a synthesis that ran to its end leaves.
pub record Reported (c : Composed) (now : ℕ) (row : JobRow) (before after : World) : Type 0 where
  pub report : Report
  pub stored : after.report ≡ some report
  pub text : report.markdown ≡ c.markdown
  pub counted :
      report.total_tokens
      ≡ agent_tokens (latest_by_type before.results) + total_tokens c.synthesis_usage
  pub finished : after.row ≡ some (record row { status = done; completed_at = some now })
  pub told : after.events ≡ job_complete ∷ before.events

pub data Finished (answer : Composed ⊎ String) (now : ℕ) (row : JobRow) (before after : World)
    : Type 0 where
  none_good :
      All Unsuccessful (latest_by_type before.results)
      → Failed none_succeeded now row before after
      → Finished answer now row before after
  composed :
      (c : Composed) (x : ResultRow)
      → Memᴰ x (latest_by_type before.results)
      → x.success ≡ true
      → answer ≡ inl c
      → Reported c now row before after
      → Finished answer now row before after
  refused :
      (why : String) (x : ResultRow)
      → Memᴰ x (latest_by_type before.results)
      → x.success ≡ true
      → answer ≡ inr why
      → Failed why now row before after
      → Finished answer now row before after

module _ (r : Renderer) (now : ℕ) (row : JobRow) (w : World) (f : Free row w) where
  abbrev Ends : Composed ⊎ String → Type 0
  Ends answer =
      (after : World) × (synthesize r now w ≡ ok tt after)
      × Finished answer now row w after
      × (after.agents_done ≡ no_agents)
      × (after.agents_expected ≡ no_agents)
      × (after.synthesizing ≡ true)
