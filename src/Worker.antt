-- ===== src/Worker.antt =====
-- The agent worker: apps/agent-worker/src/jobs/agent.consumer.ts (`handle`, `assertNotFenced`,
-- `loadFacts`), agent-failure-recorder.service.ts and agent-dlq.consumer.ts.
-- Parameters: the graph library behind CodeGraphService, the agent's run, JSON.parse of the facts.
pub mod Settled
pub mod Fence
pub mod Progress
use codemind_backend.Common.{
  ℕ, suc, ◌+◌, Bool, true, false, not, String, Option, none, some, List, [], ◌∷◌, ◌==◌, leb,
  if◌then◌else◌,
}
use codemind_backend.Tokens.{TokenUsage, or_zero, no_tokens, total_tokens}
use codemind_backend.Json.{Value, end}
use codemind_backend.World.{
  World, AgentType, AgentMessage, ResultRow, AgentSet, sadd, scard, epoch_of, job_progress,
  ready_for_synthesis,
}
use codemind_backend.World.Action.{
  Error, fenced, rejected, Action, ◌>>=◌, ◌>>◌, pure, throw, catch, get, put, publish, ack, nack,
}

-- `AgentResult` of base.agent.ts; its agent type and job id are those of the message.
pub record AgentResult : Type 0 where
  pub output : Value
  pub tokens_used : TokenUsage
  pub success : Bool
  pub error : Option String
  pub duration_ms : ℕ

-- What the worker calls: `open_context` opens the graph and builds the seed context, `run` is the
-- agent's loop (with whatever else happens to the job while it runs), `parse` is JSON.parse.
pub record Services : Type 0 where
  pub job_token_budget : ℕ
  pub open_context : AgentMessage → Action String
  pub parse : String → Option String
  pub run : AgentMessage → String → Option String → Action AgentResult

-- The per-turn fence of `assertNotFenced`.
unfoldable pub assert_not_fenced : Option ℕ → Action (Unit {0})
assert_not_fenced message_epoch = do
  current ← get epoch_of
  if or_zero message_epoch == current
      then pure tt
      else throw (fenced (or_zero message_epoch) current)

-- Steps 4 and 5 are the same for a result and for an infra failure from here on: SADD, the two
-- SCARDs, the progress event, and the wakeup of the synthesizer. The `codeGraphService.close(repoPath)`
-- before the wakeup is left out: the cache of graphs is the module Handles.
unfoldable pub advance : AgentType → Action (Unit {0})
advance a = do
  put (λ w. record w { agents_done = sadd a w.agents_done })
  done_count ← get (λ w. scard w.agents_done)
  expected_count ← get (λ w. scard w.agents_expected)
  publish (job_progress a done_count expected_count)
  if leb expected_count done_count then publish ready_for_synthesis else pure tt

abbrev pub infra_failure_row : AgentType → String → ResultRow
infra_failure_row a message = record {
  agent_type = a;
  raw_output = Value.object end;
  tokens_used = no_tokens;
  success = false;
  duration_ms = none;
  error = some message;
}

unfoldable pub record_infra_failure : AgentType → String → Action (Unit {0})
record_infra_failure a message = do
  put (λ w. record w { results = infra_failure_row a message ∷ w.results })
  advance a

-- `if (!raw) return undefined; return JSON.parse(raw)`
abbrev pub parse_facts : Services → Option String → Option String
parse_facts s none = none
parse_facts s (some text) = s.parse text

unfoldable pub load_facts : Services → Option ℕ → Action (Option String)
load_facts s message_epoch =
    catch (do raw ← get (λ w. w.repo_facts (or_zero message_epoch)); pure (parse_facts s raw))
      (λ e. pure none)

-- The source's message ends in the two numbers, "(spent/budget)".
abbrev over_budget : AgentResult
over_budget = record {
  output = Value.object end;
  tokens_used = no_tokens;
  success = false;
  error = some "Job token budget exceeded";
  duration_ms = 0;
}

abbrev pub result_row : AgentType → AgentResult → ResultRow
result_row a r = record {
  agent_type = a;
  raw_output = r.output;
  tokens_used = r.tokens_used;
  success = r.success;
  duration_ms = some r.duration_ms;
  error = r.error;
}

-- Steps 1 to 3, and the count of the tokens of a run that succeeded.
unfoldable pub run_agent : Services → AgentMessage → Action AgentResult
run_agent s msg = do
  context ← s.open_context msg
  facts ← load_facts s msg.epoch
  result ← s.run msg context facts
  if result.success
      then put (λ w. record w {
        tokens_used = some (or_zero w.tokens_used + total_tokens result.tokens_used);
      })
      else pure tt
  pure result

-- The body of the `try`, behind the fence.
unfoldable pub process : Services → AgentMessage → Action (Unit {0})
process s msg = do
  spent ← get (λ w. or_zero w.tokens_used)
  result ← if leb s.job_token_budget spent then pure over_budget else run_agent s msg
  put (λ w. record w { results = result_row msg.agent_type result ∷ w.results })
  advance msg.agent_type
  ack

abbrev message_of : Error → String
message_of (rejected m) = m
message_of _ = "error"

-- The `catch` of `handle`.
unfoldable pub recover : AgentMessage → Error → Action (Unit {0})
recover msg (fenced m c) = ack
recover msg e = do catch (record_infra_failure msg.agent_type (message_of e)) (λ _. pure tt); nack

-- `AgentConsumer.handle` between the grant of the slot and its release.
unfoldable pub handle : Services → AgentMessage → Action (Unit {0})
handle s msg =
    catch (do current ← get epoch_of; if or_zero msg.epoch == current then process s msg else ack)
      (recover msg)

abbrev delivery_limit_exhausted : String
delivery_limit_exhausted =
    "Worker crashed/failed 3x processing this agent — exhausted delivery-limit"

-- `AgentDlqConsumer.handle`: the same fence, and an ack whatever happened.
unfoldable pub handle_dead_letter : AgentMessage → Action (Unit {0})
handle_dead_letter msg = do
  catch
      (do
        current ← get epoch_of
        if or_zero msg.epoch == current
            then record_infra_failure msg.agent_type delivery_limit_exhausted
            else pure tt)
      (λ _. pure tt)
  ack
