-- ===== src/Tests/Data.antt =====
-- A job in its state, messages, and services that resolve: the inputs of the tests.
use codemind_backend.Common.{
  ℕ, true, false, String, none, some, [], ◌∷◌, str_eq, str_eq_iff, ◌≡◌, ◌≢◌,
}
use codemind_backend.Tokens.{no_tokens}
use codemind_backend.Json.{Value, end, field}
use codemind_backend.World.{
  World, JobRow, ResultRow, Report, AgentMessage, AnalysisMessage, Manifest, running, done, docs,
  quality, no_agents, sadd,
}
use codemind_backend.World.Action.{Action, rejected, fenced, pure, throw}
use codemind_backend.Worker.{Services, AgentResult}
use codemind_backend.Orchestrator.{Tools}
use codemind_backend.Synthesizer.{Renderer, Composed}

-- Two literals that differ.
pub distinct : (a b : String) → str_eq a b ≡ false → a ≢ b
distinct a b h e = let same : str_eq a b ≡ true = (str_eq_iff a b).1 e in cc (h, same)

abbrev pub running_row : JobRow
running_row = record {
  user_id = "ada";
  repo_full_name = "ada/engine";
  status = running;
  completed_at = none;
  error = none;
  created_at = 100;
}

abbrev pub done_row : JobRow
done_row = record running_row { status = done; completed_at = some 900 }

abbrev pub failed_docs : ResultRow
failed_docs = record {
  agent_type = docs;
  raw_output = Value.null;
  tokens_used = no_tokens;
  success = false;
  duration_ms = none;
  error = some "timeout";
}

abbrev pub good_quality : ResultRow
good_quality = record {
  agent_type = quality;
  raw_output = Value.object end;
  tokens_used = record { input = 90; output = 10; cache_creation = none; cache_read = some 5 };
  success = true;
  duration_ms = some 60;
  error = none;
}

abbrev pub report : Report
report = record { markdown = "# Engine"; total_tokens = 105 }

-- A job that runs at epoch 3: docs and quality are expected, nothing is done.
abbrev pub world : World
world = record {
  row = some running_row;
  results = [];
  report = none;
  cached_status = some running;
  agents_done = no_agents;
  agents_expected = sadd docs (sadd quality no_agents);
  epoch = some 3;
  tokens_used = some 40;
  graph_path = some "/tmp/repos/1-3";
  synthesizing = false;
  repo_facts = λ e. none;
  analysis_queue = [];
  agent_queue = [];
  events = [];
  acked = 0;
  nacked = 0;
  outages = [];
}

abbrev pub done_world : World
done_world = record world {
  row = some done_row;
  results = failed_docs ∷ good_quality ∷ [];
  report = some report;
}

abbrev pub message : AgentMessage
message = record {
  repo_path = "/tmp/repos/1-3";
  agent_type = docs;
  total_agents = 2;
  epoch = some 3;
  has_dockerfile = false;
}

abbrev pub stale_message : AgentMessage
stale_message = record message { epoch = some 2 }

abbrev pub request : AnalysisMessage
request = record {
  user_id = "ada";
  repo_full_name = "ada/engine";
  retry_agent_types = none;
  epoch = some 3;
}

abbrev pub stale_request : AnalysisMessage
stale_request = record request { epoch = some 2 }

abbrev pub docs_result : AgentResult
docs_result = record {
  output = Value.object (field "summary" (Value.string "short") end);
  tokens_used = record { input = 7; output = 3; cache_creation = none; cache_read = none };
  success = true;
  error = none;
  duration_ms = 12;
}

abbrev pub services : Action AgentResult → Services
services run = record {
  job_token_budget = 1000;
  open_context = λ m. pure "context";
  parse = λ text. some text;
  run = λ m c f. run;
}

abbrev pub working : Services
working = services (pure docs_result)

abbrev pub interrupted : Services
interrupted = services (throw (fenced 3 4))

abbrev pub broken : Services
broken = services (throw (rejected "socket closed"))

abbrev pub manifest : Manifest
manifest = record {
  has_dockerfile = true;
  dominant_language = some "TypeScript";
  language_supported = true;
  files_found = "package.json" ∷ [];
}

abbrev pub tools : ℕ → Tools
tools nodes = record {
  checkout = λ u r e. pure "/tmp/repos/1-3";
  index = λ p. pure nodes;
  build_facts = λ p. pure "facts";
  build_manifest = λ p. pure manifest;
}

abbrev pub composed : Composed
composed = record { markdown = "# Engine"; synthesis_usage = no_tokens }

abbrev pub renderer : Action Composed → Renderer
renderer compose = record { compose = λ rs f. compose; parse = λ t. some t }
