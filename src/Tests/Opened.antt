-- ===== src/Tests/Opened.antt =====
-- The cache of graph handles, and the switch of providers, at concrete states.
use codemind_backend.Common.{true, false, String, none, some, ◌≡◌, ◌⊎◌, refl}
use codemind_backend.Handles.{
  Handles, empty, open_graph, open_new, close, reject, on_module_destroy, pending, Reach, here,
  next, still, more, opens,
}
use codemind_backend.Handles.Safety.{live, open_graph-Shares}
use codemind_backend.Handles.Leaks.{Calm-attended, late_failure-Leaks}
use codemind_backend.Providers.{
  Env, mistral, openai, known_provider, truthy, parse_provider, default_provider,
  resolve_agent_provider, resolve_synthesis_provider,
}
use codemind_backend.Providers.Clients.{LlmClient, construct, construct_for}

abbrev opening : Handles
opening = (open_graph "/tmp/repos/1-0" empty).1

opening-Reach : Reach empty opening
opening-Reach = next here (opens "/tmp/repos/1-0")

opening-cached : opening.graphs "/tmp/repos/1-0" ≡ some 0
unfolding open_graph open_new empty
opening-cached = refl

open_graph-Shares_example :
    (open_graph "/tmp/repos/1-0" opening ≡ (0, opening))
    × (opening.path_of 0 ≡ "/tmp/repos/1-0")
    × (live (opening.status 0) ≡ true)
    × (opening.closing 0 ≡ false)
open_graph-Shares_example =
    open_graph-Shares opening opening-Reach "/tmp/repos/1-0" 0 opening-cached

opening-pends : opening.status 0 ≡ pending
unfolding open_graph open_new empty
opening-pends = refl

opening-live : live (opening.status 0) ≡ true
unfolding open_graph open_new empty live
opening-live = refl

Calm-attended_example :
    ((opening.graphs (opening.path_of 0) ≡ some 0) ⊎ (opening.closing 0 ≡ true))
    × ((on_module_destroy opening).closing 0 ≡ true)
Calm-attended_example = Calm-attended opening 0 (more still (opens "/tmp/repos/1-0")) opening-live

abbrev reopened : Handles
reopened = (open_graph "/tmp/repos/1-0" (close "/tmp/repos/1-0" opening)).1

late_failure-Leaks_example :
    (reopened.graphs "/tmp/repos/1-0" ≡ some opening.fresh)
    × (reopened.status 0 ≡ pending)
    × ((reject 0 reopened).status opening.fresh ≡ pending)
    × ((reject 0 reopened).graphs "/tmp/repos/1-0" ≡ none)
    × (close "/tmp/repos/1-0" (reject 0 reopened) ≡ reject 0 reopened)
    × ((on_module_destroy (reject 0 reopened)).closing opening.fresh ≡ false)
late_failure-Leaks_example =
    late_failure-Leaks opening "/tmp/repos/1-0" 0 opening-Reach opening-cached opening-pends

abbrev env : Env
env = record {
  llm_provider = some "openai";
  agent_llm_provider = none;
  synthesis_llm_provider = some "mistral";
  openai_api_key = some "";
  mistral_api_key = some "key";
  mistral_agent_model = none;
  openai_agent_model = none;
  anthropic_agent_model = none;
  mistral_synthesis_model = none;
  openai_synthesis_model = none;
  anthropic_synthesis_model = none;
}

abbrev same_text : String → String
same_text s = s

abbrev client : LlmClient
client = record {
  synthesis_provider = mistral;
  agent_provider = openai;
  clients = record { anthropic_client = false; openai_client = true; mistral_client = true };
}

client-constructed : construct same_text env ≡ some client
unfolding construct construct_for resolve_synthesis_provider resolve_agent_provider default_provider
    parse_provider known_provider truthy
client-constructed = refl
