-- ===== src/Providers/Clients.antt =====
-- Which client serves a call in libs/common/src/llm/llm-client.service.ts: the constructor of `LlmClient`,
-- `ensureAnthropic`, `ensureOpenAi`, `ensureMistral`, and what `complete` and `converse` choose. Of a
-- client it is kept whether it was built; what its calls answer is network I/O, and the constructors
-- of the SDKs are taken not to throw.
use codemind_backend.Common.{
  Bool, true, false, not, ◌&&◌, ◌||◌, String, Option, none, some, List, [], ◌∷◌, if◌then◌else◌,
}
use codemind_backend.Providers.{
  Provider, anthropic, mistral, openai, Env, or_else, truthy, resolve_agent_provider,
  resolve_synthesis_provider,
}

pub record Clients : Type 0 where
  pub anthropic_client : Bool
  pub openai_client : Bool
  pub mistral_client : Bool

pub record LlmClient : Type 0 where
  pub synthesis_provider : Provider
  pub agent_provider : Provider
  pub clients : Clients

abbrev pub same_provider : Provider → Provider → Bool
same_provider anthropic anthropic = true
same_provider mistral mistral = true
same_provider openai openai = true
same_provider _ _ = false

abbrev pub either_is : Provider → Provider → Provider → Bool
either_is p synthesis agent = same_provider synthesis p || same_provider agent p

-- Throws where a provider resolves to Mistral without a key.
unfoldable pub construct_for : Env → Provider → Provider → Option LlmClient
construct_for env synthesis agent =
    if either_is mistral synthesis agent && not (truthy env.mistral_api_key)
    then none
    else some (record {
      synthesis_provider = synthesis;
      agent_provider = agent;
      clients = record {
        anthropic_client = either_is anthropic synthesis agent;
        openai_client = either_is openai synthesis agent;
        mistral_client = either_is mistral synthesis agent;
      };
    })

unfoldable pub construct : (String → String) → Env → Option LlmClient
unfolding construct_for
construct to_lower env =
    construct_for env (resolve_synthesis_provider to_lower env)
      (resolve_agent_provider to_lower env)

-- The clients after the one of a provider was asked for; Mistral's needs a key, if it is not built.
unfoldable pub ensure : Env → Provider → Clients → Option Clients
ensure env anthropic c = some (record c { anthropic_client = true })
ensure env openai c = some (record c { openai_client = true })
ensure env mistral c =
    if c.mistral_client
    then some c
    else if truthy env.mistral_api_key
    then some (record c { mistral_client = true })
    else none

pub record CompleteParams : Type 0 where
  pub provider : Option Provider
  pub anthropic_model : String
  pub openai_model : String
  pub mistral_model : String

abbrev pub model_for : Provider → CompleteParams → String
model_for anthropic params = params.anthropic_model
model_for openai params = params.openai_model
model_for mistral params = params.mistral_model

-- A request that is sent: to which provider, and for which model.
pub record Sent : Type 0 where
  pub by : Provider
  pub model : String
  pub after : LlmClient

abbrev pub send : Provider → String → LlmClient → Option Clients → Option Sent
send p model l none = none
send p model l (some c) = some (record { by = p; model = model; after = record l { clients = c } })

unfoldable pub complete : Env → CompleteParams → LlmClient → Option Sent
unfolding ensure
complete env params l =
    let p = or_else params.provider l.synthesis_provider in
    send p (model_for p params) l (ensure env p l.clients)

unfoldable pub converse : Env → Option Provider → String → LlmClient → Option Sent
unfolding ensure
converse env override model l =
    let p = or_else override l.agent_provider in send p model l (ensure env p l.clients)

pub data Call : Type 0 where
  completes : CompleteParams → Call
  converses : Option Provider → String → Call

abbrev pub kept : LlmClient → Option Sent → LlmClient
kept l none = l
kept l (some s) = s.after

-- The client after any calls; one that throws leaves it as it was.
unfoldable pub after_calls : Env → List Call → LlmClient → LlmClient
unfolding complete converse
after_calls env [] l = l
after_calls env (completes params ∷ calls) l =
    after_calls env calls (kept l (complete env params l))
after_calls env (converses override model ∷ calls) l =
    after_calls env calls (kept l (converse env override model l))
