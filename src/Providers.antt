-- ===== src/Providers.antt =====
-- The choice of the model provider in libs/common/src/llm/pricing.ts, and the price of a run.
-- `toLowerCase` is a parameter. A rate is in cents per million tokens, and a cost in units of 10^-10
-- dollars, where the source divides in floating point.
pub mod Laws
pub mod Clients
pub mod Serving
use codemind_backend.Common.{
  ℕ, ◌*◌, ◌+◌, Bool, true, false, ◌||◌, String, Option, none, some, str_eq, if◌then◌else◌,
}
use codemind_backend.Tokens.{TokenUsage, total_tokens}

pub data Provider : Type 0 where
  anthropic mistral openai : Provider

-- `process.env`: the variables that the switch reads.
pub record Env : Type 0 where
  pub llm_provider : Option String
  pub agent_llm_provider : Option String
  pub synthesis_llm_provider : Option String
  pub openai_api_key : Option String
  pub mistral_api_key : Option String
  pub mistral_agent_model : Option String
  pub openai_agent_model : Option String
  pub anthropic_agent_model : Option String
  pub mistral_synthesis_model : Option String
  pub openai_synthesis_model : Option String
  pub anthropic_synthesis_model : Option String

-- `KNOWN_PROVIDERS.includes(p) ? p : null`
unfoldable pub known_provider : String → Option Provider
known_provider p =
    if str_eq p "anthropic"
    then some anthropic
    else if str_eq p "mistral"
    then some mistral
    else if str_eq p "openai"
    then some openai
    else none

-- `??`
abbrev pub or_else {ℓ} : {A : Type ℓ} → Option A → A → A
or_else none d = d
or_else (some a) d = a

-- A key that is set and not empty.
unfoldable pub truthy : Option String → Bool
truthy none = false
truthy (some k) = if str_eq k "" then false else true

-- The switches of `agentModel` and `synthesisModel`.
unfoldable pub agent_model_of : Env → Provider → String
agent_model_of env mistral = or_else env.mistral_agent_model "mistral-large-latest"
agent_model_of env openai = or_else env.openai_agent_model "gpt-4o-mini"
agent_model_of env anthropic = or_else env.anthropic_agent_model "claude-sonnet-4-6"

unfoldable pub synthesis_model_of : Env → Provider → String
synthesis_model_of env mistral = or_else env.mistral_synthesis_model "mistral-large-latest"
synthesis_model_of env openai = or_else env.openai_synthesis_model "gpt-4o"
synthesis_model_of env anthropic = or_else env.anthropic_synthesis_model "claude-sonnet-4-6"

module _ (to_lower : String → String) where
  unfoldable pub parse_provider : Option String → Option Provider
  parse_provider v = elim v [ none ↦ known_provider "" | some s ↦ known_provider (to_lower s) ]

  unfoldable pub default_provider : Env → Provider
  default_provider env = or_else (parse_provider env.llm_provider) (
      if truthy env.openai_api_key
      then openai
      else if truthy env.mistral_api_key
      then mistral
      else anthropic)

  unfoldable pub resolve_agent_provider : Env → Provider
  resolve_agent_provider env =
      or_else (parse_provider env.agent_llm_provider) (default_provider env)

  unfoldable pub resolve_synthesis_provider : Env → Provider
  resolve_synthesis_provider env =
      or_else (parse_provider env.synthesis_llm_provider) (default_provider env)

  unfoldable pub agent_model : Env → String
  agent_model env = agent_model_of env (resolve_agent_provider env)

  unfoldable pub synthesis_model : Env → String
  synthesis_model env = synthesis_model_of env (resolve_synthesis_provider env)

pub record Rate : Type 0 where
  pub input : ℕ
  pub output : ℕ

abbrev pub rate : ℕ → ℕ → Rate
rate i o = record { input = i; output = o }

-- `MODEL_PRICING`
unfoldable pub model_pricing : String → Option Rate
model_pricing m =
    if str_eq m "claude-sonnet-4-6"
    then some (rate 300 1500)
    else if str_eq m "claude-sonnet-5"
    then some (rate 300 1500)
    else if str_eq m "claude-haiku-4-5"
    then some (rate 100 500)
    else if str_eq m "claude-haiku-4-5-20251001"
    then some (rate 100 500)
    else if str_eq m "claude-opus-4-8"
    then some (rate 500 2500)
    else if str_eq m "mistral-large-latest"
    then some (rate 200 600)
    else if str_eq m "mistral-large-2411"
    then some (rate 200 600)
    else if str_eq m "mistral-medium-latest"
    then some (rate 40 200)
    else if str_eq m "mistral-small-latest"
    then some (rate 20 60)
    else if str_eq m "codestral-latest"
    then some (rate 30 90)
    else if str_eq m "gpt-4o-mini"
    then some (rate 15 60)
    else if str_eq m "gpt-4o"
    then some (rate 250 1000)
    else none

-- 0.85 and 0.15 are 85 and 15 hundredths: the cost is in units of 10^-10 dollars.
unfoldable pub estimate_cost : ℕ → String → ℕ
estimate_cost tokens model =
    let r = or_else (model_pricing model) (rate 300 1500) in tokens * (r.input * 85 + r.output * 15)

unfoldable pub estimate_usage_cost : TokenUsage → String → ℕ
estimate_usage_cost u model = estimate_cost (total_tokens u) model
