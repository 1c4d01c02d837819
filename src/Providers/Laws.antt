-- ===== src/Providers/Laws.antt =====
-- What the choice of the provider in libs/common/src/llm/pricing.ts comes to.
use codemind_backend.Common.{ℕ, ◌+◌, ◌*◌, String, none, some, ◌≡◌, refl, arith}
use codemind_backend.Tokens.{TokenUsage, or_zero, add_tokens, total_tokens}
use codemind_backend.Providers.{
  Provider, anthropic, mistral, openai, Env, Rate, known_provider, or_else, parse_provider,
  default_provider, resolve_agent_provider, resolve_synthesis_provider, agent_model,
  synthesis_model, agent_model_of, synthesis_model_of, model_pricing, estimate_cost,
  estimate_usage_cost,
}

-- The model variables that name no model of their own.
pub record ModelsUnset (env : Env) : Type 0 where
  pub mistral_agent : env.mistral_agent_model ≡ none
  pub openai_agent : env.openai_agent_model ≡ none
  pub anthropic_agent : env.anthropic_agent_model ≡ none
  pub mistral_synthesis : env.mistral_synthesis_model ≡ none
  pub openai_synthesis : env.openai_synthesis_model ≡ none
  pub anthropic_synthesis : env.anthropic_synthesis_model ≡ none

-- A model with a rate of its own, so that no cost of it is taken at the rate of another model.
pub data Priced (m : String) : Type 0 where
  priced : (r : Rate) → model_pricing m ≡ some r → Priced m

agent_model_of-Priced :
    (env : Env) → ModelsUnset env → (p : Provider) → Priced (agent_model_of env p)
unfolding agent_model_of model_pricing
agent_model_of-Priced env u anthropic = rw u.anthropic_agent (priced _ refl)
agent_model_of-Priced env u mistral = rw u.mistral_agent (priced _ refl)
agent_model_of-Priced env u openai = rw u.openai_agent (priced _ refl)

synthesis_model_of-Priced :
    (env : Env) → ModelsUnset env → (p : Provider) → Priced (synthesis_model_of env p)
unfolding synthesis_model_of model_pricing
synthesis_model_of-Priced env u anthropic = rw u.anthropic_synthesis (priced _ refl)
synthesis_model_of-Priced env u mistral = rw u.mistral_synthesis (priced _ refl)
synthesis_model_of-Priced env u openai = rw u.openai_synthesis (priced _ refl)

module _ (to_lower : String → String) where
  -- Where LLM_PROVIDER names a provider, in whatever case, and neither call has an override that
  -- names one, both calls run on it, whichever keys are set.
  pub one_switch :
      (env : Env) (s : String) (p : Provider)
      → env.llm_provider ≡ some s
      → known_provider (to_lower s) ≡ some p
      → parse_provider to_lower env.agent_llm_provider ≡ none
      → parse_provider to_lower env.synthesis_llm_provider ≡ none
      → (resolve_agent_provider to_lower env ≡ p) × (resolve_synthesis_provider to_lower env ≡ p)
  unfolding resolve_agent_provider resolve_synthesis_provider default_provider parse_provider
  one_switch env s p named known agent synthesis =
      (rw (agent, named, known) refl, rw (synthesis, named, known) refl)

  -- With none of the model variables set, the model of each call has a rate of its own.
  pub defaults-Priced :
      (env : Env)
      → ModelsUnset env
      → Priced (agent_model to_lower env) × Priced (synthesis_model to_lower env)
  unfolding agent_model synthesis_model
  defaults-Priced env u = (agent_model_of-Priced env u _, synthesis_model_of-Priced env u _)

add_mul :
    (k a b c d e f g h : ℕ)
    → ((a + b) + (c + d) + (e + f) + (g + h)) * k ≡ (a + c + e + g) * k + (b + d + f + h) * k
add_mul k a b c d e f g h = omega arith

-- The estimate of two usages together is the sum of their estimates.
pub estimate_usage_cost-add :
    (u v : TokenUsage) (m : String)
    → estimate_usage_cost (add_tokens u v) m ≡ estimate_usage_cost u m + estimate_usage_cost v m
unfolding estimate_usage_cost estimate_cost total_tokens add_tokens
estimate_usage_cost-add u v m =
    let r = or_else (model_pricing m) (record { input = 300; output = 1500 }) in
    add_mul (r.input * 85 + r.output * 15) u.input v.input u.output v.output
      (or_zero u.cache_creation) (or_zero v.cache_creation) (or_zero u.cache_read)
      (or_zero v.cache_read)
