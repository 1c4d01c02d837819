-- ===== src/Providers/Serving.antt =====
-- That the calls of libs/common/src/llm/llm-client.service.ts reach the providers that are configured.
use mathlib.Core.Bool.{or-true}
use mathlib.Core.Option.{some-injective}
use codemind_backend.Common.{
  Bool, true, not, ◌&&◌, String, none, some, List, [], ◌∷◌, ◌≡◌, inl, inr, refl, sym, ap, subst,
  Option-cases, either_known,
}
use codemind_backend.Providers.{
  Provider, anthropic, mistral, openai, Env, truthy, resolve_agent_provider,
  resolve_synthesis_provider,
}
use codemind_backend.Providers.Clients.{
  Clients, LlmClient, same_provider, either_is, construct_for, construct, ensure, CompleteParams,
  model_for, send, complete, converse, Call, completes, converses, kept, after_calls,
}

abbrev built : Provider → Clients → Bool
built anthropic c = c.anthropic_client
built openai c = c.openai_client
built mistral c = c.mistral_client

-- A client for providers `s` and `a`, both of which have theirs built.
record Ready (s a : Provider) (l : LlmClient) : Type 0 where
  synthesis : l.synthesis_provider ≡ s
  agent : l.agent_provider ≡ a
  first_built : built s l.clients ≡ true
  second_built : built a l.clients ≡ true

abbrev mark : Provider → Clients → Clients
mark anthropic c = record c { anthropic_client = true }
mark openai c = record c { openai_client = true }
mark mistral c = record c { mistral_client = true }

built-mark : (p q : Provider) (c : Clients) → built q c ≡ true → built q (mark p c) ≡ true
built-mark anthropic anthropic c h = refl
built-mark anthropic openai c h = h
built-mark anthropic mistral c h = h
built-mark openai anthropic c h = h
built-mark openai openai c h = refl
built-mark openai mistral c h = h
built-mark mistral anthropic c h = h
built-mark mistral openai c h = h
built-mark mistral mistral c h = refl

ensure-keeps :
    (env : Env) (p q : Provider) (c d : Clients)
    → ensure env p c ≡ some d
    → built q c ≡ true
    → built q d ≡ true
unfolding ensure
ensure-keeps env anthropic q c d e h =
    subst (λ x. built q x ≡ true) (some-injective _ d e) (built-mark anthropic q c h)
ensure-keeps env openai q c d e h =
    subst (λ x. built q x ≡ true) (some-injective _ d e) (built-mark openai q c h)
ensure-keeps env mistral q c d e h =
    either_known (λ o. o ≡ some d → built q d ≡ true) c.mistral_client _ _
      (λ b same. subst (λ x. built q x ≡ true) (some-injective _ d same) h)
      (λ b.
        either_known (λ o. o ≡ some d → built q d ≡ true) (truthy env.mistral_api_key) _ _
          (λ k same.
            subst (λ x. built q x ≡ true) (some-injective _ d same) (built-mark mistral q c h))
          (λ k same. absurd cc))
      e

ensure-built : (env : Env) (p : Provider) (c : Clients) → built p c ≡ true → ensure env p c ≡ some c
unfolding ensure
ensure-built env anthropic c h = ap (λ b. some (record c { anthropic_client = b })) (sym h)
ensure-built env openai c h = ap (λ b. some (record c { openai_client = b })) (sym h)
ensure-built env mistral c h = rw h refl

send-Ready :
    (env : Env) (s a p : Provider) (model : String) (l : LlmClient)
    → Ready s a l
    → Ready s a (kept l (send p model l (ensure env p l.clients)))
send-Ready env s a p model l r = elim (Option-cases (ensure env p l.clients)) [
  | inl e ↦ rw e r
  | inr (d, e) ↦ rw e (record {
    synthesis = r.synthesis;
    agent = r.agent;
    first_built = ensure-keeps env p s l.clients d e r.first_built;
    second_built = ensure-keeps env p a l.clients d e r.second_built;
  })
]

after_calls-Ready :
    (env : Env) (s a : Provider) (calls : List Call) (l : LlmClient)
    → Ready s a l
    → Ready s a (after_calls env calls l)
unfolding after_calls complete converse
after_calls-Ready env s a [] l r = r
after_calls-Ready env s a (completes params ∷ calls) l r =
    after_calls-Ready env s a calls _ (send-Ready env s a _ _ l r)
after_calls-Ready env s a (converses override model ∷ calls) l r =
    after_calls-Ready env s a calls _ (send-Ready env s a _ _ l r)

abbrev wanted : Provider → Provider → Clients
wanted s a = record {
  anthropic_client = either_is anthropic s a;
  openai_client = either_is openai s a;
  mistral_client = either_is mistral s a;
}

wanted-first : (s a : Provider) → built s (wanted s a) ≡ true
wanted-first anthropic a = refl
wanted-first openai a = refl
wanted-first mistral a = refl

wanted-second : (s a : Provider) → built a (wanted s a) ≡ true
wanted-second s anthropic = or-true (same_provider s anthropic)
wanted-second s openai = or-true (same_provider s openai)
wanted-second s mistral = or-true (same_provider s mistral)

construct-Ready :
    (env : Env) (s a : Provider) (l : LlmClient) → construct_for env s a ≡ some l → Ready s a l
unfolding construct_for
construct-Ready env s a l e =
    either_known (λ o. o ≡ some l → Ready s a l)
      (either_is mistral s a && not (truthy env.mistral_api_key)) _ _ (λ t same. absurd cc)
      (λ t same. subst (Ready s a) (some-injective _ l same) (record {
        synthesis = refl;
        agent = refl;
        first_built = wanted-first s a;
        second_built = wanted-second s a;
      }))
      e

-- A completion without an override of its provider.
abbrev pub plain : (a o m : String) → CompleteParams
plain a o m = record { provider = none; anthropic_model = a; openai_model = o; mistral_model = m }

-- Once the client is constructed, whatever calls with whatever overrides came before: a completion
-- without an override is sent by the client of the synthesis provider, for the model that was given
-- for that provider, and a turn of a conversation by that of the agents' provider. Neither throws
-- for want of a key, and neither builds a client.
pub configured_calls-reach :
    (to_lower : String → String) (env : Env) (l : LlmClient) (calls : List Call)
    (a o m model : String)
    → construct to_lower env ≡ some l
    → (complete env (plain a o m) (after_calls env calls l)
        ≡ some (record {
          by = resolve_synthesis_provider to_lower env;
          model = model_for (resolve_synthesis_provider to_lower env) (plain a o m);
          after = after_calls env calls l;
        }))
      × (converse env none model (after_calls env calls l)
          ≡ some (record {
            by = resolve_agent_provider to_lower env;
            model = model;
            after = after_calls env calls l;
          }))
unfolding construct complete converse
configured_calls-reach to_lower env l calls a o m model e =
    let r = after_calls-Ready env _ _ calls l (construct-Ready env _ _ l e) in
    (
      rw (r.synthesis, ensure-built env _ _ r.first_built) refl,
      rw (r.agent, ensure-built env _ _ r.second_built) refl,
    )
