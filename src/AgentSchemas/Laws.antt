-- ===== src/AgentSchemas/Laws.antt =====
-- What an agent's output that passes libs/common/src/schema/agent-output.schemas.ts is sure to have.
use codemind_backend.Common.{
  Bool, true, false, String, Option, none, some, [], ◌∷◌, str_eq, str_eq_iff, if◌then◌else◌, ◌≡◌,
  refl, subst,
}
use codemind_backend.Json.{Value, Fields, property}
use codemind_backend.World.{AgentType, architecture, security, dependency, quality, docs}
use codemind_backend.Schema.{Spec, Shape, str, obj, empty, prop, key, Validated, is_optional}
use codemind_backend.Schema.Conforms.{Conforms, Has, a_string, an_object, enough, omitted, present}
use codemind_backend.Schema.Laws.{validate_iff}
use codemind_backend.AgentSchemas.{output_shape, agent_name, validate_agent_output}

-- The spec that a shape gives a key, the first where it is given twice.
abbrev pub spec_of : String → Shape → Option Spec
spec_of k empty = none
spec_of k (prop j s rest) = if str_eq j k then some s else spec_of k rest

omitted_lem :
    (b : Bool) (s t : Spec) (o : Option Spec)
    → is_optional t ≡ true
    → is_optional s ≡ false
    → (if b then some t else o) ≡ some s
    → o ≡ some s
omitted_lem true s t o p n e = absurd (clash s t p n (same e))
  where
    same : some t ≡ some s → t ≡ s
    same e = cc

    clash : (s t : Spec) → is_optional t ≡ true → is_optional s ≡ false → t ≡ s → ⊥
    clash s t p n e = cc
omitted_lem false s t o p n e = e

present_lem :
    (k j : String) (s t : Spec) (o : Option Spec) (fs : Fields) (b : Bool)
    → str_eq j k ≡ b
    → (if b then some t else o) ≡ some s
    → Conforms t (property j fs)
    → (o ≡ some s → Conforms s (property k fs))
    → Conforms s (property k fs)
present_lem k j s t o fs true h e c rest =
    subst (λ x. Conforms s (property x fs)) ((str_eq_iff j k).0 h)
      (subst (λ x. Conforms x (property j fs)) (same e) c)
  where
    same : some t ≡ some s → t ≡ s
    same e = cc
present_lem k j s t o fs false h e c rest = rest e

-- An object of a shape has the value of each key that the shape does not make optional.
required :
    {shape : Shape} {fs : Fields} (k : String) (s : Spec)
    → Has shape fs
    → spec_of k shape ≡ some s
    → is_optional s ≡ false
    → Conforms s (property k fs)
required k s enough e n = cc
required k s (omitted {k = j} {s = t} {rest = rest} {fs = fs} o p h) e n =
    required k s h (omitted_lem (str_eq j k) s t (spec_of k rest) o n e) n
required k s (present {k = j} {s = t} {rest = rest} {fs = fs} p c h) e n =
    present_lem k j s t (spec_of k rest) fs (str_eq j k) refl e c (λ e'. required k s h e' n)

a_string-inv : (v : Value) → Conforms str v → (s : String) × (v ≡ Value.string s)
a_string-inv v (a_string {s = s}) = (s, refl)

an_object-inv :
    (shape : Shape) (v : Value)
    → Conforms (obj shape) v
    → (fs : Fields) × (v ≡ Value.object fs) × Has shape fs
an_object-inv shape v (an_object {fs = fs} h) = (fs, refl, h)

summary_required : (t : AgentType) → spec_of "summary" (output_shape t) ≡ some str
summary_required architecture = refl
summary_required security = refl
summary_required dependency = refl
summary_required quality = refl
summary_required docs = refl

-- Whichever agent it is of, an output that passes is an object with a `summary` that is a string; so
-- an object that only wraps an unparsed reply does not pass.
pub validate_agent_output-summary :
    (t : AgentType) (v w : Value)
    → validate_agent_output t v ≡ Validated.ok w
    → (fs : Fields) × (s : String) × (v ≡ Value.object fs)
      × (property "summary" fs ≡ Value.string s)
unfolding validate_agent_output is_optional
validate_agent_output-summary t v w e =
    let (fs, shown, h) =
      an_object-inv (output_shape t) v
        ((validate_iff (obj (output_shape t)) v (key (agent_name t) ∷ [])).0 (w, e)) in
    let (s, is_string) =
      a_string-inv (property "summary" fs) (required "summary" str h (summary_required t) refl) in
    (fs, s, shown, is_string)
