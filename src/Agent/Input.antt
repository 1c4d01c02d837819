-- ===== src/Agent/Input.antt =====
-- The first message of a run and its trimming to the input budget: `assembleUserMessage`, `join` and
-- `estimate` of apps/agent-worker/src/agents/base.agent.ts. A text is its UTF-16 code units; a field
-- that is not there is an empty one. The rendered facts and the agent's `buildUserMessage` are
-- parameters; which of the fields are missing does not change while they are cut, so a body that tells
-- a missing field from an empty one is one such function for each choice of them. The character budget may be negative, so what the system prompt takes of it stands on
-- the other side of each comparison.
use codemind_backend.Common.{
  ℕ, ◌+◌, ◌-◌, ◌*◌, ◌/◌, Bool, List, [], ◌∷◌, ◌++◌, length, take, leb, if◌then◌else◌,
}

pub record Context : Type 0 where
  pub graph_context : List ℕ
  pub additional_context : List ℕ
  pub file_tree : List ℕ

-- The fields that may be cut, in the order of their sacrifice.
pub data Field : Type 0 where
  graph_field additional_field tree_field : Field

abbrev pub get_field : Field → Context → List ℕ
get_field graph_field c = c.graph_context
get_field additional_field c = c.additional_context
get_field tree_field c = c.file_tree

abbrev pub set_field : Field → List ℕ → Context → Context
set_field graph_field t c = record c { graph_context = t }
set_field additional_field t c = record c { additional_context = t }
set_field tree_field t c = record c { file_tree = t }

-- `Math.ceil(text.length / 4)`
unfoldable pub estimate : List ℕ → ℕ
estimate t = (length t + 3) / 4

abbrev pub join_texts : List ℕ → List ℕ → List ℕ
join_texts [] body = body
join_texts (x ∷ facts) body = (x ∷ facts) ++ 10 ∷ body

module _ (system_prompt facts : List ℕ) (build_user_message : Context → List ℕ) where
  unfoldable pub join : Context → List ℕ
  join c = join_texts facts (build_user_message c)

  -- Four characters for each token of the system prompt and of the margin of 500.
  unfoldable pub overhead : ℕ
  unfolding estimate
  overhead = (estimate system_prompt + 500) * 4

  -- The characters of a message, and those that MAX_INPUT_TOKENS (20,000) leaves.
  unfoldable pub taken : Context → ℕ
  unfolding join overhead
  taken c = length (join c) + overhead

  unfoldable pub within_budget : Context → Bool
  unfolding taken
  within_budget c = leb (taken c) 80000

  unfoldable pub cut : Field → Context → Context
  unfolding taken
  cut f c = set_field f (take (length (get_field f c) - (taken c - 80000)) (get_field f c)) c

  -- An empty field is passed over.
  abbrev pub cut_if : List ℕ → Field → Context → Context
  cut_if [] f c = c
  cut_if (x ∷ current) f c = cut f c

  unfoldable pub trim_fields : List Field → Context → Context
  unfolding within_budget cut
  trim_fields [] c = c
  trim_fields (f ∷ fs) c =
      let trimmed = trim_fields fs (cut_if (get_field f c) f c) in
      if within_budget c then c else trimmed

  unfoldable pub assemble_user_message : Context → List ℕ
  unfolding trim_fields join
  assemble_user_message c = join (trim_fields (graph_field ∷ additional_field ∷ tree_field ∷ []) c)
