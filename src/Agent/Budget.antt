-- ===== src/Agent/Budget.antt =====
-- How far `assembleUserMessage` of apps/agent-worker/src/agents/base.agent.ts trims a message.
use codemind_backend.Common.{ℕ, ◌-◌, List, length, take}
use codemind_backend.Agent.Input.{Context, Field, taken, trim_fields}

-- A text that has given back so many characters from its end, or all that it has.
abbrev pub shortened : List ℕ → ℕ → List ℕ
shortened t excess = take (length t - excess) t

module _ (system_prompt facts : List ℕ) (build : Context → List ℕ) where
  -- The characters by which a message is too long.
  abbrev pub excess : Context → ℕ
  excess c = taken system_prompt facts build c - 80000

  abbrev trimmed_by : List Field → Context → Context
  trimmed_by fs c = trim_fields system_prompt facts build fs c
