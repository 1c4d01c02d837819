-- ===== src/Tokens.antt =====
-- libs/common/src/types/token-usage.types.ts: token accounting for the calls of a language model.
-- The two cache classes are optional in the source (`cacheCreation?`), so they are `Option` here.
use codemind_backend.Common.{ℕ, ◌+◌, Option, none, some}

pub record TokenUsage : Type 0 where
  pub input : ℕ
  pub output : ℕ
  pub cache_creation : Option ℕ
  pub cache_read : Option ℕ

-- `x ?? 0`
abbrev pub or_zero : Option ℕ → ℕ
or_zero none = 0
or_zero (some n) = n

unfoldable pub total_tokens : TokenUsage → ℕ
total_tokens u = u.input + u.output + or_zero u.cache_creation + or_zero u.cache_read

unfoldable pub no_tokens : TokenUsage
no_tokens = record { input = 0; output = 0; cache_creation = some 0; cache_read = some 0 }

unfoldable pub add_tokens : TokenUsage → TokenUsage → TokenUsage
add_tokens a b = record {
  input = a.input + b.input;
  output = a.output + b.output;
  cache_creation = some (or_zero a.cache_creation + or_zero b.cache_creation);
  cache_read = some (or_zero a.cache_read + or_zero b.cache_read);
}
