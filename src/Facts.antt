-- ===== src/Facts.antt =====
-- The facts that apps/orchestrator/src/facts/repo-facts.service.ts derives from the code graph.
-- The graph library is a parameter, the record `Graph`: an answer is `none` where it throws.
-- What a function pushes to `degraded` is returned beside its result.
pub mod Chains
pub mod Hops
pub mod Hotspots
pub mod Ranking
pub mod Modules
pub mod Weights
pub mod Real
use codemind_backend.Common.{
  ℕ, Bool, true, false, not, ◌&&◌, ◌||◌, String, Option, none, some, List, [], ◌∷◌, length, keep,
  any, str_eq,
}

-- `CgNode`
pub record Node : Type 0 where
  pub id : String
  pub kind : String
  pub name : String
  pub file_path : String
  pub start_line : ℕ
  pub is_exported : Bool

pub record Metrics : Type 0 where
  pub caller_count : ℕ
  pub call_count : ℕ
  pub depth : ℕ

-- `get_outgoing_edges` gives the edges' kinds.
pub record Graph : Type 0 where
  pub get_callees : String → Option (List Node)
  pub get_nodes_in_file : String → Option (List Node)
  pub get_nodes_by_kind : String → Option (List Node)
  pub get_outgoing_edges : String → Option (List String)
  pub get_node_metrics : String → Option Metrics
  pub get_file_dependencies : String → Option (List String)

pub record RouteFact : Type 0 where
  pub handler : String
  pub file : String

abbrev pub has : String → List String → Bool
has s xs = any (str_eq s) xs

abbrev pub edge_count : Option (List String) → ℕ
edge_count none = 0
edge_count (some kinds) = length (keep (λ k. str_eq k "calls") kinds)

unfoldable pub out_degree : Graph → String → ℕ
out_degree g id = edge_count (g.get_outgoing_edges id)

-- `safely`, on what the library answered.
unfoldable pub safely {ℓ} : {A : Type ℓ} → Option A → A → String → A × List String
safely none fallback label = (fallback, label ∷ [])
safely (some a) fallback label = (a, [])
