-- ===== src/Facts/Chains.antt =====
-- The call chains of apps/orchestrator/src/facts/repo-facts.service.ts: `chainSeeds` and
-- `callChainFacts`.
use codemind_backend.Common.{
  ℕ, zero, suc, Bool, true, false, not, ◌&&◌, ◌||◌, ◌++◌, String, Option, none, some, List, [], ◌∷◌,
  length, keep, take, map, str_eq, leb, if◌then◌else◌, sort_by,
}
use codemind_backend.Facts.{Node, Graph, RouteFact, has, out_degree, safely}

pub record Step : Type 0 where
  pub symbol : String
  pub file : String
  pub line : ℕ

pub record Chain : Type 0 where
  pub name : String
  pub entry_file : String
  pub steps : List Step

abbrev pub step_of : Node → Step
step_of n = record { symbol = n.name; file = n.file_path; line = n.start_line }

-- The comparator of the hops: another file first, then the one that calls more.
unfoldable pub hop_before : Graph → String → Node → Node → Bool
hop_before g current a b =
    let away_a = not (str_eq a.file_path current) in
    let away_b = not (str_eq b.file_path current) in
    if away_a && not away_b
    then true
    else if away_b && not away_a
    then false
    else leb (out_degree g b.id) (out_degree g a.id)

abbrev pub first : List Node → Option Node
first [] = none
first (n ∷ ns) = some n

unfoldable pub next_hop : Graph → Node → List String → List Node → Option Node
next_hop g current visited candidates =
    first (sort_by (hop_before g current.file_path) (keep (λ n. not (has n.id visited)) candidates))

-- The `while` from `current` on, with room for so many more steps.
unfoldable pub walk : Graph → ℕ → Node → List String → List Node
unfolding next_hop
walk g zero current visited = []
walk g (suc room) current visited = elim (g.get_callees current.id) [
  | none ↦ []
  | some candidates ↦ elim (next_hop g current visited candidates) [
    | none ↦ []
    | some n ↦ n ∷ walk g room n (n.id ∷ visited)
  ]
]

-- The steps from a seed on: MAX_CHAIN_STEPS is 8.
unfoldable pub chain_nodes : Graph → Node → List Node
chain_nodes g seed = seed ∷ walk g 7 seed (seed.id ∷ [])

abbrev pub chain_of : Node → List Node → Chain
chain_of seed nodes = record {
  name = seed.name;
  entry_file = seed.file_path;
  steps = map step_of nodes;
}

-- The loop over the seeds, with room for so many more chains; MIN_CHAIN_STEPS is 3.
unfoldable pub collect_chains : Graph → ℕ → List Node → List Chain
unfolding chain_nodes
collect_chains g zero seeds = []
collect_chains g (suc room) [] = []
collect_chains g (suc room) (seed ∷ seeds) =
    let with_it = chain_of seed (chain_nodes g seed) ∷ collect_chains g room seeds in
    let without_it = collect_chains g (suc room) seeds in
    if leb 3 (length (chain_nodes g seed)) then with_it else without_it

-- `push` of `chainSeeds`: `seen` is the ids of the seeds.
unfoldable pub push_seed : Option Node → List Node → List Node
push_seed none seeds = seeds
push_seed (some n) seeds = if has n.id (map (λ s. s.id) seeds) then seeds else seeds ++ n ∷ []

abbrev pub is_handler : RouteFact → Node → Bool
is_handler r n = str_eq n.name r.handler && (str_eq n.kind "function" || str_eq n.kind "method")

unfoldable pub handler_of : Graph → RouteFact → Option Node
handler_of g r = elim (g.get_nodes_in_file r.file) [
  | none ↦ none
  | some nodes ↦ first (keep (is_handler r) nodes)
]

unfoldable pub route_seeds : Graph → List RouteFact → List Node → List Node
unfolding push_seed handler_of
route_seeds g [] seeds = seeds
route_seeds g (r ∷ rs) seeds = route_seeds g rs (push_seed (handler_of g r) seeds)

unfoldable pub push_all : List Node → List Node → List Node
unfolding push_seed
push_all [] seeds = seeds
push_all (n ∷ ns) seeds = push_all ns (push_seed (some n) seeds)

-- The exported functions, most connected first: MAX_CHAIN_SEEDS is 24.
unfoldable pub exported_seeds : Graph → List Node → List Node
unfolding push_all
exported_seeds g functions =
    let exported = take 48 (keep (λ n. n.is_exported) functions) in
    push_all (take 24 (sort_by (λ a b. leb (out_degree g b.id) (out_degree g a.id)) exported)) []

unfoldable pub functions_of : Graph → List Node × List String
functions_of g = safely (g.get_nodes_by_kind "function") [] "callChains.seeds"

unfoldable pub chain_seeds : Graph → List RouteFact → List Node × List String
unfolding route_seeds exported_seeds functions_of
chain_seeds g routes = elim (route_seeds g routes []) [
  | [] ↦ (exported_seeds g (functions_of g).0, (functions_of g).1)
  | n ∷ ns ↦ (n ∷ ns, [])
]

abbrev pub no_path : List Chain → List String
no_path [] = "callChains: no path of 3+ real call edges found" ∷ []
no_path (c ∷ cs) = []

-- MAX_CALL_CHAINS is 5.
unfoldable pub chains_from : Graph → List Node → List Chain × List String
unfolding collect_chains
chains_from g [] = ([], [])
chains_from g (seed ∷ seeds) =
    let chains = collect_chains g 5 (take 24 (seed ∷ seeds)) in (chains, no_path chains)

-- `callChainFacts`
unfoldable pub call_chain_facts : Graph → List RouteFact → List Chain × List String
unfolding chain_seeds chains_from
call_chain_facts g routes =
    let seeds = chain_seeds g routes in
    let chains = chains_from g seeds.0 in (chains.0, seeds.1 ++ chains.1)
