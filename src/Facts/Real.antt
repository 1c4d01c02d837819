-- ===== src/Facts/Real.antt =====
-- Where the call chains of apps/orchestrator/src/facts/repo-facts.service.ts begin, and how many there
-- are.
use mathlib.Core.List.{Memᴰ}
use mathlib.Core.Option.{some-injective}
use codemind_backend.Common.{
  ℕ, zero, suc, ◌≤◌, true, Option, none, some, List, [], ◌∷◌, length, keep, take, map, leb, leb→le,
  All, All-sort_by, All-keep, All-take, keep-All, All-append, ◌≡◌, inl, inr, refl, arith,
  Option-cases, List-cases, either_known, either_way, subst,
}
use codemind_backend.Facts.{Node, Graph, RouteFact, has, safely}
use codemind_backend.Facts.Chains.{
  Chain, walk, chain_nodes, chain_of, collect_chains, push_seed, is_handler, handler_of,
  route_seeds, push_all, exported_seeds, functions_of, chain_seeds, chains_from, call_chain_facts,
}
use codemind_backend.Facts.Hops.{Trail, Fresh, walk-Walked, Among-self, first-All}

-- Where a chain may start: at the handler of a route, or at an exported function.
pub data Seed (g : Graph) (routes : List RouteFact) (n : Node) : Type 0 where
  handles :
      (r : RouteFact) (nodes : List Node)
      → Memᴰ r routes
      → g.get_nodes_in_file r.file ≡ some nodes
      → Memᴰ n nodes
      → is_handler r n ≡ true
      → Seed g routes n
  exports :
      (functions : List Node)
      → g.get_nodes_by_kind "function" ≡ some functions
      → Memᴰ n functions
      → n.is_exported ≡ true
      → Seed g routes n

-- A chain of the report: a trail through the graph from a seed, of 3 to 8 nodes, none twice.
pub record Real (g : Graph) (routes : List RouteFact) (c : Chain) : Type 0 where
  pub seed : Node
  pub rest : List Node
  pub from : Seed g routes seed
  pub spelled : c ≡ chain_of seed (seed ∷ rest)
  pub trail : Trail g seed rest
  pub unrepeated : Fresh [] (seed ∷ rest)
  pub long : 3 ≤ length (seed ∷ rest)
  pub short : length (seed ∷ rest) ≤ 8

chain-Real :
    (g : Graph) (routes : List RouteFact) (seed : Node)
    → Seed g routes seed
    → leb 3 (length (chain_nodes g seed)) ≡ true
    → Real g routes (chain_of seed (chain_nodes g seed))
unfolding chain_nodes Fresh
chain-Real g routes seed s enough =
    let w = walk-Walked g 7 seed (seed.id ∷ []) in
    record {
      seed = seed;
      rest = walk g 7 seed (seed.id ∷ []);
      from = s;
      spelled = refl;
      trail = w.trail;
      unrepeated = (refl, w.unrepeated);
      long = leb→le _ _ enough;
      short = omega (arith, w.short);
    }

-- The chains that are collected.
record Collected (g : Graph) (routes : List RouteFact) (room : ℕ) (cs : List Chain) : Type 0 where
  all_real : All (Real g routes) cs
  few : length cs ≤ room

collect-Collected :
    (g : Graph) (routes : List RouteFact) (room : ℕ) (seeds : List Node)
    → All (Seed g routes) seeds
    → Collected g routes room (collect_chains g room seeds)
unfolding collect_chains
collect-Collected g routes zero seeds h = record { all_real = tt; few = omega arith }
collect-Collected g routes (suc room) [] h = record { all_real = tt; few = omega arith }
collect-Collected g routes (suc room) (seed ∷ seeds) (s, h) =
    either_known (Collected g routes (suc room)) (leb 3 (length (chain_nodes g seed))) _ _
      (λ enough.
        let c = collect-Collected g routes room seeds h in
        record {
          all_real = (chain-Real g routes seed s enough, c.all_real);
          few = omega (arith, c.few);
        })
      (λ e. collect-Collected g routes (suc room) seeds h)

push_seed-All :
    (P : Node → Type 0) (o : Option Node) (seeds : List Node)
    → ((n : Node) → o ≡ some n → P n)
    → All P seeds
    → All P (push_seed o seeds)
unfolding push_seed
push_seed-All P none seeds f h = h
push_seed-All P (some n) seeds f h =
    either_way (All P) (has n.id (map (λ s. s.id) seeds)) _ _ h
      (All-append P seeds (n ∷ []) h (f n refl, tt))

handler_of-Seed :
    (g : Graph) (routes : List RouteFact) (r : RouteFact)
    → Memᴰ r routes
    → (n : Node) → handler_of g r ≡ some n
    → Seed g routes n
unfolding handler_of
handler_of-Seed g routes r m n e = elim (Option-cases (g.get_nodes_in_file r.file)) [
  | inl d ↦ absurd (let x = rw (d, handler_of) at e in cc)
  | inr (nodes, d) ↦
      let x = rw (d, handler_of) at e in
      handles r nodes m d
        (first-All (λ k. Memᴰ k nodes) _ n (All-keep _ _ nodes (Among-self nodes)) x)
        (first-All (λ k. is_handler r k ≡ true) _ n (keep-All (is_handler r) nodes) x)
]

route_seeds-Seed :
    (g : Graph) (routes rs : List RouteFact) (seeds : List Node)
    → All (λ r. Memᴰ r routes) rs
    → All (Seed g routes) seeds
    → All (Seed g routes) (route_seeds g rs seeds)
unfolding route_seeds
route_seeds-Seed g routes [] seeds ms h = h
route_seeds-Seed g routes (r ∷ rs) seeds (m, ms) h =
    route_seeds-Seed g routes rs _ ms
      (push_seed-All (Seed g routes) (handler_of g r) seeds (handler_of-Seed g routes r m) h)

push_all-All :
    (P : Node → Type 0) (ns seeds : List Node) → All P ns → All P seeds → All P (push_all ns seeds)
unfolding push_all
push_all-All P [] seeds ns h = h
push_all-All P (n ∷ ns) seeds (p, ps) h =
    push_all-All P ns _ ps
      (push_seed-All P (some n) seeds (λ m e. subst P (some-injective n m e) p) h)

All-both :
    {A : Type 0} (P Q R : A → Type 0) (xs : List A)
    → ((x : A) → P x → Q x → R x)
    → All P xs
    → All Q xs
    → All R xs
All-both P Q R [] f h k = tt
All-both P Q R (x ∷ xs) f (p, h) (q, k) = (f x p q, All-both P Q R xs f h k)

exported-Seed :
    (g : Graph) (routes : List RouteFact)
    → All (Seed g routes) (exported_seeds g (functions_of g).0)
unfolding exported_seeds functions_of safely
exported-Seed g routes = elim (Option-cases (g.get_nodes_by_kind "function")) [
  | inl e ↦ rw (e, functions_of, safely) tt
  | inr (fs, e) ↦
      rw (e, functions_of, safely)
        (push_all-All (Seed g routes) _ []
          (All-take _ 24 _ (All-sort_by _ _ _ (All-take _ 48 _ (both g routes fs e)))) tt)
]
  where
    both :
        (g : Graph) (routes : List RouteFact) (fs : List Node)
        → g.get_nodes_by_kind "function" ≡ some fs
        → All (Seed g routes) (keep (λ n. n.is_exported) fs)
    both g routes fs e =
        All-both _ _ _ _ (λ n. exports fs e) (All-keep _ (λ n. n.is_exported) fs (Among-self fs))
          (keep-All (λ n. n.is_exported) fs)

chain_seeds-Seed :
    (g : Graph) (routes : List RouteFact) → All (Seed g routes) (chain_seeds g routes).0
unfolding chain_seeds
chain_seeds-Seed g routes = elim (List-cases (route_seeds g routes [])) [
  | inl e ↦ rw (e, chain_seeds) (exported-Seed g routes)
  | inr (n, ns, e) ↦
      rw (e, chain_seeds)
        (subst (All (Seed g routes)) e (route_seeds-Seed g routes routes [] (Among-self routes) tt))
]

-- Every call chain of the report is a trail through the graph: its first step is the handler of a
-- route or an exported function, every further step is a callee that the graph gives for the step
-- before, no symbol comes twice, and it has 3 to 8 steps. There are at most 5.
pub call_chain_facts-Real :
    (g : Graph) (routes : List RouteFact)
    → All (Real g routes) (call_chain_facts g routes).0 × (length (call_chain_facts g routes).0 ≤ 5)
unfolding call_chain_facts chains_from
call_chain_facts-Real g routes = elim (List-cases (chain_seeds g routes).0) [
  | inl e ↦ rw (e, call_chain_facts, chains_from) (tt, omega arith)
  | inr (n, ns, e) ↦
      let c =
        collect-Collected g routes 5 (take 24 (n ∷ ns))
          (All-take _ 24 (n ∷ ns) (subst (All (Seed g routes)) e (chain_seeds-Seed g routes))) in
      rw (e, call_chain_facts, chains_from) (c.all_real, c.few)
]
