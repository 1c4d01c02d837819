-- ===== src/Diagrams/Service/Shown.antt =====
-- What the diagrams of apps/synthesizer/src/diagrams/diagrams.service.ts are drawn from.
use codemind_backend.Common.{
  ℕ, suc, ◌≤◌, true, Option, none, some, List, [], ◌∷◌, take, All, All-append, keep-All, All-keep,
  ◌≡◌, refl, arith, ltb, map, either_way,
}
use codemind_backend.Diagrams.{Item, render}
use codemind_backend.Diagrams.Graphs.{listed}
use codemind_backend.Diagrams.Counting.Renders.{Proper, drawn, count_nodes-render}
use codemind_backend.Diagrams.Wiring.{ids_of, Joined, Good}
use codemind_backend.Diagrams.Wiring.Modules.{module_graph-Good}
use codemind_backend.Diagrams.Wiring.Sequences.{
  sequence_from_chain-Good, sequence_diagram-Good, security_flow-Good,
}
use codemind_backend.Diagrams.Wiring.Imports.{dependency_graph-Good}
use codemind_backend.Diagrams.Wiring.Flow.{system_flow-Good}
use codemind_backend.Diagrams.Service.{
  Chain, ModuleEdge, RepoFacts, Flow, Outputs, Source, flow_sources, module_items, module_source,
  chains_of, chain_sources, named_sources, request_sources, sources_of, is_thick, Layout, Rendered,
  settle, byte_length, render_source, build_diagrams,
}

abbrev Sound : Source → Type 0
Sound s = Good (ids_of s.items) s.items

flow_sources-Sound : (facts : Option RepoFacts) → All Sound (flow_sources facts)
unfolding flow_sources
flow_sources-Sound none = tt
flow_sources-Sound (some f) = (system_flow-Good _ _, tt)

module_items-Sound :
    (o : Outputs) (ms : List (List ℕ)) (es : List ModuleEdge)
    → Good (ids_of (module_items o.architecture ms es)) (module_items o.architecture ms es)
module_items-Sound o ms [] = module_graph-Good _
module_items-Sound o ms (e ∷ es) = module_graph-Good _

module_source-Sound :
    (o : Outputs) (facts : Option RepoFacts)
    → Good (ids_of (module_source o.architecture facts)) (module_source o.architecture facts)
module_source-Sound o none = module_graph-Good _
module_source-Sound o (some f) = module_items-Sound o f.modules f.module_dependencies

chain_sources-Sound : (i : ℕ) (cs : List Chain) → All Sound (chain_sources i cs)
unfolding chain_sources
chain_sources-Sound i [] = tt
chain_sources-Sound i (c ∷ cs) = (sequence_from_chain-Good _, chain_sources-Sound (suc i) cs)

named_sources-Sound : (i : ℕ) (fs : List Flow) → All Sound (named_sources i fs)
unfolding named_sources
named_sources-Sound i [] = tt
named_sources-Sound i (f ∷ fs) = (sequence_diagram-Good _, named_sources-Sound (suc i) fs)

request_sources-Sound :
    (fs : Option (List Flow)) (cs : List Chain) → All Sound (request_sources fs cs)
unfolding request_sources
request_sources-Sound fs [] = named_sources-Sound 0 (take 3 (listed fs))
request_sources-Sound fs (c ∷ cs) = chain_sources-Sound 0 (take 3 (c ∷ cs))

sources_of-Sound : (o : Outputs) (facts : Option RepoFacts) → All Sound (sources_of o facts)
unfolding sources_of
sources_of-Sound o facts = All-append _ (flow_sources facts) _ (flow_sources-Sound facts) (
  module_source-Sound o facts,
  All-append _ (request_sources o.request_flows (chains_of facts)) _
      (request_sources-Sound o.request_flows (chains_of facts))
      (security_flow-Good _, (dependency_graph-Good _ _, tt)),
)

-- A source that is rendered: its edges join what it declares, and it declares at least 3 things.
pub record Drawable (s : Source) : Type 0 where
  pub joined : All (Joined (ids_of s.items)) s.items
  pub proper : All Proper s.items
  pub enough : 3 ≤ drawn s.items

pub parts :
    (known : List (List ℕ)) (is : List Item) → Good known is → All Proper is × All (Joined known) is
parts known [] h = (tt, tt)
parts known (i ∷ is) ((p, j), h) = let r = parts known is h in ((p, r.0), (j, r.1))

thick-Drawable : (s : Source) → Sound s → is_thick s ≡ true → Drawable s
unfolding is_thick
thick-Drawable s good e =
    let p = parts (ids_of s.items) s.items good in
    let n = count_nodes-render s.items p.0 in
    record { joined = p.1; proper = p.0; enough = ground (arith, e, n) }

both-Drawable :
    (ss : List Source) → All Sound ss → All (λ s. is_thick s ≡ true) ss → All Drawable ss
both-Drawable [] h k = tt
both-Drawable (s ∷ ss) (p, h) (q, k) = (thick-Drawable s p q, both-Drawable ss h k)

-- A diagram of the report: its text is that of a source that is drawable.
pub record Shown (r : Rendered) : Type 0 where
  pub drawn_from : Source
  pub same_text : r.source ≡ render drawn_from.items
  pub drawable : Drawable drawn_from

module _ (compile : (slug source : List ℕ) → Layout → Option (List ℕ))
    (fallback : List ℕ → List ℕ) where
  settle-source :
      (s : Source) (svg : Option (List ℕ)) → (settle compile fallback s svg).source ≡ render s.items
  settle-source s none = refl
  settle-source s (some svg) = refl

  render_source-source : (s : Source) → (render_source compile fallback s).source ≡ render s.items
  unfolding render_source
  render_source-source s =
      either_way (λ (r : Rendered). r.source ≡ render s.items)
        (ltb 65536 (byte_length (render s.items))) _ _ refl (settle-source s _)

  all-Shown :
      (ss : List Source) → All Drawable ss → All Shown (map (render_source compile fallback) ss)
  all-Shown [] h = tt
  all-Shown (s ∷ ss) (p, h) =
      (record { drawn_from = s; same_text = render_source-source s; drawable = p }, all-Shown ss h)

  -- Whatever the agents and the graph report, and whatever the compiler makes of it: the text of each
  -- diagram that is built is one in which every edge joins two identifiers that a node or a container
  -- of the same diagram declares, each such identifier is a letter and then letters, digits and `_`,
  -- and at least 3 nodes or containers are declared.
  pub build_diagrams-Shown :
      (o : Outputs) (facts : Option RepoFacts) → All Shown (build_diagrams compile fallback o facts)
  unfolding build_diagrams
  build_diagrams-Shown o facts =
      let ss = sources_of o facts in
      all-Shown _ (
        both-Drawable _ (All-keep Sound is_thick ss (sources_of-Sound o facts))
          (keep-All is_thick ss))
