-- ===== src/Diagrams/Service.antt =====
-- `buildAll` of apps/synthesizer/src/diagrams/diagrams.service.ts, up to the charts, and `render` of
-- apps/synthesizer/src/diagrams/d2-renderer.service.ts. What the D2 library makes of a source is a
-- parameter, `none` where it rejects or times out.
pub mod Shown
use codemind_backend.Common.{
  ℕ, zero, suc, ◌+◌, ◌*◌, Bool, true, false, ◌&&◌, Option, none, some, List, [], ◌∷◌, ◌++◌, map,
  keep, take, length, leb, ltb, if◌then◌else◌,
}
use codemind_backend.Diagrams.{units, Item, render}
use codemind_backend.Diagrams.Decimal.{digits}
use codemind_backend.Diagrams.Graphs.{
  Dependency, Architecture, Step, Security, listed, module_graph, sequence_from_chain,
  sequence_diagram, security_flow,
}
use codemind_backend.Diagrams.Graphs.Packages.{
  ExternalImport, Dependencies, dependency_graph, system_flow,
}
use codemind_backend.Diagrams.Counting.{count_nodes}

pub record Chain : Type 0 where
  pub name : List ℕ
  pub steps : List Step

pub record ModuleEdge : Type 0 where
  pub from : List ℕ
  pub to : List ℕ
  pub weight : ℕ

pub record RepoFacts : Type 0 where
  pub call_chains : List Chain
  pub external_imports : List ExternalImport
  pub modules : List (List ℕ)
  pub module_dependencies : List ModuleEdge

pub record Flow : Type 0 where
  pub name : List ℕ
  pub steps : Option (List (List ℕ))

pub record Outputs : Type 0 where
  pub architecture : Architecture
  pub request_flows : Option (List Flow)
  pub security : Security
  pub dependency : Dependencies

pub data Layout : Type 0 where
  dagre : Layout
  elk : Layout

-- What `push` is called with, but for the title, which is only shown.
pub record Source : Type 0 where
  pub slug : List ℕ
  pub items : List Item
  pub layout : Layout

abbrev pub source : List ℕ → List Item → Layout → Source
source slug items layout = record { slug = slug; items = items; layout = layout }

unfoldable pub flow_sources : Option RepoFacts → List Source
unfolding units
flow_sources none = []
flow_sources (some f) =
    source (units "system-flow")
      (system_flow (map (λ (c : Chain). c.steps) f.call_chains) f.external_imports) elk
    ∷ []

abbrev pub measured : ModuleEdge → Dependency
measured e = record { from = e.from; to = e.to; label = some (digits e.weight) }

-- The measured edges, where there are any.
abbrev pub module_items : Architecture → List (List ℕ) → List ModuleEdge → List Item
module_items arch modules [] = module_graph arch
module_items arch modules (e ∷ es) =
    module_graph
      (record { modules = some modules; module_dependencies = some (map measured (e ∷ es)) })

abbrev pub module_source : Architecture → Option RepoFacts → List Item
module_source arch none = module_graph arch
module_source arch (some f) = module_items arch f.modules f.module_dependencies

abbrev pub chains_of : Option RepoFacts → List Chain
chains_of none = []
chains_of (some f) = f.call_chains

abbrev pub imports_of : Option RepoFacts → List ExternalImport
imports_of none = []
imports_of (some f) = f.external_imports

unfoldable pub request_slug : ℕ → List ℕ
unfolding units digits
request_slug i = units "request-flow-" ++ digits (suc i)

unfoldable pub chain_sources : ℕ → List Chain → List Source
unfolding request_slug
chain_sources i [] = []
chain_sources i (c ∷ cs) =
    source (request_slug i) (sequence_from_chain c.steps) dagre ∷ chain_sources (suc i) cs

unfoldable pub named_sources : ℕ → List Flow → List Source
unfolding request_slug
named_sources i [] = []
named_sources i (f ∷ fs) =
    source (request_slug i) (sequence_diagram (listed f.steps)) dagre ∷ named_sources (suc i) fs

-- MAX_REQUEST_FLOWS is 3.
unfoldable pub request_sources : Option (List Flow) → List Chain → List Source
unfolding chain_sources named_sources
request_sources flows [] = named_sources 0 (take 3 (listed flows))
request_sources flows (c ∷ cs) = chain_sources 0 (take 3 (c ∷ cs))

-- The calls of `push`, in order.
unfoldable pub sources_of : Outputs → Option RepoFacts → List Source
unfolding flow_sources request_sources units
sources_of o facts =
    flow_sources facts
    ++ (source (units "architecture-modules") (module_source o.architecture facts) elk
        ∷ (request_sources o.request_flows (chains_of facts)
            ++ (source (units "security-auth-flow") (security_flow o.security) dagre
                ∷ source (units "dependency-graph")
                    (dependency_graph o.dependency (imports_of facts)) dagre
                ∷ [])))

-- MIN_DIAGRAM_NODES is 3.
unfoldable pub is_thick : Source → Bool
unfolding count_nodes render
is_thick s = if ltb (count_nodes (render s.items)) 3 then false else true

-- `Buffer.byteLength(source, 'utf8')`: a pair of surrogates takes 4 bytes, a lone one 3.
abbrev is_high : ℕ → Bool
is_high n = leb 55296 n && leb n 56319

abbrev is_low : ℕ → Bool
is_low n = leb 56320 n && leb n 57343

abbrev bytes_of : ℕ → ℕ
bytes_of n = if ltb n 128 then 1 else if ltb n 2048 then 2 else 3

unfoldable pub byte_length : List ℕ → ℕ
byte_length [] = 0
byte_length (c ∷ []) = bytes_of c
byte_length (c ∷ d ∷ cs) =
    let paired = 4 + byte_length cs in
    let lone = bytes_of c + byte_length (d ∷ cs) in if is_high c && is_low d then paired else lone

pub record Rendered : Type 0 where
  pub slug : List ℕ
  pub source : List ℕ
  pub svg : List ℕ
  pub degraded : Bool

-- `compile` boots the library, compiles and renders, sanitizes, and keeps to the time it has;
-- `fallback` is the text of `fallbackSvg`.
module _ (compile : (slug source : List ℕ) → Layout → Option (List ℕ))
    (fallback : List ℕ → List ℕ) where
  abbrev pub settle : Source → Option (List ℕ) → Rendered
  settle s none = record {
    slug = s.slug;
    source = render s.items;
    svg = fallback (units "Diagram could not be rendered");
    degraded = true;
  }
  settle s (some svg) = record {
    slug = s.slug;
    source = render s.items;
    svg = svg;
    degraded = false;
  }

  -- MAX_SOURCE_BYTES is 64 * 1024.
  unfoldable pub render_source : Source → Rendered
  unfolding byte_length render units
  render_source s =
      if ltb 65536 (byte_length (render s.items))
      then record {
        slug = s.slug;
        source = render s.items;
        svg = fallback (units "Diagram too large to render");
        degraded = true;
      }
      else settle s (compile s.slug (render s.items) s.layout)

  unfoldable pub build_diagrams : Outputs → Option RepoFacts → List Rendered
  unfolding sources_of is_thick render_source
  build_diagrams o facts = map render_source (keep is_thick (sources_of o facts))
