-- ===== src/Diagrams/Wiring/Flow.antt =====
-- The system flow of apps/synthesizer/src/diagrams/d2-source.builder.ts.
use codemind_backend.Common.{
  ℕ, suc, true, false, some, List, [], ◌∷◌, ◌++◌, take, All-append, ◌≡◌, refl,
}
use codemind_backend.Diagrams.{units, entry, Item, node}
use codemind_backend.Diagrams.Names.{IdAllocator, get, has, allocator, is_letter}
use codemind_backend.Diagrams.Words.{Ident}
use codemind_backend.Diagrams.Graphs.{Step}
use codemind_backend.Diagrams.Graphs.Packages.{
  ExternalImport, flow_key, flow_label, flow_steps, last_step_key, reached_nodes, reached,
  draw_flow, system_flow,
}
use codemind_backend.Diagrams.Wiring.{
  ids_of, Good, Includes, Known, allocator-Known, get-Known, has-Known, has-keeps, has-got,
  Includes-append, Includes-self,
}
use codemind_backend.Diagrams.Wiring.Modules.{placeholder-Good}

flow-Ident : Ident (units "s")
unfolding units is_letter
flow-Ident = (refl, tt)

module _ (known : List (List ℕ)) where
  flow_steps-Good :
      (i : ℕ) (before : Step) (steps : List Step) (ids : IdAllocator)
      → Known known ids
      → has (flow_key i before) ids ≡ true
      → Includes known (flow_steps i before steps ids).0
      → Good known (flow_steps i before steps ids).0
        × Known known (flow_steps i before steps ids).1
        × (has (last_step_key i before steps) (flow_steps i before steps ids).1 ≡ true)
  unfolding flow_steps last_step_key ids_of
  flow_steps-Good i before [] ids k b h = (tt, k, b)
  flow_steps-Good i before (s ∷ steps) ids k b (p, h) =
      let key : List ℕ = flow_key (suc i) s in
      let g = get-Known known key ids k p in
      let f =
        has-Known known (flow_key i before) (get key ids).1 g.1
          (has-keeps key (flow_key i before) ids b) in
      let r = flow_steps-Good (suc i) s steps (get key ids).1 g.1 (has-got key ids) h in
      (((g.0, tt), (((f.0, g.0), (f.1, p)), r.0)), r.1, r.2)

  reached_nodes-Good :
      (last : List ℕ) (es : List ExternalImport) (ids : IdAllocator)
      → Known known ids
      → has last ids ≡ true
      → Includes known (reached_nodes last es ids)
      → Good known (reached_nodes last es ids)
  unfolding reached_nodes ids_of
  reached_nodes-Good last [] ids k b h = tt
  reached_nodes-Good last (e ∷ es) ids k b (p, h) =
      let key : List ℕ = units "pkg:" ++ e.package_name in
      let g = get-Known known key ids k p in
      let kept = has-keeps key last ids b in
      let f = has-Known known last (get key ids).1 g.1 kept in
      ((g.0, tt), (((f.0, g.0), (f.1, p)), reached_nodes-Good last es (get key ids).1 g.1 kept h))

draw_flow-Good :
    (steps : List Step) (imports : List ExternalImport)
    → Good (ids_of (draw_flow steps imports)) (draw_flow steps imports)
unfolding draw_flow ids_of
draw_flow-Good [] imports = placeholder-Good _ _
draw_flow-Good (s ∷ []) imports = placeholder-Good _ _
draw_flow-Good (s ∷ t ∷ steps) imports =
    let rest = take 5 (t ∷ steps) in
    let key : List ℕ = flow_key 0 s in
    let first = get key (allocator (units "s")) in
    let flow = flow_steps 0 s rest first.1 in
    let far = reached_nodes (last_step_key 0 s rest) (reached (s ∷ rest) imports) flow.1 in
    let all : List Item = node first.0 (flow_label s) (some entry) false ∷ (flow.0 ++ far) in
    let known = ids_of all in
    let inc : Includes known all = Includes-self all in
    let parts = Includes-append known flow.0 far inc.1 in
    let g =
      get-Known known key (allocator (units "s")) (allocator-Known known (units "s") flow-Ident)
        inc.0 in
    let r =
      flow_steps-Good known 0 s rest first.1 g.1 (has-got key (allocator (units "s"))) parts.0 in
    (
      (tt, tt),
      (
        (g.0, tt),
        All-append _ flow.0 far r.0 (
            reached_nodes-Good known (last_step_key 0 s rest) (reached (s ∷ rest) imports) flow.1
              r.1 r.2 parts.1),
      ),
    )

pub system_flow-Good :
    (chains : List (List Step)) (imports : List ExternalImport)
    → Good (ids_of (system_flow chains imports)) (system_flow chains imports)
unfolding system_flow
system_flow-Good chains imports = draw_flow-Good _ imports
