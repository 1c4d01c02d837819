-- ===== src/Diagrams/Wiring/Modules.antt =====
-- The module graph and the security flow of apps/synthesizer/src/diagrams/d2-source.builder.ts.
use codemind_backend.Common.{
  ℕ, Bool, true, false, not, ◌||◌, List, [], ◌∷◌, ◌++◌, map, take, All-append, ◌≡◌, refl,
  either_known,
}
use codemind_backend.Diagrams.{units}
use codemind_backend.Diagrams.Names.{IdAllocator, get, has, allocator, is_letter, is_alphanumeric}
use codemind_backend.Diagrams.Words.{is_word}
use codemind_backend.Diagrams.Graphs.{
  placeholder, Dependency, Architecture, declare_modules, module_edges, draw_modules, module_graph,
}
use codemind_backend.Diagrams.Wiring.{
  ids_of, Good, Includes, Known, allocator-Known, get-Known, has-Known, Includes-append,
  Includes-self,
}

pub placeholder-Good : (known : List (List ℕ)) (message : List ℕ) → Good known (placeholder message)
unfolding placeholder units is_letter is_word is_alphanumeric
placeholder-Good known message = (((refl, (refl, (refl, (refl, (refl, tt))))), tt), tt)

module _ (known : List (List ℕ)) where
  declare_modules-Good :
      (incoming ms : List (List ℕ)) (ids : IdAllocator)
      → Known known ids
      → Includes known (declare_modules incoming ms ids).0
      → Good known (declare_modules incoming ms ids).0
        × Known known (declare_modules incoming ms ids).1
  unfolding declare_modules ids_of
  declare_modules-Good incoming [] ids k h = (tt, k)
  declare_modules-Good incoming (m ∷ ms) ids k (i, h) =
      let got = get-Known known m ids k i in
      let rest = declare_modules-Good incoming ms (get m ids).1 got.1 h in
      (((got.0, tt), rest.0), rest.1)

  both-known : (b c : Bool) → (not b || not c) ≡ false → (b ≡ true) × (c ≡ true)
  both-known true true h = (refl, refl)
  both-known true false h = absurd cc
  both-known false c h = absurd cc

  module_edges-Good :
      (ds : List Dependency) (ids : IdAllocator)
      → Known known ids
      → Good known (module_edges ds ids)
  unfolding module_edges
  module_edges-Good [] ids k = tt
  module_edges-Good (d ∷ ds) ids k =
      either_known (Good known) (not (has d.from ids) || not (has d.to ids)) _ _
        (λ e. module_edges-Good ds ids k)
        (λ e.
          let b = both-known (has d.from ids) (has d.to ids) e in
          let f = has-Known known d.from ids k b.0 in
          let t = has-Known known d.to ids k b.1 in
          (((f.0, t.0), (f.1, t.1)), module_edges-Good ds ids k))

draw_modules-Good :
    (ms : List (List ℕ)) (deps : List Dependency)
    → Good (ids_of (draw_modules ms deps)) (draw_modules ms deps)
unfolding draw_modules units ids_of is_letter is_word is_alphanumeric
draw_modules-Good [] deps = placeholder-Good _ _
draw_modules-Good (m ∷ ms) deps =
    let incoming = map (λ (d : Dependency). d.to) deps in
    let nodes = declare_modules incoming (take 15 (m ∷ ms)) (allocator (units "m")) in
    let known = ids_of (nodes.0 ++ module_edges (take 20 deps) nodes.1) in
    let inc =
      Includes-append known nodes.0 _
        (Includes-self (nodes.0 ++ module_edges (take 20 deps) nodes.1)) in
    let r =
      declare_modules-Good known incoming (take 15 (m ∷ ms)) (allocator (units "m"))
        (allocator-Known known (units "m") (refl, tt)) inc.0 in
    ((tt, tt), All-append _ nodes.0 _ r.0 (module_edges-Good known (take 20 deps) nodes.1 r.1))

pub module_graph-Good :
    (arch : Architecture) → Good (ids_of (module_graph arch)) (module_graph arch)
unfolding module_graph
module_graph-Good arch = draw_modules-Good _ _
