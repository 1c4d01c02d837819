-- ===== src/Diagrams/Wiring/Imports.antt =====
-- The graph of the packages of apps/synthesizer/src/diagrams/d2-source.builder.ts.
use codemind_backend.Common.{
  ℕ, Bool, true, false, not, none, some, List, [], ◌∷◌, ◌++◌, take, All, All-append, All-map,
  All-take, All-sort_by, keep-All, length, ltb, ◌≡◌, refl, sym, subst, either_way, either_known,
}
use codemind_backend.Tools.Paths.{units_eq}
use codemind_backend.Tools.Inside.{units_eq-same}
use codemind_backend.Diagrams.{units, root, Item, node, edge, container, setting, columns, closing}
use codemind_backend.Diagrams.Decimal.{digits}
use codemind_backend.Diagrams.Names.{IdAllocator, get, has, allocator, is_letter, is_alphanumeric}
use codemind_backend.Diagrams.Words.{Ident, is_word, digits-Words}
use codemind_backend.Diagrams.Counting.{is_terminator}
use codemind_backend.Diagrams.Counting.Renders.{tested-Inline}
use codemind_backend.Diagrams.Counting.Lines.{Inline, Words-Inline}
use codemind_backend.Diagrams.Graphs.{among}
use codemind_backend.Diagrams.Graphs.Packages.{
  ExternalImport, busier, busiest_modules, kept_edges, kept_packages, module_key, package_key,
  module_nodes, package_nodes, import_edges, dependency_edge_graph, grid_nodes, more_node,
  dependency_grid, draw_dependencies, Dependencies, dependency_graph,
}
use codemind_backend.Diagrams.Wiring.{
  ids_of, Good, Includes, Known, allocator-Known, get-Known, has-Known, has-keeps, has-got,
  Includes-append, Includes-self,
}
use codemind_backend.Diagrams.Wiring.Modules.{placeholder-Good}
use codemind_backend.Diagrams.Wiring.Sequences.{or-if}

-- The texts of a list, by a key, are known to an allocator.
abbrev AskedBy : (List ℕ → List ℕ) → IdAllocator → List (List ℕ) → Type 0
AskedBy key ids ms = All (λ m. has (key m) ids ≡ true) ms

among-asked :
    (key : List ℕ → List ℕ) (ids : IdAllocator) (ms : List (List ℕ)) (m : List ℕ)
    → AskedBy key ids ms
    → among ms m ≡ true
    → has (key m) ids ≡ true
among-asked key ids [] m a e = absurd cc
among-asked key ids (x ∷ ms) m (p, a) e =
    either_known (λ b. b ≡ true → has (key m) ids ≡ true) (units_eq m x) true (among ms m)
      (λ d same. subst (λ t. has (key t) ids ≡ true) (sym (units_eq-same m x d)) p)
      (λ d rest. among-asked key ids ms m a rest) (or-if (units_eq m x) (among ms m) e)

module_nodes-keep :
    (ms : List (List ℕ)) (ids : IdAllocator) (b : List ℕ)
    → has b ids ≡ true
    → has b (module_nodes ms ids).1 ≡ true
unfolding module_nodes
module_nodes-keep [] ids b h = h
module_nodes-keep (m ∷ ms) ids b h = module_nodes-keep ms _ b (has-keeps (module_key m) b ids h)

module _ (is_critical is_outdated : List ℕ → Bool) where
  package_nodes-keep :
      (ps : List (List ℕ)) (ids : IdAllocator) (b : List ℕ)
      → has b ids ≡ true
      → has b (package_nodes is_critical is_outdated ps ids).1 ≡ true
  unfolding package_nodes
  package_nodes-keep [] ids b h = h
  package_nodes-keep (p ∷ ps) ids b h =
      package_nodes-keep ps _ b (has-keeps (package_key p) b ids h)

not-kept : (b : Bool) → not b ≡ false → b ≡ true
not-kept true h = refl
not-kept false h = sym h

module _ (known : List (List ℕ)) where
  module_nodes-Good :
      (ms : List (List ℕ)) (ids : IdAllocator)
      → Known known ids
      → Includes known (module_nodes ms ids).0
      → Good known (module_nodes ms ids).0
        × Known known (module_nodes ms ids).1
        × AskedBy module_key (module_nodes ms ids).1 ms
  unfolding module_nodes ids_of
  module_nodes-Good [] ids k h = (tt, k, tt)
  module_nodes-Good (m ∷ ms) ids k (i, h) =
      let key : List ℕ = module_key m in
      let g = get-Known known key ids k i in
      let r = module_nodes-Good ms (get key ids).1 g.1 h in
      (((g.0, tt), r.0), r.1, (module_nodes-keep ms (get key ids).1 key (has-got key ids), r.2))

  module _ (is_critical is_outdated : List ℕ → Bool) where
    package_nodes-Good :
        (ps : List (List ℕ)) (ids : IdAllocator)
        → Known known ids
        → Includes known (package_nodes is_critical is_outdated ps ids).0
        → Good known (package_nodes is_critical is_outdated ps ids).0
          × Known known (package_nodes is_critical is_outdated ps ids).1
          × AskedBy package_key (package_nodes is_critical is_outdated ps ids).1 ps
    unfolding package_nodes ids_of
    package_nodes-Good [] ids k h = (tt, k, tt)
    package_nodes-Good (p ∷ ps) ids k (i, h) =
        let key : List ℕ = package_key p in
        let g = get-Known known key ids k i in
        let r = package_nodes-Good ps (get key ids).1 g.1 h in
        (
          ((g.0, tt), r.0),
          r.1,
          (
            package_nodes-keep is_critical is_outdated ps (get key ids).1 key (has-got key ids),
            r.2,
          ),
        )

    grid_nodes-Good :
        (ps : List (List ℕ)) (ids : IdAllocator)
        → Known known ids
        → Includes known (grid_nodes is_critical is_outdated ps ids)
        → Good known (grid_nodes is_critical is_outdated ps ids)
    unfolding grid_nodes ids_of
    grid_nodes-Good [] ids k h = tt
    grid_nodes-Good (p ∷ ps) ids k (i, h) =
        let g = get-Known known p ids k i in ((g.0, tt), grid_nodes-Good ps (get p ids).1 g.1 h)

  import_edges-Good :
      (packages : List (List ℕ)) (es : List ExternalImport) (ids : IdAllocator)
      → Known known ids
      → AskedBy package_key ids packages
      → All (λ (e : ExternalImport). has (module_key e.module_name) ids ≡ true) es
      → Good known (import_edges packages es ids)
  unfolding import_edges
  import_edges-Good packages [] ids k a b = tt
  import_edges-Good packages (e ∷ es) ids k a (m, b) =
      either_known (Good known) (not (among packages e.package_name)) _ _
        (λ d. import_edges-Good packages es ids k a b)
        (λ d.
          let p = among-asked package_key ids packages e.package_name a (not-kept _ d) in
          let f = has-Known known (module_key e.module_name) ids k m in
          let t = has-Known known (package_key e.package_name) ids k p in
          (((f.0, t.0), (f.1, t.1)), import_edges-Good packages es ids k a b))

-- The edges that are kept start at the modules that are.
pub kept_edges-among :
    (imports : List ExternalImport)
    → All
        (λ (e : ExternalImport). among (busiest_modules imports) e.module_name ≡ true)
        (kept_edges imports)
unfolding kept_edges
kept_edges-among imports =
    let P = λ (e : ExternalImport). among (busiest_modules imports) e.module_name ≡ true in
    All-take P 18 _ (
      All-sort_by P busier _
        (keep-All (λ (e : ExternalImport). among (busiest_modules imports) e.module_name) imports))

dependency_edge_graph-Good :
    (is_critical is_outdated : List ℕ → Bool) (imports : List ExternalImport)
    → Good
        (ids_of (dependency_edge_graph is_critical is_outdated imports))
        (dependency_edge_graph is_critical is_outdated imports)
unfolding dependency_edge_graph units ids_of is_letter is_word is_alphanumeric
dependency_edge_graph-Good c o imports =
    let ms = module_nodes (busiest_modules imports) (allocator (units "d")) in
    let ps = package_nodes c o (kept_packages imports) ms.1 in
    let es = import_edges (kept_packages imports) (kept_edges imports) ps.1 in
    let known = ids_of (ms.0 ++ (ps.0 ++ es)) in
    let all = Includes-append known ms.0 (ps.0 ++ es) (Includes-self (ms.0 ++ (ps.0 ++ es))) in
    let some_of = Includes-append known ps.0 es all.1 in
    let m =
      module_nodes-Good known (busiest_modules imports) (allocator (units "d"))
        (allocator-Known known (units "d") (refl, tt)) all.0 in
    let p = package_nodes-Good known c o (kept_packages imports) ms.1 m.1 some_of.0 in
    let from =
      All-map _ _ (kept_edges imports)
        (λ (e : ExternalImport) a.
          package_nodes-keep c o (kept_packages imports) ms.1 (module_key e.module_name)
            (among-asked module_key ms.1 (busiest_modules imports) e.module_name m.2 a))
        (kept_edges-among imports) in
    (
      (tt, tt),
      All-append _ ms.0 (ps.0 ++ es) m.0 (
          All-append _ ps.0 es p.0 (
            import_edges-Good known (kept_packages imports) (kept_edges imports) ps.1 p.1 p.2
              from)),
    )

more_node-Good : (known : List (List ℕ)) (n : ℕ) → Good known (more_node n)
unfolding more_node units is_letter is_word is_alphanumeric
more_node-Good known n =
    either_way (Good known) (ltb 15 n) _ _ (((refl, (refl, (refl, (refl, tt)))), tt), tt) tt

title-Inline : (n : ℕ) → Inline (units "Runtime dependencies (" ++ (digits n ++ units ")"))
unfolding units is_terminator
title-Inline n =
    All-append _ (units "Runtime dependencies (") _
      (tested-Inline (units "Runtime dependencies (") refl)
      (All-append _ (digits n) (units ")") (Words-Inline (digits n) (digits-Words n))
        (tested-Inline (units ")") refl))

prefix-Ident : Ident (units "d")
unfolding units is_letter
prefix-Ident = (refl, tt)

-- `app` and `deps` are identifiers.
grid_ends-Ident : Ident (units "app") × Ident (units "deps")
unfolding units is_letter is_word is_alphanumeric
grid_ends-Ident = ((refl, (refl, (refl, tt))), (refl, (refl, (refl, (refl, tt)))))

dependency_grid-Good :
    (is_critical is_outdated : List ℕ → Bool) (runtime : List (List ℕ))
    → Good
        (ids_of (dependency_grid is_critical is_outdated runtime))
        (dependency_grid is_critical is_outdated runtime)
unfolding dependency_grid ids_of
dependency_grid-Good c o [] = placeholder-Good _ _
dependency_grid-Good c o (p ∷ ps) =
    let grid = grid_nodes c o (take 15 (p ∷ ps)) (allocator (units "d")) in
    let n = length (p ∷ ps) in
    let last = setting closing ∷ edge (units "app") (units "deps") none ∷ [] in
    let title : List ℕ = units "Runtime dependencies (" ++ (digits n ++ units ")") in
    let all : List Item =
      node (units "app") (units "This App") (some root) false
      ∷ container (units "deps") title
      ∷ setting columns
      ∷ (grid ++ (more_node n ++ last)) in
    let known = ids_of all in
    let inc : Includes known all = Includes-self all in
    let rest = Includes-append known grid (more_node n ++ last) inc.1.1 in
    let e = grid_ends-Ident in
    (
      (tt, tt),
      (
        (e.0, tt),
        (
          ((e.1, title-Inline n), tt),
          (
            (tt, tt),
            All-append _ grid (more_node n ++ last)
                (grid_nodes-Good known c o (take 15 (p ∷ ps)) (allocator (units "d"))
                  (allocator-Known known (units "d") prefix-Ident) rest.0)
                (All-append _ (more_node n) last (more_node-Good known n)
                  ((tt, tt), (((e.0, e.1), (inc.0, inc.1.0)), tt))),
          ),
        ),
      ),
    )

draw_dependencies-Good :
    (is_critical is_outdated : List ℕ → Bool) (runtime : List (List ℕ))
    (imports : List ExternalImport)
    → Good
        (ids_of (draw_dependencies is_critical is_outdated runtime imports))
        (draw_dependencies is_critical is_outdated runtime imports)
draw_dependencies-Good c o runtime [] = dependency_grid-Good c o runtime
draw_dependencies-Good c o runtime (e ∷ es) = dependency_edge_graph-Good c o (e ∷ es)

pub dependency_graph-Good :
    (dep : Dependencies) (imports : List ExternalImport)
    → Good (ids_of (dependency_graph dep imports)) (dependency_graph dep imports)
unfolding dependency_graph
dependency_graph-Good dep imports = draw_dependencies-Good _ _ _ imports
