-- ===== src/Diagrams/Graphs/Packages.antt =====
-- The graph of the packages and the system flow of apps/synthesizer/src/diagrams/d2-source.builder.ts.
use codemind_backend.Common.{
  ℕ, suc, ◌+◌, ◌-◌, Bool, true, false, not, ◌&&◌, Option, none, some, List, [], ◌∷◌, ◌++◌, map,
  keep, take, length, leb, ltb, sort_by, if◌then◌else◌,
}
use codemind_backend.Tools.Paths.{units_eq}
use codemind_backend.Diagrams.{
  units, Palette, entry, root, critical, warning, muted, Item, node, edge, container, setting,
  direction_right, direction_down, columns, closing,
}
use codemind_backend.Diagrams.Decimal.{digits}
use codemind_backend.Diagrams.Names.{IdAllocator, get, allocator}
use codemind_backend.Diagrams.Graphs.{Step, module_of, among, add_all, listed, placeholder}

pub record ExternalImport : Type 0 where
  pub module_name : List ℕ
  pub package_name : List ℕ
  pub count : ℕ

abbrev pub busier : ExternalImport → ExternalImport → Bool
busier a b = leb b.count a.count

unfoldable pub bump : List ℕ → ℕ → List (List ℕ × ℕ) → List (List ℕ × ℕ)
bump m n [] = (m, n) ∷ []
bump m n ((k, c) ∷ rest) =
    let later = bump m n rest in if units_eq k m then (k, c + n) ∷ rest else (k, c) ∷ later

unfoldable pub by_module : List (List ℕ × ℕ) → List ExternalImport → List (List ℕ × ℕ)
unfolding bump
by_module counts [] = counts
by_module counts (e ∷ es) = by_module (bump e.module_name e.count counts) es

-- MAX_DEP_MODULES is 6, MAX_DEP_EDGES 18 and MAX_DEP_PACKAGES 12.
unfoldable pub busiest_modules : List ExternalImport → List (List ℕ)
unfolding by_module
busiest_modules imports =
    map (λ (c : List ℕ × ℕ). c.0) (take 6 (sort_by (λ a b. leb b.1 a.1) (by_module [] imports)))

unfoldable pub kept_edges : List ExternalImport → List ExternalImport
unfolding busiest_modules
kept_edges imports =
    take 18 (sort_by busier (keep (λ e. among (busiest_modules imports) e.module_name) imports))

unfoldable pub kept_packages : List ExternalImport → List (List ℕ)
unfolding kept_edges add_all
kept_packages imports =
    take 12 (add_all [] (map (λ (e : ExternalImport). e.package_name) (kept_edges imports)))

abbrev pub module_key : List ℕ → List ℕ
module_key m = units "mod:" ++ m

abbrev pub package_key : List ℕ → List ℕ
package_key pkg = units "pkg:" ++ pkg

unfoldable pub module_nodes : List (List ℕ) → IdAllocator → List Item × IdAllocator
module_nodes [] ids = ([], ids)
module_nodes (m ∷ ms) ids =
    let got = get (module_key m) ids in
    let rest = module_nodes ms got.1 in (node got.0 m (some root) false ∷ rest.0, rest.1)

unfoldable pub import_edges : List (List ℕ) → List ExternalImport → IdAllocator → List Item
import_edges packages [] ids = []
import_edges packages (e ∷ es) ids =
    let rest = import_edges packages es ids in
    if not (among packages e.package_name)
    then rest
    else edge (get (module_key e.module_name) ids).0 (get (package_key e.package_name) ids).0
        (some (digits e.count))
      ∷ rest

-- MAX_DEPS is 15.
unfoldable pub more_node : ℕ → List Item
unfolding units digits
more_node n =
    if ltb 15 n
    then node (units "more") (units "+" ++ (digits (n - 15) ++ units " more")) (some muted) true
      ∷ []
    else []

module _ (is_critical is_outdated : List ℕ → Bool) where
  unfoldable pub package_label : List ℕ → List ℕ
  unfolding units
  package_label pkg =
      if is_critical pkg
      then (if is_outdated pkg
          then units "[CRITICAL + OUTDATED] " ++ pkg
          else units "[CRITICAL] " ++ pkg)
      else if is_outdated pkg
      then units "[OUTDATED] " ++ pkg
      else pkg

  unfoldable pub package_style : List ℕ → Option Palette
  package_style pkg =
      if is_critical pkg && is_outdated pkg
      then some critical
      else if is_critical pkg
      then some entry
      else if is_outdated pkg
      then some warning
      else none

  unfoldable pub package_nodes : List (List ℕ) → IdAllocator → List Item × IdAllocator
  unfolding package_label package_style
  package_nodes [] ids = ([], ids)
  package_nodes (p ∷ ps) ids =
      let got = get (package_key p) ids in
      let rest = package_nodes ps got.1 in
      (node got.0 (package_label p) (package_style p) false ∷ rest.0, rest.1)

  unfoldable pub dependency_edge_graph : List ExternalImport → List Item
  unfolding module_nodes package_nodes import_edges units
  dependency_edge_graph imports =
      let modules = module_nodes (busiest_modules imports) (allocator (units "d")) in
      let packages = package_nodes (kept_packages imports) modules.1 in
      setting direction_right
      ∷ (modules.0
          ++ (packages.0 ++ import_edges (kept_packages imports) (kept_edges imports) packages.1))

  unfoldable pub grid_nodes : List (List ℕ) → IdAllocator → List Item
  unfolding package_label package_style
  grid_nodes [] ids = []
  grid_nodes (p ∷ ps) ids =
      let got = get p ids in
      node got.0 (package_label p) (package_style p) true ∷ grid_nodes ps got.1

  unfoldable pub dependency_grid : List (List ℕ) → List Item
  unfolding grid_nodes more_node units
  dependency_grid [] = placeholder (units "Dependency info not available")
  dependency_grid (p ∷ ps) =
      setting direction_down
      ∷ node (units "app") (units "This App") (some root) false
      ∷ container (units "deps")
          (units "Runtime dependencies (" ++ (digits (length (p ∷ ps)) ++ units ")"))
      ∷ setting columns
      ∷ (grid_nodes (take 15 (p ∷ ps)) (allocator (units "d"))
          ++ (more_node (length (p ∷ ps))
              ++ setting closing ∷ edge (units "app") (units "deps") none ∷ []))

  abbrev pub draw_dependencies : List (List ℕ) → List ExternalImport → List Item
  draw_dependencies runtime [] = dependency_grid runtime
  draw_dependencies runtime (e ∷ es) = dependency_edge_graph (e ∷ es)

pub record Dependencies : Type 0 where
  pub runtime_dependencies : Option (List (List ℕ))
  pub critical_deps : Option (List (List ℕ))
  pub outdated_packages : Option (List (List ℕ))

unfoldable pub dependency_graph : Dependencies → List ExternalImport → List Item
unfolding dependency_grid dependency_edge_graph
dependency_graph dep imports =
    draw_dependencies (among (listed dep.critical_deps)) (among (listed dep.outdated_packages))
      (listed dep.runtime_dependencies) imports

unfoldable pub flow_key : ℕ → Step → List ℕ
unfolding units digits module_of
flow_key i s = module_of s.file ++ (units "/" ++ (s.symbol ++ (units "#" ++ digits i)))

unfoldable pub flow_label : Step → List ℕ
unfolding module_of
flow_label s = module_of s.file ++ (32 ∷ 8250 ∷ 32 ∷ s.symbol)

-- The steps behind the first, each with an edge from the one before it.
unfoldable pub flow_steps : ℕ → Step → List Step → IdAllocator → List Item × IdAllocator
unfolding flow_key flow_label
flow_steps i before [] ids = ([], ids)
flow_steps i before (s ∷ steps) ids =
    let got = get (flow_key (suc i) s) ids in
    let rest = flow_steps (suc i) s steps got.1 in
    (
      node got.0 (flow_label s) none false
          ∷ edge (get (flow_key i before) got.1).0 got.0 (some (digits (suc i)))
          ∷ rest.0,
      rest.1,
    )

unfoldable pub last_step_key : ℕ → Step → List Step → List ℕ
unfolding flow_key
last_step_key i s [] = flow_key i s
last_step_key i s (t ∷ steps) = last_step_key (suc i) t steps

unfoldable pub reached_nodes : List ℕ → List ExternalImport → IdAllocator → List Item
unfolding units
reached_nodes last [] ids = []
reached_nodes last (e ∷ es) ids =
    let got = get (units "pkg:" ++ e.package_name) ids in
    node got.0 e.package_name (some muted) false
    ∷ edge (get last got.1).0 got.0 (some (units "uses"))
    ∷ reached_nodes last es got.1

-- MAX_FLOW_DEPS is 3.
unfoldable pub reached : List Step → List ExternalImport → List ExternalImport
unfolding module_of
reached steps imports = take 3 (
    sort_by busier
      (keep (λ e. among (map (λ (s : Step). module_of s.file) steps) e.module_name) imports))

-- MAX_FLOW_STEPS is 6.
unfoldable pub draw_flow : List Step → List ExternalImport → List Item
unfolding flow_steps last_step_key reached_nodes reached units
draw_flow [] imports = placeholder (units "No end-to-end call path measured")
draw_flow (s ∷ []) imports = placeholder (units "No end-to-end call path measured")
draw_flow (s ∷ t ∷ steps) imports =
    let rest = take 5 (t ∷ steps) in
    let first = get (flow_key 0 s) (allocator (units "s")) in
    let flow = flow_steps 0 s rest first.1 in
    setting direction_right
    ∷ node first.0 (flow_label s) (some entry) false
    ∷ (flow.0 ++ reached_nodes (last_step_key 0 s rest) (reached (s ∷ rest) imports) flow.1)

abbrev pub first_of : List (List Step) → List Step
first_of [] = []
first_of (c ∷ cs) = c

-- The chain with the most steps.
unfoldable pub system_flow : List (List Step) → List ExternalImport → List Item
unfolding draw_flow
system_flow chains imports =
    draw_flow (first_of (sort_by (λ a b. leb (length b) (length a)) chains)) imports
