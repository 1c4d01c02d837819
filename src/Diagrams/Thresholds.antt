-- ===== src/Diagrams/Thresholds.antt =====
-- What the threshold of apps/synthesizer/src/diagrams/diagrams.service.ts makes of a security flow, and
-- which packages the graph of apps/synthesizer/src/diagrams/d2-source.builder.ts draws.
use mathlib.Core.List.{Memᴰ}
use codemind_backend.Common.{
  ℕ, zero, suc, ◌+◌, true, false, List, [], ◌∷◌, ◌++◌, map, keep, take, All, All-append, All-take,
  length, length-take_most, ◌≤◌, ltb, ◌≡◌, ◌≢◌, refl, sym, ap, ◌∙◌, arith, either_way,
  if◌then◌else◌,
}
use codemind_backend.Facts.Hops.{Among-self}
use codemind_backend.Diagrams.{Item, node, edge, back, container, setting, render}
use codemind_backend.Diagrams.Graphs.{
  listed, auth_steps, Vulnerability, is_severe, vulnerability_nodes, severe_box, draw_security,
  Security, security_flow, add_to, add_all, among,
}
use codemind_backend.Diagrams.Graphs.Packages.{
  ExternalImport, busiest_modules, kept_edges, kept_packages,
}
use codemind_backend.Diagrams.Counting.{count_nodes}
use codemind_backend.Diagrams.Counting.Renders.{drawn, count_nodes-render}
use codemind_backend.Diagrams.Wiring.Sequences.{security_flow-Good}
use codemind_backend.Diagrams.Wiring.Imports.{kept_edges-among}
use codemind_backend.Diagrams.Service.{source, Layout, is_thick}
use codemind_backend.Diagrams.Service.Shown.{parts}

-- What `node` emitted.
unfoldable pub node_count : List Item → ℕ
node_count [] = 0
node_count (node id raw style indented ∷ is) = suc (node_count is)
node_count (container id title ∷ is) = node_count is
node_count (edge from to said ∷ is) = node_count is
node_count (back last first said ∷ is) = node_count is
node_count (setting s ∷ is) = node_count is

drawn-append : (is js : List Item) → drawn (is ++ js) ≡ drawn is + drawn js
unfolding drawn
drawn-append [] js = omega arith
drawn-append (node id raw style indented ∷ is) js = omega (arith, drawn-append is js)
drawn-append (container id title ∷ is) js = omega (arith, drawn-append is js)
drawn-append (edge from to said ∷ is) js = drawn-append is js
drawn-append (back last first said ∷ is) js = drawn-append is js
drawn-append (setting s ∷ is) js = drawn-append is js

node_count-append : (is js : List Item) → node_count (is ++ js) ≡ node_count is + node_count js
unfolding node_count
node_count-append [] js = omega arith
node_count-append (node id raw style indented ∷ is) js = omega (arith, node_count-append is js)
node_count-append (container id title ∷ is) js = node_count-append is js
node_count-append (edge from to said ∷ is) js = node_count-append is js
node_count-append (back last first said ∷ is) js = node_count-append is js
node_count-append (setting s ∷ is) js = node_count-append is js

auth_steps-plain :
    (i : ℕ) (steps : List (List ℕ)) → drawn (auth_steps i steps) ≡ node_count (auth_steps i steps)
unfolding auth_steps drawn node_count
auth_steps-plain i [] = refl
auth_steps-plain zero (s ∷ rest) = ap suc (auth_steps-plain 1 rest)
auth_steps-plain (suc i) (s ∷ rest) = ap suc (auth_steps-plain (suc (suc i)) rest)

vulnerability_nodes-plain :
    (i : ℕ) (vs : List Vulnerability)
    → drawn (vulnerability_nodes i vs) ≡ node_count (vulnerability_nodes i vs)
unfolding vulnerability_nodes drawn node_count
vulnerability_nodes-plain i [] = refl
vulnerability_nodes-plain i (v ∷ vs) = ap suc (vulnerability_nodes-plain (suc i) vs)

severe_box-one :
    (v : Vulnerability) (vs : List Vulnerability)
    → drawn (severe_box (v ∷ vs)) ≡ suc (node_count (severe_box (v ∷ vs)))
unfolding severe_box drawn node_count
severe_box-one v vs =
    let boxes = vulnerability_nodes 0 (take 4 (v ∷ vs)) in
    ap suc (
      drawn-append boxes _
      ∙ (ap (λ n. n + 0) (vulnerability_nodes-plain 0 (take 4 (v ∷ vs)))
          ∙ sym (node_count-append boxes _)))

draw_security-one :
    (steps : List (List ℕ)) (v : Vulnerability) (vs : List Vulnerability)
    → drawn (draw_security steps (v ∷ vs)) ≡ suc (node_count (draw_security steps (v ∷ vs)))
unfolding draw_security drawn node_count
draw_security-one [] v vs = severe_box-one v vs
draw_security-one (s ∷ ss) v vs =
    let steps = auth_steps 0 (s ∷ ss) in
    let box = severe_box (v ∷ vs) in
    omega (
      arith,
      drawn-append steps box,
      node_count-append steps box,
      auth_steps-plain 0 (s ∷ ss),
      severe_box-one v vs,
    )

severe-cases :
    (steps : List (List ℕ)) (vs : List Vulnerability)
    → vs ≢ []
    → drawn (draw_security steps vs) ≡ suc (node_count (draw_security steps vs))
severe-cases steps [] h = absurd (h refl)
severe-cases steps (v ∷ vs) h = draw_security-one steps v vs

-- The security flow of a report with a critical or a high vulnerability counts as one node more than
-- `node` emitted, and so it is drawn as soon as it has two nodes.
pub security_flow-overcounted :
    (sec : Security) (slug : List ℕ) (layout : Layout)
    → keep is_severe (listed sec.vulnerabilities) ≢ []
    → (count_nodes (render (security_flow sec)) ≡ suc (node_count (security_flow sec)))
      × (is_thick (source slug (security_flow sec) layout)
          ≡ (if ltb (node_count (security_flow sec)) 2 then false else true))
unfolding security_flow is_thick
security_flow-overcounted sec slug layout h =
    let good = parts _ (security_flow sec) (security_flow-Good sec) in
    let c =
      count_nodes-render (security_flow sec) good.0
      ∙ severe-cases (listed sec.auth_flow_steps) (keep is_severe (listed sec.vulnerabilities)) h in
    (c, ground (arith, c))

-- The members of a Set are what was put in.
add_all-All :
    (P : List ℕ → Type 0) (set xs : List (List ℕ)) → All P set → All P xs → All P (add_all set xs)
unfolding add_all
add_all-All P set [] h k = h
add_all-All P set (x ∷ xs) h (p, k) =
    add_all-All P (add_to set x) xs
      (either_way (All P) (among set x) set (set ++ x ∷ []) h (All-append P set (x ∷ []) h (p, tt)))
      k

-- An edge of the graph of the packages that reaches a package from a module that is drawn.
pub record Reached (imports : List ExternalImport) (pkg : List ℕ) : Type 0 where
  pub by : ExternalImport
  pub is_kept : Memᴰ by (kept_edges imports)
  pub reaches : by.package_name ≡ pkg
  pub of_drawn : among (busiest_modules imports) by.module_name ≡ true

Reached-each :
    (imports : List ExternalImport) (es : List ExternalImport)
    → All (λ e. Memᴰ e (kept_edges imports)) es
    → All (λ (e : ExternalImport). among (busiest_modules imports) e.module_name ≡ true) es
    → All (Reached imports) (map (λ (e : ExternalImport). e.package_name) es)
Reached-each imports [] h k = tt
Reached-each imports (e ∷ es) (m, h) (a, k) =
    (record { by = e; is_kept = m; reaches = refl; of_drawn = a }, Reached-each imports es h k)

-- Whatever imports were measured: at most 12 packages are drawn, and each is reached by one of the
-- edges that are kept, from a module that is drawn.
pub kept_packages-Reached :
    (imports : List ExternalImport)
    → All (Reached imports) (kept_packages imports) × (length (kept_packages imports) ≤ 12)
unfolding kept_packages
kept_packages-Reached imports =
    let packages = add_all [] (map (λ (e : ExternalImport). e.package_name) (kept_edges imports)) in
    (
      All-take _ 12 packages (
          add_all-All (Reached imports) [] _ tt (
            Reached-each imports (kept_edges imports) (Among-self (kept_edges imports))
              (kept_edges-among imports))),
      length-take_most 12 packages,
    )
