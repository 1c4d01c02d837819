-- ===== src/Facts/Modules.antt =====
-- The edges between modules, and from modules to packages, of
-- apps/orchestrator/src/facts/repo-facts.service.ts: `moduleOf`, `packageOf`, `moduleEdges` and
-- `externalImportFacts`. A nested Map is a list of rows.
use text.Mathlib.Text.{starts_with}
use codemind_backend.Common.{
  ℕ, suc, Bool, false, not, ◌&&◌, ◌||◌, String, Option, none, some, List, [], ◌∷◌, ◌++◌, length,
  take, leb, ltb, str_eq, str_append, sort_by, if◌then◌else◌,
}
use codemind_backend.Text.{is_empty, trim, before_slash, after_slash}
use codemind_backend.Facts.{Node, Graph, has, safely}

-- `ROOT_MODULE`
abbrev pub root_module : String
root_module = "(root)"

unfoldable pub module_of : String → String
module_of path =
    if is_empty (before_slash path) || str_eq (before_slash path) path
    then root_module
    else before_slash path

unfoldable pub scoped : String → String
scoped s = elim (after_slash s) [
  | none ↦ before_slash s
  | some rest ↦ str_append (before_slash s) (str_append "/" (before_slash rest))
]

unfoldable pub package_of : String → Option String
unfolding scoped
package_of specifier =
    let s = trim specifier in
    if is_empty s || starts_with s "." || starts_with s "/"
    then none
    else if starts_with s "@"
    then some (scoped s)
    else some (before_slash s)

-- An edge: what it stands for is counted by its weight.
pub record Edge : Type 0 where
  pub from : String
  pub to : String
  pub weight : ℕ

pub record Cell : Type 0 where
  pub target : String
  pub count : ℕ

pub record Row : Type 0 where
  pub source : String
  pub cells : List Cell

-- `row.set(to, (row.get(to) ?? 0) + 1)`
unfoldable pub bump_cell : String → List Cell → List Cell
bump_cell to [] = record { target = to; count = 1 } ∷ []
bump_cell to (c ∷ cs) =
    let later = c ∷ bump_cell to cs in
    if str_eq c.target to then record { target = c.target; count = suc c.count } ∷ cs else later

unfoldable pub bump : String → String → List Row → List Row
unfolding bump_cell
bump from to [] = record { source = from; cells = bump_cell to [] } ∷ []
bump from to (r ∷ rs) =
    let later = r ∷ bump from to rs in
    if str_eq r.source from
    then record { source = r.source; cells = bump_cell to r.cells } ∷ rs
    else later

unfoldable pub row_edges : String → List Cell → List Edge
row_edges from [] = []
row_edges from (c ∷ cs) =
    record { from = from; to = c.target; weight = c.count } ∷ row_edges from cs

unfoldable pub edges_of : List Row → List Edge
unfolding row_edges
edges_of [] = []
edges_of (r ∷ rs) = row_edges r.source r.cells ++ edges_of rs

abbrev pub or_root : Option String → String
or_root none = root_module
or_root (some m) = m

abbrev pub heavier : Edge → Edge → Bool
heavier a b = leb b.weight a.weight

module _ (g : Graph) (file_to_module : String → Option String) where
  -- An import of a file that is not indexed, or of the same module, is no edge.
  unfoldable pub counts_as : String → Option String → Bool
  counts_as from none = false
  counts_as from (some to) = not (is_empty to || str_eq to from)

  unfoldable pub add_imports : String → List String → List Row → List Row
  unfolding counts_as bump
  add_imports from [] rows = rows
  add_imports from (dep ∷ deps) rows =
      let to = file_to_module dep in
      let counted = add_imports from deps (bump from (or_root to) rows) in
      let passed = add_imports from deps rows in if counts_as from to then counted else passed

  abbrev pub add_file : String → Option (List String) → List Row → List Row
  add_file from none rows = rows
  add_file from (some deps) rows = add_imports from deps rows

  unfoldable pub add_files : List String → List Row → List Row
  unfolding add_imports
  add_files [] rows = rows
  add_files (f ∷ fs) rows =
      add_files fs (add_file (or_root (file_to_module f)) (g.get_file_dependencies f) rows)

  -- MAX_MODULE_EDGES is 24.
  unfoldable pub module_edges : List String → List Edge
  unfolding add_files edges_of
  module_edges files = take 24 (sort_by heavier (edges_of (add_files files [])))

  -- An import node, of a package that the manifest declares.
  unfoldable pub imported : List String → Node → Option String
  unfolding package_of
  imported declared n = elim (package_of n.name) [
    | none ↦ none
    | some pkg ↦ if not (is_empty pkg) && has pkg declared then some pkg else none
  ]

  unfoldable pub add_packages : List String → List Node → List Row → List Row
  unfolding imported bump
  add_packages declared [] rows = rows
  add_packages declared (n ∷ ns) rows = elim (imported declared n) [
    | none ↦ add_packages declared ns rows
    | some pkg ↦ add_packages declared ns (bump (or_root (file_to_module n.file_path)) pkg rows)
  ]

  abbrev pub import_nodes : List Node × List String
  import_nodes = safely (g.get_nodes_by_kind "import") [] "externalImports"

  abbrev pub package_edges : List String → List Edge
  package_edges declared = edges_of (add_packages declared import_nodes.0 [])

  -- MAX_EXTERNAL_IMPORTS is 40; the entry of a list that is cut is kept without its numbers.
  unfoldable pub external_import_facts : List String → List Edge × List String
  unfolding edges_of add_packages
  external_import_facts [] = ([], [])
  external_import_facts (d ∷ ds) =
      let edges = package_edges (d ∷ ds) in
      (
        take 40 (sort_by heavier edges),
        import_nodes.1
            ++ (if ltb 40 (length edges) then "externalImports: showing 40" ∷ [] else []),
      )
