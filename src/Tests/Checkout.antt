-- ===== src/Tests/Checkout.antt =====
-- The tools that read the checkout, and the facts of its graph, on a small checkout.
use text.Mathlib.Text.{starts_with}
use codemind_backend.Common.{
  map, ℕ, ◌≤◌, Bool, true, false, String, Option, none, some, List, [], ◌∷◌, length, All, ◌≡◌, refl,
  if◌then◌else◌, str_eq,
}
use codemind_backend.Tools.Paths.{
  resolve_inside, resolve, split_from, enter_all, enter, parent, path_text,
}
use codemind_backend.Tools.Inside.{Plain, Contained, resolve_inside-Contained}
use codemind_backend.Tools.Search.{
  Entries, directory, file, no_entries, entry, search_text, walk, walk_entries, walk_entry,
  scan_lines, full,
}
use codemind_backend.Text.{is_empty}
use codemind_backend.Tests.Data.{distinct}
use codemind_backend.Facts.{Node, Graph, RouteFact}
use codemind_backend.Facts.Chains.{call_chain_facts}
use codemind_backend.Facts.Real.{Real, call_chain_facts-Real}
use codemind_backend.Facts.Hotspots.{hotspots, all_scored, scan_files, scan_nodes}
use codemind_backend.Facts.Modules.{edges_of, add_files}
use codemind_backend.Facts.Weights.{weight_of, imports_between, module_edges-weight}

-- The root `/r`.
abbrev root : List (List ℕ)
root = (114 ∷ []) ∷ []

root-Plain : All Plain root
root-Plain = (record { slashless = (refl, tt); named = refl; no_ascent = refl }, tt)

-- `a/../b`
abbrev detour : List ℕ
detour = 97 ∷ 47 ∷ 46 ∷ 46 ∷ 47 ∷ 98 ∷ []

detour_resolves : resolve_inside root detour ≡ some ((114 ∷ []) ∷ (98 ∷ []) ∷ [])
unfolding resolve_inside resolve split_from enter_all enter parent path_text
detour_resolves = refl

-- `../b` and `../rb`
ascent_refused : resolve_inside root (46 ∷ 46 ∷ 47 ∷ 98 ∷ []) ≡ none
unfolding resolve_inside resolve split_from enter_all enter parent path_text
ascent_refused = refl

sibling_refused : resolve_inside root (46 ∷ 46 ∷ 47 ∷ 114 ∷ 98 ∷ []) ≡ none
unfolding resolve_inside resolve split_from enter_all enter parent path_text
sibling_refused = refl

resolve_inside-Contained_example : Contained root ((114 ∷ []) ∷ (98 ∷ []) ∷ [])
resolve_inside-Contained_example =
    resolve_inside-Contained root detour ((114 ∷ []) ∷ (98 ∷ []) ∷ []) root-Plain detour_resolves

abbrev mentions : String → Bool
mentions line = starts_with line "use"

abbrev is_source : String → Bool
is_source name = str_eq name "main.ts"

abbrev tree : Entries
tree = entry (file "main.ts" (some ("use a" ∷ "b" ∷ "use c" ∷ []))) (
    entry (directory "node_modules" (entry (file "main.ts" (some ("use d" ∷ []))) no_entries))
      no_entries)

two_hits :
    (search_text mentions is_source tree).hits
    ≡ record { path = "main.ts" ∷ []; line = 1; text = "use a" }
      ∷ record { path = "main.ts" ∷ []; line = 3; text = "use c" }
      ∷ []
unfolding search_text walk walk_entries walk_entry scan_lines full
two_hits = refl

abbrev function : String → Node
function id = record {
  id = id;
  kind = "function";
  name = id;
  file_path = "src/main.ts";
  start_line = 1;
  is_exported = true;
}

-- `a` calls `b`, and `b` calls `a` and `c`.
abbrev callees : String → Option (List Node)
callees id =
    if str_eq id "a"
    then some (function "b" ∷ [])
    else if str_eq id "b"
    then some (function "a" ∷ function "c" ∷ [])
    else some []

abbrev graph : Graph
graph = record {
  get_callees = callees;
  get_nodes_in_file = λ path. some (function "a" ∷ []);
  get_nodes_by_kind = λ kind. none;
  get_outgoing_edges = λ id. some [];
  get_node_metrics = λ id. none;
  get_file_dependencies = λ path. some ("lib/x.ts" ∷ "lib/y.ts" ∷ path ∷ []);
}

abbrev routes : List RouteFact
routes = record { handler = "a"; file = "src/main.ts" } ∷ []

call_chain_facts-Real_example :
    All (Real graph routes) (call_chain_facts graph routes).0
    × (length (call_chain_facts graph routes).0 ≤ 5)
call_chain_facts-Real_example = call_chain_facts-Real graph routes

abbrev modules : String → Option String
modules path = if starts_with path "lib/" then some "lib" else some "src"

lib-named : is_empty "lib" ≡ false
unfolding is_empty
lib-named = refl

module_edges-weight_example :
    (weight_of "src" "lib" (edges_of (add_files graph modules ("src/main.ts" ∷ []) []))
      ≡ imports_between graph modules "src" "lib" ("src/main.ts" ∷ []))
    × (weight_of "src" "src" (edges_of (add_files graph modules ("src/main.ts" ∷ []) [])) ≡ 0)
module_edges-weight_example =
    module_edges-weight graph modules "src" "lib" ("src/main.ts" ∷ []) (distinct "src" "lib" refl)
      lib-named

-- `a` is called twice as often as `b`.
abbrev measured : Graph
measured = record graph {
  get_nodes_in_file = λ path. some (function "b" ∷ function "a" ∷ []);
  get_node_metrics = λ id.
      some (record { caller_count = if str_eq id "a" then 4 else 2; call_count = 1; depth = 0 });
}

top_two : map (λ h. h.symbol) (hotspots measured ("src/main.ts" ∷ [])).0 ≡ "a" ∷ "b" ∷ []
unfolding hotspots all_scored scan_files scan_nodes
top_two = refl
