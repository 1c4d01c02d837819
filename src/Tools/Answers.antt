-- ===== src/Tools/Answers.antt =====
-- The tools of libs/common/src/codegraph/graph-tools.ts that answer from the graph library: what they
-- check of their input, and the text that they return or the error that they throw.
-- The library is a parameter, the record `Library`; where it throws, the tool throws what it threw.
use codemind_backend.Common.{
  ℕ, String, Option, List, [], ◌∷◌, keep, map, take, str_append, if◌then◌else◌,
}
use codemind_backend.Json.{Value, Fields, property}
use codemind_backend.Text.{is_empty, trim}
use codemind_backend.Agent.{ToolOutcome, returns, throws}
use codemind_backend.Dialect.{join_lines}
use codemind_backend.Facts.{Node}
use text.Mathlib.Text.{starts_with}

pub data Answered (A : Type 0) : Type 0 where
  gives : A → Answered A
  fails : String → Answered A

pub record Library : Type 0 where
  pub search_nodes : String → Answered (List Node)
  pub get_node : String → Answered (Option Node)
  pub get_code : String → Answered (Option String)
  pub get_callers : String → Answered (List Node)
  pub get_callees : String → Answered (List Node)
  pub get_file_dependencies : String → Answered (List String)
  pub get_files : Answered (List String)
  pub show : ℕ → String

-- `str`
unfoldable pub str_argument : Value → String → Answered String
str_argument (Value.string s) name =
    if is_empty (trim s)
    then fails (str_append "\"" (str_append name "\" must be a non-empty string"))
    else gives s
str_argument v name = fails (str_append "\"" (str_append name "\" must be a non-empty string"))

abbrev pub and_then : {A : Type 0} → Answered A → (A → ToolOutcome) → ToolOutcome
and_then (gives a) k = k a
and_then (fails e) k = throws e

-- The lines of an answer, or what is said where there are none.
unfoldable pub listed : String → List String → ToolOutcome
listed otherwise [] = returns otherwise
listed otherwise (l ∷ ls) = returns (join_lines (l ∷ ls))

module _ (lib : Library) where
  -- `file:line`
  unfoldable pub loc : Node → String
  loc n = str_append n.file_path (str_append ":" (lib.show n.start_line))

  unfoldable pub symbol_line : Node → String
  unfolding loc
  symbol_line n = str_append "- " (
      str_append n.kind (
        str_append " " (
          str_append n.name
            (str_append " (" (str_append (loc n) (str_append ") [id: " (str_append n.id "]")))))))

  unfoldable pub related_line : Node → String
  unfolding loc
  related_line n = str_append "- " (str_append n.name (str_append " (" (str_append (loc n) ")")))

  -- MAX_SEARCH_RESULTS is 15.
  unfoldable pub run_search_nodes : Fields → ToolOutcome
  unfolding str_argument listed symbol_line
  run_search_nodes input = and_then (str_argument (property "query" input) "query") (λ query.
      and_then (lib.search_nodes query)
        (λ nodes. listed "No symbols matched that query." (map symbol_line (take 15 nodes))))

  -- MAX_RELATED is 20.
  unfoldable pub run_get_callers : Fields → ToolOutcome
  unfolding str_argument listed related_line
  run_get_callers input = and_then (str_argument (property "node_id" input) "node_id") (λ id.
      and_then (lib.get_callers id)
        (λ nodes. listed "Nothing calls this symbol." (map related_line (take 20 nodes))))

  unfoldable pub run_get_callees : Fields → ToolOutcome
  unfolding str_argument listed related_line
  run_get_callees input = and_then (str_argument (property "node_id" input) "node_id") (λ id.
      and_then (lib.get_callees id) (λ nodes.
        listed "This symbol calls nothing tracked by the graph."
          (map related_line (take 20 nodes))))

  unfoldable pub run_get_file_dependencies : Fields → ToolOutcome
  unfolding str_argument listed
  run_get_file_dependencies input =
      and_then (str_argument (property "file_path" input) "file_path") (λ path.
        and_then (lib.get_file_dependencies path) (λ deps.
          listed "This file imports nothing tracked by the graph."
            (map (str_append "- ") (take 20 deps))))

  -- A prefix that is not a string is the empty one.
  abbrev pub prefix_of : Value → String
  prefix_of (Value.string p) = p
  prefix_of v = ""

  -- MAX_LIST_FILES is 100.
  unfoldable pub files_under : String → List String → List String
  files_under prefix files = take 100 (keep (λ p. starts_with p prefix) files)

  unfoldable pub run_list_files : Fields → ToolOutcome
  unfolding listed files_under
  run_list_files input =
      let prefix = prefix_of (property "path_prefix" input) in
      and_then lib.get_files (λ files.
        listed (str_append "No indexed files under \"" (str_append prefix "\"."))
          (map (str_append "- ") (files_under prefix files)))
