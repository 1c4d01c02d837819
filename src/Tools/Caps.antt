-- ===== src/Tools/Caps.antt =====
-- How long the answers of the tools of libs/common/src/codegraph/graph-tools.ts are.
use codemind_backend.Common.{ℕ, zero, suc, ◌≤◌, String, List, [], ◌∷◌, length, map, take, arith}
use codemind_backend.Json.{Fields, property}
use codemind_backend.Agent.{ToolOutcome, returns, throws}
use codemind_backend.Dialect.{join_lines}
use codemind_backend.Tools.Answers.{
  Library, Answered, gives, fails, str_argument, and_then, listed, run_search_nodes,
  run_get_callers, run_get_callees, run_get_file_dependencies, run_list_files, files_under,
}

-- An answer of no more than so many lines; a tool that throws has none.
pub data Capped (n : ℕ) : ToolOutcome → Type 0 where
  answers : (ls : List String) → length ls ≤ n → 1 ≤ length ls → Capped n (returns (join_lines ls))
  errs : (e : String) → Capped n (throws e)

length-map-take :
    {A : Type 0} (f : A → String) (n : ℕ) (xs : List A) → length (map f (take n xs)) ≤ n
length-map-take f zero xs = omega arith
length-map-take f (suc n) [] = omega arith
length-map-take f (suc n) (x ∷ xs) = omega (arith, length-map-take f n xs)

listed-Capped :
    (n : ℕ) (otherwise : String) (ls : List String)
    → 1 ≤ n
    → length ls ≤ n
    → Capped n (listed otherwise ls)
unfolding listed join_lines
listed-Capped n otherwise [] p h = answers (otherwise ∷ []) p (omega arith)
listed-Capped n otherwise (l ∷ ls) p h = answers (l ∷ ls) h (omega arith)

and_then-Capped :
    {A : Type 0} (n : ℕ) (a : Answered A) (k : A → ToolOutcome)
    → ((x : A) → Capped n (k x))
    → Capped n (and_then a k)
and_then-Capped n (gives x) k h = h x
and_then-Capped n (fails e) k h = errs e

module _ (lib : Library) (input : Fields) where
  -- Whatever the model asks and the library answers, each of these tools throws or answers with at
  -- least one line and at most its cap: 15 symbols, 20 relatives or imports, 100 files.
  pub tools-Capped :
      Capped 15 (run_search_nodes lib input)
      × Capped 20 (run_get_callers lib input)
      × Capped 20 (run_get_callees lib input)
      × Capped 20 (run_get_file_dependencies lib input)
      × Capped 100 (run_list_files lib input)
  unfolding run_search_nodes run_get_callers run_get_callees run_get_file_dependencies
      run_list_files files_under
  tools-Capped = (
    and_then-Capped 15 (str_argument (property "query" input) "query") _ (λ q.
        and_then-Capped 15 (lib.search_nodes q) _
          (λ ns. listed-Capped 15 _ _ (omega arith) (length-map-take _ 15 ns))),
    and_then-Capped 20 (str_argument (property "node_id" input) "node_id") _ (λ q.
        and_then-Capped 20 (lib.get_callers q) _
          (λ ns. listed-Capped 20 _ _ (omega arith) (length-map-take _ 20 ns))),
    and_then-Capped 20 (str_argument (property "node_id" input) "node_id") _ (λ q.
        and_then-Capped 20 (lib.get_callees q) _
          (λ ns. listed-Capped 20 _ _ (omega arith) (length-map-take _ 20 ns))),
    and_then-Capped 20 (str_argument (property "file_path" input) "file_path") _ (λ q.
        and_then-Capped 20 (lib.get_file_dependencies q) _
          (λ ds. listed-Capped 20 _ _ (omega arith) (length-map-take _ 20 ds))),
    and_then-Capped 100 lib.get_files _
        (λ fs. listed-Capped 100 _ _ (omega arith) (length-map-take _ 100 _)),
  )
