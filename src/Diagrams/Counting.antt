-- ===== src/Diagrams/Counting.antt =====
-- `countNodes` of apps/synthesizer/src/diagrams/d2-source.builder.ts.
pub mod Renders
pub mod Lines
use codemind_backend.Common.{
  ℕ, ◌+◌, Bool, true, false, ◌&&◌, ◌||◌, List, [], ◌∷◌, ◌==◌, if◌then◌else◌,
}
use codemind_backend.Diagrams.Names.{is_letter}
use codemind_backend.Diagrams.Words.{is_word}

-- `[ \t]`
unfoldable pub is_tab : ℕ → Bool
is_tab n = (n == 32) || (n == 9)

-- `[ \t]*"`
unfoldable pub after_colon : List ℕ → Bool
unfolding is_tab
after_colon [] = false
after_colon (c ∷ cs) =
    let rest = after_colon cs in if c == 34 then true else if is_tab c then rest else false

-- `[A-Za-z0-9_]*:`, and what follows.
unfoldable pub in_word : List ℕ → Bool
unfolding after_colon is_word
in_word [] = false
in_word (c ∷ cs) =
    let rest = in_word cs in if c == 58 then after_colon cs else if is_word c then rest else false

-- `[ \t]*[A-Za-z_]`, and what follows.
unfoldable pub matches : List ℕ → Bool
unfolding in_word is_letter is_tab
matches [] = false
matches (c ∷ cs) =
    let rest = matches cs in
    if is_tab c then rest else if is_letter c || (c == 95) then in_word cs else false

-- Where `^` matches with the flag `m`: behind these.
unfoldable pub is_terminator : ℕ → Bool
is_terminator n = (n == 10) || (n == 13) || (n == 8232) || (n == 8233)

-- No match runs over the end of its line.
unfoldable pub count_from : Bool → List ℕ → ℕ
unfolding matches is_terminator
count_from at_start [] = 0
count_from at_start (c ∷ cs) =
    (if at_start && matches (c ∷ cs) then 1 else 0) + count_from (is_terminator c) cs

unfoldable pub count_nodes : List ℕ → ℕ
unfolding count_from
count_nodes source = count_from true source
