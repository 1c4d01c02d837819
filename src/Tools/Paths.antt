-- ===== src/Tools/Paths.antt =====
-- `resolveInside` of libs/common/src/codegraph/graph-tools.ts, with what it uses of Node's `path`.
use codemind_backend.Common.{
  ℕ, Bool, true, false, ◌&&◌, ◌||◌, Option, none, some, List, [], ◌∷◌, ◌++◌, ◌==◌, if◌then◌else◌,
}

-- `/` and `.`
abbrev pub slash : ℕ
slash = 47

abbrev pub dot : ℕ
dot = 46

abbrev pub units_eq : List ℕ → List ℕ → Bool
units_eq [] [] = true
units_eq [] (y ∷ ys) = false
units_eq (x ∷ xs) [] = false
units_eq (x ∷ xs) (y ∷ ys) = (x == y) && units_eq xs ys

-- `s.startsWith(prefix)`
abbrev pub begins_with : (s prefix : List ℕ) → Bool
begins_with s [] = true
begins_with [] (y ∷ ys) = false
begins_with (x ∷ xs) (y ∷ ys) = (x == y) && begins_with xs ys

-- `s.split('/')`, behind the segment that is being read.
unfoldable pub split_from : List ℕ → List ℕ → List (List ℕ)
split_from segment [] = segment ∷ []
split_from segment (x ∷ xs) =
    let next = split_from [] xs in
    let same = split_from (segment ++ x ∷ []) xs in if x == slash then segment ∷ next else same

-- The last segment is taken off; the root has none.
unfoldable pub parent : List (List ℕ) → List (List ℕ)
parent [] = []
parent (s ∷ []) = []
parent (s ∷ t ∷ rest) = s ∷ parent (t ∷ rest)

-- A segment of a path that is resolved: an empty one and `.` stay, `..` goes up.
unfoldable pub enter : List (List ℕ) → List ℕ → List (List ℕ)
unfolding parent
enter base segment =
    if units_eq segment [] || units_eq segment (dot ∷ [])
    then base
    else if units_eq segment (dot ∷ dot ∷ [])
    then parent base
    else base ++ segment ∷ []

unfoldable pub enter_all : List (List ℕ) → List (List ℕ) → List (List ℕ)
unfolding enter
enter_all base [] = base
enter_all base (s ∷ ss) = enter_all (enter base s) ss

-- `path.resolve(root, rel)`, where `root` is absolute: an absolute `rel` starts anew.
unfoldable pub resolve : List (List ℕ) → List ℕ → List (List ℕ)
unfolding split_from enter_all
resolve root rel =
    if begins_with rel (slash ∷ [])
    then enter_all [] (split_from [] rel)
    else enter_all root (split_from [] rel)

abbrev pub segments_text : List (List ℕ) → List ℕ
segments_text [] = []
segments_text (s ∷ ss) = slash ∷ s ++ segments_text ss

-- An absolute path as its text.
unfoldable pub path_text : List (List ℕ) → List ℕ
path_text [] = slash ∷ []
path_text (s ∷ ss) = segments_text (s ∷ ss)

-- `root` is `path.resolve(repoPath)`.
unfoldable pub resolve_inside : List (List ℕ) → List ℕ → Option (List (List ℕ))
unfolding resolve path_text
resolve_inside root rel =
    let abs = resolve root rel in
    if units_eq (path_text abs) (path_text root)
      || begins_with (path_text abs) (path_text root ++ slash ∷ [])
    then some abs
    else none
