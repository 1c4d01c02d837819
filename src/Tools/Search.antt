-- ===== src/Tools/Search.antt =====
-- `search_text` of libs/common/src/codegraph/graph-tools.ts: the walk through the checkout. The tree that
-- `readdir` and `readFile` give is data, `none` where the call rejects; `matches` is the test of the
-- regular expression, and `is_text` the one on a file's name. A hit keeps the names from where the
-- search starts, the line's number and its
-- text, from which the source prints `path:number: text`.
use codemind_backend.Common.{
  ℕ, suc, Bool, ◌||◌, String, Option, none, some, List, [], ◌∷◌, ◌++◌, length, leb, any, str_eq,
  if◌then◌else◌,
}

mutual
  pub data Entry : Type 0 where
    directory : String → Entries → Entry
    file : String → Option (List String) → Entry
    special : String → Entry

  pub data Entries : Type 0 where
    unreadable : Entries
    no_entries : Entries
    entry : Entry → Entries → Entries

-- The path is written innermost name first; the first line has the number 1.
pub record Hit : Type 0 where
  pub path : List String
  pub line : ℕ
  pub text : String

pub record Scan : Type 0 where
  pub hits : List Hit
  pub scanned : ℕ

-- `SKIP_DIRS`
abbrev pub skip_dirs : List String
skip_dirs =
    ".git" ∷ "node_modules" ∷ ".codegraph" ∷ "dist" ∷ "build" ∷ ".next" ∷ "out" ∷ "coverage"
    ∷ ".turbo" ∷ "vendor" ∷ ".cache" ∷ []

abbrev pub skipped : String → Bool
skipped name = any (str_eq name) skip_dirs

-- MAX_TEXT_HITS is 40, and MAX_TEXT_FILES 2000.
unfoldable pub full : Scan → Bool
full s = leb 40 (length s.hits) || leb 2000 s.scanned

module _ (matches is_text : String → Bool) where
  -- The lines of a file from one number on; the loop stops once there are 40 hits.
  unfoldable pub scan_lines : List String → ℕ → List String → List Hit → List Hit
  scan_lines path n [] hits = hits
  scan_lines path n (l ∷ ls) hits =
      let found = hits ++ record { path = path; line = n; text = l } ∷ [] in
      let later = scan_lines path (suc n) ls found in
      let missed = scan_lines path (suc n) ls hits in
      if matches l then (if leb 40 (length found) then found else later) else missed

  abbrev pub scan_content : List String → Option (List String) → Scan → Scan
  scan_content path none s = record s { scanned = suc s.scanned }
  scan_content path (some ls) s = record {
    hits = scan_lines path 1 ls s.hits;
    scanned = suc s.scanned;
  }

  unfoldable mutual
    unfolding full scan_lines

    pub walk_entries : List String → Entries → Scan → Scan
    walk_entries path unreadable s = s
    walk_entries path no_entries s = s
    walk_entries path (entry e es) s =
        let later = walk_entries path es (walk_entry path e s) in if full s then s else later

    pub walk_entry : List String → Entry → Scan → Scan
    walk_entry path (directory name children) s =
        let walked = walk_entries (name ∷ path) children s in
        if skipped name then s else if full s then s else walked
    walk_entry path (file name content) s =
        if skipped name then s else if is_text name then scan_content (name ∷ path) content s else s
    walk_entry path (special name) s = s

  -- `walk` of a directory.
  unfoldable pub walk : List String → Entries → Scan → Scan
  unfolding full walk_entries
  walk path es s = let walked = walk_entries path es s in if full s then s else walked

  unfoldable pub search_text : Entries → Scan
  unfolding walk
  search_text start = walk [] start (record { hits = []; scanned = 0 })
