-- ===== src/Download.antt =====
-- The download of a checkout in libs/common/src/github/github-tarball.service.ts: `downloadAndExtract`
-- with its size guard, and `countFiles`. What GitHub answers and what `tar` extracts are parameters;
-- an answer is `none` where the call rejects. Pruning old checkouts and
-- making the directory, which come before, are left out.
pub mod Guarded
use codemind_backend.Common.{
  ℕ, suc, ◌+◌, ◌*◌, Bool, true, false, ◌||◌, String, Option, none, some, List, [], ◌∷◌, ltb, str_eq,
  if◌then◌else◌,
}
use codemind_backend.Tools.Search.{
  Entry, Entries, directory, file, special, unreadable, no_entries, entry,
}

-- `is_ok` is `res.ok && res.body`, `declared` the content-length (0 where absent), and `chunks` the sizes of the parts of the body.
pub record Response : Type 0 where
  pub is_ok : Bool
  pub declared : ℕ
  pub chunks : List ℕ

-- `extracted` is what the directory of the checkout holds once `tar.extract` is through.
pub record Remote : Type 0 where
  pub response : Option Response
  pub extracted : Option Entries

-- What stands at the path of the checkout and at that of its archive.
pub record Disk : Type 0 where
  pub checkout : Option Entries
  pub archive : Bool

pub data Result : Type 0 where
  downloaded : Result
  rejected : Result

-- The stream through `sizeGuard`, behind the bytes that were written.
unfoldable pub passes_guard : ℕ → ℕ → List ℕ → Bool
passes_guard max_bytes written [] = true
passes_guard max_bytes written (c ∷ cs) =
    let later = passes_guard max_bytes (written + c) cs in
    if ltb max_bytes (written + c) then false else later

abbrev pub uncounted : String → Bool
uncounted name = str_eq name ".git" || str_eq name "node_modules"

abbrev pub add_counts : Option ℕ → Option ℕ → Option ℕ
add_counts none b = none
add_counts (some a) none = none
add_counts (some a) (some b) = some (a + b)

-- `countFiles`, which rejects where a directory cannot be read.
unfoldable mutual
  pub count_files : Entries → Option ℕ
  count_files unreadable = none
  count_files no_entries = some 0
  count_files (entry e es) = add_counts (count_entry e) (count_files es)

  pub count_entry : Entry → Option ℕ
  count_entry (directory name children) =
      let inside = count_files children in if uncounted name then some 0 else inside
  count_entry (file name content) = if uncounted name then some 0 else some 1
  count_entry (special name) = if uncounted name then some 0 else some 1

-- The response is refused, too large by its header, or too large as it streams.
unfoldable pub accepts : ℕ → Response → Bool
unfolding passes_guard
accepts max_bytes r =
    if r.is_ok
    then (if ltb max_bytes r.declared then false else passes_guard max_bytes 0 r.chunks)
    else false

abbrev pub within : ℕ → Option ℕ → Bool
within max_files none = false
within max_files (some n) = if ltb max_files n then false else true

-- Whether each step of the `try` goes through.
unfoldable pub extract : ℕ → Option Entries → Option Entries
unfolding count_files
extract max_files none = none
extract max_files (some es) = if within max_files (count_files es) then some es else none

abbrev pub receive : ℕ → ℕ → Option Entries → Option Response → Option Entries
receive max_bytes max_files extracted none = none
receive max_bytes max_files extracted (some r) =
    if accepts max_bytes r then extract max_files extracted else none

unfoldable pub fetch : ℕ → ℕ → Remote → Option Entries
unfolding accepts extract
fetch max_bytes max_files remote = receive max_bytes max_files remote.extracted remote.response

-- The `catch` removes the checkout, and the `finally` the archive.
abbrev pub settle : Option Entries → Result × Disk
settle none = (rejected, record { checkout = none; archive = false })
settle (some es) = (downloaded, record { checkout = some es; archive = false })

unfoldable pub download_and_extract : ℕ → ℕ → Remote → Result × Disk
unfolding fetch
download_and_extract max_bytes max_files remote = settle (fetch max_bytes max_files remote)
