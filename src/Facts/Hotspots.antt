-- ===== src/Facts/Hotspots.antt =====
-- The complexity hotspots of apps/orchestrator/src/facts/repo-facts.service.ts: `hotspots`.
use codemind_backend.Common.{
  ℕ, suc, ◌+◌, Bool, true, false, not, ◌||◌, String, Option, none, some, List, [], ◌∷◌, ◌++◌, take,
  leb, str_eq, sort_by, if◌then◌else◌,
}
use codemind_backend.Facts.{Node, Graph, Metrics}

pub record Hotspot : Type 0 where
  pub symbol : String
  pub file : String
  pub line : ℕ
  pub callers : ℕ
  pub callees : ℕ
  pub depth : ℕ

abbrev pub coupling : Hotspot → ℕ
coupling h = h.callers + h.callees + h.depth

pub record Scored : Type 0 where
  pub spots : List Hotspot
  pub scanned : ℕ
  pub truncated : Bool

abbrev pub is_callable : Node → Bool
is_callable n = str_eq n.kind "function" || str_eq n.kind "method"

abbrev pub hotspot_of : Node → Metrics → Hotspot
hotspot_of n m = record {
  symbol = n.name;
  file = n.file_path;
  line = n.start_line;
  callers = m.caller_count;
  callees = m.call_count;
  depth = m.depth;
}

-- A symbol whose metrics cannot be read is scanned, but not scored.
abbrev pub measure : Node → Option Metrics → Scored → Scored
measure n none s = record s { scanned = suc s.scanned }
measure n (some m) s = record s { scanned = suc s.scanned; spots = s.spots ++ hotspot_of n m ∷ [] }

module _ (g : Graph) where
  -- MAX_METRIC_SCAN is 2000.
  unfoldable pub scan_nodes : List Node → Scored → Scored
  scan_nodes [] s = s
  scan_nodes (n ∷ ns) s =
      let passed = scan_nodes ns s in
      let measured = scan_nodes ns (measure n (g.get_node_metrics n.id) s) in
      if not (is_callable n)
      then passed
      else if leb 2000 s.scanned
      then record s { truncated = true }
      else measured

  abbrev pub scan_file : Option (List Node) → Scored → Scored
  scan_file none s = s
  scan_file (some nodes) s = scan_nodes nodes s

  unfoldable pub scan_files : List String → Scored → Scored
  unfolding scan_nodes
  scan_files [] s = s
  scan_files (f ∷ fs) s =
      let later = scan_files fs (scan_file (g.get_nodes_in_file f) s) in
      if leb 2000 s.scanned then record s { truncated = true } else later

  unfoldable pub all_scored : List String → Scored
  unfolding scan_files
  all_scored files = scan_files files (record { spots = []; scanned = 0; truncated = false })

  -- MAX_HOTSPOTS is 10.
  unfoldable pub hotspots : List String → List Hotspot × List String
  unfolding all_scored
  hotspots files =
      let s = all_scored files in
      (
        take 10 (sort_by (λ a b. leb (coupling b) (coupling a)) s.spots),
        if s.truncated then "complexityHotspots: scanned first 2000 symbols only" ∷ [] else [],
      )
