-- ===== src/Facts/Ranking.antt =====
-- What the hotspots of apps/orchestrator/src/facts/repo-facts.service.ts are, and their order.
use mathlib.Core.List.{Memᴰ}
use codemind_backend.Common.{
  Descending, sort_by-Descending, take-Descending, suc, ◌≤◌, Bool, true, false, not, String, some,
  List, [], ◌∷◌, length, length-append, length-take_most, leb, All, All-append, All-sort_by,
  All-take, ◌≡◌, inl, inr, refl, sym, arith, either_known, Option-cases,
}
use codemind_backend.Facts.{Node, Graph, Metrics}
use codemind_backend.Facts.Hops.{Among-self}
use codemind_backend.Facts.Hotspots.{
  Hotspot, coupling, Scored, is_callable, hotspot_of, measure, scan_nodes, scan_file, scan_files,
  all_scored, hotspots,
}

module _ (g : Graph) where
  -- A hotspot is a function or a method of an indexed file, with the metrics that the graph gives.
  pub data Measured (files : List String) (h : Hotspot) : Type 0 where
    measured_by :
        (f : String) (nodes : List Node) (n : Node) (m : Metrics)
        → Memᴰ f files
        → g.get_nodes_in_file f ≡ some nodes
        → Memᴰ n nodes
        → is_callable n ≡ true
        → g.get_node_metrics n.id ≡ some m
        → h ≡ hotspot_of n m
        → Measured files h

  record Scan (files : List String) (s : Scored) : Type 0 where
    bounded : s.scanned ≤ 2000
    counted : length s.spots ≤ s.scanned
    all_measured : All (Measured files) s.spots

  measure-Scan :
      (files : List String) (f : String) (nodes : List Node) (n : Node) (s : Scored)
      → Memᴰ f files
      → g.get_nodes_in_file f ≡ some nodes
      → Memᴰ n nodes
      → is_callable n ≡ true
      → leb 2000 s.scanned ≡ false
      → Scan files s
      → Scan files (measure n (g.get_node_metrics n.id) s)
  measure-Scan files f nodes n s mf e mn c room i =
      let less : suc s.scanned ≤ 2000 = ground (arith, room) in
      elim (Option-cases (g.get_node_metrics n.id)) [
        | inl d ↦ rw d (record {
          bounded = less;
          counted = omega (arith, i.counted);
          all_measured = i.all_measured;
        })
        | inr (m, d) ↦ rw d (record {
          bounded = less;
          counted = omega (arith, i.counted, length-append s.spots (hotspot_of n m ∷ []));
          all_measured =
              All-append (Measured files) s.spots (hotspot_of n m ∷ []) i.all_measured
                (measured_by f nodes n m mf e mn c d refl, tt);
        })
      ]

  not-false : (b : Bool) → not b ≡ false → b ≡ true
  not-false true h = refl
  not-false false h = sym h

  scan_nodes-Scan :
      (files : List String) (f : String) (nodes : List Node)
      → Memᴰ f files
      → g.get_nodes_in_file f ≡ some nodes
      → (ns : List Node) → All (λ n. Memᴰ n nodes) ns
      → (s : Scored) → Scan files s
      → Scan files (scan_nodes g ns s)
  unfolding scan_nodes
  scan_nodes-Scan files f nodes mf e [] h s i = i
  scan_nodes-Scan files f nodes mf e (n ∷ ns) (mn, h) s i =
      either_known (Scan files) (not (is_callable n)) _ _
        (λ c. scan_nodes-Scan files f nodes mf e ns h s i)
        (λ c.
          either_known (Scan files) (leb 2000 s.scanned) _ _
            (λ full. record {
              bounded = i.bounded;
              counted = i.counted;
              all_measured = i.all_measured;
            })
            (λ room.
              scan_nodes-Scan files f nodes mf e ns h _
                (measure-Scan files f nodes n s mf e mn (not-false _ c) room i)))

  scan_file-Scan :
      (files : List String) (f : String)
      → Memᴰ f files
      → (s : Scored) → Scan files s
      → Scan files (scan_file g (g.get_nodes_in_file f) s)
  scan_file-Scan files f mf s i = elim (Option-cases (g.get_nodes_in_file f)) [
    | inl e ↦ rw e i
    | inr (nodes, e) ↦ rw e (scan_nodes-Scan files f nodes mf e nodes (Among-self nodes) s i)
  ]

  scan_files-Scan :
      (files fs : List String)
      → All (λ f. Memᴰ f files) fs
      → (s : Scored) → Scan files s
      → Scan files (scan_files g fs s)
  unfolding scan_files
  scan_files-Scan files [] h s i = i
  scan_files-Scan files (f ∷ fs) (mf, h) s i =
      either_known (Scan files) (leb 2000 s.scanned) _ _
        (λ full. record { bounded = i.bounded; counted = i.counted; all_measured = i.all_measured })
        (λ room. scan_files-Scan files fs h _ (scan_file-Scan files f mf s i))

  -- The hotspots are at most 10, in descending order of their coupling; each is a function or a
  -- method of an indexed file with the metrics that the graph gives for it. At most 2000 symbols
  -- are measured for them.
  pub hotspots-Ranked :
      (files : List String)
      → Descending coupling (hotspots g files).0
        × (length (hotspots g files).0 ≤ 10)
        × All (Measured files) (hotspots g files).0
        × ((all_scored g files).scanned ≤ 2000)
  unfolding hotspots all_scored
  hotspots-Ranked files =
      let s =
        scan_files-Scan files files (Among-self files)
          (record { spots = []; scanned = 0; truncated = false })
          (record { bounded = omega arith; counted = omega arith; all_measured = tt }) in
      (
        take-Descending coupling 10 _ (sort_by-Descending coupling ((all_scored g files).spots)),
        length-take_most 10 _,
        All-take _ 10 _ (All-sort_by _ _ _ s.all_measured),
        s.bounded,
      )
