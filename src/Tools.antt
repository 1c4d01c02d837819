-- ===== src/Tools.antt =====
-- The tools of libs/common/src/codegraph/graph-tools.ts that read the checkout: the containment check of
-- paths, the search through the text of its files, and what is listed from the graph library.
-- A path is the list of its segments, and a segment the list of its UTF-16 code units.
pub mod Paths
pub mod Inside
pub mod Search
pub mod Scan
pub mod Answers
pub mod Caps
