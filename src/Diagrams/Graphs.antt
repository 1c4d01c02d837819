-- ===== src/Diagrams/Graphs.antt =====
-- The builders of the module graph, the sequence diagrams and the security flow in
-- apps/synthesizer/src/diagrams/d2-source.builder.ts, as the items that they push; the child has those
-- of the packages and of the system flow.
pub mod Packages
use codemind_backend.Common.{
  ℕ, zero, suc, ◌-◌, Bool, true, false, not, ◌&&◌, ◌||◌, Option, none, some, List, [], ◌∷◌, ◌++◌,
  map, keep, any, take, length, leb, ltb, ◌==◌, sort_by, if◌then◌else◌,
}
use codemind_backend.Tools.Paths.{units_eq}
use codemind_backend.Diagrams.{
  units, Palette, entry, critical, ok, muted, Item, node, edge, back, container, setting,
  direction_right, direction_down, sequence, critical_stroke, dashed, closing,
}
use codemind_backend.Diagrams.Decimal.{digits}
use codemind_backend.Diagrams.Names.{IdAllocator, get, has, allocator}

-- `[]` is the empty text.
abbrev pub is_text : List ℕ → Bool
is_text [] = false
is_text (c ∷ cs) = true

abbrev pub listed {ℓ} : {A : Type ℓ} → Option (List A) → List A
listed none = []
listed (some xs) = xs

-- `set.has`, and a Set in the order of its insertions.
abbrev pub among : List (List ℕ) → List ℕ → Bool
among xs x = any (units_eq x) xs

abbrev pub add_to : List (List ℕ) → List ℕ → List (List ℕ)
add_to xs x = if among xs x then xs else xs ++ x ∷ []

unfoldable pub add_all : List (List ℕ) → List (List ℕ) → List (List ℕ)
add_all set [] = set
add_all set (x ∷ xs) = add_all (add_to set x) xs

unfoldable pub placeholder : List ℕ → List Item
unfolding units
placeholder message = node (units "empty") message (some muted) false ∷ []

pub record Dependency : Type 0 where
  pub from : List ℕ
  pub to : List ℕ
  pub label : Option (List ℕ)

pub record Architecture : Type 0 where
  pub modules : Option (List (List ℕ))
  pub module_dependencies : Option (List Dependency)

abbrev pub is_edge : Dependency → Bool
is_edge d = is_text d.from && is_text d.to

unfoldable pub ends_of : List Dependency → List (List ℕ)
ends_of [] = []
ends_of (d ∷ ds) = d.from ∷ d.to ∷ ends_of ds

abbrev pub rank : List (List ℕ) → List ℕ → ℕ
rank incoming m = if among incoming m then 1 else 0

-- The nodes, and the allocator behind them.
unfoldable pub declare_modules :
    List (List ℕ) → List (List ℕ) → IdAllocator → List Item × IdAllocator
declare_modules incoming [] ids = ([], ids)
declare_modules incoming (m ∷ ms) ids =
    let got = get m ids in
    let rest = declare_modules incoming ms got.1 in
    (node got.0 m (if among incoming m then none else some entry) false ∷ rest.0, rest.1)

-- An edge to a module that the cap dropped is skipped.
unfoldable pub module_edges : List Dependency → IdAllocator → List Item
module_edges [] ids = []
module_edges (d ∷ ds) ids =
    let rest = module_edges ds ids in
    if not (has d.from ids) || not (has d.to ids)
    then rest
    else edge (get d.from ids).0 (get d.to ids).0 d.label ∷ rest

unfoldable pub ordered_modules : List (List ℕ) → List Dependency → List (List ℕ)
unfolding add_all ends_of
ordered_modules declared deps =
    let incoming = map (λ (d : Dependency). d.to) deps in
    sort_by (λ a b. leb (rank incoming a) (rank incoming b))
      (add_all (add_all [] declared) (ends_of deps))

-- MAX_MODULES is 15 and MAX_EDGES 20.
unfoldable pub draw_modules : List (List ℕ) → List Dependency → List Item
unfolding declare_modules module_edges units
draw_modules [] deps = placeholder (units "Module graph not available")
draw_modules (m ∷ ms) deps =
    let incoming = map (λ (d : Dependency). d.to) deps in
    let nodes = declare_modules incoming (take 15 (m ∷ ms)) (allocator (units "m")) in
    setting direction_right ∷ (nodes.0 ++ module_edges (take 20 deps) nodes.1)

unfoldable pub module_graph : Architecture → List Item
unfolding draw_modules ordered_modules
module_graph arch =
    let deps = keep is_edge (listed arch.module_dependencies) in
    draw_modules (ordered_modules (listed arch.modules) deps) deps

-- A step of a sequence: the key of its participant, and its label.
unfoldable pub participants :
    List (List ℕ × List ℕ) → List (List ℕ) → IdAllocator → List Item × IdAllocator
participants [] seen ids = ([], ids)
participants ((key, said) ∷ steps) seen ids =
    let got = get key ids in
    let passed = participants steps seen got.1 in
    let rest = participants steps (got.0 ∷ seen) got.1 in
    if among seen got.0 then passed else (node got.0 said none false ∷ rest.0, rest.1)

unfoldable pub arrows : ℕ → List (List ℕ × List ℕ) → IdAllocator → List Item
arrows n [] ids = []
arrows n (s ∷ []) ids = []
arrows n (s ∷ t ∷ steps) ids =
    edge (get s.0 ids).0 (get t.0 ids).0 (some (digits n)) ∷ arrows (suc n) (t ∷ steps) ids

unfoldable pub last_key : List ℕ → List (List ℕ × List ℕ) → List ℕ
last_key key [] = key
last_key key (s ∷ steps) = last_key s.0 steps

abbrev pub come_back : List ℕ → List ℕ → List ℕ → List Item
come_back said first last = if units_eq first last then [] else back last first said ∷ []

-- At least two steps, which the caller has capped at MAX_STEPS, 8.
unfoldable pub draw_sequence : List ℕ → List (List ℕ × List ℕ) → List Item
unfolding participants arrows last_key units
draw_sequence said [] = placeholder (units "Request flow not available")
draw_sequence said (s ∷ []) = placeholder (units "Request flow not available")
draw_sequence said (s ∷ t ∷ steps) =
    let all = s ∷ t ∷ steps in
    let nodes = participants all [] (allocator (units "p")) in
    setting sequence
    ∷ (nodes.0
        ++ (arrows 1 all nodes.1
            ++ come_back said (get s.0 nodes.1).0 (get (last_key s.0 (t ∷ steps)) nodes.1).0))

pub record Step : Type 0 where
  pub symbol : List ℕ
  pub file : List ℕ

-- `split('/')[0]`
unfoldable pub first_segment : List ℕ → List ℕ
first_segment [] = []
first_segment (c ∷ cs) = let rest = first_segment cs in if c == 47 then [] else c ∷ rest

unfoldable pub module_of : List ℕ → List ℕ
unfolding first_segment units
module_of path =
    if is_text (first_segment path) && not (units_eq (first_segment path) path)
    then first_segment path
    else units "(root)"

unfoldable pub chain_step : Step → List ℕ × List ℕ
unfolding module_of units
chain_step s = (
  s.file ++ (units "::" ++ s.symbol),
  s.symbol ++ (units " (" ++ (module_of s.file ++ units ")")),
)

unfoldable pub sequence_from_chain : List Step → List Item
unfolding draw_sequence chain_step
sequence_from_chain steps = draw_sequence (units "returns") (map chain_step (take 8 steps))

unfoldable pub sequence_diagram : List (List ℕ) → List Item
unfolding draw_sequence units
sequence_diagram steps =
    draw_sequence (units "response") (map (λ (s : List ℕ). (s, s)) (take 8 steps))

-- `a_i`
unfoldable pub step_id : ℕ → List ℕ
unfolding units digits
step_id i = units "a_" ++ digits i

abbrev pub step_style : ℕ → List (List ℕ) → Option Palette
step_style zero rest = some entry
step_style (suc i) [] = some ok
step_style (suc i) (s ∷ rest) = none

abbrev pub edge_before : ℕ → List Item
edge_before zero = []
edge_before (suc i) = edge (step_id i) (step_id (suc i)) none ∷ []

unfoldable pub auth_steps : ℕ → List (List ℕ) → List Item
unfolding step_id
auth_steps i [] = []
auth_steps i (s ∷ rest) =
    node (step_id i) s (step_style i rest) false ∷ (edge_before i ++ auth_steps (suc i) rest)

pub record Vulnerability : Type 0 where
  pub severity : List ℕ
  pub type_name : List ℕ
  pub location : List ℕ

unfoldable pub is_severe : Vulnerability → Bool
unfolding units
is_severe v = units_eq v.severity (units "critical") || units_eq v.severity (units "high")

-- `toUpperCase`, of `critical` or `high`.
abbrev pub upper : List ℕ → List ℕ
upper s = map (λ n. if leb 97 n && leb n 122 then n - 32 else n) s

unfoldable pub vulnerability_nodes : ℕ → List Vulnerability → List Item
unfolding units digits
vulnerability_nodes i [] = []
vulnerability_nodes i (v ∷ vs) =
    node (units "v_" ++ digits i)
      (upper v.severity ++ (units ": " ++ (v.type_name ++ (units " @ " ++ v.location))))
      (some critical) true
    ∷ vulnerability_nodes (suc i) vs

-- MAX_VULNS is 4.
unfoldable pub severe_box : List Vulnerability → List Item
unfolding vulnerability_nodes units
severe_box [] = []
severe_box (v ∷ vs) =
    container (units "vulns") (units "High / Critical Issues")
    ∷ setting critical_stroke
    ∷ setting dashed
    ∷ (vulnerability_nodes 0 (take 4 (v ∷ vs)) ++ setting closing ∷ [])

unfoldable pub draw_security : List (List ℕ) → List Vulnerability → List Item
unfolding auth_steps severe_box units
draw_security [] [] = placeholder (units "Auth flow not detected")
draw_security [] (v ∷ vs) = setting direction_down ∷ severe_box (v ∷ vs)
draw_security (s ∷ ss) vs = setting direction_down ∷ (auth_steps 0 (s ∷ ss) ++ severe_box vs)

pub record Security : Type 0 where
  pub auth_flow_steps : Option (List (List ℕ))
  pub vulnerabilities : Option (List Vulnerability)

unfoldable pub security_flow : Security → List Item
unfolding draw_security is_severe
security_flow sec =
    draw_security (listed sec.auth_flow_steps) (keep is_severe (listed sec.vulnerabilities))
