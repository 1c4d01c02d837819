-- ===== src/Tests/Drawings.antt =====
-- The diagrams, on the outputs of a small report.
use codemind_backend.Common.{
  suc, ◌≤◌, true, false, none, some, [], ◌∷◌, keep, length, ltb, All, ◌≡◌, ◌≢◌, ◌↔◌, refl,
  if◌then◌else◌,
}
use codemind_backend.Diagrams.{units, render}
use codemind_backend.Diagrams.Names.{
  get, allocator, base_of, find, pick, has_id, numbered, flatten, strip_start, strip_end,
  is_alphanumeric, is_letter,
}
use codemind_backend.Diagrams.Decimal.{digits, digits_from}
use codemind_backend.Diagrams.Fresh.{get_all, get-Distinct}
use codemind_backend.Diagrams.Labels.{
  label, cleaned, shorten, collapse, trim_start, trim_end, is_blank, is_control, is_syntax,
}
use codemind_backend.Diagrams.Labels.Safety.{Plain, label-Plain}
use codemind_backend.Diagrams.Graphs.{listed, is_severe, Security, security_flow}
use codemind_backend.Diagrams.Counting.{count_nodes}
use codemind_backend.Diagrams.Thresholds.{node_count, security_flow-overcounted}
use codemind_backend.Diagrams.Service.{build_diagrams, Outputs, source, dagre, is_thick}
use codemind_backend.Diagrams.Service.Shown.{Shown, build_diagrams-Shown}

-- Two modules that flatten to the same name.
name-collides :
    (get (units "src.auth") (get (units "src/auth") (allocator (units "m"))).1).0
    ≡ units "m_src_auth_1"
unfolding get base_of find pick has_id numbered flatten strip_start strip_end is_alphanumeric
    is_letter digits digits_from units
name-collides = refl

get-Distinct_example : (units "src/auth" ≡ units "src.auth") ↔ (
    (get
      (units "src.auth")
      (get_all [] (get (units "src/auth") (get_all [] (allocator (units "m")))).1)).0
    ≡ (get (units "src/auth") (get_all [] (allocator (units "m")))).0)
get-Distinct_example = get-Distinct (units "m") [] [] (units "src/auth") (units "src.auth")

-- A quote, a tab and a backslash.
label-cleaned : label (34 ∷ 97 ∷ 9 ∷ 92 ∷ 98 ∷ 32 ∷ []) ≡ 97 ∷ 32 ∷ 98 ∷ []
unfolding label cleaned shorten collapse trim_start trim_end is_blank is_control is_syntax
label-cleaned = refl

label-Plain_example :
    All Plain (label (units "say \"hi\""))
    × (1 ≤ length (label (units "say \"hi\"")))
    × (length (label (units "say \"hi\"")) ≤ 48)
label-Plain_example = label-Plain (units "say \"hi\"")

abbrev one_step : Security
one_step = record {
  auth_flow_steps = some (units "login" ∷ []);
  vulnerabilities =
      some
        (record { severity = units "high"; type_name = units "XSS"; location = units "a.ts" } ∷ []);
}

one_step-severe : keep is_severe (listed one_step.vulnerabilities) ≢ []
unfolding is_severe units
one_step-severe e = cc

security_flow-overcounted_example :
    (count_nodes (render (security_flow one_step)) ≡ suc (node_count (security_flow one_step)))
    × (is_thick (source (units "security-auth-flow") (security_flow one_step) dagre)
        ≡ (if ltb (node_count (security_flow one_step)) 2 then false else true))
security_flow-overcounted_example =
    security_flow-overcounted one_step (units "security-auth-flow") dagre one_step-severe

abbrev outputs : Outputs
outputs = record {
  architecture = record {
    modules = some (units "api" ∷ units "core" ∷ []);
    module_dependencies = some (
        record { from = units "api"; to = units "core"; label = none }
        ∷ record { from = units "core"; to = units "db"; label = some (units "reads") }
        ∷ []);
  };
  request_flows = none;
  security = one_step;
  dependency = record {
    runtime_dependencies = some (units "express" ∷ []);
    critical_deps = none;
    outdated_packages = none;
  };
}

build_diagrams-Shown_example :
    All Shown (build_diagrams (λ slug text layout. none) (λ text. text) outputs none)
build_diagrams-Shown_example =
    build_diagrams-Shown (λ slug text layout. none) (λ text. text) outputs none
