-- ===== src/AgentSchemas.antt =====
-- libs/common/src/schema/agent-output.schemas.ts: the shape of each agent's output and of the
-- synthesis, and `validateAgentOutput`.
pub mod Laws
use codemind_backend.Common.{String, List, [], ◌∷◌}
use codemind_backend.Json.{Value}
use codemind_backend.World.{AgentType, architecture, security, dependency, quality, docs}
use codemind_backend.Schema.{
  Spec, Shape, str, num, bool, enum_of, arr, nullable, optional, obj, empty, prop, key, Validated,
  validate,
}

abbrev architecture_module_dependencies : Shape
architecture_module_dependencies =
    prop "from" str (prop "to" str (prop "label" (optional str) empty))

abbrev architecture_module_responsibilities : Shape
architecture_module_responsibilities = prop "module" str (prop "responsibility" str empty)

abbrev architecture_request_flows : Shape
architecture_request_flows =
    prop "name" str (prop "steps" (arr str) (prop "description" (optional str) empty))

-- `architectureSchema`
abbrev pub architecture_shape : Shape
architecture_shape = prop "framework" (optional str) (
    prop "language" (optional str) (
      prop "architecture_pattern" str (
        prop "entry_points" (optional (arr str)) (
          prop "modules" (arr str) (
            prop "module_dependencies" (optional (arr (obj architecture_module_dependencies))) (
              prop "module_responsibilities" (arr (obj architecture_module_responsibilities)) (
                prop "services" (optional (arr str)) (
                  prop "request_flows" (arr (obj architecture_request_flows))
                    (prop "design_patterns" (arr str) (prop "summary" str empty))))))))))

abbrev security_sensitive_endpoints : Shape
security_sensitive_endpoints = prop "path" str (
    prop "method" str
      (prop "risk" (enum_of ("high" ∷ "medium" ∷ "low" ∷ [])) (prop "reason" str empty)))

abbrev security_vulnerabilities : Shape
security_vulnerabilities = prop "type" str (
    prop "location" str (
      prop "severity" (enum_of ("critical" ∷ "high" ∷ "medium" ∷ "low" ∷ []))
        (prop "description" str empty)))

-- `securitySchema`
abbrev pub security_shape : Shape
security_shape = prop "auth_mechanism" (nullable str) (
    prop "auth_flow_steps" (arr str) (
      prop "sensitive_endpoints" (optional (arr (obj security_sensitive_endpoints))) (
        prop "vulnerabilities" (arr (obj security_vulnerabilities)) (
          prop "missing_protections" (arr str)
            (prop "secrets_exposure_risk" bool (prop "summary" str empty))))))

abbrev dependency_outdated_risks : Shape
dependency_outdated_risks = prop "package" str (prop "reason" str empty)

-- `dependencySchema`
abbrev pub dependency_shape : Shape
dependency_shape = prop "runtime_dependencies" (arr str) (
    prop "dev_dependencies" (optional (arr str)) (
      prop "critical_deps" (arr str) (
        prop "outdated_risks" (arr (obj dependency_outdated_risks)) (
          prop "license_concerns" (optional (arr str))
            (prop "version_conflicts" (optional (arr str)) (prop "summary" str empty))))))

abbrev quality_issues : Shape
quality_issues =
    prop "category"
      (enum_of ("error_handling" ∷ "type_safety" ∷ "duplication" ∷ "complexity" ∷ "tests" ∷ []))
      (prop "location" str (prop "description" str empty))

-- `qualitySchema`
abbrev pub quality_shape : Shape
quality_shape = prop "error_handling_score" (enum_of ("good" ∷ "partial" ∷ "poor" ∷ [])) (
    prop "type_safety_score" (enum_of ("good" ∷ "partial" ∷ "poor" ∷ [])) (
      prop "test_coverage_signal" (enum_of ("present" ∷ "minimal" ∷ "absent" ∷ [])) (
        prop "issues" (arr (obj quality_issues)) (
          prop "positive_patterns" (optional (arr str))
            (prop "complexity_hotspots" (optional (arr str)) (prop "summary" str empty))))))

-- `docsSchema`
abbrev pub docs_shape : Shape
docs_shape = prop "readme_quality" (enum_of ("excellent" ∷ "good" ∷ "minimal" ∷ "missing" ∷ [])) (
    prop "api_documented" bool (
      prop "public_exports" (optional (arr str)) (
        prop "undocumented_public_apis" (optional (arr str)) (
          prop "has_contribution_guide" bool (
            prop "has_changelog" bool (
              prop "inline_comment_density" (enum_of ("high" ∷ "medium" ∷ "low" ∷ []))
                (prop "doc_score" num (prop "summary" str empty))))))))

-- `synthesisSchema`
abbrev pub synthesis_shape : Shape
synthesis_shape =
    prop "executiveSummary" str
      (prop "recommendations" (arr str) (prop "overallHealthScore" num empty))

abbrev pub output_shape : AgentType → Shape
output_shape architecture = architecture_shape
output_shape security = security_shape
output_shape dependency = dependency_shape
output_shape quality = quality_shape
output_shape docs = docs_shape

abbrev pub agent_name : AgentType → String
agent_name architecture = "architecture"
agent_name security = "security"
agent_name dependency = "dependency"
agent_name quality = "quality"
agent_name docs = "docs"

unfoldable pub validate_agent_output : AgentType → Value → Validated
validate_agent_output t parsed = validate (obj (output_shape t)) parsed (key (agent_name t) ∷ [])
