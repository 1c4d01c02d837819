-- ===== src/Tests/Outputs.antt =====
-- The schema kit and the agents' outputs at concrete values.
use codemind_backend.Common.{true, false, [], ◌≡◌, ◌↔◌, refl}
use codemind_backend.Json.{Value, Fields, nil, cons, end, field, property, type_name}
use codemind_backend.World.{docs}
use codemind_backend.Schema.{
  Spec, str, arr, optional, num, obj, prop, empty, Validated, validate, is_optional,
}
use codemind_backend.Schema.Conforms.{Conforms}
use codemind_backend.Schema.Laws.{validate_iff}
use codemind_backend.AgentSchemas.{validate_agent_output}

abbrev findings : Spec
findings = obj (prop "summary" str (prop "steps" (arr str) (prop "score" (optional num) empty)))

abbrev good : Value
good = Value.object (
    field "steps" (Value.array (cons (Value.string "read") nil))
      (field "summary" (Value.string "short") end))

validate_iff_example :
    ((w : Value) × (validate findings good [] ≡ Validated.ok w)) ↔ Conforms findings good
validate_iff_example = validate_iff findings good []

abbrev docs_fields : Fields
docs_fields = field "readme_quality" (Value.string "good") (
    field "api_documented" (Value.boolean true) (
      field "has_contribution_guide" (Value.boolean false) (
        field "has_changelog" (Value.boolean false) (
          field "inline_comment_density" (Value.string "low") (
            field "doc_score" (Value.number true "7")
              (field "summary" (Value.string "short") end))))))

docs_pass :
    validate_agent_output docs (Value.object docs_fields) ≡ Validated.ok (Value.object docs_fields)
unfolding validate_agent_output validate is_optional property type_name
docs_pass = refl
