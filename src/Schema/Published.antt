-- ===== src/Schema/Published.antt =====
-- The JSON schema that each spec of libs/common/src/schema/schema.ts publishes: its `jsonSchema`, which
-- is sent to the model as the schema of a tool's input.
use codemind_backend.Common.{String, List, [], ◌∷◌, if◌then◌else◌}
use codemind_backend.Schema.{
  Spec, Shape, str, num, bool, enum_of, arr, nullable, optional, obj, empty, prop, is_optional,
}

-- `any_of` is `anyOf` of two; an object's schema always has `additionalProperties: false`.
mutual
  pub data JsonSchema : Type 0 where
    string_type : JsonSchema
    number_type : JsonSchema
    boolean_type : JsonSchema
    null_type : JsonSchema
    string_enum : List String → JsonSchema
    array_of : JsonSchema → JsonSchema
    any_of : JsonSchema → JsonSchema → JsonSchema
    object_of : Properties → (required : List String) → JsonSchema

  pub data Properties : Type 0 where
    no_more : Properties
    property_of : String → JsonSchema → Properties → Properties

unfoldable pub required_of : Shape → List String
required_of empty = []
required_of (prop k s rest) =
    let later = required_of rest in if is_optional s then later else k ∷ later

unfoldable mutual
  unfolding required_of

  pub json_schema : Spec → JsonSchema
  json_schema str = string_type
  json_schema num = number_type
  json_schema bool = boolean_type
  json_schema (enum_of values) = string_enum values
  json_schema (arr item) = array_of (json_schema item)
  json_schema (nullable inner) = any_of (json_schema inner) null_type
  json_schema (optional inner) = json_schema inner
  json_schema (obj shape) = object_of (properties_of shape) (required_of shape)

  pub properties_of : Shape → Properties
  properties_of empty = no_more
  properties_of (prop k s rest) = property_of k (json_schema s) (properties_of rest)
