-- ===== src/Json.antt =====
-- The JavaScript values that JSON.parse and the tool calls of a model produce. A number keeps only
-- whether it is finite and its literal: no code that is modelled computes with it.
use codemind_backend.Common.{Bool, String, str_eq, if◌then◌else◌}

mutual
  pub data Value : Type 0 where
    undefined : Value
    null : Value
    boolean : Bool → Value
    number : (finite : Bool) → (literal : String) → Value
    string : String → Value
    array : Items → Value
    object : Fields → Value

  pub data Items : Type 0 where
    nil : Items
    cons : Value → Items → Items

  pub data Fields : Type 0 where
    end : Fields
    field : String → Value → Fields → Fields

-- `typeof v`, with `null` and arrays told apart, as `typeName` of libs/common/src/schema/schema.ts.
pub data TypeName : Type 0 where
  undefined null boolean number string array object : TypeName

unfoldable pub type_name : Value → TypeName
type_name Value.undefined = TypeName.undefined
type_name Value.null = TypeName.null
type_name (Value.boolean b) = TypeName.boolean
type_name (Value.number f l) = TypeName.number
type_name (Value.string s) = TypeName.string
type_name (Value.array vs) = TypeName.array
type_name (Value.object fs) = TypeName.object

-- `input[key]`: a property that the object lacks reads as `undefined`.
unfoldable pub property : String → Fields → Value
property key end = Value.undefined
property key (field k v fs) = if str_eq k key then v else property key fs
