-- ===== src/Schema/Conforms.antt =====
-- When a value fits a spec of libs/common/src/schema/schema.ts, as a relation that does not
-- mention the validator.
use codemind_backend.Common.{Bool, true, String, List, any, str_eq, ◌≡◌, ◌≢◌}
use codemind_backend.Json.{Value, Items, Fields, nil, cons, property}
use codemind_backend.Schema.{
  Spec, Shape, str, num, bool, enum_of, arr, nullable, optional, obj, empty, prop, is_optional,
}

mutual
  pub data Conforms : Spec → Value → Type 0 where
    a_string : {s : String} → Conforms str (Value.string s)
    a_number : {l : String} → Conforms num (Value.number true l)
    a_boolean : {b : Bool} → Conforms bool (Value.boolean b)
    listed :
        {values : List String} {s : String}
        → any (str_eq s) values ≡ true
        → Conforms (enum_of values) (Value.string s)
    an_array : {item : Spec} {vs : Items} → Each item vs → Conforms (arr item) (Value.array vs)
    is_null : {inner : Spec} → Conforms (nullable inner) Value.null
    not_null : {inner : Spec} {v : Value} → Conforms inner v → Conforms (nullable inner) v
    is_absent : {inner : Spec} → Conforms (optional inner) Value.undefined
    is_present : {inner : Spec} {v : Value} → Conforms inner v → Conforms (optional inner) v
    an_object :
        {shape : Shape} {fs : Fields} → Has shape fs → Conforms (obj shape) (Value.object fs)

  pub data Each : Spec → Items → Type 0 where
    done : {s : Spec} → Each s nil
    more : {s : Spec} {v : Value} {vs : Items} → Conforms s v → Each s vs → Each s (cons v vs)

  -- An object has each field of a shape, or lacks one that is optional.
  pub data Has : Shape → Fields → Type 0 where
    enough : {fs : Fields} → Has empty fs
    omitted :
        {k : String} {s : Spec} {rest : Shape} {fs : Fields}
        → is_optional s ≡ true
        → property k fs ≡ Value.undefined
        → Has rest fs
        → Has (prop k s rest) fs
    present :
        {k : String} {s : Spec} {rest : Shape} {fs : Fields}
        → property k fs ≢ Value.undefined
        → Conforms s (property k fs)
        → Has rest fs
        → Has (prop k s rest) fs
