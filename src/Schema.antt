-- ===== src/Schema.antt =====
-- libs/common/src/schema/schema.ts: specs, and the validator that each of them is.
-- An error is kept as its path and its problem, not as the text that these are printed to.
pub mod Conforms
pub mod Laws
pub mod Published
pub mod Refines
use codemind_backend.Common.{
  ℕ, suc, Bool, true, false, ◌&&◌, not, String, List, [], ◌∷◌, ◌++◌, str_eq, any, if◌then◌else◌,
}
use codemind_backend.Json.{Value, Items, Fields, TypeName, type_name, property}
use codemind_backend.Json.{nil, cons, end, field}

mutual
  pub data Spec : Type 0 where
    str : Spec
    num : Spec
    bool : Spec
    enum_of : List String → Spec
    arr : Spec → Spec
    nullable : Spec → Spec
    optional : Spec → Spec
    obj : Shape → Spec

  pub data Shape : Type 0 where
    empty : Shape
    prop : String → Spec → Shape → Shape

pub data Crumb : Type 0 where
  key : String → Crumb
  index : ℕ → Crumb

pub data Problem : Type 0 where
  expected : TypeName → TypeName → Problem
  expected_one_of : List String → Value → Problem
  required_field_missing : Problem

-- A path is written innermost crumb first.
pub record SchemaError : Type 0 where
  pub path : List Crumb
  pub problem : Problem

pub data Validated : Type 0 where
  ok : Value → Validated
  failed : List SchemaError → Validated

abbrev pub err : List Crumb → Problem → Validated
err path problem = failed (record { path = path; problem = problem } ∷ [])

unfoldable pub is_optional : Spec → Bool
is_optional (optional inner) = true
is_optional _ = false

-- One element of `v.forEach` in `arr`: its value is pushed to `out`, or its errors to `errors`.
abbrev pub absorb_item : Validated → Items × List SchemaError → Items × List SchemaError
absorb_item (ok v) (out, errors) = (cons v out, errors)
absorb_item (failed es) (out, errors) = (out, es ++ errors)

unfoldable pub validate_items :
    (Value → List Crumb → Validated) → List Crumb → ℕ → Items → Items × List SchemaError
validate_items check path i nil = (nil, [])
validate_items check path i (cons v vs) =
    absorb_item (check v (index i ∷ path)) (validate_items check path (suc i) vs)

abbrev pub finish_array : Items × List SchemaError → Validated
finish_array (out, []) = ok (Value.array out)
finish_array (out, e ∷ es) = failed (e ∷ es)

abbrev pub is_undefined : Value → Bool
is_undefined Value.undefined = true
is_undefined _ = false

-- One round of the loop of `obj` for a field that is there.
abbrev pub absorb_field : String → Validated → Fields × List SchemaError → Fields × List SchemaError
absorb_field k (ok v) (out, errors) = ((if is_undefined v then out else field k v out), errors)
absorb_field k (failed es) (out, errors) = (out, es ++ errors)

abbrev pub absent : List Crumb → Bool → Fields × List SchemaError → Fields × List SchemaError
absent at true later = later
absent at false (out, errors) =
    (out, record { path = at; problem = required_field_missing } ∷ errors)

abbrev pub finish_object : Fields × List SchemaError → Validated
finish_object (out, []) = ok (Value.object out)
finish_object (out, e ∷ es) = failed (e ∷ es)

-- A field of the shape against the value of the input under its key.
abbrev pub check_field :
    List Crumb
    → String
    → Bool
    → (Value → List Crumb → Validated)
    → Value
    → Fields × List SchemaError
    → Fields × List SchemaError
check_field path k opt check Value.undefined later = absent (key k ∷ path) opt later
check_field path k opt check v later = absorb_field k (check v (key k ∷ path)) later

unfoldable mutual
  pub validate : Spec → Value → List Crumb → Validated
  validate str (Value.string s) path = ok (Value.string s)
  validate str v path = err path (expected TypeName.string (type_name v))
  validate num (Value.number true l) path = ok (Value.number true l)
  validate num v path = err path (expected TypeName.number (type_name v))
  validate bool (Value.boolean b) path = ok (Value.boolean b)
  validate bool v path = err path (expected TypeName.boolean (type_name v))
  validate (enum_of values) (Value.string s) path =
      if any (str_eq s) values
      then ok (Value.string s)
      else err path (expected_one_of values (Value.string s))
  validate (enum_of values) v path = err path (expected_one_of values v)
  validate (arr item) (Value.array vs) path =
      finish_array (validate_items (validate item) path 0 vs)
  validate (arr item) v path = err path (expected TypeName.array (type_name v))
  validate (nullable inner) Value.null path = ok Value.null
  validate (nullable inner) v path = validate inner v path
  validate (optional inner) Value.undefined path = ok Value.undefined
  validate (optional inner) v path = validate inner v path
  validate (obj shape) (Value.object fs) path = finish_object (validate_fields shape fs path)
  validate (obj shape) v path = err path (expected TypeName.object (type_name v))

  pub validate_fields : Shape → Fields → List Crumb → Fields × List SchemaError
  validate_fields empty input path = (end, [])
  validate_fields (prop k spec rest) input path =
      check_field path k (is_optional spec) (validate spec) (property k input)
        (validate_fields rest input path)
