-- ===== src/Schema/Refines.antt =====
-- What the JSON schemas of libs/common/src/schema/schema.ts admit, and that their validators accept it.
use codemind_backend.Common.{
  Bool, true, false, ◌||◌, String, List, any, str_eq, All, ◌≡◌, ◌≢◌, inl, inr, Bool-cases,
}
use codemind_backend.Json.{Value, Items, Fields, nil, cons, end, field, property}
use codemind_backend.Schema.{
  Spec, Shape, str, num, bool, enum_of, arr, nullable, optional, obj, empty, prop, is_optional,
  Crumb, validate, ok,
}
use codemind_backend.Schema.Conforms.{
  Conforms, a_string, a_number, a_boolean, listed, an_array, is_null, not_null, is_present,
  an_object, Each, done, more, Has, enough, omitted, present,
}
use codemind_backend.Schema.Laws.{validate_iff}
use codemind_backend.Schema.Published.{
  JsonSchema, string_type, number_type, boolean_type, null_type, string_enum, array_of, any_of,
  object_of, Properties, no_more, property_of, json_schema, properties_of, required_of,
}

abbrev pub declared : String → Properties → Bool
declared k no_more = false
declared k (property_of j s rest) = str_eq k j || declared k rest

-- `additionalProperties: false`
abbrev pub Closed : Properties → Fields → Type 0
Closed ps end = Unit
Closed ps (field k v fs) = (declared k ps ≡ true) × Closed ps fs

-- When a value satisfies a JSON schema.
mutual
  pub data Satisfies : JsonSchema → Value → Type 0 where
    string_ : {s : String} → Satisfies string_type (Value.string s)
    number_ : {l : String} → Satisfies number_type (Value.number true l)
    boolean_ : {b : Bool} → Satisfies boolean_type (Value.boolean b)
    null_ : Satisfies null_type Value.null
    one_of :
        {values : List String} {s : String}
        → any (str_eq s) values ≡ true
        → Satisfies (string_enum values) (Value.string s)
    items_ : {j : JsonSchema} {vs : Items} → Every j vs → Satisfies (array_of j) (Value.array vs)
    first_ : {j k : JsonSchema} {v : Value} → Satisfies j v → Satisfies (any_of j k) v
    second_ : {j k : JsonSchema} {v : Value} → Satisfies k v → Satisfies (any_of j k) v
    fields_ :
        {ps : Properties} {required : List String} {fs : Fields}
        → Fits ps fs
        → All (λ k. property k fs ≢ Value.undefined) required
        → Closed ps fs
        → Satisfies (object_of ps required) (Value.object fs)

  pub data Every : JsonSchema → Items → Type 0 where
    no_items : {j : JsonSchema} → Every j nil
    item_ :
        {j : JsonSchema} {v : Value} {vs : Items} → Satisfies j v → Every j vs → Every j (cons v vs)

  -- A declared property is missing, or is there and satisfies its schema.
  pub data Fits : Properties → Fields → Type 0 where
    fitted : {fs : Fields} → Fits no_more fs
    lacks :
        {k : String} {j : JsonSchema} {rest : Properties} {fs : Fields}
        → property k fs ≡ Value.undefined
        → Fits rest fs
        → Fits (property_of k j rest) fs
    has :
        {k : String} {j : JsonSchema} {rest : Properties} {fs : Fields}
        → property k fs ≢ Value.undefined
        → Satisfies j (property k fs)
        → Fits rest fs
        → Fits (property_of k j rest) fs

-- What is required of the rest of a shape is required of the shape.
required-rest :
    (k : String) (s : Spec) (rest : Shape) (fs : Fields)
    → All (λ j. property j fs ≢ Value.undefined) (required_of (prop k s rest))
    → All (λ j. property j fs ≢ Value.undefined) (required_of rest)
unfolding required_of
required-rest k s rest fs h = elim (Bool-cases (is_optional s)) [
  | inl e ↦ rw e at h
  | inr e ↦ let g = rw e at h in g.1
]

missing-optional :
    (k : String) (s : Spec) (rest : Shape) (fs : Fields)
    → All (λ j. property j fs ≢ Value.undefined) (required_of (prop k s rest))
    → property k fs ≡ Value.undefined
    → is_optional s ≡ true
unfolding required_of
missing-optional k s rest fs h missing = elim (Bool-cases (is_optional s)) [
  | inl e ↦ e
  | inr e ↦ let g = rw e at h in absurd (g.0 missing)
]

string-Conforms : (v : Value) → Satisfies string_type v → Conforms str v
string-Conforms _ string_ = a_string

number-Conforms : (v : Value) → Satisfies number_type v → Conforms num v
number-Conforms _ number_ = a_number

boolean-Conforms : (v : Value) → Satisfies boolean_type v → Conforms bool v
boolean-Conforms _ boolean_ = a_boolean

enum-Conforms :
    (values : List String) (v : Value)
    → Satisfies (string_enum values) v
    → Conforms (enum_of values) v
enum-Conforms values _ (one_of h) = listed h

Every-Each :
    (s : Spec) (j : JsonSchema)
    → ((v : Value) → Satisfies j v → Conforms s v)
    → (vs : Items) → Every j vs
    → Each s vs
Every-Each s j f _ no_items = done
Every-Each s j f _ (item_ {v = v} h rest) = more (f v h) (Every-Each s j f _ rest)

array-Conforms :
    (s : Spec) (j : JsonSchema)
    → ((v : Value) → Satisfies j v → Conforms s v)
    → (v : Value) → Satisfies (array_of j) v
    → Conforms (arr s) v
array-Conforms s j f _ (items_ h) = an_array (Every-Each s j f _ h)

null-Conforms : (s : Spec) (v : Value) → Satisfies null_type v → Conforms (nullable s) v
null-Conforms s _ null_ = is_null

nullable-Conforms :
    (s : Spec) (j : JsonSchema)
    → ((v : Value) → Satisfies j v → Conforms s v)
    → (v : Value) → Satisfies (any_of j null_type) v
    → Conforms (nullable s) v
nullable-Conforms s j f v (first_ h) = not_null (f v h)
nullable-Conforms s j f v (second_ h) = null-Conforms s v h

object-Conforms :
    (shape : Shape) (ps : Properties) (required : List String)
    → ((fs : Fields)
        → Fits ps fs
        → All (λ k. property k fs ≢ Value.undefined) required
        → Has shape fs)
    → (v : Value) → Satisfies (object_of ps required) v
    → Conforms (obj shape) v
object-Conforms shape ps required f _ (fields_ h r closed) = an_object (f _ h r)

property-Has :
    (k : String) (s : Spec) (j : JsonSchema) (shape : Shape) (rest : Properties) (fs : Fields)
    → ((v : Value) → Satisfies j v → Conforms s v)
    → (property k fs ≡ Value.undefined → is_optional s ≡ true)
    → (Fits rest fs → Has shape fs)
    → Fits (property_of k j rest) fs
    → Has (prop k s shape) fs
property-Has k s j shape rest fs f g later (lacks e h) = omitted (g e) e (later h)
property-Has k s j shape rest fs f g later (has e c h) = present e (f _ c) (later h)

mutual
  unfolding json_schema properties_of

  Satisfies-Conforms : (s : Spec) (v : Value) → Satisfies (json_schema s) v → Conforms s v
  Satisfies-Conforms str = string-Conforms
  Satisfies-Conforms num = number-Conforms
  Satisfies-Conforms bool = boolean-Conforms
  Satisfies-Conforms (enum_of values) = enum-Conforms values
  Satisfies-Conforms (arr item) = array-Conforms item _ (Satisfies-Conforms item)
  Satisfies-Conforms (nullable inner) = nullable-Conforms inner _ (Satisfies-Conforms inner)
  Satisfies-Conforms (optional inner) = λ v h. is_present (Satisfies-Conforms inner v h)
  Satisfies-Conforms (obj shape) = object-Conforms shape _ _ (Fits-Has shape)

  Fits-Has :
      (shape : Shape) (fs : Fields)
      → Fits (properties_of shape) fs
      → All (λ k. property k fs ≢ Value.undefined) (required_of shape)
      → Has shape fs
  Fits-Has empty = λ fs h required. enough
  Fits-Has (prop k s rest) = λ fs h required.
      property-Has k s _ rest _ fs (Satisfies-Conforms s) (missing-optional k s rest fs required)
        (λ later. Fits-Has rest fs later (required-rest k s rest fs required)) h

-- Whatever satisfies the JSON schema that a spec publishes is accepted by the spec's validator, at
-- every path.
pub json_schema-Refines :
    (s : Spec) (v : Value) (path : List Crumb)
    → Satisfies (json_schema s) v
    → (w : Value) × (validate s v path ≡ ok w)
json_schema-Refines s v path h = (validate_iff s v path).1 (Satisfies-Conforms s v h)
