-- ===== src/Schema/Laws.antt =====
-- The validator of libs/common/src/schema/schema.ts against `Conforms`.
use codemind_backend.Common.{
  ℕ, suc, Bool, true, false, String, List, [], ◌∷◌, ◌≡◌, ◌≢◌, ◌↔◌, refl, sym, subst, arith,
}
use codemind_backend.Json.{Value, Items, Fields, nil, cons, property}
use codemind_backend.Schema.{
  Spec, Shape, str, num, bool, enum_of, arr, nullable, optional, obj, empty, prop, is_optional,
  Crumb, key, index, SchemaError, Validated, ok, failed, absorb_item, validate_items, finish_array,
  absorb_field, absent, finish_object, check_field, validate, validate_fields,
}
use codemind_backend.Schema.Conforms.{
  Conforms, a_string, a_number, a_boolean, listed, an_array, is_null, not_null, is_absent,
  is_present, an_object, Each, done, more, Has, enough, omitted, present,
}

finish_array-has_errors : (r : Items × List SchemaError) → finish_array r ≢ failed []
finish_array-has_errors (out, []) e = cc
finish_array-has_errors (out, x ∷ es) e = cc

finish_object-has_errors : (r : Fields × List SchemaError) → finish_object r ≢ failed []
finish_object-has_errors (out, []) e = cc
finish_object-has_errors (out, x ∷ es) e = cc

-- A refusal always says why: the list of errors of a failed validation is never empty.
pub validate-has_errors : (s : Spec) (v : Value) (path : List Crumb) → validate s v path ≢ failed []
unfolding validate
validate-has_errors str (Value.string s) path e = cc
validate-has_errors str v path e = cc
validate-has_errors num (Value.number true l) path e = cc
validate-has_errors num v path e = cc
validate-has_errors bool (Value.boolean b) path e = cc
validate-has_errors bool v path e = cc
validate-has_errors (enum_of values) (Value.string s) path e = ground arith
validate-has_errors (enum_of values) v path e = cc
validate-has_errors (arr item) (Value.array vs) path e = finish_array-has_errors _ e
validate-has_errors (arr item) v path e = cc
validate-has_errors (nullable inner) Value.null path e = cc
validate-has_errors (nullable inner) v path e = validate-has_errors inner v path e
validate-has_errors (optional inner) Value.undefined path e = cc
validate-has_errors (optional inner) v path e = validate-has_errors inner v path e
validate-has_errors (obj shape) (Value.object fs) path e = finish_object-has_errors _ e
validate-has_errors (obj shape) v path e = cc

-- What was put together without an error was put together from parts without an error.
absorb_item-inv :
    (r : Validated) (acc : Items × List SchemaError)
    → r ≢ failed []
    → (absorb_item r acc).1 ≡ []
    → ((w : Value) × (r ≡ ok w)) × (acc.1 ≡ [])
absorb_item-inv (ok w) (out, errors) h e = ((w, refl), e)
absorb_item-inv (failed []) (out, errors) h e = absurd (h refl)
absorb_item-inv (failed (x ∷ es)) (out, errors) h e = cc

absorb_field-inv :
    (k : String) (r : Validated) (acc : Fields × List SchemaError)
    → r ≢ failed []
    → (absorb_field k r acc).1 ≡ []
    → ((w : Value) × (r ≡ ok w)) × (acc.1 ≡ [])
absorb_field-inv k (ok w) (out, errors) h e = ((w, refl), e)
absorb_field-inv k (failed []) (out, errors) h e = absurd (h refl)
absorb_field-inv k (failed (x ∷ es)) (out, errors) h e = cc

finish_array-inv : (r : Items × List SchemaError) (w : Value) → finish_array r ≡ ok w → r.1 ≡ []
finish_array-inv (out, []) w e = refl
finish_array-inv (out, x ∷ es) w e = cc

finish_object-inv : (r : Fields × List SchemaError) (w : Value) → finish_object r ≡ ok w → r.1 ≡ []
finish_object-inv (out, []) w e = refl
finish_object-inv (out, x ∷ es) w e = cc

absent-inv :
    (at : List Crumb) (b : Bool) (acc : Fields × List SchemaError)
    → (absent at b acc).1 ≡ []
    → (b ≡ true) × (acc.1 ≡ [])
absent-inv at true acc e = (refl, e)
absent-inv at false (out, errors) e = cc

module _ {s : Spec}
    (sound : (v : Value) (path : List Crumb) (w : Value)
      → validate s v path ≡ ok w
      → Conforms s v) where
  validate_items_sound :
      (path : List Crumb) (i : ℕ) (vs : Items)
      → (validate_items (validate s) path i vs).1 ≡ []
      → Each s vs
  unfolding validate_items
  validate_items_sound path i nil e = done
  validate_items_sound path i (cons v vs) e =
      let (here, later) =
        absorb_item-inv (validate s v (index i ∷ path)) _ (validate-has_errors s v (index i ∷ path))
          e in
      more (sound v (index i ∷ path) here.0 here.1) (validate_items_sound path (suc i) vs later)

  check_field_sound :
      (path : List Crumb) (k : String) (rest : Shape) (fs : Fields)
      (acc : Fields × List SchemaError) (v : Value)
      → property k fs ≡ v
      → (check_field path k (is_optional s) (validate s) v acc).1 ≡ []
      → (acc.1 ≡ [] → Has rest fs)
      → Has (prop k s rest) fs
  check_field_sound path k rest fs acc Value.undefined p e more_fields =
      let (opt, later) = absent-inv (key k ∷ path) (is_optional s) acc e in
      omitted opt p (more_fields later)
  check_field_sound path k rest fs acc v p e more_fields =
      let (here, later) =
        absorb_field-inv k (validate s v (key k ∷ path)) acc
          (validate-has_errors s v (key k ∷ path)) e in
      present (λ q. cc) (subst (Conforms s) (sym p) (sound v (key k ∷ path) here.0 here.1))
        (more_fields later)

mutual
  unfolding validate

  validate_sound :
      (s : Spec) (v : Value) (path : List Crumb) (w : Value)
      → validate s v path ≡ ok w
      → Conforms s v
  validate_sound str (Value.string s) path w e = a_string
  validate_sound num (Value.number true l) path w e = a_number
  validate_sound bool (Value.boolean b) path w e = a_boolean
  validate_sound (enum_of values) (Value.string s) path w e = listed (ground arith)
  validate_sound (arr item) (Value.array vs) path w e =
      an_array (validate_items_sound (validate_sound item) path 0 vs (finish_array-inv _ w e))
  validate_sound (nullable inner) Value.null path w e = is_null
  validate_sound (nullable inner) v path w e = not_null (validate_sound inner v path w e)
  validate_sound (optional inner) Value.undefined path w e = is_absent
  validate_sound (optional inner) v path w e = is_present (validate_sound inner v path w e)
  validate_sound (obj shape) (Value.object fs) path w e =
      an_object (validate_fields_sound shape fs path (finish_object-inv _ w e))
  validate_sound _ _ path w e = cc

  validate_fields_sound :
      (shape : Shape) (fs : Fields) (path : List Crumb)
      → (validate_fields shape fs path).1 ≡ []
      → Has shape fs
  validate_fields_sound empty fs path e = enough
  validate_fields_sound (prop k s rest) fs path e =
      check_field_sound (validate_sound s) path k rest fs (validate_fields rest fs path)
        (property k fs) refl e (λ h. validate_fields_sound rest fs path h)

finish_array-total :
    (r : Items × List SchemaError) → r.1 ≡ [] → (w : Value) × (finish_array r ≡ ok w)
finish_array-total (out, []) e = (Value.array out, refl)
finish_array-total (out, x ∷ es) e = cc

finish_object-total :
    (r : Fields × List SchemaError) → r.1 ≡ [] → (w : Value) × (finish_object r ≡ ok w)
finish_object-total (out, []) e = (Value.object out, refl)
finish_object-total (out, x ∷ es) e = cc

absorb_item-ok :
    (r : Validated) (acc : Items × List SchemaError) (w : Value)
    → r ≡ ok w
    → acc.1 ≡ []
    → (absorb_item r acc).1 ≡ []
absorb_item-ok (ok x) (out, errors) w e h = h
absorb_item-ok (failed es) (out, errors) w e h = cc

check_field-ok :
    (path : List Crumb) (k : String) (opt : Bool) (check : Value → List Crumb → Validated)
    (v w : Value) (acc : Fields × List SchemaError)
    → v ≢ Value.undefined
    → check v (key k ∷ path) ≡ ok w
    → acc.1 ≡ []
    → (check_field path k opt check v acc).1 ≡ []
check_field-ok path k opt check Value.undefined w acc h e a = absurd (h refl)
check_field-ok path k opt check v w (out, errors) h e a = rw e a

check_field-absent :
    (path : List Crumb) (k : String) (opt : Bool) (check : Value → List Crumb → Validated)
    (v : Value) (acc : Fields × List SchemaError)
    → v ≡ Value.undefined
    → opt ≡ true
    → acc.1 ≡ []
    → (check_field path k opt check v acc).1 ≡ []
check_field-absent path k opt check v acc e o a = rw (e, o) a

validate-nullable :
    (s : Spec) (v w : Value) (path : List Crumb)
    → validate s v path ≡ ok w
    → (x : Value) × (validate (nullable s) v path ≡ ok x)
unfolding validate
validate-nullable s Value.null w path e = (Value.null, refl)
validate-nullable s v w path e = (w, e)

validate-optional :
    (s : Spec) (v w : Value) (path : List Crumb)
    → validate s v path ≡ ok w
    → (x : Value) × (validate (optional s) v path ≡ ok x)
unfolding validate
validate-optional s Value.undefined w path e = (Value.undefined, refl)
validate-optional s v w path e = (w, e)

mutual
  unfolding validate validate_items

  validate_complete :
      {s : Spec} {v : Value}
      → Conforms s v
      → (path : List Crumb) → (w : Value) × (validate s v path ≡ ok w)
  validate_complete (a_string {s = t}) path = (Value.string t, refl)
  validate_complete (a_number {l}) path = (Value.number true l, refl)
  validate_complete (a_boolean {b}) path = (Value.boolean b, refl)
  validate_complete (listed {s = t} h) path = (Value.string t, rw h)
  validate_complete (an_array e) path = finish_array-total _ (items_complete e path 0)
  validate_complete is_null path = (Value.null, refl)
  validate_complete (not_null {inner} {v} c) path =
      let (w, e) = validate_complete c path in validate-nullable inner v w path e
  validate_complete is_absent path = (Value.undefined, refl)
  validate_complete (is_present {inner} {v} c) path =
      let (w, e) = validate_complete c path in validate-optional inner v w path e
  validate_complete (an_object h) path = finish_object-total _ (fields_complete h path)

  items_complete :
      {s : Spec} {vs : Items}
      → Each s vs
      → (path : List Crumb) (i : ℕ) → (validate_items (validate s) path i vs).1 ≡ []
  items_complete done path i = refl
  items_complete (more {s} {v} {vs} c e) path i =
      let (w, p) = validate_complete c (index i ∷ path) in
      absorb_item-ok (validate s v (index i ∷ path)) (validate_items (validate s) path (suc i) vs) w
        p (items_complete e path (suc i))

  fields_complete :
      {shape : Shape} {fs : Fields}
      → Has shape fs
      → (path : List Crumb) → (validate_fields shape fs path).1 ≡ []
  fields_complete enough path = refl
  fields_complete (omitted {k} {s} {rest} {fs} o p h) path =
      check_field-absent path k (is_optional s) (validate s) (property k fs)
        (validate_fields rest fs path) p o (fields_complete h path)
  fields_complete (present {k} {s} {rest} {fs} n c h) path =
      let (w, e) = validate_complete c (key k ∷ path) in
      check_field-ok path k (is_optional s) (validate s) (property k fs) w
        (validate_fields rest fs path) n e (fields_complete h path)

-- The validator accepts a value exactly when the value conforms to the spec, at every path.
pub validate_iff :
    (s : Spec) (v : Value) (path : List Crumb)
    → ((w : Value) × (validate s v path ≡ ok w)) ↔ Conforms s v
validate_iff s v path = (λ r. validate_sound s v path r.0 r.1, λ c. validate_complete c path)
