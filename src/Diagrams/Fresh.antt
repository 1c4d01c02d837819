-- ===== src/Diagrams/Fresh.antt =====
-- The identifiers that `IdAllocator` of apps/synthesizer/src/diagrams/d2-source.builder.ts gives.
use codemind_backend.Common.{
  ℕ, Bool, true, false, ◌||◌, none, some, List, [], ◌∷◌, length, ◌≡◌, ◌≢◌, ◌↔◌, ◌⊎◌, inl, inr, refl,
  sym, ap, subst, ◌∙◌, arith, either_known, Bool-cases, Option-cases,
}
use codemind_backend.Tools.Paths.{units_eq}
use codemind_backend.Tools.Inside.{units_eq_refl, units_eq-same}
use codemind_backend.Diagrams.Names.{
  IdAllocator, base_of, find, has_id, pick, allocate, found_or, get, allocator,
}
use codemind_backend.Diagrams.Picking.{pick-free}

-- What each identifier in the map is: taken, and of one label only.
pub record Sound (ids : IdAllocator) : Type 0 where
  pub is_taken : (text id : List ℕ) → find text ids.by_label ≡ some id → has_id ids.taken id ≡ true
  pub of_one :
      (a b id : List ℕ) → find a ids.by_label ≡ some id → find b ids.by_label ≡ some id → a ≡ b

pub allocator-Sound : (prefix : List ℕ) → Sound (allocator prefix)
unfolding find
allocator-Sound prefix = record {
  is_taken = λ text id e. absurd (cc);
  of_one = λ a b id e d. absurd (cc);
}

abbrev fresh_id : List ℕ → IdAllocator → List ℕ
fresh_id text ids =
    let base = base_of ids.prefix text in pick (length ids.taken) ids.taken base base 1

fresh_id-free : (text : List ℕ) (ids : IdAllocator) → has_id ids.taken (fresh_id text ids) ≡ false
fresh_id-free text ids =
    pick-free (length ids.taken) ids.taken ids.taken (base_of ids.prefix text) 0 (omega arith)
      (λ j le h. h)

-- A look-up in a map with one more label.
pub find-more :
    (text id b found : List ℕ) (m : List (List ℕ × List ℕ))
    → find b ((text, id) ∷ m) ≡ some found
    → ((text ≡ b) × (found ≡ id)) ⊎ (find b m ≡ some found)
unfolding find
find-more text id b found m =
    either_known (λ o. o ≡ some found → ((text ≡ b) × (found ≡ id)) ⊎ (find b m ≡ some found))
      (units_eq text b) (some id) (find b m) (λ same e. inl (units_eq-same text b same, cc))
      (λ other e. inr e)

pub find-new :
    (text id : List ℕ) (m : List (List ℕ × List ℕ)) → find text ((text, id) ∷ m) ≡ some id
unfolding find
find-new text id m = rw (units_eq_refl text) refl

-- What an allocator knows of one look-up, as a split that keeps the equation.
pub get-cases :
    (text : List ℕ) (ids : IdAllocator)
    → ((id : List ℕ) × (find text ids.by_label ≡ some id) × (get text ids ≡ (id, ids)))
      ⊎ ((find text ids.by_label ≡ none) × (get text ids ≡ allocate ids text (fresh_id text ids)))
unfolding get
get-cases text ids = elim (Option-cases (find text ids.by_label)) [
  | inl e ↦ inr (e, ap (found_or ids text (fresh_id text ids)) e)
  | inr (id, e) ↦ inl (id, e, ap (found_or ids text (fresh_id text ids)) e)
]

find-other :
    (text id b : List ℕ) (m : List (List ℕ × List ℕ))
    → text ≢ b
    → find b ((text, id) ∷ m) ≡ find b m
unfolding find
find-other text id b m other = elim (Bool-cases (units_eq text b)) [
  | inl e ↦ absurd (other (units_eq-same text b e))
  | inr e ↦ rw e refl
]

-- `get` knows its label from then on, and forgets none.
pub get-found :
    (text : List ℕ) (ids : IdAllocator)
    → find text ((get text ids).1.by_label) ≡ some (get text ids).0
get-found text ids = elim (get-cases text ids) [
  | inl (id, e, g) ↦ rw g e
  | inr (e, g) ↦ rw g (find-new text (fresh_id text ids) ids.by_label)
]

pub get-keeps :
    (text b id : List ℕ) (ids : IdAllocator)
    → find b ids.by_label ≡ some id
    → find b ((get text ids).1.by_label) ≡ some id
get-keeps text b id ids h = elim (get-cases text ids) [
  | inl (i, e, g) ↦ rw g h
  | inr (e, g) ↦ rw g (
      find-other text (fresh_id text ids) b ids.by_label
        (λ same. let d = subst (λ t. find t ids.by_label ≡ none) same e in cc)
      ∙ h)
]

pub get-again :
    (text id : List ℕ) (ids : IdAllocator)
    → find text ids.by_label ≡ some id
    → get text ids ≡ (id, ids)
unfolding get
get-again text id ids e = ap (found_or ids text (fresh_id text ids)) e

either_or : (b c : Bool) → c ≡ true → (b || c) ≡ true
either_or true c h = refl
either_or false c h = h

pub has_id-new : (id : List ℕ) (ts : List (List ℕ)) → has_id (id ∷ ts) id ≡ true
unfolding has_id
has_id-new id ts = rw (units_eq_refl id) refl

pub has_id-more :
    (id t : List ℕ) (ts : List (List ℕ)) → has_id ts id ≡ true → has_id (t ∷ ts) id ≡ true
unfolding has_id
has_id-more id t ts h = either_or (units_eq id t) (has_id ts id) h

allocate-Sound :
    (ids : IdAllocator) (text id : List ℕ)
    → find text ids.by_label ≡ none
    → has_id ids.taken id ≡ false
    → Sound ids
    → Sound (allocate ids text id).1
allocate-Sound ids text id unknown free s = record {
  is_taken = λ b i e. elim (find-more text id b i ids.by_label e) [
    | inl (same, d) ↦
        subst (λ x. has_id (id ∷ ids.taken) x ≡ true) (sym d) (has_id-new id ids.taken)
    | inr d ↦ has_id-more i id ids.taken (s.is_taken b i d)
  ];
  of_one = λ a b i e d. elim (find-more text id a i ids.by_label e) [
    | inl (same, f) ↦ elim (find-more text id b i ids.by_label d) [
      | inl (also, g) ↦ sym same ∙ also
      | inr g ↦ let h = s.is_taken b i g in absurd (cc)
    ]
    | inr f ↦ elim (find-more text id b i ids.by_label d) [
      | inl (also, g) ↦ let h = s.is_taken a i f in absurd (cc)
      | inr g ↦ s.of_one a b i f g
    ]
  ];
}

pub get-Sound : (text : List ℕ) (ids : IdAllocator) → Sound ids → Sound (get text ids).1
get-Sound text ids s = elim (get-cases text ids) [
  | inl (id, e, g) ↦ rw g s
  | inr (e, g) ↦ rw g (allocate-Sound ids text (fresh_id text ids) e (fresh_id-free text ids) s)
]

-- Labels asked for one after the other.
unfoldable pub get_all : List (List ℕ) → IdAllocator → IdAllocator
get_all [] ids = ids
get_all (t ∷ ts) ids = get_all ts (get t ids).1

get_all-Sound : (ts : List (List ℕ)) (ids : IdAllocator) → Sound ids → Sound (get_all ts ids)
unfolding get_all
get_all-Sound [] ids s = s
get_all-Sound (t ∷ ts) ids s = get_all-Sound ts (get t ids).1 (get-Sound t ids s)

get_all-keeps :
    (ts : List (List ℕ)) (b id : List ℕ) (ids : IdAllocator)
    → find b ids.by_label ≡ some id
    → find b ((get_all ts ids).by_label) ≡ some id
unfolding get_all
get_all-keeps [] b id ids h = h
get_all-keeps (t ∷ ts) b id ids h = get_all-keeps ts b id (get t ids).1 (get-keeps t b id ids h)

-- Whatever labels are asked for before and in between: a label gets the identifier again that it got
-- at first, and no other label gets it.
pub get-Distinct :
    (prefix : List ℕ) (before between : List (List ℕ)) (a b : List ℕ)
    → (a ≡ b) ↔ (
        (get b (get_all between (get a (get_all before (allocator prefix))).1)).0
        ≡ (get a (get_all before (allocator prefix))).0)
get-Distinct prefix before between a b =
    let first = get a (get_all before (allocator prefix)) in
    let ids = get_all between first.1 in
    let kept =
      get_all-keeps between a first.0 first.1 (get-found a (get_all before (allocator prefix))) in
    let sound = get-Sound b ids (
      get_all-Sound between first.1
        (get-Sound a _ (get_all-Sound before (allocator prefix) (allocator-Sound prefix)))) in
    (
      λ same.
          ap (λ r. r.0)
            (get-again b first.0 ids (subst (λ t. find t ids.by_label ≡ some first.0) same kept)),
      λ same.
          sound.of_one a b first.0 (get-keeps b a first.0 ids kept)
            (subst (λ i. find b ((get b ids).1.by_label) ≡ some i) same (get-found b ids)),
    )
