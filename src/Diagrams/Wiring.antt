-- ===== src/Diagrams/Wiring.antt =====
-- Which items of apps/synthesizer/src/diagrams/d2-source.builder.ts refer to which: an edge joins
-- identifiers, and these are known where a node declares them.
pub mod Modules
pub mod Sequences
pub mod Imports
pub mod Flow
use codemind_backend.Common.{
  Bool, true, false, ◌||◌, Option, none, some, ℕ, List, [], ◌∷◌, ◌++◌, All, All-append, All-map,
  Option-cases, ◌≡◌, inl, inr, refl, sym, ap, subst, ◌∙◌,
}
use codemind_backend.Diagrams.{Item, node, edge, back, container, setting}
use codemind_backend.Diagrams.Names.{IdAllocator, find, has_id, get, has, found, allocator}
use codemind_backend.Diagrams.Fresh.{
  find-more, get-cases, get-found, get-keeps, get-again, has_id-new, has_id-more,
}
use codemind_backend.Diagrams.Words.{Ident, Spelled, allocator-Spelled, get-Spelled}
use codemind_backend.Diagrams.Counting.Renders.{Proper}

unfoldable pub ids_of : List Item → List (List ℕ)
ids_of [] = []
ids_of (node id raw style indented ∷ is) = id ∷ ids_of is
ids_of (container id title ∷ is) = id ∷ ids_of is
ids_of (edge from to said ∷ is) = ids_of is
ids_of (back last first said ∷ is) = ids_of is
ids_of (setting s ∷ is) = ids_of is

-- Both ends are known.
abbrev pub Joined : List (List ℕ) → Item → Type 0
Joined known (node id raw style indented) = Unit
Joined known (edge from to said) = (has_id known from ≡ true) × (has_id known to ≡ true)
Joined known (back last first said) = (has_id known last ≡ true) × (has_id known first ≡ true)
Joined known (container id title) = Unit
Joined known (setting s) = Unit

abbrev pub Good : List (List ℕ) → List Item → Type 0
Good known is = All (λ i. Proper i × Joined known i) is

abbrev pub Includes : List (List ℕ) → List Item → Type 0
Includes known is = All (λ id. has_id known id ≡ true) (ids_of is)

-- An allocator whose identifiers are all known.
pub record Known (known : List (List ℕ)) (ids : IdAllocator) : Type 0 where
  pub spelled : Spelled ids
  pub covered : (text id : List ℕ) → find text ids.by_label ≡ some id → has_id known id ≡ true

pub allocator-Known :
    (known : List (List ℕ)) (prefix : List ℕ) → Ident prefix → Known known (allocator prefix)
unfolding find
allocator-Known known prefix h = record {
  spelled = allocator-Spelled prefix h;
  covered = λ text id e. absurd (cc);
}

pub get-Known :
    (known : List (List ℕ)) (text : List ℕ) (ids : IdAllocator)
    → Known known ids
    → has_id known (get text ids).0 ≡ true
    → Ident (get text ids).0 × Known known (get text ids).1
get-Known known text ids k h =
    let s = get-Spelled text ids k.spelled in
    (
      s.0,
      record {
        spelled = s.1;
        covered = elim (get-cases text ids) [
          | inl (id, e, g) ↦ rw g k.covered
          | inr (e, g) ↦ rw g (λ b i d. elim (find-more text _ b i ids.by_label d) [
            | inl (same, f) ↦
                subst (λ x. has_id known x ≡ true) (sym f)
                  (subst (λ r. has_id known r.0 ≡ true) g h)
            | inr f ↦ k.covered b i f
          ])
        ];
      },
    )

-- A label that the allocator has.
pub has-found :
    (text : List ℕ) (ids : IdAllocator)
    → has text ids ≡ true
    → (id : List ℕ) × (find text ids.by_label ≡ some id)
unfolding has
has-found text ids h = elim (Option-cases (find text ids.by_label)) [
  | inl e ↦ let d = subst (λ o. found o ≡ true) e h in absurd (cc)
  | inr r ↦ r
]

pub found-has :
    (text id : List ℕ) (ids : IdAllocator) → find text ids.by_label ≡ some id → has text ids ≡ true
unfolding has
found-has text id ids e = ap found e

pub has-keeps :
    (text b : List ℕ) (ids : IdAllocator) → has b ids ≡ true → has b (get text ids).1 ≡ true
has-keeps text b ids h =
    let f = has-found b ids h in found-has b f.0 (get text ids).1 (get-keeps text b f.0 ids f.1)

pub has-got : (text : List ℕ) (ids : IdAllocator) → has text (get text ids).1 ≡ true
has-got text ids = found-has text _ (get text ids).1 (get-found text ids)

pub has-Known :
    (known : List (List ℕ)) (text : List ℕ) (ids : IdAllocator)
    → Known known ids
    → has text ids ≡ true
    → Ident (get text ids).0 × (has_id known (get text ids).0 ≡ true)
has-Known known text ids k h =
    let f = has-found text ids h in
    rw (get-again text f.0 ids f.1) (k.spelled.of_ids text f.0 f.1, k.covered text f.0 f.1)

-- The identifiers of a list of items include those of its parts.
ids_of-append : (is js : List Item) → ids_of (is ++ js) ≡ ids_of is ++ ids_of js
unfolding ids_of
ids_of-append [] js = refl
ids_of-append (node id raw style indented ∷ is) js = ap (λ t. id ∷ t) (ids_of-append is js)
ids_of-append (container id title ∷ is) js = ap (λ t. id ∷ t) (ids_of-append is js)
ids_of-append (edge from to said ∷ is) js = ids_of-append is js
ids_of-append (back last first said ∷ is) js = ids_of-append is js
ids_of-append (setting s ∷ is) js = ids_of-append is js

pub All-unappend :
    (P : List ℕ → Type 0) (xs ys : List (List ℕ)) → All P (xs ++ ys) → All P xs × All P ys
All-unappend P [] ys h = (tt, h)
All-unappend P (x ∷ xs) ys (p, h) = let r = All-unappend P xs ys h in ((p, r.0), r.1)

pub Includes-append :
    (known : List (List ℕ)) (is js : List Item)
    → Includes known (is ++ js)
    → Includes known is × Includes known js
Includes-append known is js h =
    All-unappend _ (ids_of is) (ids_of js)
      (subst (All (λ id. has_id known id ≡ true)) (ids_of-append is js) h)

self-all : (ids : List (List ℕ)) → All (λ id. has_id ids id ≡ true) ids
self-all [] = tt
self-all (i ∷ is) = (has_id-new i is, All-map _ _ is (λ id h. has_id-more id i is h) (self-all is))

pub Includes-self : (is : List Item) → Includes (ids_of is) is
Includes-self is = self-all (ids_of is)
