-- ===== src/Common/Sorting.antt =====
-- The stable sort by a comparator, and what its elements are.
use mathlib.Core.Path.{◌≡◌}
use mathlib.Core.Bool.{Bool, true, false}
use mathlib.Core.List.{List, [], ◌∷◌}
use native.Mathlib.Omega.{arith}
use codemind_backend.Common.Tests.{if◌then◌else◌, either_known, leb, leb→le}
use codemind_backend.Common.Lists.{All, keep, take}
use Prim.Native.Nat.{ℕ, zero, suc, ◌≤◌}

-- `before x y` is `comparator(x, y) <= 0`.
module _ {ℓ} {A : Type ℓ} (before : A → A → Bool) where
  abbrev pub insert_by : A → List A → List A
  insert_by x [] = x ∷ []
  insert_by x (y ∷ ys) = let later = y ∷ insert_by x ys in if before x y then x ∷ y ∷ ys else later

  abbrev pub sort_by : List A → List A
  sort_by [] = []
  sort_by (x ∷ xs) = insert_by x (sort_by xs)

module _ {ℓ} {A : Type ℓ} (P : A → Type 0) where
  All-if : (b : Bool) (xs ys : List A) → All P xs → All P ys → All P (if b then xs else ys)
  All-if true xs ys h k = h
  All-if false xs ys h k = k

  pub All-insert_by :
      (le : A → A → Bool) (x : A) (xs : List A) → P x → All P xs → All P (insert_by le x xs)
  All-insert_by le x [] p h = (p, tt)
  All-insert_by le x (y ∷ ys) p (q, h) =
      All-if (le x y) _ _ (p, (q, h)) (q, All-insert_by le x ys p h)

  pub All-sort_by : (le : A → A → Bool) (xs : List A) → All P xs → All P (sort_by le xs)
  All-sort_by le [] h = tt
  All-sort_by le (x ∷ xs) (p, h) = All-insert_by le x (sort_by le xs) p (All-sort_by le xs h)

  pub All-keep : (p : A → Bool) (xs : List A) → All P xs → All P (keep p xs)
  All-keep p [] h = tt
  All-keep p (x ∷ xs) (q, h) = All-if (p x) _ _ (q, All-keep p xs h) (All-keep p xs h)

  pub All-take : (n : ℕ) (xs : List A) → All P xs → All P (take n xs)
  All-take zero xs h = tt
  All-take (suc n) [] h = tt
  All-take (suc n) (x ∷ xs) (p, h) = (p, All-take n xs h)

-- What `filter` keeps passes its test.
pub keep-All : {A : Type 0} (p : A → Bool) (xs : List A) → All (λ x. p x ≡ true) (keep p xs)
keep-All p [] = tt
keep-All p (x ∷ xs) =
    either_known (λ ys. All (λ y. p y ≡ true) ys) (p x) _ _ (λ e. (e, keep-All p xs))
      (λ e. keep-All p xs)

pub All-map :
    {A : Type 0} (P Q : A → Type 0) (xs : List A) → ((x : A) → P x → Q x) → All P xs → All Q xs
All-map P Q [] f h = tt
All-map P Q (x ∷ xs) f (p, h) = (f x p, All-map P Q xs f h)

-- What holds of what `filter` kept, and of a list that was sorted.
pub All-unkeep :
    {A : Type 0} (P : A → Type 0) (p : A → Bool) (xs : List A)
    → All P (keep p xs)
    → All (λ x. p x ≡ true → P x) xs
All-unkeep P p [] = λ h. tt
All-unkeep P p (x ∷ xs) =
    either_known (λ ys. All P ys → (p x ≡ true → P x) × All (λ y. p y ≡ true → P y) xs) (p x) _ _
      (λ e (q, h). ((λ d. q), All-unkeep P p xs h))
      (λ e h. ((λ d. absurd (cc)), All-unkeep P p xs h))

All-uninsert :
    {A : Type 0} (P : A → Type 0) (le : A → A → Bool) (x : A) (xs : List A)
    → All P (insert_by le x xs)
    → P x × All P xs
All-uninsert P le x [] = λ h. h
All-uninsert P le x (y ∷ ys) =
    either_known (λ zs. All P zs → P x × (P y × All P ys)) (le x y) (x ∷ y ∷ ys)
      (y ∷ insert_by le x ys) (λ e h. h)
      (λ e (q, h). let r = All-uninsert P le x ys h in (r.0, (q, r.1)))

pub All-unsort :
    {A : Type 0} (P : A → Type 0) (le : A → A → Bool) (xs : List A)
    → All P (sort_by le xs)
    → All P xs
All-unsort P le [] h = tt
All-unsort P le (x ∷ xs) h =
    let r = All-uninsert P le x (sort_by le xs) h in (r.0, All-unsort P le xs r.1)

-- The order by a number, the greatest first.
module _ {A : Type 0} (key : A → ℕ) where
  abbrev pub Descending : List A → Type 0
  Descending [] = Unit
  Descending (x ∷ xs) = All (λ y. key y ≤ key x) xs × Descending xs

  abbrev outranks : A → A → Bool
  outranks a b = leb (key b) (key a)

  insert_by-Descending :
      (x : A) (xs : List A) → Descending xs → Descending (insert_by outranks x xs)
  insert_by-Descending x [] d = (tt, tt)
  insert_by-Descending x (y ∷ ys) (below, d) =
      either_known Descending (outranks x y) _ _
        (λ e.
          let le = leb→le (key y) (key x) e in
          ((le, All-map _ _ ys (λ z p. omega (arith, p, le)) below), (below, d)))
        (λ e.
          let le : key x ≤ key y = ground (arith, e) in
          (All-insert_by _ outranks x ys le below, insert_by-Descending x ys d))

  pub sort_by-Descending : (xs : List A) → Descending (sort_by outranks xs)
  sort_by-Descending [] = tt
  sort_by-Descending (x ∷ xs) = insert_by-Descending x (sort_by outranks xs) (sort_by-Descending xs)

  pub take-Descending : (n : ℕ) (xs : List A) → Descending xs → Descending (take n xs)
  take-Descending zero xs d = tt
  take-Descending (suc n) [] d = tt
  take-Descending (suc n) (x ∷ xs) (below, d) = (All-take _ n xs below, take-Descending n xs d)
