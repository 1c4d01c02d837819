-- ===== src/Slots/Order.antt =====
-- The order of the grants of apps/agent-worker/src/jobs/agent.consumer.ts, and that none is lost.
use mathlib.Core.List.{Perm, perm_middle, append_assoc}
use mathlib.Core.List.Perm
use codemind_backend.Common.{
  ℕ, zero, suc, ◌≤◌, List, [], ◌∷◌, ◌++◌, All, All-append, sym, ◌∙◌, leb, leb→le, arith, ◌≡◌, ◌⊎◌,
  inl, inr, Bool-cases, List-cases, length, ◌+◌, refl,
}
use codemind_backend.Slots.{Waiter, place, insert, sort, Granted, grant_loop}

insert-perm : (x : Waiter) (ys : List Waiter) → Perm (insert x ys) (x ∷ ys)
unfolding insert
insert-perm x [] = Perm.refl _
insert-perm x (y ∷ ys) = elim (Bool-cases (leb (place x) (place y))) [
  | inl first ↦ rw first (Perm.refl _)
  | inr second ↦ rw second (Perm.trans (Perm.cons y (insert-perm x ys)) (Perm.swap x y ys))
]

pub sort-perm : (xs : List Waiter) → Perm (sort xs) xs
unfolding sort
sort-perm [] = Perm.refl _
sort-perm (x ∷ xs) = Perm.trans (insert-perm x (sort xs)) (Perm.cons x (sort-perm xs))

abbrev pub NotBefore : Waiter → Waiter → Type 0
NotBefore x y = place x ≤ place y

abbrev pub IsSorted : List Waiter → Type 0
IsSorted [] = Unit
IsSorted (x ∷ xs) = All (NotBefore x) xs × IsSorted xs

All-weaken :
    (x y : Waiter) (ys : List Waiter)
    → place x ≤ place y
    → All (NotBefore y) ys
    → All (NotBefore x) ys
All-weaken x y [] h a = tt
All-weaken x y (z ∷ zs) h a = (omega arith, All-weaken x y zs h a.1)

insert-All :
    (x y : Waiter) (ys : List Waiter)
    → place y ≤ place x
    → All (NotBefore y) ys
    → All (NotBefore y) (insert x ys)
unfolding insert
insert-All x y [] h a = (h, tt)
insert-All x y (z ∷ zs) h a = elim (Bool-cases (leb (place x) (place z))) [
  | inl first ↦ rw first (h, a)
  | inr second ↦ rw second (a.0, insert-All x y zs h a.1)
]

insert-IsSorted : (x : Waiter) (ys : List Waiter) → IsSorted ys → IsSorted (insert x ys)
unfolding insert
insert-IsSorted x [] h = (tt, tt)
insert-IsSorted x (y ∷ ys) h = elim (Bool-cases (leb (place x) (place y))) [
  | inl first ↦
      let le = leb→le (place x) (place y) first in rw first ((le, All-weaken x y ys le h.0), h)
  | inr second ↦ rw second (insert-All x y ys (ground arith) h.0, insert-IsSorted x ys h.1)
]

pub sort-IsSorted : (xs : List Waiter) → IsSorted (sort xs)
unfolding sort
sort-IsSorted [] = tt
sort-IsSorted (x ∷ xs) = insert-IsSorted x (sort xs) (sort-IsSorted xs)

module _ (P : Waiter → Type 0) where
  insert-All_any : (x : Waiter) (ys : List Waiter) → P x → All P ys → All P (insert x ys)
  unfolding insert
  insert-All_any x [] p a = (p, tt)
  insert-All_any x (y ∷ ys) p a = elim (Bool-cases (leb (place x) (place y))) [
    | inl first ↦ rw first (p, a)
    | inr second ↦ rw second (a.0, insert-All_any x ys p a.1)
  ]

  sort-All : (xs : List Waiter) → All P xs → All P (sort xs)
  unfolding sort
  sort-All [] a = tt
  sort-All (x ∷ xs) a = insert-All_any x (sort xs) a.0 (sort-All xs a.1)

  grant_loop-All :
      (n : ℕ) (waiting holders : List Waiter)
      → All P waiting
      → All P (grant_loop n waiting holders).waiting
  unfolding grant_loop
  grant_loop-All zero waiting holders a = a
  grant_loop-All (suc n) waiting holders a = elim (List-cases (sort waiting)) [
    | inl e ↦ rw (e, grant_loop) tt
    | inr (x, rest, e) ↦
        rw (e, grant_loop) (grant_loop-All n rest (x ∷ holders) (rw e at (sort-All waiting a)).1)
  ]

-- The slots are handed out one for one, no waiter is lost or made up, whoever still waits finds no
-- slot free, and every new holder comes no later in ORDER than anybody who still waits.
pub record Fair (n : ℕ) (waiting holders : List Waiter) (r : Granted) : Type 0 where
  pub conserved : r.left + length r.holders ≡ n + length holders
  pub nobody_lost : Perm (r.holders ++ r.waiting) (holders ++ waiting)
  pub no_idle_slot : (r.waiting ≡ []) ⊎ (r.left ≡ 0)
  pub new_holders : List Waiter
  pub extends : r.holders ≡ new_holders ++ holders
  pub in_order : All (λ x. All (NotBefore x) r.waiting) new_holders

step-Fair :
    (n : ℕ) (x : Waiter) (waiting rest holders : List Waiter)
    → sort waiting ≡ x ∷ rest
    → Fair n rest (x ∷ holders) (grant_loop n rest (x ∷ holders))
    → Fair (suc n) waiting holders (grant_loop n rest (x ∷ holders))
step-Fair n x waiting rest holders e f = record {
  conserved = omega (arith, f.conserved);
  nobody_lost = Perm.trans f.nobody_lost (
      Perm.trans (Perm.symm (perm_middle holders rest))
        (Perm.append_left holders (rw e at (sort-perm waiting))));
  no_idle_slot = f.no_idle_slot;
  new_holders = f.new_holders ++ x ∷ [];
  extends = f.extends ∙ sym (append_assoc f.new_holders (x ∷ []) holders);
  in_order =
      All-append _ f.new_holders (x ∷ []) f.in_order
        (grant_loop-All (NotBefore x) n rest (x ∷ holders) (rw e at (sort-IsSorted waiting)).0, tt);
}

pub grant_loop-Fair :
    (n : ℕ) (waiting holders : List Waiter) → Fair n waiting holders (grant_loop n waiting holders)
unfolding grant_loop
grant_loop-Fair zero waiting holders = record {
  conserved = refl;
  nobody_lost = Perm.refl _;
  no_idle_slot = inr refl;
  new_holders = [];
  extends = refl;
  in_order = tt;
}
grant_loop-Fair (suc n) waiting holders = elim (List-cases (sort waiting)) [
  | inl e ↦
      rw (e, grant_loop)
        (record {
          conserved = refl;
          nobody_lost = Perm.append_left holders (rw e at (sort-perm waiting));
          no_idle_slot = inl refl;
          new_holders = [];
          extends = refl;
          in_order = tt;
        })
  | inr (x, rest, e) ↦
      rw (e, grant_loop)
        (step-Fair n x waiting rest holders e (grant_loop-Fair n rest (x ∷ holders)))
]
