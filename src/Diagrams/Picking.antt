-- ===== src/Diagrams/Picking.antt =====
-- The search for a free identifier in apps/synthesizer/src/diagrams/d2-source.builder.ts.
use codemind_backend.Common.{
  ℕ, zero, suc, ◌≤◌, Bool, true, false, not, ◌||◌, List, [], ◌∷◌, ◌++◌, keep, length, ◌≡◌, ◌≢◌, inl,
  inr, refl, sym, subst, ◌∙◌, arith, either_known, Bool-cases,
}
use codemind_backend.Tools.Paths.{units_eq}
use codemind_backend.Tools.Inside.{units_eq-same}
use codemind_backend.Diagrams.Decimal.{digits-injective}
use codemind_backend.Diagrams.Names.{has_id, numbered, pick}

-- The texts that `pick` tries.
abbrev pub candidate : List ℕ → ℕ → List ℕ
candidate base zero = base
candidate base (suc n) = numbered base (suc n)

pub append-longer : (base rest : List ℕ) (x : ℕ) → base ≢ base ++ x ∷ rest
append-longer [] rest x e = cc
append-longer (b ∷ base) rest x e = append-longer base rest x (cc)

pub append-cancel : (base xs ys : List ℕ) → base ++ xs ≡ base ++ ys → xs ≡ ys
append-cancel [] xs ys e = e
append-cancel (b ∷ base) xs ys e = append-cancel base xs ys (cc)

pub candidate-injective : (base : List ℕ) (i j : ℕ) → candidate base i ≡ candidate base j → i ≡ j
unfolding numbered
candidate-injective base zero zero e = refl
candidate-injective base zero (suc j) e = absurd (append-longer base _ _ e)
candidate-injective base (suc i) zero e = absurd (append-longer base _ _ (sym e))
candidate-injective base (suc i) (suc j) e =
    digits-injective (suc i) (suc j) (let h = append-cancel base _ _ e in cc)

abbrev pub without : List ℕ → List (List ℕ) → List (List ℕ)
without x ts = keep (λ t. not (units_eq x t)) ts

pub not-false : (b : Bool) → not b ≡ false → b ≡ true
not-false true h = refl
not-false false h = sym h

pub not-true : (b : Bool) → not b ≡ true → b ≡ false
not-true true h = sym h
not-true false h = refl

pub none-has : (x : List ℕ) → has_id [] x ≢ true
unfolding has_id
none-has x h = cc

-- What is left of a list without a text still holds the others, and is shorter where it held it.
pub has_id-without :
    (x y : List ℕ) (ts : List (List ℕ))
    → y ≢ x
    → has_id ts y ≡ true
    → has_id (without x ts) y ≡ true
unfolding has_id
has_id-without x y [] other h = h
has_id-without x y (t ∷ ts) other h = elim (Bool-cases (units_eq y t)) [
  | inl e ↦
      either_known (λ us. has_id us y ≡ true) (not (units_eq x t)) _ _ (λ d. rw e refl)
        (λ d. absurd (other (units_eq-same y t e ∙ sym (units_eq-same x t (not-false _ d)))))
  | inr e ↦
      let later = has_id-without x y ts other (subst (λ b. (b || has_id ts y) ≡ true) e h) in
      either_known (λ us. has_id us y ≡ true) (not (units_eq x t)) _ _ (λ d. rw e later)
        (λ d. later)
]

pub length-without_le : (x : List ℕ) (ts : List (List ℕ)) → length (without x ts) ≤ length ts
length-without_le x [] = omega arith
length-without_le x (t ∷ ts) =
    either_known (λ us. length us ≤ suc (length ts)) (not (units_eq x t)) (t ∷ without x ts)
      (without x ts) (λ d. omega (arith, length-without_le x ts))
      (λ d. omega (arith, length-without_le x ts))

pub length-without :
    (x : List ℕ) (ts : List (List ℕ)) → has_id ts x ≡ true → suc (length (without x ts)) ≤ length ts
unfolding has_id
length-without x [] h = absurd cc
length-without x (t ∷ ts) h =
    either_known (λ us. suc (length us) ≤ suc (length ts)) (not (units_eq x t)) (t ∷ without x ts)
      (without x ts)
      (λ d.
        let e : units_eq x t ≡ false = not-true (units_eq x t) d in
        omega (arith, length-without x ts (subst (λ b. (b || has_id ts x) ≡ true) e h)))
      (λ d. omega (arith, length-without_le x ts))

-- `taken` has each remaining candidate only as far as `ts`, which the fuel measures, has it.
pub pick-free :
    (f : ℕ) (taken ts : List (List ℕ)) (base : List ℕ) (k : ℕ)
    → length ts ≤ f
    → ((j : ℕ)
        → k ≤ j
        → has_id taken (candidate base j) ≡ true
        → has_id ts (candidate base j) ≡ true)
    → has_id taken (pick f taken base (candidate base k) (suc k)) ≡ false
unfolding pick
pick-free zero taken (t ∷ ts) base k short only = absurd (omega (arith, short))
pick-free zero taken [] base k short only = elim (Bool-cases (has_id taken (candidate base k))) [
  | inl e ↦ absurd (none-has (candidate base k) (only k (omega arith) e))
  | inr e ↦ e
]
pick-free (suc f) taken ts base k short only =
    either_known (λ id. has_id taken id ≡ false) (has_id taken (candidate base k)) _ _
      (λ e.
        let here = only k (omega arith) e in
        pick-free f taken (without (candidate base k) ts) base (suc k)
          (omega (arith, short, length-without (candidate base k) ts here))
          (λ j later h.
            has_id-without (candidate base k) (candidate base j) ts
              (λ same. let d = candidate-injective base j k same in omega (arith, d, later))
              (only j (omega (arith, later)) h)))
      (λ e. e)
