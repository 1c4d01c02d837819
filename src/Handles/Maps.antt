-- ===== src/Handles/Maps.antt =====
-- The maps by path and by ticket of the cache of graph handles in
-- libs/common/src/codegraph/codegraph.service.ts.
use codemind_backend.Common.{
  ℕ, String, Option, none, some, ◌==◌, ==_iff, ==-refl, str_eq, str_eq_iff, ◌≡◌, ◌≢◌, ◌⊎◌, inl, inr,
  refl, arith, either_known, Bool-cases,
}
use codemind_backend.Handles.{set_path, set_ticket}

pub set_path-none :
    (p q : String) (f : String → Option ℕ) (t : ℕ)
    → set_path p none f q ≡ some t
    → (f q ≡ some t) × (q ≢ p)
set_path-none p q f t =
    either_known (λ o. o ≡ some t → (f q ≡ some t) × (q ≢ p)) (str_eq q p) none (f q)
      (λ same e. absurd (cc)) (λ other e. (e, λ same. let h = (str_eq_iff q p).1 same in cc))

pub set_path-other {ℓ} :
    {A : Type ℓ} (p q : String) (v : A) (f : String → A) → q ≢ p → set_path p v f q ≡ f q
set_path-other p q v f other = elim (Bool-cases (str_eq q p)) [
  | inl e ↦ absurd (other ((str_eq_iff q p).0 e))
  | inr e ↦ rw e refl
]

pub set_path-same {ℓ} : {A : Type ℓ} (p : String) (v : A) (f : String → A) → set_path p v f p ≡ v
set_path-same p v f = rw ((str_eq_iff p p).1 refl) refl

pub set_ticket-other {ℓ} :
    {A : Type ℓ} (s : ℕ) (v : A) (f : ℕ → A) (t : ℕ) → t ≢ s → set_ticket s v f t ≡ f t
set_ticket-other s v f t other = elim (Bool-cases (t == s)) [
  | inl e ↦ absurd (other ((==_iff t s).0 e))
  | inr e ↦ rw e refl
]

pub set_ticket-same {ℓ} : {A : Type ℓ} (s : ℕ) (v : A) (f : ℕ → A) → set_ticket s v f s ≡ v
set_ticket-same s v f = rw (==-refl s) refl

pub ticket-cases : (s t : ℕ) → (s ≡ t) ⊎ (s ≢ t)
ticket-cases s t = ground arith

pub path-cases : (p q : String) → (p ≡ q) ⊎ (p ≢ q)
path-cases p q = elim (Bool-cases (str_eq p q)) [
  | inl e ↦ inl ((str_eq_iff p q).0 e)
  | inr e ↦ inr (λ same. let h = (str_eq_iff p q).1 same in cc)
]
