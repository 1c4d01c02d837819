-- ===== src/Jobs/Latest.antt =====
-- The collapse of an agent's attempts to the newest one, in `getLatestAgentResults` of
-- apps/api-gateway/src/jobs/jobs.service.ts and in `synthesize` of
-- apps/synthesizer/src/synthesis/synthesizer.service.ts.
use mathlib.Core.List.{append-nil, append_assoc}
use codemind_backend.Common.{
  ℕ, ◌+◌, ◌≤◌, true, false, ◌||◌, Option, none, some, List, [], ◌∷◌, ◌++◌, ◌≡◌, inl, inr, refl, sym,
  ◌∙◌, ap, arith, any, Bool-cases, if◌then◌else◌, ==_iff, ◌==◌,
}
use codemind_backend.World.{AgentType, ResultRow, agent_eq, order_index, bit}
use codemind_backend.Jobs.{of_type, latest_from, latest_by_type}

-- The newest attempt of an agent: the first row of its type.
abbrev pub newest : AgentType → List ResultRow → Option ResultRow
newest a [] = none
newest a (r ∷ rs) = if of_type a r then some r else newest a rs

abbrev pub attempts : AgentType → List ResultRow → ℕ
attempts a [] = 0
attempts a (r ∷ rs) = bit (of_type a r) + attempts a rs

newest-append_other :
    (a : AgentType) (xs rs : List ResultRow) (r : ResultRow)
    → of_type a r ≡ false
    → newest a (xs ++ r ∷ rs) ≡ newest a (xs ++ rs)
newest-append_other a [] rs r h = rw h refl
newest-append_other a (x ∷ xs) rs r h = rw (newest-append_other a xs rs r h) refl

newest-append_found :
    (a : AgentType) (xs rs ts : List ResultRow)
    → any (of_type a) xs ≡ true
    → newest a (xs ++ rs) ≡ newest a (xs ++ ts)
newest-append_found a [] rs ts h = cc
newest-append_found a (x ∷ xs) rs ts h = elim (Bool-cases (of_type a x)) [
  | inl same ↦ rw same refl
  | inr other ↦ rw other (newest-append_found a xs rs ts (rw other at h))
]

any-same_type :
    (a b : AgentType) (xs : List ResultRow)
    → agent_eq a b ≡ true
    → any (of_type a) xs ≡ any (of_type b) xs
any-same_type a b [] h = refl
any-same_type a b (x ∷ xs) h =
    let e : order_index a ≡ order_index b = (==_iff _ _).0 h in
    rw (any-same_type a b xs h)
      (ap (λ (n : ℕ). (order_index x.agent_type == n) || any (of_type b) xs) e)

newest-append_known :
    (a : AgentType) (xs rs : List ResultRow) (r : ResultRow)
    → any (of_type r.agent_type) xs ≡ true
    → newest a (xs ++ r ∷ rs) ≡ newest a (xs ++ rs)
newest-append_known a xs rs r h = elim (Bool-cases (of_type a r)) [
  | inl same ↦ newest-append_found a xs (r ∷ rs) rs (sym (any-same_type r.agent_type a xs same) ∙ h)
  | inr other ↦ newest-append_other a xs rs r other
]

newest-latest_from :
    (a : AgentType) (latest rows : List ResultRow)
    → newest a (latest_from latest rows) ≡ newest a (latest ++ rows)
unfolding latest_from
newest-latest_from a latest [] = rw append-nil
newest-latest_from a latest (r ∷ rows) = elim (Bool-cases (any (of_type r.agent_type) latest)) [
  | inl known ↦
      rw known (newest-latest_from a latest rows ∙ sym (newest-append_known a latest rows r known))
  | inr new ↦ rw new (
      newest-latest_from a (latest ++ r ∷ []) rows
      ∙ ap (newest a) (append_assoc latest (r ∷ []) rows))
]

attempts-append_one :
    (a : AgentType) (xs : List ResultRow) (r : ResultRow)
    → attempts a (xs ++ r ∷ []) ≡ attempts a xs + bit (of_type a r)
attempts-append_one a [] r = omega arith
attempts-append_one a (x ∷ xs) r = omega (arith, attempts-append_one a xs r)

attempts-none :
    (a : AgentType) (xs : List ResultRow) → any (of_type a) xs ≡ false → attempts a xs ≡ 0
attempts-none a [] h = refl
attempts-none a (x ∷ xs) h = ground (arith, attempts-none a xs)

attempts-new :
    (a : AgentType) (xs : List ResultRow) (r : ResultRow)
    → attempts a xs ≤ 1
    → any (of_type r.agent_type) xs ≡ false
    → attempts a (xs ++ r ∷ []) ≤ 1
attempts-new a xs r few new = elim (Bool-cases (of_type a r)) [
  | inl same ↦
      let none_yet : attempts a xs ≡ 0 =
        attempts-none a xs (sym (any-same_type r.agent_type a xs same) ∙ new) in
      omega (arith, attempts-append_one a xs r, ap bit same)
  | inr other ↦ omega (arith, attempts-append_one a xs r, ap bit other)
]

attempts-latest_from :
    (a : AgentType) (latest rows : List ResultRow)
    → attempts a latest ≤ 1
    → attempts a (latest_from latest rows) ≤ 1
unfolding latest_from
attempts-latest_from a latest [] h = h
attempts-latest_from a latest (r ∷ rows) h = elim (Bool-cases (any (of_type r.agent_type) latest)) [
  | inl known ↦ rw known (attempts-latest_from a latest rows h)
  | inr new ↦
      rw new (attempts-latest_from a (latest ++ r ∷ []) rows (attempts-new a latest r h new))
]

-- Of every agent the collapsed list has at most one row, and that row is the agent's newest attempt;
-- an agent with no attempt has none.
pub latest_by_type-newest :
    (a : AgentType) (rows : List ResultRow)
    → (newest a (latest_by_type rows) ≡ newest a rows) × (attempts a (latest_by_type rows) ≤ 1)
unfolding latest_by_type
latest_by_type-newest a rows =
    (newest-latest_from a [] rows, attempts-latest_from a [] rows (omega arith))
