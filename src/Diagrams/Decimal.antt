-- ===== src/Diagrams/Decimal.antt =====
-- The decimal digits of a number, as a template literal writes them in
-- apps/synthesizer/src/diagrams/d2-source.builder.ts.
use codemind_backend.Common.{
  ℕ, zero, suc, ◌+◌, ◌-◌, ◌*◌, ◌/◌, ◌≤◌, List, [], ◌∷◌, ◌++◌, ltb, ◌≡◌, refl, sym, ap, ◌∙◌, arith,
  either_known, if◌then◌else◌,
}
use Prim.Native.Nat.{◌%◌}

-- On fuel: a number has no more digits than its value, plus one.
unfoldable pub digits_from : ℕ → ℕ → List ℕ
digits_from zero n = []
digits_from (suc f) n =
    let more = digits_from f (n / 10) ++ (48 + n % 10) ∷ [] in
    if ltb n 10 then (48 + n) ∷ [] else more

unfoldable pub digits : ℕ → List ℕ
unfolding digits_from
digits n = digits_from (suc n) n

unfoldable value_from : ℕ → List ℕ → ℕ
value_from acc [] = acc
value_from acc (d ∷ ds) = value_from (acc * 10 + (d - 48)) ds

value_from-append :
    (ds : List ℕ) (acc d : ℕ) → value_from acc (ds ++ d ∷ []) ≡ value_from acc ds * 10 + (d - 48)
unfolding value_from
value_from-append [] acc d = refl
value_from-append (e ∷ ds) acc d = value_from-append ds (acc * 10 + (e - 48)) d

value_from-digits : (f n : ℕ) → suc n ≤ f → value_from 0 (digits_from f n) ≡ n
unfolding digits_from value_from
value_from-digits zero n h = absurd (omega (arith, h))
value_from-digits (suc f) n h =
    either_known (λ ds. value_from 0 ds ≡ n) (ltb n 10) _ _ (λ e. omega arith)
      (λ e.
        let big : 10 ≤ n = ground (arith, e) in
        let ih = value_from-digits f (n / 10) (omega (arith, big, h)) in
        omega (arith, value_from-append (digits_from f (n / 10)) 0 (48 + n % 10), ih))

-- Numbers with the same digits are the same.
pub digits-injective : (m n : ℕ) → digits m ≡ digits n → m ≡ n
unfolding digits
digits-injective m n e =
    sym (value_from-digits (suc m) m (omega arith))
    ∙ (ap (value_from 0) e ∙ value_from-digits (suc n) n (omega arith))
