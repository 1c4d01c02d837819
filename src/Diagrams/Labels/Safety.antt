-- ===== src/Diagrams/Labels/Safety.antt =====
-- What a label of apps/synthesizer/src/diagrams/d2-source.builder.ts may hold.
use codemind_backend.Common.{
  ℕ, ◌≤◌, Bool, true, false, not, ◌&&◌, List, [], ◌∷◌, ◌++◌, take, length, length-append,
  length-take_most, All, All-append, All-take, All-keep, keep-All, ltb, ◌≡◌, refl, sym, arith,
  either_way, either_known,
}
use codemind_backend.Diagrams.Labels.{
  is_blank, is_control, is_syntax, without_controls, collapse, trim_start, trim_end, is_nil,
  cleaned, shorten, label,
}

-- Neither a control nor `"` nor `\`, and no white space but the space.
pub record Plain (n : ℕ) : Type 0 where
  pub no_control : is_control n ≡ false
  pub no_syntax : is_syntax n ≡ false
  pub one_blank : is_blank n ≡ true → n ≡ 32

record Inert (n : ℕ) : Type 0 where
  no_control : is_control n ≡ false
  no_syntax : is_syntax n ≡ false

space-Plain : Plain 32
unfolding is_control is_syntax
space-Plain = record { no_control = refl; no_syntax = refl; one_blank = λ e. refl }

controls-none : (s : List ℕ) → All (λ n. is_control n ≡ false) (without_controls s)
unfolding is_control
controls-none [] = tt
controls-none (c ∷ cs) = (
  either_known (λ n. is_control n ≡ false) (is_control c) 32 c (λ e. refl) (λ e. e),
  controls-none cs,
)

not-negative : (b : Bool) → not b ≡ true → b ≡ false
not-negative true h = sym h
not-negative false h = refl

Inert-both :
    (s : List ℕ)
    → All (λ n. is_control n ≡ false) s
    → All (λ n. not (is_syntax n) ≡ true) s
    → All Inert s
Inert-both [] h k = tt
Inert-both (c ∷ cs) (p, h) (q, k) =
    (record { no_control = p; no_syntax = not-negative _ q }, Inert-both cs h k)

collapse-Plain : (in_run : Bool) (s : List ℕ) → All Inert s → All Plain (collapse in_run s)
unfolding collapse
collapse-Plain r [] h = tt
collapse-Plain r (c ∷ cs) (p, h) =
    either_known (All Plain) (is_blank c) _ _
      (λ e.
        either_way (All Plain) r _ _ (collapse-Plain true cs h)
          (space-Plain, collapse-Plain true cs h))
      (λ e. (
        record { no_control = p.no_control; no_syntax = p.no_syntax; one_blank = λ b. absurd (cc) },
        collapse-Plain false cs h,
      ))

trim_start-Plain : (s : List ℕ) → All Plain s → All Plain (trim_start s)
unfolding trim_start
trim_start-Plain [] h = tt
trim_start-Plain (c ∷ cs) (p, h) =
    either_way (All Plain) (is_blank c) _ _ (trim_start-Plain cs h) (p, h)

trim_end-Plain : (s : List ℕ) → All Plain s → All Plain (trim_end s)
unfolding trim_end
trim_end-Plain [] h = tt
trim_end-Plain (c ∷ cs) (p, h) =
    either_way (All Plain) (is_blank c && is_nil (trim_end cs)) _ _ tt (p, trim_end-Plain cs h)

cleaned-Plain : (raw : List ℕ) → All Plain (cleaned raw)
unfolding cleaned
cleaned-Plain raw =
    let s = without_controls raw in
    trim_end-Plain _ (
      trim_start-Plain _
        (collapse-Plain false _ (Inert-both _ (All-keep _ _ s (controls-none raw)) (keep-All _ s))))

unit-Plain : (n : ℕ) → is_control n ≡ false → is_syntax n ≡ false → is_blank n ≡ false → Plain n
unit-Plain n c s b = record { no_control = c; no_syntax = s; one_blank = λ e. absurd (cc) }

shorten-Plain : (s : List ℕ) → All Plain s → All Plain (shorten s)
unfolding shorten is_control is_syntax is_blank
shorten-Plain [] h =
    let u = unit-Plain 117 refl refl refl in
    let n = unit-Plain 110 refl refl refl in
    let k = unit-Plain 107 refl refl refl in
    let o = unit-Plain 111 refl refl refl in
    let w = unit-Plain 119 refl refl refl in (u, (n, (k, (n, (o, (w, (n, tt)))))))
shorten-Plain (c ∷ cs) h =
    either_way (All Plain) (ltb 48 (length (c ∷ cs))) _ _
      (All-append Plain (take 47 (c ∷ cs)) (8230 ∷ []) (All-take Plain 47 (c ∷ cs) h)
        (unit-Plain 8230 refl refl refl, tt))
      h

shorten-length : (s : List ℕ) → (1 ≤ length (shorten s)) × (length (shorten s) ≤ 48)
unfolding shorten
shorten-length [] = (omega arith, omega arith)
shorten-length (c ∷ cs) =
    either_known (λ t. (1 ≤ length t) × (length t ≤ 48)) (ltb 48 (length (c ∷ cs)))
      (take 47 (c ∷ cs) ++ 8230 ∷ []) (c ∷ cs)
      (λ e. (
        omega (arith, length-append (take 47 (c ∷ cs)) (8230 ∷ [])),
        omega (arith, length-append (take 47 (c ∷ cs)) (8230 ∷ []), length-take_most 47 (c ∷ cs)),
      ))
      (λ e. (omega arith, ground (arith, e)))

-- Whatever the model wrote: a label has 1 to 48 units, none of which is a control, a quote, a backslash,
-- or white space other than the space.
pub label-Plain :
    (raw : List ℕ) → All Plain (label raw) × (1 ≤ length (label raw)) × (length (label raw) ≤ 48)
unfolding label
label-Plain raw =
    let n = shorten-length (cleaned raw) in (shorten-Plain _ (cleaned-Plain raw), n.0, n.1)
