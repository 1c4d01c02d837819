-- ===== src/Diagrams/Counting/Lines.antt =====
-- How `countNodes` of apps/synthesizer/src/diagrams/d2-source.builder.ts reads one line.
use codemind_backend.Common.{
  ℕ, suc, true, false, List, [], ◌∷◌, ◌++◌, All, All-map, ◌==◌, ◌≡◌, refl, ◌∙◌, arith,
}
use codemind_backend.Diagrams.Names.{is_letter, is_alphanumeric}
use codemind_backend.Diagrams.Words.{is_word, Words, Ident}
use codemind_backend.Diagrams.Labels.{is_blank, is_control, label}
use codemind_backend.Diagrams.Labels.Safety.{Plain, label-Plain}
use codemind_backend.Diagrams.Counting.{
  is_tab, after_colon, in_word, matches, is_terminator, count_from,
}

-- Units that end no line.
abbrev pub Inline : List ℕ → Type 0
Inline s = All (λ n. is_terminator n ≡ false) s

pub word-Inline : (n : ℕ) → is_word n ≡ true → is_terminator n ≡ false
unfolding is_word is_alphanumeric is_letter is_terminator
word-Inline n h = ground (arith, h)

pub Plain-inline : (n : ℕ) → Plain n → is_terminator n ≡ false
unfolding is_terminator is_control is_blank
Plain-inline n p = ground (arith, p.no_control, p.one_blank)

-- Behind the start of a line, what ends none adds nothing.
pub count-Inline :
    (s rest : List ℕ) → Inline s → count_from false (s ++ rest) ≡ count_from false rest
unfolding count_from
count-Inline [] rest h = refl
count-Inline (c ∷ cs) rest (p, h) = rw p (omega (arith, count-Inline cs rest h))

pub Words-Inline : (s : List ℕ) → Words s → Inline s
Words-Inline s h = All-map _ _ s word-Inline h

pub label-Inline : (raw : List ℕ) → Inline (label raw)
label-Inline raw = All-map _ _ (label raw) Plain-inline (label-Plain raw).0

pub word-no_colon : (n : ℕ) → is_word n ≡ true → (n == 58) ≡ false
unfolding is_word is_alphanumeric is_letter
word-no_colon n h = ground (arith, h)

pub in_word-colon : (s rest : List ℕ) → Words s → in_word (s ++ 58 ∷ rest) ≡ after_colon rest
unfolding in_word
in_word-colon [] rest h = refl
in_word-colon (c ∷ cs) rest (w, h) = rw (word-no_colon c w, w) (in_word-colon cs rest h)

pub in_word-space : (s rest : List ℕ) → Words s → in_word (s ++ 32 ∷ rest) ≡ false
unfolding in_word is_word is_alphanumeric is_letter
in_word-space [] rest h = refl
in_word-space (c ∷ cs) rest (w, h) = rw (word-no_colon c w, w) (in_word-space cs rest h)

pub letter-no_tab : (n : ℕ) → is_letter n ≡ true → is_tab n ≡ false
unfolding is_letter is_tab
letter-no_tab n h = ground (arith, h)

pub letter-Inline : (n : ℕ) → is_letter n ≡ true → is_terminator n ≡ false
unfolding is_letter is_terminator
letter-Inline n h = ground (arith, h)

-- A line that starts with an identifier.
pub matches-Ident :
    (c : ℕ) (cs rest : List ℕ)
    → is_letter c ≡ true
    → matches (c ∷ cs ++ rest) ≡ in_word (cs ++ rest)
unfolding matches
matches-Ident c cs rest l = rw (letter-no_tab c l, l) refl

pub declared-counted :
    (id said rest : List ℕ)
    → Ident id
    → Inline said
    → count_from true (id ++ (58 ∷ 32 ∷ 34 ∷ (said ++ (34 ∷ rest)))) ≡ suc (count_from false rest)
unfolding count_from after_colon is_tab is_terminator
declared-counted [] said rest i h = absurd cc
declared-counted (c ∷ cs) said rest (l, w) h =
    let behind : List ℕ = 58 ∷ 32 ∷ 34 ∷ (said ++ (34 ∷ rest)) in
    let m : matches (c ∷ cs ++ behind) ≡ true =
      matches-Ident c cs behind l ∙ in_word-colon cs (32 ∷ 34 ∷ (said ++ (34 ∷ rest))) w in
    rw (m, letter-Inline c l)
      (omega (arith, count-Inline cs behind (Words-Inline cs w), count-Inline said (34 ∷ rest) h))

pub edge-uncounted :
    (id behind rest : List ℕ)
    → Ident id
    → Inline behind
    → count_from true (id ++ (32 ∷ (behind ++ rest))) ≡ count_from false rest
unfolding count_from is_terminator
edge-uncounted [] behind rest i h = absurd cc
edge-uncounted (c ∷ cs) behind rest (l, w) h =
    let m : matches (c ∷ cs ++ (32 ∷ (behind ++ rest))) ≡ false =
      matches-Ident c cs (32 ∷ (behind ++ rest)) l ∙ in_word-space cs (behind ++ rest) w in
    rw (m, letter-Inline c l)
      (omega (
        arith,
        count-Inline cs (32 ∷ (behind ++ rest)) (Words-Inline cs w),
        count-Inline behind rest h,
      ))
