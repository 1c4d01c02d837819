-- ===== src/Diagrams/Words.antt =====
-- The units of the identifiers of apps/synthesizer/src/diagrams/d2-source.builder.ts.
use codemind_backend.Common.{
  ℕ, zero, suc, ◌+◌, ◌/◌, ◌<◌, Bool, true, false, ◌&&◌, ◌||◌, some, List, [], ◌∷◌, ◌++◌, length,
  All, All-append, All-take, ltb, ◌==◌, ◌≡◌, refl, sym, subst, arith, inl, inr, either_way,
  either_known,
}
use Prim.Native.Nat.{◌%◌}
use codemind_backend.Diagrams.Decimal.{digits, digits_from}
use codemind_backend.Diagrams.Names.{
  IdAllocator, is_letter, is_alphanumeric, flatten, strip_start, strip_end, ends, or_x, base_of,
  find, has_id, numbered, pick, get, allocator,
}
use codemind_backend.Diagrams.Fresh.{get-cases, find-more}

-- A letter, a digit or `_`.
unfoldable pub is_word : ℕ → Bool
unfolding is_alphanumeric
is_word n = is_alphanumeric n || (n == 95)

abbrev pub Words : List ℕ → Type 0
Words s = All (λ n. is_word n ≡ true) s

alphanumeric-word : (n : ℕ) → is_alphanumeric n ≡ true → is_word n ≡ true
unfolding is_word
alphanumeric-word n e = rw e refl

flatten-Words : (in_run : Bool) (s : List ℕ) → Words (flatten in_run s)
unfolding flatten is_word
flatten-Words r [] = tt
flatten-Words r (c ∷ cs) =
    either_known Words (is_alphanumeric c) _ _
      (λ e. (alphanumeric-word c e, flatten-Words false cs))
      (λ e. either_way Words r _ _ (flatten-Words true cs) (refl, flatten-Words true cs))

strip_start-Words : (s : List ℕ) → Words s → Words (strip_start s)
unfolding strip_start
strip_start-Words [] h = tt
strip_start-Words (c ∷ cs) (w, h) = either_way Words (c == 95) _ _ (strip_start-Words cs h) (w, h)

strip_end-Words : (s : List ℕ) → Words s → Words (strip_end s)
unfolding strip_end
strip_end-Words [] h = tt
strip_end-Words (c ∷ cs) (w, h) =
    either_way Words ((c == 95) && ends (strip_end cs)) _ _ tt (w, strip_end-Words cs h)

or_x-Words : (s : List ℕ) → Words s → Words (or_x s)
unfolding is_word is_alphanumeric is_letter
or_x-Words [] h = (refl, tt)
or_x-Words (c ∷ cs) h = h

digit-word : (n : ℕ) → n < 10 → is_word (48 + n) ≡ true
unfolding is_word is_alphanumeric is_letter
digit-word n h = ground (arith, h)

digits_from-Words : (f n : ℕ) → Words (digits_from f n)
unfolding digits_from
digits_from-Words zero n = tt
digits_from-Words (suc f) n =
    either_known Words (ltb n 10) _ _ (λ e. (digit-word n (ground (arith, e)), tt))
      (λ e.
        All-append _ (digits_from f (n / 10)) _ (digits_from-Words f (n / 10))
          (digit-word (n % 10) (omega arith), tt))

pub digits-Words : (n : ℕ) → Words (digits n)
unfolding digits
digits-Words n = digits_from-Words (suc n) n

-- `[A-Za-z][A-Za-z0-9_]*`
abbrev pub Ident : List ℕ → Type 0
Ident [] = false ≡ true
Ident (c ∷ cs) = (is_letter c ≡ true) × Words cs

append-Ident : (xs ys : List ℕ) → Ident xs → Words ys → Ident (xs ++ ys)
append-Ident [] ys h k = absurd (cc)
append-Ident (x ∷ xs) ys (l, h) k = (l, All-append _ xs ys h k)

base_of-Ident : (prefix text : List ℕ) → Ident prefix → Ident (base_of prefix text)
unfolding base_of is_word is_alphanumeric is_letter
base_of-Ident prefix text h = append-Ident prefix _ h (
  refl,
  or_x-Words _
      (All-take _ 40 _ (strip_end-Words _ (strip_start-Words _ (flatten-Words false text)))),
)

pub numbered-Ident : (base : List ℕ) (n : ℕ) → Ident base → Ident (numbered base n)
unfolding numbered is_word is_alphanumeric is_letter
numbered-Ident base n h = append-Ident base _ h (refl, digits-Words n)

pick-Ident :
    (f : ℕ) (taken : List (List ℕ)) (base id : List ℕ) (n : ℕ)
    → Ident base
    → Ident id
    → Ident (pick f taken base id n)
unfolding pick
pick-Ident zero taken base id n b h = h
pick-Ident (suc f) taken base id n b h =
    either_way Ident (has_id taken id) _ _
      (pick-Ident f taken base (numbered base n) (suc n) b (numbered-Ident base n b)) h

pub record Spelled (ids : IdAllocator) : Type 0 where
  pub of_prefix : Ident ids.prefix
  pub of_ids : (text id : List ℕ) → find text ids.by_label ≡ some id → Ident id

pub allocator-Spelled : (prefix : List ℕ) → Ident prefix → Spelled (allocator prefix)
unfolding find
allocator-Spelled prefix h = record { of_prefix = h; of_ids = λ text id e. absurd (cc) }

-- What `get` gives is an identifier, and so it stays.
pub get-Spelled :
    (text : List ℕ) (ids : IdAllocator)
    → Spelled ids
    → Ident (get text ids).0 × Spelled (get text ids).1
get-Spelled text ids s = elim (get-cases text ids) [
  | inl (id, e, g) ↦ rw g (s.of_ids text id e, s)
  | inr (e, g) ↦
      let base = base_of-Ident ids.prefix text s.of_prefix in
      let new = pick-Ident (length ids.taken) ids.taken _ _ 1 base base in
      rw g (
        new,
        record {
          of_prefix = s.of_prefix;
          of_ids = λ b i d. elim (find-more text _ b i ids.by_label d) [
            | inl (same, f) ↦ subst Ident (sym f) new
            | inr f ↦ s.of_ids b i f
          ];
        },
      )
]
