-- ===== src/Tools/Inside.antt =====
-- What the paths are that `resolveInside` of libs/common/src/codegraph/graph-tools.ts lets through.
use mathlib.Core.Option.{some-injective}
use mathlib.Core.List.{append_assoc}
use codemind_backend.Common.{
  ℕ, Bool, true, false, ◌&&◌, ◌||◌, some, List, [], ◌∷◌, ◌++◌, All, All-append, ◌==◌, ==_iff,
  ==-refl, ◌≡◌, ◌⊎◌, inl, inr, refl, sym, ◌∙◌, ap, subst, Bool-cases, either_known, either_way,
}
use codemind_backend.Tools.Paths.{
  slash, dot, units_eq, begins_with, split_from, parent, enter, enter_all, resolve, segments_text,
  path_text, resolve_inside,
}

abbrev pub Slashless : List ℕ → Type 0
Slashless s = All (λ x. (x == slash) ≡ false) s

-- A segment that names a file or a directory below.
pub record Plain (s : List ℕ) : Type 0 where
  pub slashless : Slashless s
  pub named : (units_eq s [] || units_eq s (dot ∷ [])) ≡ false
  pub no_ascent : units_eq s (dot ∷ dot ∷ []) ≡ false

pub units_eq_refl : (s : List ℕ) → units_eq s s ≡ true
units_eq_refl [] = refl
units_eq_refl (x ∷ s) = rw (==-refl x) (units_eq_refl s)

pub and-both : (b c : Bool) → b && c ≡ true → (b ≡ true) × (c ≡ true)
and-both true c h = (refl, h)
and-both false c h = absurd cc

pub units_eq-same : (s t : List ℕ) → units_eq s t ≡ true → s ≡ t
units_eq-same [] [] h = refl
units_eq-same [] (y ∷ ys) h = absurd cc
units_eq-same (x ∷ xs) [] h = absurd cc
units_eq-same (x ∷ xs) (y ∷ ys) h =
    let p = and-both _ _ h in let e = (==_iff x y).0 p.0 in let d = units_eq-same xs ys p.1 in cc

split_from-Slashless :
    (segment rest : List ℕ) → Slashless segment → All Slashless (split_from segment rest)
unfolding split_from
split_from-Slashless segment [] h = (h, tt)
split_from-Slashless segment (x ∷ xs) h =
    either_known (All Slashless) (x == slash) _ _ (λ e. (h, split_from-Slashless [] xs tt))
      (λ e. split_from-Slashless (segment ++ x ∷ []) xs (All-append _ segment (x ∷ []) h (e, tt)))

parent-All : (P : List ℕ → Type 0) (ss : List (List ℕ)) → All P ss → All P (parent ss)
unfolding parent
parent-All P [] h = tt
parent-All P (s ∷ []) h = tt
parent-All P (s ∷ t ∷ rest) (p, h) = (p, parent-All P (t ∷ rest) h)

enter-Plain :
    (base : List (List ℕ)) (s : List ℕ) → Slashless s → All Plain base → All Plain (enter base s)
unfolding enter
enter-Plain base s h b =
    either_known (All Plain) (units_eq s [] || units_eq s (dot ∷ [])) _ _ (λ e. b)
      (λ e.
        either_known (All Plain) (units_eq s (dot ∷ dot ∷ [])) _ _ (λ d. parent-All Plain base b)
          (λ d.
            All-append Plain base (s ∷ []) b
              (record { slashless = h; named = e; no_ascent = d }, tt)))

enter_all-Plain :
    (base ss : List (List ℕ)) → All Slashless ss → All Plain base → All Plain (enter_all base ss)
unfolding enter_all
enter_all-Plain base [] h b = b
enter_all-Plain base (s ∷ ss) (p, h) b =
    enter_all-Plain (enter base s) ss h (enter-Plain base s p b)

resolve-Plain :
    (root : List (List ℕ)) (rel : List ℕ) → All Plain root → All Plain (resolve root rel)
unfolding resolve
resolve-Plain root rel h =
    either_way (All Plain) (begins_with rel (slash ∷ [])) _ _
      (enter_all-Plain [] _ (split_from-Slashless [] rel tt) tt)
      (enter_all-Plain root _ (split_from-Slashless [] rel tt) h)

-- Where one text of segments goes on with a slash behind a segment, the other has that segment.
same_segment :
    (s t x : List ℕ) (ts : List (List ℕ))
    → Slashless s
    → Slashless t
    → begins_with (t ++ segments_text ts) (s ++ slash ∷ x) ≡ true
    → (s ≡ t) × (begins_with (segments_text ts) (slash ∷ x) ≡ true)
same_segment [] [] x ts p q h = (refl, h)
same_segment [] (b ∷ t) x ts p (q, qs) h =
    absurd (let d = (and-both (b == slash) (begins_with (t ++ segments_text ts) x) h).0 in cc)
same_segment (a ∷ s) [] x [] (p, ps) q h = absurd cc
same_segment (a ∷ s) [] x (u ∷ ts) (p, ps) q h =
    absurd
      (let d = (==_iff slash a).0 ((and-both _ _ h).0) in let r = (==_iff a slash).1 (sym d) in cc)
same_segment (a ∷ s) (b ∷ t) x ts (p, ps) (q, qs) h =
    let d = and-both _ _ h in
    let e = (==_iff b a).0 d.0 in
    let r = same_segment s t x ts ps qs d.1 in (let f = r.0 in cc, r.1)

behind : (ss : List (List ℕ)) → (x : List ℕ) × (segments_text ss ++ slash ∷ [] ≡ slash ∷ x)
behind [] = ([], refl)
behind (s ∷ ss) = ((s ++ segments_text ss) ++ slash ∷ [], refl)

-- A text of segments that begins with another and a slash has those segments first.
segments_text-prefix :
    (root abs : List (List ℕ))
    → All Plain root
    → All Plain abs
    → begins_with (segments_text abs) (segments_text root ++ slash ∷ []) ≡ true
    → (rest : List (List ℕ)) × (abs ≡ root ++ rest)
segments_text-prefix [] abs p q h = (abs, refl)
segments_text-prefix (s ∷ ss) [] p q h = absurd cc
segments_text-prefix (s ∷ ss) (t ∷ ts) (p, ps) (q, qs) h =
    let b = behind ss in
    let e : (s ++ segments_text ss) ++ slash ∷ [] ≡ s ++ slash ∷ b.0 =
      append_assoc s (segments_text ss) (slash ∷ []) ∙ ap (λ y. s ++ y) b.1 in
    let tail : begins_with (t ++ segments_text ts) ((s ++ segments_text ss) ++ slash ∷ []) ≡ true =
      h in
    let r = same_segment s t b.0 ts p.slashless q.slashless (rw e at tail) in
    let deeper = segments_text-prefix ss ts ps qs (rw b.1 r.1) in
    (deeper.0, let f = r.0 in let g = deeper.1 in cc)

All-rest : (P : List ℕ → Type 0) (xs ys : List (List ℕ)) → All P (xs ++ ys) → All P ys
All-rest P [] ys h = h
All-rest P (x ∷ xs) ys (p, h) = All-rest P xs ys h

-- The root itself, or a path below it whose further segments all go down.
unfoldable pub Contained : List (List ℕ) → List (List ℕ) → Type 0
Contained root abs =
    (path_text abs ≡ path_text root)
    ⊎ ((rest : List (List ℕ)) × (abs ≡ root ++ rest) × All Plain rest)

below :
    (root abs : List (List ℕ))
    → All Plain root
    → All Plain abs
    → begins_with (path_text abs) (path_text root ++ slash ∷ []) ≡ true
    → Contained root abs
unfolding path_text Contained
below [] abs p q h = inr (abs, refl, q)
below (s ∷ ss) [] p q h = absurd (nothing s (segments_text ss) h)
  where
    nothing : (s x : List ℕ) → begins_with (slash ∷ []) (slash ∷ (s ++ x) ++ slash ∷ []) ≡ true → ⊥
    nothing [] [] h = cc
    nothing [] (y ∷ x) h = cc
    nothing (a ∷ s) x h = cc
below (s ∷ ss) (t ∷ ts) p q h =
    let r = segments_text-prefix (s ∷ ss) (t ∷ ts) p q h in
    inr (r.0, r.1, All-rest Plain (s ∷ ss) r.0 (subst (All Plain) r.1 q))

-- Whatever path the model gives, absolute or with any `..` in it, one that is let through is the
-- root of the checkout itself, or lies below it: it is the root with further segments, none of
-- them empty, `.` or `..`, and none with a slash in it. (The root is an absolute path without such
-- segments, as `path.resolve` gives it.)
pub resolve_inside-Contained :
    (root : List (List ℕ)) (rel : List ℕ) (abs : List (List ℕ))
    → All Plain root
    → resolve_inside root rel ≡ some abs
    → Contained root abs
unfolding resolve_inside Contained
resolve_inside-Contained root rel abs p e =
    let q = resolve-Plain root rel p in
    either_known (λ o. o ≡ some abs → Contained root abs)
      (units_eq (path_text (resolve root rel)) (path_text root)
        || begins_with (path_text (resolve root rel)) (path_text root ++ slash ∷ []))
      _ _
      (λ passed d.
        subst (Contained root) (some-injective _ _ d)
          (elim (Bool-cases (units_eq (path_text (resolve root rel)) (path_text root))) [
            | inl same ↦ inl (units_eq-same _ _ same)
            | inr other ↦ below root _ p q (rw other at passed)
          ]))
      (λ failed d. absurd cc) e
