-- ===== src/Facts/Weights.antt =====
-- What the weights of apps/orchestrator/src/facts/repo-facts.service.ts count.
use codemind_backend.Common.{
  ℕ, suc, ◌+◌, Bool, true, false, ◌&&◌, ◌||◌, not, String, Option, none, some, List, [], ◌∷◌, ◌++◌,
  str_eq, str_eq_iff, ◌≡◌, ◌≢◌, sym, subst, ◌∙◌, inl, inr, refl, ap, arith, Bool-cases,
  Option-cases, either_known, if◌then◌else◌,
}
use codemind_backend.Text.{is_empty}
use codemind_backend.Facts.{Node, Graph}
use codemind_backend.Facts.Modules.{
  Edge, Cell, Row, bump_cell, bump, row_edges, edges_of, or_root, counts_as, add_imports, add_file,
  add_files, imported, add_packages,
}

-- One, if an edge of these two ends is asked for.
abbrev pub asked : (a b from to : String) → ℕ
asked a b from to = if str_eq from a && str_eq to b then 1 else 0

abbrev weighed : (a b from to : String) → ℕ → ℕ
weighed a b from to n = if str_eq from a && str_eq to b then n else 0

-- The weight of all edges from `a` to `b`.
unfoldable pub weight_of : String → String → List Edge → ℕ
weight_of a b [] = 0
weight_of a b (e ∷ es) = weighed a b e.from e.to e.weight + weight_of a b es

weight_of-append :
    (a b : String) (es ds : List Edge)
    → weight_of a b (es ++ ds) ≡ weight_of a b es + weight_of a b ds
unfolding weight_of
weight_of-append a b [] ds = omega arith
weight_of-append a b (e ∷ es) ds = omega (arith, weight_of-append a b es ds)

weighed-suc :
    (a b f t : String) (n : ℕ) → weighed a b f t (suc n) ≡ asked a b f t + weighed a b f t n
weighed-suc a b f t n = go (str_eq f a && str_eq t b)
  where
    go : (c : Bool) → (if c then suc n else 0) ≡ (if c then 1 else 0) + (if c then n else 0)
    go true = omega arith
    go false = refl

weight_of-bump_cell :
    (a b from to : String) (cs : List Cell)
    → weight_of a b (row_edges from (bump_cell to cs))
      ≡ asked a b from to + weight_of a b (row_edges from cs)
unfolding weight_of row_edges bump_cell
weight_of-bump_cell a b from to [] = refl
weight_of-bump_cell a b from to (c ∷ cs) =
    either_known
      (λ ds.
        weight_of a b (row_edges from ds)
        ≡ asked a b from to + weight_of a b (row_edges from (c ∷ cs)))
      (str_eq c.target to) _ _
      (λ e.
        let same = (str_eq_iff c.target to).0 e in
        let w = weighed-suc a b from c.target c.count in
        let k = ap (asked a b from) same in omega (arith, w, k))
      (λ e. omega (arith, weight_of-bump_cell a b from to cs))

weight_of-bump :
    (a b from to : String) (rows : List Row)
    → weight_of a b (edges_of (bump from to rows))
      ≡ asked a b from to + weight_of a b (edges_of rows)
unfolding edges_of bump
weight_of-bump a b from to [] =
    let l = weight_of-append a b (row_edges from (bump_cell to [])) [] in
    let c = weight_of-bump_cell a b from to [] in omega (arith, l, c)
weight_of-bump a b from to (r ∷ rs) =
    let l = weight_of-append a b (row_edges r.source r.cells) (edges_of rs) in
    either_known
      (λ ws. weight_of a b (edges_of ws) ≡ asked a b from to + weight_of a b (edges_of (r ∷ rs)))
      (str_eq r.source from) _ _
      (λ e.
        let same = (str_eq_iff r.source from).0 e in
        let k = ap (λ f. asked a b f to) same in
        let c = weight_of-bump_cell a b r.source to r.cells in
        let m = weight_of-append a b (row_edges r.source (bump_cell to r.cells)) (edges_of rs) in
        omega (arith, l, c, m, k))
      (λ e.
        let m = weight_of-append a b (row_edges r.source r.cells) (edges_of (bump from to rs)) in
        omega (arith, l, m, weight_of-bump a b from to rs))

-- The module of a file that imports, and of one that is imported.
abbrev pub stands_in : String → Option String → Bool
stands_in a none = str_eq "(root)" a
stands_in a (some x) = str_eq x a

abbrev pub lies_in : String → Option String → Bool
lies_in b none = false
lies_in b (some x) = str_eq x b

stands_in_root : (a : String) (t : Option String) → str_eq (or_root t) a ≡ stands_in a t
stands_in_root a none = refl
stands_in_root a (some x) = refl

abbrev once_if : Bool → Bool → ℕ
once_if c b = if b && c then 1 else 0

and-false : (b : Bool) {c : Bool} → c ≡ false → (b && c) ≡ false
and-false true h = h
and-false false h = refl

or-true : (b : Bool) → (b || true) ≡ true
or-true true = refl
or-true false = refl

either-same : (b : Bool) (n : ℕ) → (if b then n else n) ≡ n
either-same true n = refl
either-same false n = refl

str_eq-apart : (x y : String) → x ≢ y → str_eq x y ≡ false
str_eq-apart x y apart = elim (Bool-cases (str_eq x y)) [
  | inl e ↦ absurd (apart ((str_eq_iff x y).0 e))
  | inr e ↦ e
]

module _ (g : Graph) (m : String → Option String) where
  -- What an import of a file of module `from` adds to the edge from `a` to `b`.
  abbrev added : String → String → String → Option String → ℕ
  added a b from t = if counts_as g m from t then asked a b from (or_root t) else 0

  unfoldable added_of : String → String → String → List String → ℕ
  added_of a b from [] = 0
  added_of a b from (dep ∷ deps) = added a b from (m dep) + added_of a b from deps

  abbrev added_in : String → String → String → Option (List String) → ℕ
  added_in a b from none = 0
  added_in a b from (some deps) = added_of a b from deps

  unfoldable added_by : String → String → List String → ℕ
  unfolding added_of
  added_by a b [] = 0
  added_by a b (f ∷ fs) = added_in a b (or_root (m f)) (g.get_file_dependencies f) + added_by a b fs

  -- One, if a file of the first module imports one of the second.
  abbrev pub crosses : String → String → Option String → Option String → ℕ
  crosses a b importer imported_file =
      if stands_in a importer && lies_in b imported_file then 1 else 0

  unfoldable pub imports_of : String → String → Option String → List String → ℕ
  imports_of a b importer [] = 0
  imports_of a b importer (dep ∷ deps) = crosses a b importer (m dep) + imports_of a b importer deps

  abbrev pub imports_in : String → String → Option String → Option (List String) → ℕ
  imports_in a b importer none = 0
  imports_in a b importer (some deps) = imports_of a b importer deps

  -- How many imports of the files of module `a` are of files of module `b`.
  unfoldable pub imports_between : String → String → List String → ℕ
  unfolding imports_of
  imports_between a b [] = 0
  imports_between a b (f ∷ fs) =
      imports_in a b (m f) (g.get_file_dependencies f) + imports_between a b fs

  add_imports-weight :
      (a b from : String) (deps : List String) (rows : List Row)
      → weight_of a b (edges_of (add_imports g m from deps rows))
        ≡ added_of a b from deps + weight_of a b (edges_of rows)
  unfolding add_imports added_of
  add_imports-weight a b from [] rows = omega arith
  add_imports-weight a b from (dep ∷ deps) rows = elim (Bool-cases (counts_as g m from (m dep))) [
    | inl e ↦ rw e (
        let w = add_imports-weight a b from deps (bump from (or_root (m dep)) rows) in
        let k = weight_of-bump a b from (or_root (m dep)) rows in omega (arith, w, k))
    | inr e ↦ rw e (let w = add_imports-weight a b from deps rows in omega (arith, w))
  ]

  add_file-weight :
      (a b from : String) (deps : Option (List String)) (rows : List Row)
      → weight_of a b (edges_of (add_file g m from deps rows))
        ≡ added_in a b from deps + weight_of a b (edges_of rows)
  add_file-weight a b from none rows = omega arith
  add_file-weight a b from (some deps) rows = add_imports-weight a b from deps rows

  add_files-weight :
      (a b : String) (files : List String) (rows : List Row)
      → weight_of a b (edges_of (add_files g m files rows))
        ≡ added_by a b files + weight_of a b (edges_of rows)
  unfolding add_files added_by
  add_files-weight a b [] rows = omega arith
  add_files-weight a b (f ∷ fs) rows =
      let w =
        add_files-weight a b fs (add_file g m (or_root (m f)) (g.get_file_dependencies f) rows) in
      let k = add_file-weight a b (or_root (m f)) (g.get_file_dependencies f) rows in
      omega (arith, w, k)

  added-crosses :
      (a b from : String) (t : Option String)
      → a ≢ b
      → is_empty b ≡ false
      → added a b from t ≡ (if str_eq from a && lies_in b t then 1 else 0)
  unfolding counts_as
  added-crosses a b from none distinct named = rw (and-false (str_eq from a) refl) refl
  added-crosses a b from (some to) distinct named = elim (Bool-cases (str_eq from a)) [
    | inr e ↦ rw e (either-same (not (is_empty to || str_eq to from)) 0)
    | inl e ↦ elim (Bool-cases (str_eq to b)) [
      | inr d ↦ rw (e, d) (either-same (not (is_empty to || str_eq to from)) 0)
      | inl d ↦
          let from_a = (str_eq_iff from a).0 e in
          let to_b = (str_eq_iff to b).0 d in
          let full : is_empty to ≡ false = subst (λ x. is_empty x ≡ false) (sym to_b) named in
          let apart : str_eq to from ≡ false =
            str_eq-apart to from (λ h. distinct (sym (sym to_b ∙ (h ∙ from_a)))) in
          rw (full, apart) refl
    ]
  ]

  added_self : (a from : String) (t : Option String) → added a a from t ≡ 0
  unfolding counts_as
  added_self a from none = refl
  added_self a from (some to) = elim (Bool-cases (str_eq to from)) [
    | inl h ↦ rw (h, or-true (is_empty to)) refl
    | inr h ↦ elim (Bool-cases (str_eq from a)) [
      | inr e ↦ rw e (either-same (not (is_empty to || str_eq to from)) 0)
      | inl e ↦
          let apart : str_eq to a ≡ false =
            subst (λ x. str_eq to x ≡ false) ((str_eq_iff from a).0 e) h in
          rw (e, apart) (either-same (not (is_empty to || str_eq to from)) 0)
    ]
  ]

  added_of-imports_of :
      (a b : String) (importer : Option String) (deps : List String)
      → a ≢ b
      → is_empty b ≡ false
      → added_of a b (or_root importer) deps ≡ imports_of a b importer deps
  unfolding added_of imports_of
  added_of-imports_of a b importer [] distinct named = refl
  added_of-imports_of a b importer (dep ∷ deps) distinct named =
      let one = added-crosses a b (or_root importer) (m dep) distinct named in
      let same = ap (once_if (lies_in b (m dep))) (stands_in_root a importer) in
      let rest = added_of-imports_of a b importer deps distinct named in
      omega (arith, one, same, rest)

  added_by-imports_between :
      (a b : String) (files : List String)
      → a ≢ b
      → is_empty b ≡ false
      → added_by a b files ≡ imports_between a b files
  unfolding added_by imports_between
  added_by-imports_between a b [] distinct named = refl
  added_by-imports_between a b (f ∷ fs) distinct named =
      let rest = added_by-imports_between a b fs distinct named in
      let here = step (g.get_file_dependencies f) in omega (arith, here, rest)
    where
      step :
          (deps : Option (List String))
          → added_in a b (or_root (m f)) deps ≡ imports_in a b (m f) deps
      step none = refl
      step (some deps) = added_of-imports_of a b (m f) deps distinct named

  added_of_self : (a from : String) (deps : List String) → added_of a a from deps ≡ 0
  unfolding added_of
  added_of_self a from [] = refl
  added_of_self a from (dep ∷ deps) =
      let one = added_self a from (m dep) in
      let rest = added_of_self a from deps in omega (arith, one, rest)

  added_by_self : (a : String) (files : List String) → added_by a a files ≡ 0
  unfolding added_by
  added_by_self a [] = refl
  added_by_self a (f ∷ fs) =
      let rest = added_by_self a fs in
      let here = step (g.get_file_dependencies f) in omega (arith, here, rest)
    where
      step : (deps : Option (List String)) → added_in a a (or_root (m f)) deps ≡ 0
      step none = refl
      step (some deps) = added_of_self a (or_root (m f)) deps

  -- Before the list of the module edges is cut, the weight from one module to a different one is the
  -- number of imports in the indexed files of the first that are of files of the second (a file
  -- without a module stands in the root as an importer, and counts for none when imported), and no
  -- edge leads from a module to itself. (The second module's name is not empty.)
  pub module_edges-weight :
      (a b : String) (files : List String)
      → a ≢ b
      → is_empty b ≡ false
      → (weight_of a b (edges_of (add_files g m files [])) ≡ imports_between a b files)
        × (weight_of a a (edges_of (add_files g m files [])) ≡ 0)
  unfolding edges_of weight_of
  module_edges-weight a b files distinct named =
      let w = add_files-weight a b files [] in
      let other = added_by-imports_between a b files distinct named in
      let v = add_files-weight a a files [] in
      let self = added_by_self a files in (omega (arith, w, other), omega (arith, v, self))

  -- How many import nodes of a module name a package that is declared.
  unfoldable pub package_imports : String → String → List String → List Node → ℕ
  package_imports a b declared [] = 0
  package_imports a b declared (n ∷ ns) = elim (imported g m declared n) [
    | none ↦ package_imports a b declared ns
    | some pkg ↦ asked a b (or_root (m n.file_path)) pkg + package_imports a b declared ns
  ]

  add_packages-weight :
      (a b : String) (declared : List String) (ns : List Node) (rows : List Row)
      → weight_of a b (edges_of (add_packages g m declared ns rows))
        ≡ package_imports a b declared ns + weight_of a b (edges_of rows)
  unfolding add_packages package_imports
  add_packages-weight a b declared [] rows = omega arith
  add_packages-weight a b declared (n ∷ ns) rows = elim (Option-cases (imported g m declared n)) [
    | inl e ↦ rw (e, add_packages, package_imports) (add_packages-weight a b declared ns rows)
    | inr (pkg, e) ↦
        rw (e, add_packages, package_imports)
          (let w = add_packages-weight a b declared ns (bump (or_root (m n.file_path)) pkg rows) in
            let k = weight_of-bump a b (or_root (m n.file_path)) pkg rows in omega (arith, w, k))
  ]

  -- Likewise from a module to a package, over the import nodes of the declared packages.
  pub package_edges-weight :
      (a b : String) (declared : List String) (ns : List Node)
      → weight_of a b (edges_of (add_packages g m declared ns [])) ≡ package_imports a b declared ns
  unfolding edges_of weight_of
  package_edges-weight a b declared ns =
      let w = add_packages-weight a b declared ns [] in omega (arith, w)
