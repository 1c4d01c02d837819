-- ===== src/World/Triple.antt =====
-- What holds after an action, whether it resolves or rejects: a rule for each way to build one.
use codemind_backend.Common.{
  Bool, true, false, Option, none, some, List, [], ◌∷◌, ◌≡◌, refl, if◌then◌else◌,
}
use codemind_backend.World.{World, JobRow}
use codemind_backend.World.Action.{
  Error, Outcome, ok, thrown, Action, ◌>>=◌, pure, throw, catch, call, update_job, local,
  after_outage, with_row, outage,
}

abbrev pub Ends :
    {A : Type 0} → (A → World → Type 0) → (Error → World → Type 0) → Outcome A → Type 0
Ends Q E (ok a w) = Q a w
Ends Q E (thrown e w) = E e w

-- From a state with `P`, the action resolves to `Q` or rejects with `E`.
pub record Triple {A : Type 0} (P : World → Type 0) (m : Action A) (Q : A → World → Type 0)
    (E : Error → World → Type 0) : Type 0 where
  pub at : (w : World) → P w → Ends Q E (m w)

-- The action keeps `P` on both ways out.
abbrev pub Keeps : {A : Type 0} → (World → Type 0) → Action A → Type 0
Keeps P m = Triple P m (λ _ w. P w) (λ _ w. P w)

module _ {A : Type 0} {P : World → Type 0} {Q : A → World → Type 0}
    {E : Error → World → Type 0} where
  pub Triple-pure : (a : A) → ((w : World) → P w → Q a w) → Triple P (pure a) Q E
  Triple-pure a h = record { at = h }

  pub Triple-throw : (e : Error) → ((w : World) → P w → E e w) → Triple {A = A} P (throw e) Q E
  Triple-throw e h = record { at = h }

  pub Triple-if :
      (b : Bool) (m n : Action A)
      → (b ≡ true → Triple P m Q E)
      → (b ≡ false → Triple P n Q E)
      → Triple P (if b then m else n) Q E
  Triple-if true m n hm hn = hm refl
  Triple-if false m n hm hn = hn refl

  -- An await rejects with only the outage used up, or does its read and its write.
  pub Triple-call :
      (read : World → A) (write : World → World)
      → ((w : World) (r : List Bool) → P w → P (record w { outages = r }))
      → ((w : World) → P w → Q (read w) (write w))
      → ((w : World) → P w → E outage w)
      → Triple P (call read write) Q E
  unfolding call
  Triple-call read write skip good bad = record { at = λ w h. go w w.outages h }
    where
      go : (w : World) (l : List Bool) → P w → Ends Q E (after_outage l read write w)
      go w [] h = good w h
      go w (true ∷ r) h = bad _ (skip w r h)
      go w (false ∷ r) h = good _ (skip w r h)

module _ {P : World → Type 0} (write : World → World) where
  pub Keeps-local : ((w : World) → P w → P (write w)) → Keeps P (local write)
  Keeps-local h = record { at = h }

module _ {A B : Type 0} {R : A → World → Type 0} {Q : B → World → Type 0}
    {E : Error → World → Type 0} where
  bind-Ends :
      (o : Outcome A) (f : A → Action B)
      → Ends R E o
      → ((a : A) → Triple (R a) (f a) Q E)
      → Ends Q E (elim o [ ok a w' ↦ f a w' | thrown e w' ↦ thrown e w' ])
  bind-Ends (ok a w) f h k = (k a).at w h
  bind-Ends (thrown e w) f h k = h

  pub Triple-bind :
      {P : World → Type 0} (m : Action A) (f : A → Action B)
      → Triple P m R E
      → ((a : A) → Triple (R a) (f a) Q E)
      → Triple P (m >>= f) Q E
  Triple-bind m f h k = record { at = λ w p. bind-Ends (m w) f (h.at w p) k }

module _ {A : Type 0} {Q : A → World → Type 0} {R E : Error → World → Type 0} where
  catch-Ends :
      (o : Outcome A) (f : Error → Action A)
      → Ends Q R o
      → ((e : Error) → Triple (R e) (f e) Q E)
      → Ends Q E (elim o [ ok a w' ↦ ok a w' | thrown e w' ↦ f e w' ])
  catch-Ends (ok a w) f h k = h
  catch-Ends (thrown e w) f h k = (k e).at w h

  pub Triple-catch :
      {P : World → Type 0} (m : Action A) (f : Error → Action A)
      → Triple P m Q R
      → ((e : Error) → Triple (R e) (f e) Q E)
      → Triple P (catch m f) Q E
  Triple-catch m f h k = record { at = λ w p. catch-Ends (m w) f (h.at w p) k }

-- An update of the job's row rejects where there is none.
module _ {P : World → Type 0} {Q : Unit {0} → World → Type 0} {E : Error → World → Type 0}
    (f : JobRow → JobRow) where
  pub Triple-update_job :
      ((w : World) (r : List Bool) → P w → P (record w { outages = r }))
      → ((w : World) (r : JobRow) → P w → Q tt (record w { row = some (f r) }))
      → ((e : Error) (w : World) → P w → E e w)
      → Triple P (update_job f) Q E
  unfolding update_job
  Triple-update_job skip set bad =
      Triple-bind {R = λ _ w. P w} _ _ (Triple-call _ _ skip (λ w h. h) (λ w h. bad outage w h))
        (λ _. record { at = λ w h. go w w.row h })
    where
      go : (w : World) (o : Option JobRow) → P w → Ends Q E (with_row f o w)
      go w none h = bad _ w h
      go w (some r) h = set w r h
