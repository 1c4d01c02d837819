-- ===== src/Handles/Safety.antt =====
-- What holds of the cache of graph handles of libs/common/src/codegraph/codegraph.service.ts
-- between events.
use codemind_backend.Common.{
  ℕ, ◌≤◌, ◌<◌, Bool, true, false, String, none, some, ◌≡◌, ◌≢◌, ◌⊎◌, inl, inr, refl, sym, ◌∙◌, ap,
  arith, Option-cases,
}
use codemind_backend.Handles.Maps.{
  set_path-none, set_path-other, set_path-same, set_ticket-other, set_ticket-same, ticket-cases,
  path-cases,
}
use codemind_backend.Handles.{
  Handles, Status, unborn, pending, opened, failed, ended, empty, set_path, set_ticket, open_new,
  open_graph, resolve, reject, evict, close, land, holds, on_module_destroy, Step, opens, resolves,
  closes, lands, destroys, Reach, here, next, fails,
}

-- A promise whose graph is being opened, or is open.
unfoldable pub live : Status → Bool
live unborn = false
live pending = true
live opened = true
live failed = false
live ended = false

-- What a cached promise is: an opening of its path that is live and that nothing will close.
pub record Good (h : Handles) (p : String) (t : ℕ) : Type 0 where
  pub keyed : h.path_of t ≡ p
  pub alive : live (h.status t) ≡ true
  pub kept : h.closing t ≡ false
  pub old : t < h.fresh

pub record Inv (h : Handles) : Type 0 where
  pub good : (p : String) (t : ℕ) → h.graphs p ≡ some t → Good h p t
  pub clean : (t : ℕ) → h.fresh ≤ t → h.closing t ≡ false
  pub quiet : (t : ℕ) → h.fresh ≤ t → live (h.status t) ≡ false

pub empty-Inv : Inv empty
unfolding empty live
empty-Inv = record { good = λ p t e. absurd cc; clean = λ t h. refl; quiet = λ t h. refl }

open_new-Good :
    (p : String) (h : Handles)
    → Inv h
    → (q : String) (t : ℕ) → (open_new p h).graphs q ≡ some t
    → Good (open_new p h) q t
unfolding open_new live
open_new-Good p h i q t e = elim (path-cases q p) [
  | inl same ↦
      let new : t ≡ h.fresh = let s = set_path-same p (some h.fresh) h.graphs in cc in
      record {
        keyed = let s = set_ticket-same h.fresh p h.path_of in cc;
        alive = let s = set_ticket-same h.fresh pending h.status in rw (new, s) refl;
        kept = i.clean t (omega (arith, new));
        old = omega (arith, new);
      }
  | inr other ↦
      let s = set_path-other p q (some h.fresh) h.graphs other in
      let g : Good h q t = i.good q t (cc) in
      let aged : t ≢ h.fresh = λ e. omega (arith, g.old, e) in
      record {
        keyed = set_ticket-other h.fresh p h.path_of t aged ∙ g.keyed;
        alive = rw (set_ticket-other h.fresh pending h.status t aged) g.alive;
        kept = g.kept;
        old = omega (arith, g.old);
      }
]

open_new-Inv : (p : String) (h : Handles) → Inv h → Inv (open_new p h)
unfolding open_new
open_new-Inv p h i = record {
  good = open_new-Good p h i;
  clean = λ t new. i.clean t (omega (arith, new));
  quiet = λ t new.
      rw (set_ticket-other h.fresh pending h.status t (λ e. omega (arith, new, e)))
        (i.quiet t (omega (arith, new)));
}

open_graph-Inv : (p : String) (h : Handles) → Inv h → Inv ((open_graph p h).1)
unfolding open_graph
open_graph-Inv p h i = elim (Option-cases (h.graphs p)) [
  | inl e ↦ rw (e, open_graph) (open_new-Inv p h i)
  | inr (t, e) ↦ rw (e, open_graph) i
]

-- A change of one promise's status keeps the invariant, where that promise is not cached, or lives.
settle-Inv :
    (t : ℕ) (v : Status) (h : Handles)
    → live (h.status t) ≡ true
    → (live v ≡ true) ⊎ ((p : String) → h.graphs p ≢ some t)
    → Inv h
    → Inv (record h { status = set_ticket t v h.status })
settle-Inv t v h before after i = record {
  good = λ p s e.
      let g = i.good p s e in
      record {
        keyed = g.keyed;
        alive = elim (ticket-cases s t) [
          | inl same ↦ elim after [
            | inl lives ↦ rw (same, set_ticket-same t v h.status) lives
            | inr gone ↦ absurd (gone p (rw (sym same) e))
          ]
          | inr other ↦ rw (set_ticket-other t v h.status s other) g.alive
        ];
        kept = g.kept;
        old = g.old;
      };
  clean = i.clean;
  quiet = λ s new.
      let q = i.quiet s new in
      rw (set_ticket-other t v h.status s (λ e. let c = ap (λ x. live (h.status x)) e in cc)) q;
}

-- Forgetting what a path is cached under keeps the invariant.
forget-Inv :
    (p : String) (h : Handles) → Inv h → Inv (record h { graphs = set_path p none h.graphs })
forget-Inv p h i = record {
  good = λ q t e.
      let g = i.good q t ((set_path-none p q h.graphs t e).0) in
      record { keyed = g.keyed; alive = g.alive; kept = g.kept; old = g.old };
  clean = i.clean;
  quiet = i.quiet;
}

pub pending-live : (h : Handles) (t : ℕ) → h.status t ≡ pending → live (h.status t) ≡ true
unfolding live
pending-live h t e = rw e refl

reject-Inv : (t : ℕ) (h : Handles) → h.status t ≡ pending → Inv h → Inv (reject t h)
unfolding reject
reject-Inv t h e i =
    settle-Inv t failed (record h { graphs = set_path (h.path_of t) none h.graphs })
      (pending-live h t e)
      (inr (λ p cached.
        let away = set_path-none (h.path_of t) p h.graphs t cached in
        away.1 (sym ((i.good p t away.0).keyed))))
      (forget-Inv (h.path_of t) h i)

evict-Inv : (p : String) (t : ℕ) (h : Handles) → h.graphs p ≡ some t → Inv h → Inv (evict p t h)
unfolding evict
evict-Inv p t h cached i = record {
  good = λ q s e.
      let away = set_path-none p q h.graphs s e in
      let g = i.good q s away.0 in
      let mine = i.good p t cached in
      record {
        keyed = g.keyed;
        alive = g.alive;
        kept =
            set_ticket-other t true h.closing s
              (λ same. away.1 (sym g.keyed ∙ ap h.path_of same ∙ mine.keyed))
            ∙ g.kept;
        old = g.old;
      };
  clean = λ s new.
      set_ticket-other t true h.closing s
        (λ same. let mine = i.good p t cached in omega (arith, new, same, mine.old))
      ∙ i.clean s new;
  quiet = i.quiet;
}

close-Inv : (p : String) (h : Handles) → Inv h → Inv (close p h)
unfolding close
close-Inv p h i = elim (Option-cases (h.graphs p)) [
  | inl e ↦ rw (e, close) i
  | inr (t, e) ↦ rw (e, close) (evict-Inv p t h e i)
]

land-Inv : (t : ℕ) (h : Handles) → h.status t ≡ opened → h.closing t ≡ true → Inv h → Inv (land t h)
unfolding land live
land-Inv t h e chained i =
    settle-Inv t ended h (rw e refl) (inr (λ p cached. let k = (i.good p t cached).kept in cc)) i

holds-Old :
    (h : Handles) → Inv h → (p : String) (t : ℕ) → h.fresh ≤ t → holds (h.graphs p) t ≡ false
unfolding holds
holds-Old h i p t new = elim (Option-cases (h.graphs p)) [
  | inl e ↦ rw e refl
  | inr (s, e) ↦ let o = (i.good p s e).old in rw e (ground (arith, o, new))
]

destroy-Inv : (h : Handles) → Inv h → Inv (on_module_destroy h)
unfolding on_module_destroy
destroy-Inv h i = record {
  good = λ p t e. absurd cc;
  clean = λ t new. rw (i.clean t new) (holds-Old h i (h.path_of t) t new);
  quiet = i.quiet;
}

pub step-Inv : {h k : Handles} → Step h k → Inv h → Inv k
unfolding resolve live
step-Inv {h} (opens p) i = open_graph-Inv p h i
step-Inv {h} (resolves t e) i = settle-Inv t opened h (pending-live h t e) (inl refl) i
step-Inv {h} (closes p) i = close-Inv p h i
step-Inv {h} (lands t e chained) i = land-Inv t h e chained i
step-Inv {h} destroys i = destroy-Inv h i

pub Reach-Inv : {h k : Handles} → Reach h k → Inv h → Inv k
Reach-Inv here i = i
Reach-Inv (next r s) i = step-Inv s (Reach-Inv r i)
Reach-Inv (fails {k} t r e) i = reject-Inv t k e (Reach-Inv r i)

-- After any events, what an opening of a path finds in the cache is a promise made for that very
-- path, whose graph is open or still being opened, and that nothing will close: never one that
-- failed, never a closed handle. The opening returns that promise and changes nothing.
pub open_graph-Shares :
    (h : Handles)
    → Reach empty h
    → (p : String) (t : ℕ) → h.graphs p ≡ some t
    → (open_graph p h ≡ (t, h))
      × (h.path_of t ≡ p)
      × (live (h.status t) ≡ true)
      × (h.closing t ≡ false)
unfolding open_graph
open_graph-Shares h r p t cached =
    let g = (Reach-Inv r empty-Inv).good p t cached in
    (rw (cached, open_graph) refl, g.keyed, g.alive, g.kept)
