-- ===== src/Handles/Leaks.antt =====
-- Which graph handles of libs/common/src/codegraph/codegraph.service.ts are closed in the end.
use codemind_backend.Common.{
  ℕ, true, false, String, none, some, ==-refl, ◌≡◌, ◌≢◌, ◌⊎◌, inl, inr, refl, ◌∙◌, subst, arith,
  Option-cases,
}
use mathlib.Core.Bool.{or-true}
use codemind_backend.Handles.Maps.{
  set_path-other, set_path-same, set_ticket-other, set_ticket-same, ticket-cases,
}
use codemind_backend.Handles.Safety.{live, Inv, Reach-Inv, pending-live, empty-Inv}
use codemind_backend.Handles.{
  Handles, Status, pending, opened, failed, ended, empty, set_path, set_ticket, open_new,
  open_graph, resolve, reject, evict, close, land, holds, on_module_destroy, Step, opens, resolves,
  closes, lands, destroys, Reach, Calm, still, more,
}

-- Every live promise is cached under its path, or its handle will be closed.
unfoldable pub Attended : Handles → Type 0
Attended h =
    (t : ℕ) → live (h.status t) ≡ true → (h.graphs (h.path_of t) ≡ some t) ⊎ (h.closing t ≡ true)

open_new-Attended :
    (p : String) (h : Handles) → h.graphs p ≡ none → Attended h → Attended (open_new p h)
unfolding Attended open_new live
open_new-Attended p h miss a t alive = elim (ticket-cases t h.fresh) [
  | inl same ↦ inl (
      let x = set_ticket-same h.fresh p h.path_of in
      let y = set_path-same p (some h.fresh) h.graphs in cc)
  | inr other ↦
      let x = set_ticket-other h.fresh p h.path_of t other in
      elim (a t
        (subst (λ s. live s ≡ true) (set_ticket-other h.fresh pending h.status t other) alive)) [
          | inl cached ↦
              inl (let y = set_path-other p (h.path_of t) (some h.fresh) h.graphs (λ e. cc) in cc)
          | inr chained ↦ inr chained
        ]
]

settle-Attended :
    (t : ℕ) (v : Status) (h : Handles)
    → live (h.status t) ≡ true
    → Attended h
    → Attended (record h { status = set_ticket t v h.status })
unfolding Attended
settle-Attended t v h before a s alive = elim (ticket-cases s t) [
  | inl same ↦ a s (rw same before)
  | inr other ↦ a s (subst (λ x. live x ≡ true) (set_ticket-other t v h.status s other) alive)
]

evict-Attended :
    (p : String) (t : ℕ) (h : Handles) → h.graphs p ≡ some t → Attended h → Attended (evict p t h)
unfolding Attended evict
evict-Attended p t h mine a s alive = elim (ticket-cases s t) [
  | inl same ↦ inr (rw same (set_ticket-same t true h.closing))
  | inr other ↦ elim (a s alive) [
    | inr chained ↦ inr (set_ticket-other t true h.closing s other ∙ chained)
    | inl cached ↦ inl (set_path-other p (h.path_of s) none h.graphs (λ same. other cc) ∙ cached)
  ]
]

destroy-Attended : (h : Handles) → Attended h → Attended (on_module_destroy h)
unfolding Attended on_module_destroy holds
destroy-Attended h a s alive = elim (a s alive) [
  | inr chained ↦ inr (rw chained refl)
  | inl cached ↦ inr (rw (cached, ==-refl s) (or-true (h.closing s)))
]

open_graph-Attended : (p : String) (h : Handles) → Attended h → Attended ((open_graph p h).1)
unfolding open_graph
open_graph-Attended p h a = elim (Option-cases (h.graphs p)) [
  | inl e ↦ rw (e, open_graph) (open_new-Attended p h e a)
  | inr (t, e) ↦ rw (e, open_graph) a
]

close-Attended : (p : String) (h : Handles) → Attended h → Attended (close p h)
unfolding close
close-Attended p h a = elim (Option-cases (h.graphs p)) [
  | inl e ↦ rw (e, close) a
  | inr (t, e) ↦ rw (e, close) (evict-Attended p t h e a)
]

step-Attended : {h k : Handles} → Step h k → Attended h → Attended k
unfolding resolve land live
step-Attended {h} (opens p) a = open_graph-Attended p h a
step-Attended {h} (resolves t e) a = settle-Attended t opened h (pending-live h t e) a
step-Attended {h} (closes p) a = close-Attended p h a
step-Attended {h} (lands t e chained) a = settle-Attended t ended h (rw e refl) a
step-Attended {h} destroys a = destroy-Attended h a

Calm-Attended : {h k : Handles} → Calm h k → Attended h → Attended k
Calm-Attended still a = a
Calm-Attended (more r s) a = step-Attended s (Calm-Attended r a)

empty-Attended : Attended empty
unfolding Attended empty live
empty-Attended t alive = absurd cc

-- As long as no opening fails, no handle is lost: after any openings, closings and destructions in any
-- order with the settling of what they started, a graph that is open or being opened is the one cached
-- under its path, or it will be closed; and once the module is destroyed, every one will be.
pub Calm-attended :
    (h : Handles) (t : ℕ)
    → Calm empty h
    → live (h.status t) ≡ true
    → ((h.graphs (h.path_of t) ≡ some t) ⊎ (h.closing t ≡ true))
      × ((on_module_destroy h).closing t ≡ true)
unfolding Attended on_module_destroy
Calm-attended h t r alive =
    let a = Calm-Attended r empty-Attended in
    (
      a t alive,
      elim (destroy-Attended h a t alive) [ inl cached ↦ absurd cc | inr chained ↦ chained ],
    )

-- The cache after a path is closed and opened again.
abbrev reopened : String → ℕ → Handles → Handles
reopened p t h = open_new p (evict p t h)

reopened_lem :
    (p : String) (t : ℕ) (h : Handles)
    → h.graphs p ≡ some t
    → (open_graph p (close p h)).1 ≡ reopened p t h
unfolding evict close open_graph open_new
reopened_lem p t h cached =
    let emptied = set_path-same p none h.graphs in
    rw (cached, close) (rw (emptied, open_graph) refl)

record Leaked (p : String) (t fresh : ℕ) (k : Handles) : Type 0 where
  recached : k.graphs p ≡ some fresh
  first_pends : k.status t ≡ pending
  pends : (reject t k).status fresh ≡ pending
  dropped : (reject t k).graphs p ≡ none
  unclosed : (on_module_destroy (reject t k)).closing fresh ≡ false

reopened-Leaked :
    (h : Handles) (p : String) (t : ℕ)
    → Inv h
    → h.graphs p ≡ some t
    → h.status t ≡ pending
    → Leaked p t h.fresh (reopened p t h)
unfolding open_new evict reject on_module_destroy holds
reopened-Leaked h p t i cached waits =
    let g = i.good p t cached in
    let younger : h.fresh ≢ t = λ e. omega (arith, g.old, e) in
    let older : t ≢ h.fresh = λ e. omega (arith, g.old, e) in
    let graphs = set_path p (some h.fresh) (set_path p none h.graphs) in
    let path : set_ticket h.fresh p h.path_of t ≡ p =
      set_ticket-other h.fresh p h.path_of t older ∙ g.keyed in
    let gone : set_path (set_ticket h.fresh p h.path_of t) none graphs p ≡ none =
      rw path (set_path-same p none graphs) in
    record {
      recached = set_path-same p (some h.fresh) (set_path p none h.graphs);
      first_pends = set_ticket-other h.fresh pending h.status t older ∙ waits;
      pends =
          set_ticket-other t failed (set_ticket h.fresh pending h.status) h.fresh younger
          ∙ set_ticket-same h.fresh pending h.status;
      dropped = gone;
      unclosed =
          rw
            (
              set_ticket-other t true h.closing h.fresh younger,
              i.clean h.fresh (omega arith),
              set_ticket-same h.fresh p h.path_of,
              gone,
            )
            refl;
    }

Leaked-close :
    (h : Handles) (p : String) (t : ℕ) (k : Handles)
    → Leaked p t h.fresh k
    → close p (reject t k) ≡ reject t k
unfolding reject close
Leaked-close h p t k l = rw (l.dropped, close) refl

-- Where a path is closed while its graph is still being opened, opened again, and the first opening
-- then fails, the second one's promise leaves the cache although its graph is still being opened,
-- and neither closing the path nor destroying the module will ever close it.
pub late_failure-Leaks :
    (h : Handles) (p : String) (t : ℕ)
    → Reach empty h
    → h.graphs p ≡ some t
    → h.status t ≡ pending
    → let k = (open_graph p (close p h)).1 in
      let after = reject t k in
      (k.graphs p ≡ some h.fresh)
      × (k.status t ≡ pending)
      × (after.status h.fresh ≡ pending)
      × (after.graphs p ≡ none)
      × (close p after ≡ after)
      × ((on_module_destroy after).closing h.fresh ≡ false)
late_failure-Leaks h p t r cached waits =
    let l : Leaked p t h.fresh ((open_graph p (close p h)).1) =
      rw (reopened_lem p t h cached) (reopened-Leaked h p t (Reach-Inv r empty-Inv) cached waits) in
    (l.recached, l.first_pends, l.pends, l.dropped, Leaked-close h p t _ l, l.unclosed)
