-- ===== src/Facts/Hops.antt =====
-- What the call chains of apps/orchestrator/src/facts/repo-facts.service.ts are in the code graph.
use mathlib.Core.List.{Memᴰ}
use mathlib.Core.Option.{some-injective}
use codemind_backend.Common.{
  ℕ, zero, suc, ◌≤◌, Bool, true, false, not, String, some, List, [], ◌∷◌, length, All, All-sort_by,
  All-keep, keep-All, All-map, ◌≡◌, inl, inr, refl, sym, arith, Option-cases, subst,
}
use codemind_backend.Facts.{Node, Graph, has}
use codemind_backend.Facts.Chains.{first, next_hop, walk}

-- Every hop of a trail is a callee that the graph gives for the node before it.
pub data Trail (g : Graph) : Node → List Node → Type 0 where
  stop : {n : Node} → Trail g n []
  hop :
      {n m : Node} {ns : List Node} (callees : List Node)
      → g.get_callees n.id ≡ some callees
      → Memᴰ m callees
      → Trail g m ns
      → Trail g n (m ∷ ns)

-- No id comes twice, nor is one of those seen before.
unfoldable pub Fresh : List String → List Node → Type 0
Fresh visited [] = Unit
Fresh visited (n ∷ ns) = (has n.id visited ≡ false) × Fresh (n.id ∷ visited) ns

pub Among-self : {A : Type 0} (xs : List A) → All (λ x. Memᴰ x xs) xs
Among-self [] = tt
Among-self (x ∷ xs) = (Memᴰ.head refl, All-map _ _ xs (λ y. Memᴰ.tail) (Among-self xs))

pub first-All : (P : Node → Type 0) (ns : List Node) (n : Node) → All P ns → first ns ≡ some n → P n
first-All P [] n h e = absurd cc
first-All P (m ∷ ns) n (p, h) e = subst P (some-injective m n e) p

not-true : (b : Bool) → not b ≡ true → b ≡ false
not-true true e = sym e
not-true false e = refl

next_hop-Among :
    (g : Graph) (current n : Node) (visited : List String) (cs : List Node)
    → next_hop g current visited cs ≡ some n
    → Memᴰ n cs
unfolding next_hop
next_hop-Among g current n visited cs e =
    first-All (λ x. Memᴰ x cs) _ n (All-sort_by _ _ _ (All-keep _ _ cs (Among-self cs))) e

next_hop-new :
    (g : Graph) (current n : Node) (visited : List String) (cs : List Node)
    → next_hop g current visited cs ≡ some n
    → has n.id visited ≡ false
unfolding next_hop
next_hop-new g current n visited cs e =
    let h =
      first-All (λ x. not (has x.id visited) ≡ true) _ n
        (All-sort_by _ _ _ (keep-All (λ x. not (has x.id visited)) cs)) e in
    not-true (has n.id visited) h

pub record Walked (g : Graph) (room : ℕ) (current : Node) (visited : List String) (ns : List Node)
    : Type 0 where
  pub trail : Trail g current ns
  pub unrepeated : Fresh visited ns
  pub short : length ns ≤ room

pub walk-Walked :
    (g : Graph) (room : ℕ) (current : Node) (visited : List String)
    → Walked g room current visited (walk g room current visited)
unfolding walk Fresh
walk-Walked g zero current visited = record { trail = stop; unrepeated = tt; short = omega arith }
walk-Walked g (suc room) current visited = elim (Option-cases (g.get_callees current.id)) [
  | inl e ↦ rw (e, walk) (record { trail = stop; unrepeated = tt; short = omega arith })
  | inr (cs, e) ↦ elim (Option-cases (next_hop g current visited cs)) [
    | inl d ↦ rw (e, d, walk) (record { trail = stop; unrepeated = tt; short = omega arith })
    | inr (n, d) ↦
        let w = walk-Walked g room n (n.id ∷ visited) in
        rw (e, d, walk)
          (record {
            trail = hop cs e (next_hop-Among g current n visited cs d) w.trail;
            unrepeated = (next_hop-new g current n visited cs d, w.unrepeated);
            short = omega (arith, w.short);
          })
  ]
]
