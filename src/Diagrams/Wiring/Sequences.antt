-- ===== src/Diagrams/Wiring/Sequences.antt =====
-- The sequence diagrams and the security flow of apps/synthesizer/src/diagrams/d2-source.builder.ts.
use codemind_backend.Common.{
  ℕ, zero, suc, Bool, true, false, ◌||◌, none, List, [], ◌∷◌, ◌++◌, take, All, All-append, ◌≡◌,
  refl, sym, subst, either_way, either_known, if◌then◌else◌,
}
use codemind_backend.Tools.Paths.{units_eq}
use codemind_backend.Tools.Inside.{units_eq-same}
use codemind_backend.Diagrams.{units, Item, node, setting, closing}
use codemind_backend.Diagrams.Names.{
  IdAllocator, get, has, allocator, has_id, is_letter, is_alphanumeric,
}
use codemind_backend.Diagrams.Words.{Ident, is_word, digits-Words}
use codemind_backend.Diagrams.Counting.{is_terminator}
use codemind_backend.Diagrams.Counting.Renders.{tested-Inline}
use codemind_backend.Diagrams.Counting.Lines.{Inline}
use codemind_backend.Diagrams.Graphs.{
  among, participants, arrows, last_key, come_back, draw_sequence, Step, sequence_from_chain,
  sequence_diagram, step_id, edge_before, auth_steps, Vulnerability, vulnerability_nodes,
  severe_box, draw_security, Security, security_flow,
}
use codemind_backend.Diagrams.Wiring.{
  ids_of, Good, Includes, Known, allocator-Known, get-Known, has-Known, has-keeps, has-got,
  Includes-append, Includes-self,
}
use codemind_backend.Diagrams.Wiring.Modules.{placeholder-Good}

pub or-if : (b c : Bool) → (b || c) ≡ true → (if b then true else c) ≡ true
or-if true c h = refl
or-if false c h = h

-- The keys that an allocator has.
abbrev Asked : IdAllocator → List (List ℕ × List ℕ) → Type 0
Asked ids steps = All (λ (s : List ℕ × List ℕ). has s.0 ids ≡ true) steps

module _ (known : List (List ℕ)) where
  participants-keep :
      (steps : List (List ℕ × List ℕ)) (seen : List (List ℕ)) (ids : IdAllocator) (b : List ℕ)
      → has b ids ≡ true
      → has b (participants steps seen ids).1 ≡ true
  unfolding participants
  participants-keep [] seen ids b h = h
  participants-keep ((key, said) ∷ steps) seen ids b h =
      either_way (λ (r : List Item × IdAllocator). has b r.1 ≡ true) (among seen (get key ids).0) _
        _ (participants-keep steps seen (get key ids).1 b (has-keeps key b ids h))
        (participants-keep steps ((get key ids).0 ∷ seen) (get key ids).1 b (has-keeps key b ids h))

  seen-known :
      (seen : List (List ℕ)) (id : List ℕ)
      → All (λ i. has_id known i ≡ true) seen
      → among seen id ≡ true
      → has_id known id ≡ true
  seen-known [] id h e = absurd cc
  seen-known (s ∷ seen) id (p, h) e =
      either_known (λ b. b ≡ true → has_id known id ≡ true) (units_eq id s) true (among seen id)
        (λ d same. subst (λ x. has_id known x ≡ true) (sym (units_eq-same id s d)) p)
        (λ d rest. seen-known seen id h rest) (or-if (units_eq id s) (among seen id) e)

  participants-Good :
      (steps : List (List ℕ × List ℕ)) (seen : List (List ℕ)) (ids : IdAllocator)
      → Known known ids
      → All (λ i. has_id known i ≡ true) seen
      → Includes known (participants steps seen ids).0
      → Good known (participants steps seen ids).0
        × Known known (participants steps seen ids).1
        × Asked (participants steps seen ids).1 steps
  unfolding participants ids_of
  participants-Good [] seen ids k s = λ h. (tt, k, tt)
  participants-Good ((key, said) ∷ steps) seen ids k s =
      let got = get key ids in
      let kept =
        λ (more : List (List ℕ)). participants-keep steps more got.1 key (has-got key ids) in
      either_known
        (λ (r : List Item × IdAllocator).
          Includes known r.0 → Good known r.0 × Known known r.1 × Asked r.1 ((key, said) ∷ steps))
        (among seen got.0) (participants steps seen got.1)
        (
          node got.0 said none false ∷ (participants steps (got.0 ∷ seen) got.1).0,
          (participants steps (got.0 ∷ seen) got.1).1,
        )
        (λ e h.
          let g = get-Known known key ids k (seen-known seen got.0 s e) in
          let r = participants-Good steps seen got.1 g.1 s h in (r.0, r.1, (kept seen, r.2)))
        (λ e (i, h).
          let g = get-Known known key ids k i in
          let r = participants-Good steps (got.0 ∷ seen) got.1 g.1 (i, s) h in
          (((g.0, tt), r.0), r.1, (kept (got.0 ∷ seen), r.2)))

  arrows-Good :
      (n : ℕ) (steps : List (List ℕ × List ℕ)) (ids : IdAllocator)
      → Known known ids
      → Asked ids steps
      → Good known (arrows n steps ids)
  unfolding arrows
  arrows-Good n [] ids k a = tt
  arrows-Good n (s ∷ []) ids k a = tt
  arrows-Good n (s ∷ t ∷ steps) ids k (p, (q, a)) =
      let f = has-Known known s.0 ids k p in
      let g = has-Known known t.0 ids k q in
      (((f.0, g.0), (f.1, g.1)), arrows-Good (suc n) (t ∷ steps) ids k (q, a))

  last_key-asked :
      (key : List ℕ) (steps : List (List ℕ × List ℕ)) (ids : IdAllocator)
      → has key ids ≡ true
      → Asked ids steps
      → has (last_key key steps) ids ≡ true
  unfolding last_key
  last_key-asked key [] ids h a = h
  last_key-asked key (s ∷ steps) ids h (p, a) = last_key-asked s.0 steps ids p a

  come_back-Good :
      (said first last : List ℕ) (ids : IdAllocator)
      → Inline said
      → Known known ids
      → has first ids ≡ true
      → has last ids ≡ true
      → Good known (come_back said (get first ids).0 (get last ids).0)
  come_back-Good said first last ids h k p q =
      let f = has-Known known first ids k p in
      let l = has-Known known last ids k q in
      either_way (Good known) (units_eq (get first ids).0 (get last ids).0) _ _ tt
        (((l.0, f.0, h), (l.1, f.1)), tt)

draw_sequence-Good :
    (said : List ℕ) (steps : List (List ℕ × List ℕ))
    → Inline said
    → Good (ids_of (draw_sequence said steps)) (draw_sequence said steps)
unfolding draw_sequence units ids_of is_letter is_word is_alphanumeric
draw_sequence-Good said [] h = placeholder-Good _ _
draw_sequence-Good said (s ∷ []) h = placeholder-Good _ _
draw_sequence-Good said (s ∷ t ∷ steps) h =
    let all = s ∷ t ∷ steps in
    let nodes = participants all [] (allocator (units "p")) in
    let rest =
      arrows 1 all nodes.1
      ++ come_back said (get s.0 nodes.1).0 (get (last_key s.0 (t ∷ steps)) nodes.1).0 in
    let known = ids_of (nodes.0 ++ rest) in
    let inc = Includes-append known nodes.0 rest (Includes-self (nodes.0 ++ rest)) in
    let r =
      participants-Good known all [] (allocator (units "p"))
        (allocator-Known known (units "p") (refl, tt)) tt inc.0 in
    (
      (tt, tt),
      All-append _ nodes.0 rest r.0 (
          All-append _ (arrows 1 all nodes.1) _ (arrows-Good known 1 all nodes.1 r.1 r.2) (
            come_back-Good known said s.0 (last_key s.0 (t ∷ steps)) nodes.1 h r.1 r.2.0
              (last_key-asked known s.0 (t ∷ steps) nodes.1 r.2.0 r.2.1))),
    )

pub sequence_from_chain-Good :
    (steps : List Step) → Good (ids_of (sequence_from_chain steps)) (sequence_from_chain steps)
unfolding sequence_from_chain units is_terminator
sequence_from_chain-Good steps = draw_sequence-Good _ _ (tested-Inline (units "returns") refl)

pub sequence_diagram-Good :
    (steps : List (List ℕ)) → Good (ids_of (sequence_diagram steps)) (sequence_diagram steps)
unfolding sequence_diagram units is_terminator
sequence_diagram-Good steps = draw_sequence-Good _ _ (tested-Inline (units "response") refl)

step_id-Ident : (i : ℕ) → Ident (step_id i)
unfolding step_id units is_letter is_word is_alphanumeric
step_id-Ident i = (refl, (refl, digits-Words i))

-- The step before, which is known.
abbrev Before : List (List ℕ) → ℕ → Type 0
Before known zero = Unit
Before known (suc i) = has_id known (step_id i) ≡ true

module _ (known : List (List ℕ)) where
  edge_before-Good :
      (i : ℕ) → Before known i → has_id known (step_id i) ≡ true → Good known (edge_before i)
  edge_before-Good zero b h = tt
  edge_before-Good (suc i) b h = (((step_id-Ident i, step_id-Ident (suc i)), (b, h)), tt)

  auth_steps-Good :
      (i : ℕ) (steps : List (List ℕ))
      → Before known i
      → Includes known (auth_steps i steps)
      → Good known (auth_steps i steps)
  unfolding auth_steps ids_of
  auth_steps-Good i [] b h = tt
  auth_steps-Good i (s ∷ rest) b (p, h) =
      let inc = Includes-append known (edge_before i) (auth_steps (suc i) rest) h in
      (
        (step_id-Ident i, tt),
        All-append _ (edge_before i) (auth_steps (suc i) rest) (edge_before-Good i b p)
            (auth_steps-Good (suc i) rest p inc.1),
      )

  vulnerability_nodes-Good :
      (i : ℕ) (vs : List Vulnerability) → Good known (vulnerability_nodes i vs)
  unfolding vulnerability_nodes units is_letter is_word is_alphanumeric
  vulnerability_nodes-Good i [] = tt
  vulnerability_nodes-Good i (v ∷ vs) =
      (((refl, (refl, digits-Words i)), tt), vulnerability_nodes-Good (suc i) vs)

  severe_box-Good : (vs : List Vulnerability) → Good known (severe_box vs)
  unfolding severe_box units is_letter is_word is_alphanumeric is_terminator
  severe_box-Good [] = tt
  severe_box-Good (v ∷ vs) = (
    (
      (
        (refl, (refl, (refl, (refl, (refl, tt))))),
        tested-Inline (units "High / Critical Issues") refl,
      ),
      tt,
    ),
    (
      (tt, tt),
      (
        (tt, tt),
        All-append _ (vulnerability_nodes 0 (take 4 (v ∷ vs))) (setting closing ∷ [])
            (vulnerability_nodes-Good 0 (take 4 (v ∷ vs))) ((tt, tt), tt),
      ),
    ),
  )

draw_security-Good :
    (steps : List (List ℕ)) (vs : List Vulnerability)
    → Good (ids_of (draw_security steps vs)) (draw_security steps vs)
unfolding draw_security ids_of
draw_security-Good [] [] = placeholder-Good _ _
draw_security-Good [] (v ∷ vs) = ((tt, tt), severe_box-Good _ (v ∷ vs))
draw_security-Good (s ∷ ss) vs =
    let steps = auth_steps 0 (s ∷ ss) in
    let known = ids_of (steps ++ severe_box vs) in
    let inc =
      Includes-append known steps (severe_box vs) (Includes-self (steps ++ severe_box vs)) in
    (
      (tt, tt),
      All-append _ steps (severe_box vs) (auth_steps-Good known 0 (s ∷ ss) tt inc.0)
          (severe_box-Good known vs),
    )

pub security_flow-Good : (sec : Security) → Good (ids_of (security_flow sec)) (security_flow sec)
unfolding security_flow
security_flow-Good sec = draw_security-Good _ _
