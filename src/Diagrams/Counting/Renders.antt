-- ===== src/Diagrams/Counting/Renders.antt =====
-- What `countNodes` of apps/synthesizer/src/diagrams/d2-source.builder.ts counts in a source that the
-- builder emits.
use mathlib.Core.List.{append_assoc, append-nil}
use codemind_backend.Common.{
  ℕ, suc, Bool, true, false, ◌||◌, Option, none, some, List, [], ◌∷◌, ◌++◌, All, All-append, any,
  ◌≡◌, refl, sym, ap, ◌∙◌, arith,
}
use codemind_backend.Diagrams.{
  units, Palette, entry, root, critical, warning, ok, muted, style_of, Setting, direction_right,
  direction_down, sequence, critical_stroke, dashed, columns, closing, Item, node, edge, back,
  container, setting, setting_text, indent_of, head_text, style_text, node_text, edge_text,
  item_text, render,
}
use codemind_backend.Diagrams.Names.{is_letter, is_alphanumeric}
use codemind_backend.Diagrams.Words.{is_word, Ident}
use codemind_backend.Diagrams.Labels.{label}
use codemind_backend.Diagrams.Counting.{
  is_tab, after_colon, in_word, matches, is_terminator, count_from, count_nodes,
}
use codemind_backend.Diagrams.Counting.Lines.{
  Inline, Words-Inline, label-Inline, letter-Inline, declared-counted, edge-uncounted,
}

-- The nodes and the containers among the items.
unfoldable pub drawn : List Item → ℕ
drawn [] = 0
drawn (node id raw style indented ∷ is) = suc (drawn is)
drawn (container id title ∷ is) = suc (drawn is)
drawn (edge from to said ∷ is) = drawn is
drawn (back last first said ∷ is) = drawn is
drawn (setting s ∷ is) = drawn is

-- Its identifiers are such, and the texts that no label cleans stay on one line.
abbrev pub Proper : Item → Type 0
Proper (node id raw style indented) = Ident id
Proper (edge from to said) = Ident from × Ident to
Proper (back last first said) = Ident last × Ident first × Inline said
Proper (container id title) = Ident id × Inline title
Proper (setting s) = Unit

indent-counted : (c : ℕ) (s : List ℕ) → count_from true (32 ∷ 32 ∷ c ∷ s) ≡ count_from true (c ∷ s)
unfolding count_from matches is_tab is_terminator
indent-counted c s = omega arith

head-append :
    (indent id said behind rest : List ℕ)
    → head_text indent id said behind ++ rest ≡ head_text indent id said (behind ++ rest)
unfolding head_text units
head-append indent id said behind rest = simp (append_assoc)

head-counted :
    (indented : Bool) (id said rest : List ℕ)
    → Ident id
    → Inline said
    → count_from true (head_text (indent_of indented) id said rest) ≡ suc (count_from false rest)
unfolding head_text units count_from
head-counted false id said rest i h = declared-counted id said rest i h
head-counted true [] said rest i h = absurd cc
head-counted true (c ∷ cs) said rest i h =
    indent-counted c (cs ++ (58 ∷ 32 ∷ 34 ∷ (said ++ (34 ∷ rest))))
    ∙ declared-counted (c ∷ cs) said rest i h

style-uncounted :
    (indented : Bool) (p : Palette) (rest : List ℕ)
    → count_from false (style_text (indent_of indented) (style_of p) ++ rest)
      ≡ count_from false rest
unfolding style_text style_of units count_from matches in_word after_colon is_tab is_letter is_word
    is_alphanumeric is_terminator
style-uncounted false entry rest = omega arith
style-uncounted false root rest = omega arith
style-uncounted false critical rest = omega arith
style-uncounted false warning rest = omega arith
style-uncounted false ok rest = omega arith
style-uncounted false muted rest = omega arith
style-uncounted true entry rest = omega arith
style-uncounted true root rest = omega arith
style-uncounted true critical rest = omega arith
style-uncounted true warning rest = omega arith
style-uncounted true ok rest = omega arith
style-uncounted true muted rest = omega arith

node-counted :
    (id raw : List ℕ) (style : Option Palette) (indented : Bool) (rest : List ℕ)
    → Ident id
    → count_from true (node_text id raw style (indent_of indented) ++ rest)
      ≡ suc (count_from false rest)
unfolding node_text
node-counted id raw none indented rest i =
    ap (count_from true) (head-append (indent_of indented) id (label raw) [] rest)
    ∙ head-counted indented id (label raw) rest i (label-Inline raw)
node-counted id raw (some p) indented rest i =
    ap (count_from true) (head-append (indent_of indented) id (label raw) _ rest)
    ∙ (head-counted indented id (label raw) _ i (label-Inline raw)
        ∙ ap suc (style-uncounted indented p rest))

setting-uncounted :
    (s : Setting) (rest : List ℕ) → count_from true (setting_text s ++ rest) ≡ count_from false rest
unfolding setting_text units count_from matches in_word after_colon is_tab is_letter is_word
    is_alphanumeric is_terminator
setting-uncounted direction_right rest = omega arith
setting-uncounted direction_down rest = omega arith
setting-uncounted sequence rest = omega arith
setting-uncounted critical_stroke rest = omega arith
setting-uncounted dashed rest = omega arith
setting-uncounted columns rest = omega arith
setting-uncounted closing rest = omega arith

arrow-Inline :
    (to behind : List ℕ) → Ident to → Inline behind → Inline (45 ∷ 62 ∷ 32 ∷ (to ++ behind))
unfolding is_terminator
arrow-Inline [] behind i h = absurd cc
arrow-Inline (c ∷ cs) behind (l, w) h =
    (refl, (refl, (refl, (letter-Inline c l, All-append _ cs behind (Words-Inline cs w) h))))

quoted-Inline :
    (said after : List ℕ)
    → Inline said
    → Inline after
    → Inline (58 ∷ 32 ∷ 34 ∷ (said ++ (34 ∷ after)))
unfolding is_terminator
quoted-Inline said after h k = (refl, (refl, (refl, All-append _ said _ h (refl, k))))

edge-counted :
    (from to : List ℕ) (said : Option (List ℕ)) (rest : List ℕ)
    → Ident from
    → Ident to
    → count_from true (edge_text from to said ++ rest) ≡ count_from false rest
unfolding edge_text units
edge-counted from to none rest i j =
    ap (count_from true) (simp (append_assoc))
    ∙ edge-uncounted from (45 ∷ 62 ∷ 32 ∷ (to ++ [])) rest i (arrow-Inline to [] j tt)
edge-counted from to (some []) rest i j =
    ap (count_from true) (simp (append_assoc))
    ∙ edge-uncounted from (45 ∷ 62 ∷ 32 ∷ (to ++ [])) rest i (arrow-Inline to [] j tt)
edge-counted from to (some (c ∷ cs)) rest i j =
    ap (count_from true) (simp (append_assoc))
    ∙ edge-uncounted from (45 ∷ 62 ∷ 32 ∷ (to ++ (58 ∷ 32 ∷ 34 ∷ (label (c ∷ cs) ++ (34 ∷ [])))))
        rest i (arrow-Inline to _ j (quoted-Inline (label (c ∷ cs)) [] (label-Inline (c ∷ cs)) tt))

or-neither : (b c : Bool) → (b || c) ≡ false → (b ≡ false) × (c ≡ false)
or-neither true c h = absurd cc
or-neither false c h = (refl, h)

-- For a text that is given.
pub tested-Inline : (s : List ℕ) → any is_terminator s ≡ false → Inline s
tested-Inline [] h = tt
tested-Inline (c ∷ cs) h = let p = or-neither (is_terminator c) _ h in (p.0, tested-Inline cs p.1)

dash-Inline : Inline (units " { style.stroke-dash: 3 }")
unfolding units is_terminator
dash-Inline = tested-Inline (units " { style.stroke-dash: 3 }") refl

brace-counted : (rest : List ℕ) → count_from false (32 ∷ 123 ∷ rest) ≡ count_from false rest
unfolding count_from is_terminator
brace-counted rest = omega arith

item-counted :
    (i : Item) (is : List Item) (rest : List ℕ)
    → Proper i
    → drawn is ≡ count_from false rest
    → count_from true (item_text i ++ rest) ≡ drawn (i ∷ is)
unfolding item_text drawn units
item-counted (node id raw style indented) is rest p e =
    node-counted id raw style indented rest p ∙ ap suc (sym e)
item-counted (edge from to said) is rest (i, j) e = edge-counted from to said rest i j ∙ sym e
item-counted (back last first said) is rest (i, j, h) e =
    let after : List ℕ = units " { style.stroke-dash: 3 }" in
    (ap (count_from true) (simp (append_assoc))
      ∙ edge-uncounted last (45 ∷ 62 ∷ 32 ∷ (first ++ (58 ∷ 32 ∷ 34 ∷ (said ++ (34 ∷ after))))) rest
          i (arrow-Inline first _ j (quoted-Inline said after h dash-Inline)))
    ∙ sym e
item-counted (container id title) is rest (i, h) e =
    (ap (count_from true) (simp (append_assoc)) ∙ declared-counted id title (32 ∷ 123 ∷ rest) i h)
    ∙ ap suc (brace-counted rest ∙ sym e)
item-counted (setting s) is rest p e = setting-uncounted s rest ∙ sym e

-- The count of a source is that of the nodes and the containers.
pub count_nodes-render :
    (items : List Item) → All Proper items → count_nodes (render items) ≡ drawn items
unfolding count_nodes render count_from drawn is_terminator
count_nodes-render [] h = refl
count_nodes-render (i ∷ []) (p, h) =
    ap (count_from true) (sym (append-nil (item_text i))) ∙ item-counted i [] [] p refl
count_nodes-render (i ∷ j ∷ is) (p, h) =
    item-counted i (j ∷ is) (10 ∷ render (j ∷ is)) p (omega (arith, count_nodes-render (j ∷ is) h))
