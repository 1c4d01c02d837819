-- ===== src/Diagrams.antt =====
-- The sources of the diagrams of apps/synthesizer/src/diagrams/d2-source.builder.ts: the identifiers of
-- the nodes (`IdAllocator`), the labels, and the pieces of text that `node` and `edge` emit. A text is
-- the list of its UTF-16 code units.
pub mod Decimal
pub mod Picking
pub mod Names
pub mod Labels
pub mod Graphs
pub mod Words
pub mod Counting
pub mod Fresh
pub mod Service
pub mod Thresholds
pub mod Wiring
use Prim.Native.String.{[], ◌∷◌}
use Prim.Native.Char.{code}
use codemind_backend.Common.{
  ℕ, zero, suc, ◌+◌, Bool, true, false, String, Option, none, some, List, ◌++◌, if◌then◌else◌,
}
use codemind_backend.Diagrams.Labels.{label}

-- The text of a literal.
unfoldable pub units : String → List ℕ
units [] = List.[]
units (c ∷ s) = List.◌∷◌ (code c) (units s)

-- The palette of apps/synthesizer/src/diagrams/palette.ts.
pub record NodeStyle : Type 0 where
  pub fill : List ℕ
  pub text : List ℕ
  pub stroke : List ℕ

pub data Palette : Type 0 where
  entry : Palette
  root : Palette
  critical : Palette
  warning : Palette
  ok : Palette
  muted : Palette

abbrev style_by : String → String → String → NodeStyle
style_by f t s = record { fill = units f; text = units t; stroke = units s }

unfoldable pub style_of : Palette → NodeStyle
unfolding units
style_of entry = style_by "#0072B2" "#FFFFFF" "#00538A"
style_of root = style_by "#0B4F6C" "#FFFFFF" "#073649"
style_of critical = style_by "#A63603" "#FFFFFF" "#7A2802"
style_of warning = style_by "#E69F00" "#1A1A1A" "#B37B00"
style_of ok = style_by "#006D5B" "#FFFFFF" "#00473B"
style_of muted = style_by "#767676" "#FFFFFF" "#5A5A5A"

-- The lines that stand for themselves.
pub data Setting : Type 0 where
  direction_right : Setting
  direction_down : Setting
  sequence : Setting
  critical_stroke : Setting
  dashed : Setting
  columns : Setting
  closing : Setting

-- What a builder pushes on its lines.
pub data Item : Type 0 where
  node : (id raw : List ℕ) → Option Palette → (indented : Bool) → Item
  edge : (from to : List ℕ) → Option (List ℕ) → Item
  back : (last first said : List ℕ) → Item
  container : (id title : List ℕ) → Item
  setting : Setting → Item

unfoldable pub setting_text : Setting → List ℕ
unfolding units
setting_text direction_right = units "direction: right"
setting_text direction_down = units "direction: down"
setting_text sequence = units "shape: sequence_diagram"
setting_text critical_stroke = units "  style.stroke: \"#A63603\""
setting_text dashed = units "  style.stroke-dash: 3"
setting_text columns = units "  grid-columns: 3"
setting_text closing = units "}"

abbrev pub indent_of : Bool → List ℕ
indent_of true = List.◌∷◌ 32 (List.◌∷◌ 32 List.[])
indent_of false = List.[]

-- A line that ends.
abbrev pub line : List ℕ → List ℕ → List ℕ
line text rest = text ++ (List.◌∷◌ 10 rest)

-- `id: "label"`, after its indent and before what follows the label.
unfoldable pub head_text : List ℕ → List ℕ → List ℕ → List ℕ → List ℕ
unfolding units
head_text indent id said rest = indent ++ (id ++ (units ": \"" ++ (said ++ (List.◌∷◌ 34 rest))))

unfoldable pub style_text : List ℕ → NodeStyle → List ℕ
unfolding units
style_text indent s = line (units " {") (
    line (indent ++ (units "  style.fill: \"" ++ (s.fill ++ units "\""))) (
      line (indent ++ (units "  style.font-color: \"" ++ (s.text ++ units "\""))) (
        line (indent ++ (units "  style.stroke: \"" ++ (s.stroke ++ units "\"")))
          (line (indent ++ units "  style.stroke-width: 2") (indent ++ units "}")))))

unfoldable pub node_text : List ℕ → List ℕ → Option Palette → List ℕ → List ℕ
unfolding head_text style_text style_of
node_text id raw none indent = head_text indent id (label raw) List.[]
node_text id raw (some p) indent = head_text indent id (label raw) (style_text indent (style_of p))

-- An empty label is none.
unfoldable pub edge_text : List ℕ → List ℕ → Option (List ℕ) → List ℕ
unfolding units
edge_text from to none = from ++ (units " -> " ++ to)
edge_text from to (some List.[]) = from ++ (units " -> " ++ to)
edge_text from to (some (List.◌∷◌ c cs)) =
    from ++ (units " -> " ++ (to ++ (units ": \"" ++ (label (List.◌∷◌ c cs) ++ units "\""))))

unfoldable pub item_text : Item → List ℕ
unfolding node_text edge_text setting_text units
item_text (node id raw style indented) = node_text id raw style (indent_of indented)
item_text (edge from to said) = edge_text from to said
item_text (back last first said) =
    last
    ++ (units " -> " ++ (first ++ (units ": \"" ++ (said ++ units "\" { style.stroke-dash: 3 }"))))
item_text (container id title) = id ++ (units ": \"" ++ (title ++ units "\" {"))
item_text (setting s) = setting_text s

-- `lines.join('\n')`
unfoldable pub render : List Item → List ℕ
unfolding item_text
render List.[] = List.[]
render (List.◌∷◌ i List.[]) = item_text i
render (List.◌∷◌ i (List.◌∷◌ j is)) = line (item_text i) (render (List.◌∷◌ j is))
