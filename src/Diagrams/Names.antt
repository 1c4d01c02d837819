-- ===== src/Diagrams/Names.antt =====
-- `IdAllocator` of apps/synthesizer/src/diagrams/d2-source.builder.ts.
use codemind_backend.Common.{
  ℕ, zero, suc, Bool, true, false, ◌&&◌, ◌||◌, Option, none, some, List, [], ◌∷◌, ◌++◌, any, take,
  length, leb, ◌==◌, if◌then◌else◌,
}
use codemind_backend.Tools.Paths.{units_eq}
use codemind_backend.Diagrams.Decimal.{digits}

pub record IdAllocator : Type 0 where
  pub prefix : List ℕ
  pub by_label : List (List ℕ × List ℕ)
  pub taken : List (List ℕ)

unfoldable pub is_letter : ℕ → Bool
is_letter n = (leb 65 n && leb n 90) || (leb 97 n && leb n 122)

unfoldable pub is_alphanumeric : ℕ → Bool
unfolding is_letter
is_alphanumeric n = is_letter n || (leb 48 n && leb n 57)

-- `.replace(/[^a-zA-Z0-9]+/g, '_')`, inside a run of other units or not; `_` is 95.
unfoldable pub flatten : Bool → List ℕ → List ℕ
unfolding is_alphanumeric
flatten in_run [] = []
flatten in_run (c ∷ cs) =
    let kept = c ∷ flatten false cs in
    let within = flatten true cs in
    if is_alphanumeric c then kept else if in_run then within else 95 ∷ within

unfoldable pub strip_start : List ℕ → List ℕ
strip_start [] = []
strip_start (c ∷ cs) = let rest = strip_start cs in if c == 95 then rest else c ∷ cs

abbrev pub ends : List ℕ → Bool
ends [] = true
ends (c ∷ cs) = false

unfoldable pub strip_end : List ℕ → List ℕ
strip_end [] = []
strip_end (c ∷ cs) = let rest = strip_end cs in if (c == 95) && ends rest then [] else c ∷ rest

abbrev pub or_x : List ℕ → List ℕ
or_x [] = 120 ∷ []
or_x (c ∷ cs) = c ∷ cs

unfoldable pub base_of : List ℕ → List ℕ → List ℕ
unfolding flatten strip_start strip_end
base_of prefix text = prefix ++ 95 ∷ or_x (take 40 (strip_end (strip_start (flatten false text))))

unfoldable pub find : List ℕ → List (List ℕ × List ℕ) → Option (List ℕ)
find text [] = none
find text ((l, id) ∷ rest) =
    let later = find text rest in if units_eq l text then some id else later

unfoldable pub has_id : List (List ℕ) → List ℕ → Bool
has_id taken id = any (units_eq id) taken

unfoldable pub numbered : List ℕ → ℕ → List ℕ
numbered base n = base ++ 95 ∷ digits n

-- `while (this.taken.has(id)) id = base_n++`, on fuel.
unfoldable pub pick : ℕ → List (List ℕ) → List ℕ → List ℕ → ℕ → List ℕ
unfolding has_id numbered
pick zero taken base id n = id
pick (suc f) taken base id n =
    let next = pick f taken base (numbered base n) (suc n) in if has_id taken id then next else id

abbrev pub allocate : IdAllocator → List ℕ → List ℕ → List ℕ × IdAllocator
allocate ids text id =
    (id, record ids { by_label = (text, id) ∷ ids.by_label; taken = id ∷ ids.taken })

abbrev pub found_or : IdAllocator → List ℕ → List ℕ → Option (List ℕ) → List ℕ × IdAllocator
found_or ids text fresh none = allocate ids text fresh
found_or ids text fresh (some id) = (id, ids)

unfoldable pub get : List ℕ → IdAllocator → List ℕ × IdAllocator
unfolding find pick base_of
get text ids =
    let base = base_of ids.prefix text in
    found_or ids text (pick (length ids.taken) ids.taken base base 1) (find text ids.by_label)

abbrev pub found : Option (List ℕ) → Bool
found none = false
found (some id) = true

unfoldable pub has : List ℕ → IdAllocator → Bool
unfolding find
has text ids = found (find text ids.by_label)

abbrev pub allocator : List ℕ → IdAllocator
allocator prefix = record { prefix = prefix; by_label = []; taken = [] }
