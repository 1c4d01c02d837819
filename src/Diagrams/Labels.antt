-- ===== src/Diagrams/Labels.antt =====
-- `label` of apps/synthesizer/src/diagrams/d2-source.builder.ts, on code units.
pub mod Safety
use codemind_backend.Common.{
  ℕ, zero, suc, ◌+◌, ◌≤◌, ◌<◌, Bool, true, false, not, ◌&&◌, ◌||◌, List, [], ◌∷◌, ◌++◌, map, keep,
  take, length, All, ltb, leb, ◌==◌, ◌≡◌, ◌≢◌, refl, arith, either_way, either_known, if◌then◌else◌,
}

-- What `\s` matches, which is what `trim` takes off.
unfoldable pub is_blank : ℕ → Bool
is_blank n =
    (leb 9 n && leb n 13)
    || (n == 32)
    || (n == 160)
    || (n == 5760)
    || (leb 8192 n && leb n 8202)
    || (n == 8232)
    || (n == 8233)
    || (n == 8239)
    || (n == 8287)
    || (n == 12288)
    || (n == 65279)

unfoldable pub is_control : ℕ → Bool
is_control n = leb n 31 || (n == 127)

unfoldable pub is_syntax : ℕ → Bool
is_syntax n = (n == 34) || (n == 92)

abbrev pub without_controls : List ℕ → List ℕ
without_controls s = map (λ n. if is_control n then 32 else n) s

-- `.replace(/\s+/g, ' ')`, inside a run of blanks or not.
unfoldable pub collapse : Bool → List ℕ → List ℕ
unfolding is_blank
collapse in_run [] = []
collapse in_run (c ∷ cs) =
    let within = collapse true cs in
    let other = c ∷ collapse false cs in
    if is_blank c then (if in_run then within else 32 ∷ within) else other

unfoldable pub trim_start : List ℕ → List ℕ
trim_start [] = []
trim_start (c ∷ cs) = let rest = trim_start cs in if is_blank c then rest else c ∷ cs

abbrev pub is_nil : List ℕ → Bool
is_nil [] = true
is_nil (c ∷ cs) = false

unfoldable pub trim_end : List ℕ → List ℕ
trim_end [] = []
trim_end (c ∷ cs) = let rest = trim_end cs in if is_blank c && is_nil rest then [] else c ∷ rest

unfoldable pub cleaned : List ℕ → List ℕ
unfolding is_control is_syntax is_blank collapse trim_start trim_end
cleaned raw =
    trim_end (trim_start (collapse false (keep (λ n. not (is_syntax n)) (without_controls raw))))

-- `unknown`
abbrev pub unknown : List ℕ
unknown = 117 ∷ 110 ∷ 107 ∷ 110 ∷ 111 ∷ 119 ∷ 110 ∷ []

-- MAX_LABEL is 48; a longer text is cut and ends in `…`.
unfoldable pub shorten : List ℕ → List ℕ
shorten [] = unknown
shorten (c ∷ cs) = if ltb 48 (length (c ∷ cs)) then take 47 (c ∷ cs) ++ 8230 ∷ [] else c ∷ cs

unfoldable pub label : List ℕ → List ℕ
unfolding cleaned shorten
label raw = shorten (cleaned raw)
