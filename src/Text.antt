-- ===== src/Text.antt =====
-- What the services use of JavaScript's strings: `trim`, `join('')`, and the test for the empty text.
use Prim.Native.String.{[], ◌∷◌}
use Prim.Native.Char.{Char, code}
use codemind_backend.Common.{
  Bool, true, false, ◌&&◌, ◌||◌, String, List, leb, ◌==◌, if◌then◌else◌, str_append, Option, none,
  some,
}

-- White space and line terminators, as `trim` takes them off.
unfoldable pub is_space : Char → Bool
is_space c =
    let n = code c in
    (leb 9 n && leb n 13)
    || (n == 32)
    || (n == 160)
    || (n == 5760)
    || (leb 8192 n && leb n 8202)
    || (n == 8232)
    || (n == 8233)
    || (n == 8239)
    || (n == 8287)
    || (n == 12288)
    || (n == 65279)

unfoldable pub is_empty : String → Bool
is_empty [] = true
is_empty (c ∷ s) = false

unfoldable pub trim_start : String → String
unfolding is_space
trim_start [] = []
trim_start (c ∷ s) = let rest = trim_start s in if is_space c then rest else c ∷ s

unfoldable pub trim_end : String → String
unfolding is_space is_empty
trim_end [] = []
trim_end (c ∷ s) = let rest = trim_end s in if is_space c && is_empty rest then [] else c ∷ rest

unfoldable pub trim : String → String
unfolding trim_start trim_end
trim s = trim_end (trim_start s)

-- `texts.join('')`
unfoldable pub concat : List String → String
concat List.[] = []
concat (List.◌∷◌ t ts) = str_append t (concat ts)

-- `s.split('/')[0]`, and what stands behind the first slash.
unfoldable pub before_slash : String → String
before_slash [] = []
before_slash (c ∷ s) = let rest = before_slash s in if code c == 47 then [] else c ∷ rest

unfoldable pub after_slash : String → Option String
after_slash [] = none
after_slash (c ∷ s) = let rest = after_slash s in if code c == 47 then some s else rest
