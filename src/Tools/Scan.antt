-- ===== src/Tools/Scan.antt =====
-- What `search_text` of libs/common/src/codegraph/graph-tools.ts finds, and how far it goes.
use mathlib.Core.List.{append_assoc}
use codemind_backend.Common.{
  ℕ, suc, ◌≤◌, ◌<◌, Bool, true, false, String, Option, none, some, List, [], ◌∷◌, ◌++◌, length,
  length-append, leb, All, All-append, ◌≡◌, ◌∙◌, sym, refl, arith, either_known, either_way,
}
use codemind_backend.Tools.Search.{
  Entry, Entries, directory, file, special, unreadable, no_entries, entry, Hit, Scan, skipped, full,
  scan_lines, scan_content, walk_entries, walk_entry,
}

not_full : (s : Scan) → full s ≡ false → (length s.hits < 40) × (s.scanned < 2000)
unfolding full
not_full s h = (ground (arith, h), ground (arith, h))

-- An entry of a directory.
pub data Among (e : Entry) : Entries → Type 0 where
  first : {es : Entries} → Among e (entry e es)
  later : {d : Entry} {es : Entries} → Among e es → Among e (entry d es)

-- The directories below the start of a search, by their paths, and what is in them.
pub data DirectoryAt (start : Entries) : List String → Entries → Type 0 where
  top : DirectoryAt start [] start
  below :
      {name : String} {path : List String} {es children : Entries}
      → DirectoryAt start path es
      → Among (directory name children) es
      → DirectoryAt start (name ∷ path) children

-- An entry that stands in the directory of a path.
pub record Located (start : Entries) (path : List String) (e : Entry) : Type 0 where
  pub siblings : Entries
  pub at_path : DirectoryAt start path siblings
  pub among : Among e siblings

module _ (matches is_text : String → Bool) (start : Entries) where
  -- A directory's path of which no name is skipped.
  abbrev pub Open : List String → Type 0
  Open path = All (λ name. skipped name ≡ false) path

  -- A line that matches, with its number and its text, of a text file that stands in the tree under
  -- the hit's path, in no directory below the start that is skipped.
  pub data Genuine (h : Hit) : Type 0 where
    genuine :
        (name : String) (path content before after : List String)
        → h.path ≡ name ∷ path
        → Open (name ∷ path)
        → is_text name ≡ true
        → Located start path (file name (some content))
        → content ≡ before ++ h.text ∷ after
        → h.line ≡ suc (length before)
        → matches h.text ≡ true
        → Genuine h

  pub record Sound (s : Scan) : Type 0 where
    pub few : length s.hits ≤ 40
    pub bounded : s.scanned ≤ 2000
    pub all_genuine : All Genuine s.hits

  record Lines (hits : List Hit) : Type 0 where
    few : length hits ≤ 40
    all_genuine : All Genuine hits

  scan_lines-Lines :
      (name : String) (path content : List String)
      → Open (name ∷ path)
      → is_text name ≡ true
      → Located start path (file name (some content))
      → (before : List String) (n : ℕ) (ls : List String) (hits : List Hit) → content ≡ before ++ ls
      → n ≡ suc (length before)
      → length hits < 40
      → All Genuine hits
      → Lines (scan_lines matches is_text (name ∷ path) n ls hits)
  unfolding scan_lines
  scan_lines-Lines name path content o t at_ before n [] hits split k room h = record {
    few = omega (arith, room);
    all_genuine = h;
  }
  scan_lines-Lines name path content o t at_ before n (l ∷ ls) hits split k room h =
      let one : Hit = record { path = name ∷ path; line = n; text = l } in
      let longer = length-append hits (one ∷ []) in
      let split_later = split ∙ sym (append_assoc before (l ∷ []) ls) in
      let k_later : suc n ≡ suc (length (before ++ l ∷ [])) =
        omega (arith, k, length-append before (l ∷ [])) in
      either_known Lines (matches l) _ _
        (λ m.
          let g : All Genuine (hits ++ one ∷ []) =
            All-append Genuine hits (one ∷ []) h
              (genuine name path content before ls refl o t at_ split k m, tt) in
          either_known Lines (leb 40 (length (hits ++ one ∷ []))) _ _
            (λ e. record { few = omega (arith, longer, room); all_genuine = g })
            (λ e.
              scan_lines-Lines name path content o t at_ (before ++ l ∷ []) (suc n) ls
                (hits ++ one ∷ []) split_later k_later (ground (arith, e)) g))
        (λ m.
          scan_lines-Lines name path content o t at_ (before ++ l ∷ []) (suc n) ls hits split_later
            k_later room h)

  scan_content-Sound :
      (name : String) (path : List String)
      → Open (name ∷ path)
      → is_text name ≡ true
      → (content : Option (List String)) (s : Scan) → Located start path (file name content)
      → full s ≡ false
      → Sound s
      → Sound (scan_content matches is_text (name ∷ path) content s)
  scan_content-Sound name path o t none s at_ room h =
      let r = not_full s room in
      record { few = h.few; bounded = omega (arith, r.1); all_genuine = h.all_genuine }
  scan_content-Sound name path o t (some ls) s at_ room h =
      let r = not_full s room in
      let l = scan_lines-Lines name path ls o t at_ [] 1 ls s.hits refl refl r.0 h.all_genuine in
      record { few = l.few; bounded = omega (arith, r.1); all_genuine = l.all_genuine }

  mutual
    unfolding walk_entries walk_entry

    walk_entries-Sound :
        (path : List String) (es : Entries) (s : Scan)
        → Open path
        → ((x : Entry) → Among x es → Located start path x)
        → Sound s
        → Sound (walk_entries matches is_text path es s)
    walk_entries-Sound path unreadable s o located h = h
    walk_entries-Sound path no_entries s o located h = h
    walk_entries-Sound path (entry e es) s o located h =
        either_known Sound (full s) _ _ (λ f. h)
          (λ room.
            walk_entries-Sound path es _ o (λ x m. located x (later m))
              (walk_entry-Sound path e s o (located e first) room h))

    walk_entry-Sound :
        (path : List String) (e : Entry) (s : Scan)
        → Open path
        → Located start path e
        → full s ≡ false
        → Sound s
        → Sound (walk_entry matches is_text path e s)
    walk_entry-Sound path (directory name children) s o at_ room h =
        either_known Sound (skipped name) _ _ (λ k. h)
          (λ k. either_way Sound (full s) _ _ h (
            walk_entries-Sound (name ∷ path) children s (k, o)
              (λ x m. record {
                siblings = children;
                at_path = below at_.at_path at_.among;
                among = m;
              })
              h))
    walk_entry-Sound path (file name content) s o at_ room h =
        either_known Sound (skipped name) _ _ (λ k. h)
          (λ k.
            either_known Sound (is_text name) _ _
              (λ t. scan_content-Sound name path (k, o) t content s at_ room h) (λ t. h))
    walk_entry-Sound path (special name) s o at_ room h = h
