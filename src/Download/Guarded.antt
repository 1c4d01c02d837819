-- ===== src/Download/Guarded.antt =====
-- What `downloadAndExtract` of libs/common/src/github/github-tarball.service.ts leaves on the disk.
use codemind_backend.Common.{
  ℕ, ◌+◌, ◌≤◌, true, false, Option, none, some, List, [], ◌∷◌, ltb, ◌≡◌, inl, inr, refl, sym, subst,
  arith, either_known, Option-cases,
}
use codemind_backend.Tools.Search.{Entries}
use codemind_backend.Download.{
  Response, Remote, Disk, Result, downloaded, rejected, passes_guard, count_files, accepts, within,
  extract, receive, fetch, settle, download_and_extract,
}

unfoldable pub total : List ℕ → ℕ
total [] = 0
total (c ∷ cs) = c + total cs

guard-total :
    (max_bytes written : ℕ) (cs : List ℕ)
    → written ≤ max_bytes
    → passes_guard max_bytes written cs ≡ true
    → written + total cs ≤ max_bytes
unfolding passes_guard total
guard-total m w [] h e = omega (arith, h)
guard-total m w (c ∷ cs) h e =
    either_known (λ b. b ≡ true → w + (c + total cs) ≤ m) (ltb m (w + c)) _ _ (λ t same. absurd cc)
      (λ t same.
        let fits : w + c ≤ m = ground (arith, t) in
        omega (arith, guard-total m (w + c) cs fits same))
      e

-- A checkout that is left on the disk: its archive kept to the bound on its bytes, and it has been
-- counted, and keeps to the bound on its files.
pub record Fetched (max_bytes max_files : ℕ) (remote : Remote) (es : Entries) : Type 0 where
  pub response : Response
  pub answered : remote.response ≡ some response
  pub small : total response.chunks ≤ max_bytes
  pub files : ℕ
  pub counted : count_files es ≡ some files
  pub few : files ≤ max_files

pub data Left (max_bytes max_files : ℕ) (remote : Remote) : Result × Disk → Type 0 where
  checked_out :
      (es : Entries)
      → remote.extracted ≡ some es
      → Fetched max_bytes max_files remote es
      → Left max_bytes max_files remote (downloaded, record { checkout = some es; archive = false })
  cleaned_up :
      Left max_bytes max_files remote (rejected, record { checkout = none; archive = false })

accepts-small :
    (max_bytes : ℕ) (r : Response) → accepts max_bytes r ≡ true → total r.chunks ≤ max_bytes
unfolding accepts
accepts-small m r e =
    either_known (λ b. b ≡ true → total r.chunks ≤ m) r.is_ok _ _
      (λ o.
        either_known (λ b. b ≡ true → total r.chunks ≤ m) (ltb m r.declared) _ _
          (λ t same. absurd cc)
          (λ t same. omega (arith, guard-total m 0 r.chunks (omega arith) same)))
      (λ o same. absurd cc) e

within-few :
    (max_files : ℕ) (o : Option ℕ)
    → within max_files o ≡ true
    → (n : ℕ) × (o ≡ some n) × (n ≤ max_files)
within-few m none e = absurd cc
within-few m (some n) e = (n, refl, ground (arith, e))

extract-Left :
    (max_bytes max_files : ℕ) (remote : Remote) (r : Response)
    → remote.response ≡ some r
    → accepts max_bytes r ≡ true
    → Left max_bytes max_files remote (settle (extract max_files remote.extracted))
unfolding extract
extract-Left b f remote r e a = elim (Option-cases remote.extracted) [
  | inl d ↦ subst (λ o. Left b f remote (settle (extract f o))) (sym d) cleaned_up
  | inr (es, d) ↦
      subst (λ o. Left b f remote (settle (extract f o))) (sym d)
        (either_known (λ o. Left b f remote (settle o)) (within f (count_files es)) _ _
          (λ w.
            let n = within-few f (count_files es) w in
            checked_out es d (record {
              response = r;
              answered = e;
              small = accepts-small b r a;
              files = n.0;
              counted = n.1;
              few = n.2;
            }))
          (λ w. cleaned_up))
]

receive-Left :
    (b f : ℕ) (remote : Remote) (o : Option Response)
    → remote.response ≡ o
    → Left b f remote (settle (receive b f remote.extracted o))
receive-Left b f remote none e = cleaned_up
receive-Left b f remote (some r) e =
    either_known (λ o. Left b f remote (settle o)) (accepts b r) _ _
      (λ a. extract-Left b f remote r e a) (λ a. cleaned_up)

-- Whatever GitHub answers and `tar` extracts: a download that resolves leaves the checkout that was
-- extracted, of an archive within the bound on bytes and with no more files than allowed; one that
-- rejects leaves none. The archive is gone either way.
pub download_and_extract-Left :
    (max_bytes max_files : ℕ) (remote : Remote)
    → Left max_bytes max_files remote (download_and_extract max_bytes max_files remote)
unfolding download_and_extract fetch
download_and_extract-Left b f remote = receive-Left b f remote remote.response refl
