-- ===== src/Repos/Caching.antt =====
-- The cache of the listing in apps/api-gateway/src/repos/repos.service.ts.
use codemind_backend.Common.{Bool, true, false, String, Option, none, some, List, ◌≡◌, ap}
use codemind_backend.Accounts.Requests.{TokenError, TokenOutcome, token, refused}
use codemind_backend.Repos.{
  RepoNode, Query, Entry, missing, corrupt, cached, read_cache, Listing, listed, no_token, failed,
  fetched, with_token, hit_or, get_repo_nodes, fetch_all_repo_nodes,
}

-- A listing that is given stands in the cache.
data Kept : Listing (List RepoNode) × Entry → Type 0 where
  kept : (nodes : List RepoNode) → Kept (listed nodes, cached nodes)
  refused_token : (e : TokenError) (entry : Entry) → Kept (no_token e, entry)
  not_fetched : (entry : Entry) → Kept (failed, entry)

fetched-Kept : (entry : Entry) (o : Option (List RepoNode)) → Kept (fetched false entry o)
fetched-Kept entry none = not_fetched entry
fetched-Kept entry (some nodes) = kept nodes

with_token-Kept :
    (entry : Entry) (github : String → Query) (answer : TokenOutcome)
    → Kept (with_token false entry github answer)
with_token-Kept entry github (refused e) = refused_token e entry
with_token-Kept entry github (token t) = fetched-Kept entry (fetch_all_repo_nodes (github t))

hit-Kept :
    (read_rejects : Bool) (entry : Entry) (rebuilt : Listing (List RepoNode) × Entry)
    → Kept rebuilt
    → Kept (hit_or entry rebuilt (read_cache read_rejects entry))
hit-Kept r missing rebuilt k = k
hit-Kept r corrupt rebuilt k = k
hit-Kept true (cached nodes) rebuilt k = k
hit-Kept false (cached nodes) rebuilt k = kept nodes

get_repo_nodes-Kept :
    (force_refresh read_rejects : Bool) (entry : Entry) (answer : TokenOutcome)
    (github : String → Query)
    → Kept (get_repo_nodes force_refresh read_rejects false entry answer github)
unfolding get_repo_nodes
get_repo_nodes-Kept true r entry answer github = with_token-Kept entry github answer
get_repo_nodes-Kept false r entry answer github =
    hit-Kept r entry (with_token false entry github answer) (with_token-Kept entry github answer)

kept-entry :
    (r : Listing (List RepoNode) × Entry) (nodes : List RepoNode)
    → Kept r
    → r.0 ≡ listed nodes
    → r.1 ≡ cached nodes
kept-entry _ nodes (kept ns) e = cc
kept-entry _ nodes (refused_token d entry) e = absurd cc
kept-entry _ nodes (not_fetched entry) e = absurd cc

-- A listing that is given, from GitHub or from the cache, is given again by the next request that does
-- not force a refresh, whatever Clerk and GitHub would answer then, as long as Redis took the write
-- and answers the read, and the entry has not expired.
pub get_repo_nodes-remembered :
    (force_refresh read_rejects write_rejects : Bool) (entry : Entry) (answer later : TokenOutcome)
    (github github_later : String → Query) (nodes : List RepoNode)
    → (get_repo_nodes force_refresh read_rejects false entry answer github).0 ≡ listed nodes
    → get_repo_nodes false false write_rejects
        (get_repo_nodes force_refresh read_rejects false entry answer github).1
        later
        github_later
      ≡ (listed nodes, cached nodes)
unfolding get_repo_nodes
get_repo_nodes-remembered f r w entry answer later github github_later nodes e =
    ap (λ (x : Entry). get_repo_nodes false false w x later github_later)
      (kept-entry _ nodes (get_repo_nodes-Kept f r entry answer github) e)
