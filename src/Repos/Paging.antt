-- ===== src/Repos/Paging.antt =====
-- How far apps/api-gateway/src/repos/repos.service.ts pages through the repositories.
use mathlib.Core.List.{append_assoc, append-nil}
use codemind_backend.Common.{
  ℕ, zero, suc, String, Option, none, some, List, [], ◌∷◌, ◌++◌, take, ◌≡◌, sym, ap, ◌∙◌,
}
use codemind_backend.Repos.{
  RepoNode, Connection, Query, run_repos_query, next_cursor, fetch_pages, fetch_all_repo_nodes,
}

-- What GitHub lists from a cursor on, page by page.
pub data Lists (query : Query) : Option String → List (List RepoNode) → Type 0 where
  last_page :
      {cursor : Option String} (c : Connection)
      → run_repos_query query cursor ≡ some c
      → next_cursor c ≡ none
      → Lists query cursor (c.nodes ∷ [])
  page :
      {cursor : Option String} {pages : List (List RepoNode)} (c : Connection) (next : String)
      → run_repos_query query cursor ≡ some c
      → next_cursor c ≡ some next
      → Lists query (some next) pages
      → Lists query cursor (c.nodes ∷ pages)

unfoldable pub joined : List (List RepoNode) → List RepoNode
joined [] = []
joined (p ∷ ps) = p ++ joined ps

fetch_pages-joined :
    (n : ℕ) (query : Query) (cursor : Option String) (pages : List (List RepoNode))
    (all : List RepoNode)
    → Lists query cursor pages
    → fetch_pages n query cursor all ≡ some (all ++ joined (take n pages))
unfolding fetch_pages joined
fetch_pages-joined zero query cursor pages all l = ap some (sym (append-nil all))
fetch_pages-joined (suc zero) query cursor pages all (last_page c e d) =
    rw (e, d) (ap some (ap (λ t. all ++ t) (sym (append-nil c.nodes))))
fetch_pages-joined (suc (suc n)) query cursor pages all (last_page c e d) =
    rw (e, d) (ap some (ap (λ t. all ++ t) (sym (append-nil c.nodes))))
fetch_pages-joined (suc n) query cursor pages all (page c next e d l) =
    rw (e, d)
      (fetch_pages-joined n query (some next) _ (all ++ c.nodes) l
        ∙ ap some (append_assoc all c.nodes _))

-- Where GitHub lists the repositories in any number of pages, the nodes of the first 20 are fetched, in
-- order and each once: all of them, where there are no more pages, and else without a word.
pub fetch_all-first_pages :
    (query : Query) (pages : List (List RepoNode))
    → Lists query none pages
    → fetch_all_repo_nodes query ≡ some (joined (take 20 pages))
unfolding fetch_all_repo_nodes
fetch_all-first_pages query pages l = fetch_pages-joined 20 query none pages [] l
