-- ===== src/Tests/Members.antt =====
-- The accounts and the repositories of the gateway, on a few rows.
use mathlib.Core.List.{Memᴰ}
use codemind_backend.Common.{
  ℕ, true, false, String, none, some, [], ◌∷◌, All, ◌≡◌, ◌≢◌, refl, arith, take, keep, not, str_eq,
  ◌++◌,
}
use codemind_backend.Text.{is_empty}
use codemind_backend.Accounts.{
  User, ok, failed, conflict, call, attempt, with_db_retry, find_unique, find_by_clerk, upsert_user,
  created,
}
use codemind_backend.Accounts.Profiles.{
  Profile, minimal, from_clerk_user, find_github, is_github, lower_units, holds,
}
use codemind_backend.Accounts.Requests.{get_or_create_user, user_deleted, dispatch}
use codemind_backend.Accounts.Serving.{
  calm, Served, get_or_create_user-Served, claimed_github-locks_out, deleted_user-returns,
}
use codemind_backend.Accounts.Merging.{lost, lost_upsert-repeats, Merged, upsert_user-Merged}
use codemind_backend.Repos.{
  RepoNode, Query, run_repos_query, fetch_all_repo_nodes, Job, find_last, get_last_jobs,
}
use codemind_backend.Repos.Paging.{Lists, last_page, page, joined, fetch_all-first_pages}
use codemind_backend.Repos.Latest.{Latest, get_last_jobs-Latest}

abbrev ada : User
ada = record {
  id = 1;
  clerk_id = "user_a";
  email = some "ada@example.org";
  name = none;
  github_id = some "42";
  github_access_token_encrypted = none;
  github_username = some "ada";
  avatar_url = none;
  updated_at = 0;
}

-- Ada's second account at Clerk.
abbrev second : Profile
second = record {
  id = "user_b";
  username = none;
  first_name = some "Ada";
  last_name = none;
  image_url = none;
  primary_email_address_id = none;
  email_addresses = [];
  external_accounts =
      record {
        provider = some "oauth_GitHub";
        status = some "verified";
        external_id = some "42";
        username = some "ada";
      }
      ∷ [];
}

ada-known :
    with_db_retry (find_unique "user_a") (calm (ada ∷ []) 2 0)
    ≡ (ok (some ada), calm (ada ∷ []) 2 0)
unfolding with_db_retry attempt call find_by_clerk
ada-known = refl

get_or_create_user-Served_example :
    Served none ada (calm (ada ∷ []) 2 0) (get_or_create_user "user_a" none (calm (ada ∷ []) 2 0))
get_or_create_user-Served_example =
    get_or_create_user-Served "user_a" none (calm (ada ∷ []) 2 0) (calm (ada ∷ []) 2 0) ada
      ada-known

second-unknown : find_by_clerk "user_b" (ada ∷ []) ≡ none
unfolding find_by_clerk
second-unknown = refl

second-claims : (from_clerk_user second).github_id ≡ some "42"
unfolding from_clerk_user find_github is_github lower_units holds
second-claims = refl

two-fresh : All (λ (v : User). v.id ≢ 2) (ada ∷ [])
two-fresh = ((λ e. omega (arith, e)), tt)

claimed_github-locks_out_example :
    (get_or_create_user "user_b" (some second) (calm (ada ∷ []) 2 0)
      ≡ (failed conflict, calm (ada ∷ []) 2 0))
    × ((get_or_create_user "user_b" none (calm (ada ∷ []) 2 0)).0
        ≡ ok (created (minimal "user_b") 2 0))
claimed_github-locks_out_example =
    claimed_github-locks_out (ada ∷ []) 2 0 second ada "42" second-unknown two-fresh
      (Memᴰ.head refl) refl second-claims

id-given : is_empty "user_a" ≡ false
unfolding is_empty
id-given = refl

deleted_user-returns_example :
    let rest = keep (λ (u : User). not (str_eq u.clerk_id "user_a")) (ada ∷ []) in
    let gone = (dispatch (user_deleted (some "user_a")) (calm (ada ∷ []) 2 0)).1 in
    (gone ≡ calm rest 2 0)
    × (find_by_clerk "user_a" gone.users ≡ none)
    × (get_or_create_user "user_a" none gone ≡ (
      ok (created (minimal "user_a") 2 0),
      calm (rest ++ created (minimal "user_a") 2 0 ∷ []) 3 0,
    ))
deleted_user-returns_example = deleted_user-returns (ada ∷ []) 2 0 "user_a" id-given

lost_upsert-repeats_example :
    with_db_retry
      (upsert_user (minimal "user_b"))
      (record (calm (ada ∷ []) 2 0) { awaits = lost ∷ [] })
    ≡ upsert_user (minimal "user_b") (calm (ada ∷ []) 2 150)
lost_upsert-repeats_example = lost_upsert-repeats (minimal "user_b") (ada ∷ []) 2 0 two-fresh

ada-found : find_by_clerk "user_a" (ada ∷ []) ≡ some ada
unfolding find_by_clerk
ada-found = refl

upsert_user-Merged_example :
    Merged
      (ada ∷ [])
      ada
      (calm (ada ∷ []) 2 0)
      (upsert_user (minimal "user_a") (calm (ada ∷ []) 2 0))
upsert_user-Merged_example = upsert_user-Merged (minimal "user_a") (ada ∷ []) 2 0 ada ada-found

abbrev repo : RepoNode
repo = record {
  database_id = some 7;
  name_with_owner = "ada/engine";
  is_private = false;
  url = "https://github.com/ada/engine";
  updated_at = "2024-01-01";
  default_branch = none;
  primary_language = none;
  languages = none;
}

-- Two pages.
abbrev two_pages : Query
two_pages none = some (record {
  is_ok = true;
  repositories = some (record { has_next_page = true; end_cursor = some "x"; nodes = repo ∷ [] });
})
two_pages (some c) = some (record {
  is_ok = true;
  repositories = some (record { has_next_page = false; end_cursor = none; nodes = repo ∷ [] });
})

two_pages-Lists : Lists two_pages none ((repo ∷ []) ∷ (repo ∷ []) ∷ [])
unfolding run_repos_query is_empty
two_pages-Lists =
    page (record { has_next_page = true; end_cursor = some "x"; nodes = repo ∷ [] }) "x" refl refl
      (last_page (record { has_next_page = false; end_cursor = none; nodes = repo ∷ [] }) refl refl)

fetch_all-first_pages_example :
    fetch_all_repo_nodes two_pages ≡ some (joined (take 20 ((repo ∷ []) ∷ (repo ∷ []) ∷ [])))
fetch_all-first_pages_example =
    fetch_all-first_pages two_pages ((repo ∷ []) ∷ (repo ∷ []) ∷ []) two_pages-Lists

abbrev job_at : String → ℕ → Job
job_at id t = record {
  id = id;
  user_id = 1;
  repo_full_name = "ada/engine";
  status = "done";
  created_at = t;
}

get_last_jobs-Latest_example : Latest 1 (job_at "old" 1 ∷ job_at "new" 2 ∷ []) "ada/engine" (
    find_last "ada/engine"
      (get_last_jobs 1 ("ada/engine" ∷ []) (job_at "old" 1 ∷ job_at "new" 2 ∷ [])))
get_last_jobs-Latest_example =
    get_last_jobs-Latest 1 ("ada/engine" ∷ []) (job_at "old" 1 ∷ job_at "new" 2 ∷ []) "ada/engine"
      (Memᴰ.head refl)
