-- ===== src/Repos.antt =====
-- The listing of a user's repositories in apps/api-gateway/src/repos/repos.service.ts. GitHub's answers
-- are an argument, `none` where the request rejects; so is the quotient of the language shares, which
-- the source computes in floating point.
pub mod Paging
pub mod Latest
pub mod Caching
use codemind_backend.Common.{
  ℕ, zero, suc, Bool, true, false, ◌&&◌, String, Option, none, some, List, [], ◌∷◌, ◌++◌, map, keep,
  any, take, leb, ◌==◌, str_eq, sort_by, if◌then◌else◌,
}
use codemind_backend.Text.{is_empty}
use codemind_backend.Accounts.Requests.{TokenError, TokenOutcome, token, refused}

pub record LanguageEdge : Type 0 where
  pub size : ℕ
  pub name : String
  pub color : Option String

pub record Languages : Type 0 where
  pub total_size : ℕ
  pub edges : List LanguageEdge

pub record RepoNode : Type 0 where
  pub database_id : Option ℕ
  pub name_with_owner : String
  pub is_private : Bool
  pub url : String
  pub updated_at : String
  pub default_branch : Option String
  pub primary_language : Option String
  pub languages : Option Languages

pub record Connection : Type 0 where
  pub has_next_page : Bool
  pub end_cursor : Option String
  pub nodes : List RepoNode

pub record Response : Type 0 where
  pub is_ok : Bool
  pub repositories : Option Connection

abbrev pub Query : Type 0
Query = (cursor : Option String) → Option Response

abbrev pub read_response : Option Response → Option Connection
read_response none = none
read_response (some r) = if r.is_ok then r.repositories else none

unfoldable pub run_repos_query : Query → Option String → Option Connection
run_repos_query query cursor = read_response (query cursor)

-- The cursor of the next page, where there is one: the empty text is none.
abbrev pub cursor_of : Option String → Option String
cursor_of none = none
cursor_of (some c) = if is_empty c then none else some c

abbrev pub next_cursor : Connection → Option String
next_cursor c = if c.has_next_page then cursor_of c.end_cursor else none

abbrev pub go_on :
    (Option String → List RepoNode → Option (List RepoNode))
    → List RepoNode
    → Option String
    → Option (List RepoNode)
go_on more all none = some all
go_on more all (some c) = more (some c) all

abbrev pub on_page :
    (Option String → List RepoNode → Option (List RepoNode))
    → List RepoNode
    → Option Connection
    → Option (List RepoNode)
on_page more all none = none
on_page more all (some c) = go_on more (all ++ c.nodes) (next_cursor c)

-- The pages that may still be asked for.
unfoldable pub fetch_pages : ℕ → Query → Option String → List RepoNode → Option (List RepoNode)
unfolding run_repos_query
fetch_pages zero query cursor all = some all
fetch_pages (suc n) query cursor all =
    on_page (fetch_pages n query) all (run_repos_query query cursor)

-- MAX_PAGES is 20.
unfoldable pub fetch_all_repo_nodes : Query → Option (List RepoNode)
unfolding fetch_pages
fetch_all_repo_nodes query = fetch_pages 20 query none []

-- The entry of the cache: none, one that does not parse to an array, or one that does.
pub data Entry : Type 0 where
  missing : Entry
  corrupt : Entry
  cached : List RepoNode → Entry

abbrev pub read_cache : Bool → Entry → Option (List RepoNode)
read_cache rejects missing = none
read_cache rejects corrupt = none
read_cache rejects (cached nodes) = if rejects then none else some nodes

pub data Listing (A : Type 0) : Type 0 where
  listed : A → Listing A
  no_token : TokenError → Listing A
  failed : Listing A

abbrev pub keep_entry : Bool → Entry → List RepoNode → Entry
keep_entry rejects entry nodes = if rejects then entry else cached nodes

-- `write_rejects` says whether Redis rejects the write.
abbrev pub fetched : Bool → Entry → Option (List RepoNode) → Listing (List RepoNode) × Entry
fetched write_rejects entry none = (failed, entry)
fetched write_rejects entry (some nodes) = (listed nodes, keep_entry write_rejects entry nodes)

abbrev pub with_token :
    Bool → Entry → (String → Query) → TokenOutcome → Listing (List RepoNode) × Entry
with_token write_rejects entry github (refused e) = (no_token e, entry)
with_token write_rejects entry github (token t) =
    fetched write_rejects entry (fetch_all_repo_nodes (github t))

abbrev pub hit_or :
    Entry
    → Listing (List RepoNode) × Entry
    → Option (List RepoNode)
    → Listing (List RepoNode) × Entry
hit_or entry rebuilt none = rebuilt
hit_or entry rebuilt (some nodes) = (listed nodes, entry)

-- `answer` is what `ensureGithubToken` comes to, which is asked only where the cache does not serve.
unfoldable pub get_repo_nodes :
    (force_refresh read_rejects write_rejects : Bool)
    → Entry
    → TokenOutcome
    → (String → Query)
    → Listing (List RepoNode) × Entry
unfolding fetch_all_repo_nodes
get_repo_nodes force_refresh read_rejects write_rejects entry answer github =
    let rebuilt = with_token write_rejects entry github answer in
    let served = hit_or entry rebuilt (read_cache read_rejects entry) in
    if force_refresh then rebuilt else served

-- `invalidateReposCache`
abbrev pub invalidate : Entry → Entry
invalidate entry = missing

pub record Job : Type 0 where
  pub id : String
  pub user_id : ℕ
  pub repo_full_name : String
  pub status : String
  pub created_at : ℕ

unfoldable pub find_last : String → List (String × Job) → Option Job
find_last name [] = none
find_last name ((n, j) ∷ rest) =
    let later = find_last name rest in if str_eq n name then some j else later

abbrev pub set_first : Job → List (String × Job) → Option Job → List (String × Job)
set_first j m none = m ++ (j.repo_full_name, j) ∷ []
set_first j m (some k) = m

-- The first job of each repository, of jobs in descending order of their creation.
unfoldable pub first_jobs : List Job → List (String × Job) → List (String × Job)
unfolding find_last
first_jobs [] m = m
first_jobs (j ∷ js) m = first_jobs js (set_first j m (find_last j.repo_full_name m))

abbrev pub is_of : ℕ → List String → Job → Bool
is_of user_id names j = (j.user_id == user_id) && any (str_eq j.repo_full_name) names

abbrev pub newer : Job → Job → Bool
newer a b = leb b.created_at a.created_at

unfoldable pub get_last_jobs : ℕ → List String → List Job → List (String × Job)
unfolding first_jobs
get_last_jobs user_id names jobs = first_jobs (sort_by newer (keep (is_of user_id names) jobs)) []

pub record LanguageStat : Type 0 where
  pub name : String
  pub percent : ℕ
  pub color : Option String
  pub bytes : ℕ

pub record GithubRepoSummary : Type 0 where
  pub id : ℕ
  pub full_name : String
  pub is_private : Bool
  pub default_branch : String
  pub updated_at : String
  pub language : Option String
  pub languages : List LanguageStat
  pub html_url : String
  pub last_job_id : Option String
  pub last_job_status : Option String

-- `percent_of size total` is the share in tenths of a percent.
module _ (percent_of : ℕ → ℕ → ℕ) where
  abbrev pub stat_of : ℕ → LanguageEdge → LanguageStat
  stat_of total e = record {
    name = e.name;
    percent = percent_of e.size total;
    color = e.color;
    bytes = e.size;
  }

  -- MAX_LANGUAGES is 6.
  abbrev pub to_language_stats : Option Languages → List LanguageStat
  to_language_stats none = []
  to_language_stats (some l) =
      if l.total_size == 0
      then []
      else take 6 (
          sort_by (λ (a b : LanguageStat). leb b.bytes a.bytes)
            (map (stat_of l.total_size) l.edges))

  abbrev pub or_main : Option String → String
  or_main none = "main"
  or_main (some b) = b

  abbrev pub job_id : Option Job → Option String
  job_id none = none
  job_id (some j) = some j.id

  abbrev pub job_status : Option Job → Option String
  job_status none = none
  job_status (some j) = some j.status

  abbrev pub summary : RepoNode → ℕ → Option Job → GithubRepoSummary
  summary n id last = record {
    id = id;
    full_name = n.name_with_owner;
    is_private = n.is_private;
    default_branch = or_main n.default_branch;
    updated_at = n.updated_at;
    language = n.primary_language;
    languages = to_language_stats n.languages;
    html_url = n.url;
    last_job_id = job_id last;
    last_job_status = job_status last;
  }

  abbrev pub add_summary :
      RepoNode → Option ℕ → Option Job → List GithubRepoSummary → List GithubRepoSummary
  add_summary n none last rest = rest
  add_summary n (some id) last rest = summary n id last ∷ rest

  -- A node without a number is skipped.
  unfoldable pub summaries : List (String × Job) → List RepoNode → List GithubRepoSummary
  unfolding find_last
  summaries last [] = []
  summaries last (n ∷ ns) =
      add_summary n n.database_id (find_last n.name_with_owner last) (summaries last ns)

  abbrev pub overlay : ℕ → List Job → Listing (List RepoNode) → Listing (List GithubRepoSummary)
  overlay user_id jobs (listed nodes) = listed (
      summaries (get_last_jobs user_id (map (λ (n : RepoNode). n.name_with_owner) nodes) jobs)
        nodes)
  overlay user_id jobs (no_token e) = no_token e
  overlay user_id jobs failed = failed

  unfoldable pub list_repos :
      (force_refresh read_rejects write_rejects : Bool)
      → ℕ
      → List Job
      → Entry
      → TokenOutcome
      → (String → Query)
      → Listing (List GithubRepoSummary) × Entry
  unfolding get_repo_nodes get_last_jobs summaries
  list_repos force_refresh read_rejects write_rejects user_id jobs entry answer github =
      let got = get_repo_nodes force_refresh read_rejects write_rejects entry answer github in
      (overlay user_id jobs got.0, got.1)
