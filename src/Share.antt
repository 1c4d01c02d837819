-- ===== src/Share.antt =====
-- Share links of a report: apps/api-gateway/src/jobs/share.service.ts.
-- The state is the rows of the job and of its shares. Tokens are drawn from `randomBytes`, so the
-- token of a new link is an argument.
pub mod Laws
use codemind_backend.Common.{
  ℕ, Bool, true, false, ◌&&◌, not, String, Option, none, some, List, [], ◌∷◌, str_eq, if◌then◌else◌,
}

-- `Job` with its report, as `ownedReport` reads it.
pub record Job : Type 0 where
  pub id : String
  pub user_id : String
  pub report_id : Option String

-- `ReportShare`
pub record Share : Type 0 where
  pub token : String
  pub report_id : String
  pub created_by : String
  pub created_at : ℕ
  pub revoked_at : Option ℕ

-- The rows; the shares have the newest first.
pub record Store : Type 0 where
  pub jobs : List Job
  pub shares : List Share

pub record ShareLink : Type 0 where
  pub token : String
  pub created_at : ℕ

pub data Answer {ℓ} (A : Type ℓ) : Type ℓ where
  found : A → Answer A
  not_found : String → Answer A

abbrev pub find_job : String → List Job → Option Job
find_job job_id [] = none
find_job job_id (j ∷ js) = if str_eq j.id job_id then some j else find_job job_id js

abbrev pub ready : Option String → Answer String
ready none = not_found "Report not ready yet"
ready (some report_id) = found report_id

abbrev pub report_of : String → Option Job → Answer String
report_of user none = not_found "Job not found"
report_of user (some j) =
    if str_eq j.user_id user then ready j.report_id else not_found "Job not found"

unfoldable pub owned_report : String → String → Store → Answer String
owned_report job_id user s = report_of user (find_job job_id s.jobs)

abbrev pub not_revoked : Option ℕ → Bool
not_revoked none = true
not_revoked (some t) = false

-- `{ reportId: report.id, revokedAt: null }`
abbrev pub is_live : String → Share → Bool
is_live report_id x = str_eq x.report_id report_id && not_revoked x.revoked_at

abbrev pub link_of : Share → ShareLink
link_of x = record { token = x.token; created_at = x.created_at }

-- `findFirst` by the newest `createdAt`
unfoldable pub find_live : String → List Share → Option Share
find_live report_id [] = none
find_live report_id (x ∷ xs) = if is_live report_id x then some x else find_live report_id xs

abbrev pub new_share : String → String → String → ℕ → Share
new_share report_id user token now = record {
  token = token;
  report_id = report_id;
  created_by = user;
  created_at = now;
  revoked_at = none;
}

abbrev pub create_or_get : String → String → String → ℕ → Store → Option Share → ShareLink × Store
create_or_get report_id user token now s (some x) = (link_of x, s)
create_or_get report_id user token now s none =
    let share = new_share report_id user token now in
    (link_of share, record s { shares = share ∷ s.shares })

abbrev pub create_for : String → String → ℕ → Store → Answer String → Answer (ShareLink × Store)
create_for user token now s (not_found why) = not_found why
create_for user token now s (found report_id) =
    found (create_or_get report_id user token now s (find_live report_id s.shares))

unfoldable pub create_or_get_link :
    String → String → String → ℕ → Store → Answer (ShareLink × Store)
create_or_get_link job_id user token now s =
    create_for user token now s (owned_report job_id user s)

-- `share ? { … } : null`
abbrev pub link_option : Option Share → Option ShareLink
link_option none = none
link_option (some x) = some (link_of x)

abbrev pub link_for : Store → Answer String → Answer (Option ShareLink)
link_for s (not_found why) = not_found why
link_for s (found report_id) = found (link_option (find_live report_id s.shares))

unfoldable pub get_link : String → String → Store → Answer (Option ShareLink)
get_link job_id user s = link_for s (owned_report job_id user s)

-- The `updateMany` of `revokeLinks`
unfoldable pub revoke_all : String → ℕ → List Share → List Share
revoke_all report_id now [] = []
revoke_all report_id now (x ∷ xs) =
    (if is_live report_id x then record x { revoked_at = some now } else x)
    ∷ revoke_all report_id now xs

abbrev pub revoke_for : ℕ → Store → Answer String → Answer Store
revoke_for now s (not_found why) = not_found why
revoke_for now s (found report_id) = found (record s { shares = revoke_all report_id now s.shares })

unfoldable pub revoke_links : String → String → ℕ → Store → Answer Store
revoke_links job_id user now s = revoke_for now s (owned_report job_id user s)

abbrev pub find_token : String → List Share → Option Share
find_token token [] = none
find_token token (x ∷ xs) = if str_eq x.token token then some x else find_token token xs

abbrev pub redeem : Option Share → Answer Share
redeem none = not_found "Share link not found"
redeem (some x) = if not_revoked x.revoked_at then found x else not_found "Share link not found"

-- `getSharedReport`, up to the share whose report it renders.
unfoldable pub get_shared_report : String → Store → Answer Share
get_shared_report token s = redeem (find_token token s.shares)
