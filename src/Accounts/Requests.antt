-- ===== src/Accounts/Requests.antt =====
-- The operations of apps/api-gateway/src/auth/auth.service.ts, the guard of
-- apps/api-gateway/src/auth/clerk-auth.guard.ts and the webhook of
-- apps/api-gateway/src/webhooks/clerk-webhook.controller.ts. What Clerk and GitHub answer is an
-- argument, `none` where the call rejects.
use codemind_backend.Common.{
  ℕ, ◌+◌, Bool, not, String, Option, none, some, List, [], ◌∷◌, keep, any, leb, str_eq,
  if◌then◌else◌,
}
use codemind_backend.Text.{is_empty}
use codemind_backend.Accounts.{
  User, Outcome, ok, failed, Code, transient, conflict, other, Db, Op, with_db_retry, find_unique,
  find_by_clerk, find_by_id, upsert_user, write,
}
use codemind_backend.Accounts.Profiles.{
  NormalizedUser, Profile, minimal, from_clerk_user, from_webhook_data, is_github,
}

-- REFRESH_TTL_MS is one hour.
abbrev pub is_fresh : ℕ → User → Bool
is_fresh now u = leb now (u.updated_at + 3600000)

abbrev pub reread : Outcome User → Outcome (Option User) × Db → Outcome User × Db
reread error (ok (some row), db) = (ok row, db)
reread error (ok none, db) = (error, db)
reread error (failed c, db) = (failed c, db)

abbrev pub settle_create : NormalizedUser → Outcome User × Db → Outcome User × Db
settle_create n (ok u, db) = (ok u, db)
settle_create n (failed conflict, db) =
    reread (failed conflict) (with_db_retry (find_unique n.clerk_id) db)
settle_create n (failed transient, db) = (failed transient, db)
settle_create n (failed other, db) = (failed other, db)

unfoldable pub create_user_safely : NormalizedUser → Op User
unfolding with_db_retry upsert_user find_by_clerk
create_user_safely n db = settle_create n (with_db_retry (upsert_user n) db)

-- The row that is there is served where its refresh fails.
abbrev pub serve_cached : User → Outcome User × Db → Outcome User × Db
serve_cached existing (ok u, db) = (ok u, db)
serve_cached existing (failed c, db) = (ok existing, db)

abbrev pub refresh : User → Option Profile → Op User
refresh existing none db = (ok existing, db)
refresh existing (some p) db =
    serve_cached existing (with_db_retry (upsert_user (from_clerk_user p)) db)

abbrev pub normalized_or_minimal : String → Option Profile → NormalizedUser
normalized_or_minimal c none = minimal c
normalized_or_minimal c (some p) = from_clerk_user p

abbrev pub resolve_user : String → Option Profile → Outcome (Option User) × Db → Outcome User × Db
resolve_user c profile (failed e, db) = (failed e, db)
resolve_user c profile (ok (some u), db) =
    let stale = refresh u profile db in if is_fresh db.now u then (ok u, db) else stale
resolve_user c profile (ok none, db) = create_user_safely (normalized_or_minimal c profile) db

unfoldable pub get_or_create_user : String → Option Profile → Op User
unfolding with_db_retry find_by_clerk create_user_safely upsert_user from_clerk_user
get_or_create_user c profile db = resolve_user c profile (with_db_retry (find_unique c) db)

unfoldable pub sync_from_webhook : Profile → Op User
unfolding with_db_retry upsert_user from_webhook_data
sync_from_webhook d db = with_db_retry (upsert_user (from_webhook_data d)) db

abbrev pub delete_many : String → Op (Unit {0})
delete_many c db =
    (ok tt, record db { users = keep (λ (u : User). not (str_eq u.clerk_id c)) db.users })

unfoldable pub delete_by_clerk_id : String → Op (Unit {0})
unfolding with_db_retry
delete_by_clerk_id c db = with_db_retry (delete_many c) db

-- `fallback` where Clerk does not answer.
abbrev pub is_github_connected : Bool → Option Bool → Bool
is_github_connected fallback none = fallback
is_github_connected fallback (some b) = b

pub record Identity : Type 0 where
  pub id : String
  pub login : String

-- The fields of GitHub's `/user` that are given, where the request is answered.
abbrev pub read_identity : Option (Option String × Option String) → Option Identity
read_identity none = none
read_identity (some (none, login)) = none
read_identity (some (some id, none)) = none
read_identity (some (some id, some login)) =
    if is_empty login then none else some (record { id = id; login = login })

abbrev pub identified : Option Identity → User → User
identified none u = u
identified (some i) u = record u { github_id = some i.id; github_username = some i.login }

-- `getGithubToken` of apps/api-gateway/src/auth/clerk.service.ts: what Clerk answers for each of the
-- names of the provider, `none` where it rejects.
unfoldable pub get_github_token : List (Option (Option String)) → Option String
unfolding is_empty
get_github_token [] = none
get_github_token (none ∷ rest) = get_github_token rest
get_github_token (some none ∷ rest) = get_github_token rest
get_github_token (some (some t) ∷ rest) =
    let next = get_github_token rest in if is_empty t then next else some t

-- `hasGithub` of the same file.
abbrev pub has_github : Profile → Bool
has_github p = any is_github p.external_accounts

pub data TokenError : Type 0 where
  not_connected : TokenError
  database : Code → TokenError

pub data TokenOutcome : Type 0 where
  token : String → TokenOutcome
  refused : TokenError → TokenOutcome

module _ (encrypt : String → String) where
  abbrev pub store_on : String → Option Identity → Option User → Op User
  store_on t i none db = (failed other, db)
  store_on t i (some u) db =
      write
        (record (identified i u) {
          github_access_token_encrypted = some (encrypt t);
          updated_at = db.now;
        })
        db

  abbrev pub store_token : ℕ → String → Option Identity → Op User
  store_token id t i db = store_on t i (find_by_id id db.users) db

  abbrev pub stored : String → Outcome User × Db → TokenOutcome × Db
  stored t (ok u, db) = (token t, db)
  stored t (failed c, db) = (refused (database c), db)

  abbrev pub with_token : ℕ → Option Identity → Option String → Db → TokenOutcome × Db
  with_token id i none db = (refused not_connected, db)
  with_token id i (some t) db =
      let saved = stored t (with_db_retry (store_token id t i) db) in
      if is_empty t then (refused not_connected, db) else saved

  abbrev pub on_owner :
      ℕ → Option String → Option Identity → Outcome (Option User) × Db → TokenOutcome × Db
  on_owner id t i (failed c, db) = (refused (database c), db)
  on_owner id t i (ok none, db) = (refused (database other), db)
  on_owner id t i (ok (some u), db) = with_token id i t db

  -- `t` is the token that Clerk has for the user, and `answer` what GitHub says of it.
  unfoldable pub ensure_github_token :
      ℕ → Option String → Option (Option String × Option String) → Db → TokenOutcome × Db
  unfolding with_db_retry find_by_id
  ensure_github_token id t answer db =
      on_owner id t (read_identity answer)
        (with_db_retry (λ (d : Db). (ok (find_by_id id d.users), d)) db)

-- The events of the webhook, once their signature is verified.
pub data Event : Type 0 where
  user_created : Profile → Event
  user_updated : Profile → Event
  user_deleted : Option String → Event
  unhandled : Event

pub data Reply : Type 0 where
  received : Reply
  bad_request : Reply
  server_error : Code → Reply

abbrev pub reply_to : {A : Type 0} → Outcome A × Db → Reply × Db
reply_to (ok a, db) = (received, db)
reply_to (failed c, db) = (server_error c, db)

abbrev pub dispatch : Event → Db → Reply × Db
dispatch (user_created p) db = reply_to (sync_from_webhook p db)
dispatch (user_updated p) db = reply_to (sync_from_webhook p db)
dispatch (user_deleted none) db = (received, db)
dispatch (user_deleted (some c)) db =
    let deleted = reply_to (delete_by_clerk_id c db) in
    if is_empty c then (received, db) else deleted
dispatch unhandled db = (received, db)

-- `verify` is that of Svix, `none` where it throws.
module _ (verify : (payload : String) → Option Event) where
  abbrev pub verified : Option Event → Db → Reply × Db
  verified none db = (bad_request, db)
  verified (some e) db = dispatch e db

  abbrev pub handle_payload : Option String → Db → Reply × Db
  handle_payload none db = (bad_request, db)
  handle_payload (some payload) db =
      let done = verified (verify payload) db in
      if is_empty payload then (bad_request, db) else done

  unfoldable pub handle : Option String → Db → Reply × Db
  unfolding sync_from_webhook delete_by_clerk_id
  handle body db = handle_payload body db

pub data Access : Type 0 where
  granted : User → Access
  unauthorized : Access
  errored : Code → Access

abbrev pub access_of : Outcome User × Db → Access × Db
access_of (ok u, db) = (granted u, db)
access_of (failed c, db) = (errored c, db)

-- `token` is what `extractToken` finds, `subject` whom Clerk verifies it for.
abbrev pub admit : Option Profile → Option String → Db → Access × Db
admit profile none db = (unauthorized, db)
admit profile (some c) db =
    let resolved = access_of (get_or_create_user c profile db) in
    if is_empty c then (unauthorized, db) else resolved

unfoldable pub can_activate :
    (String → Option String) → Option Profile → Option String → Db → Access × Db
unfolding get_or_create_user
can_activate verify_session profile none db = (unauthorized, db)
can_activate verify_session profile (some t) db =
    let admitted = admit profile (verify_session t) db in
    if is_empty t then (unauthorized, db) else admitted
