-- ===== src/Accounts.antt =====
-- The users of apps/api-gateway/src/auth/auth.service.ts: the rows of the table `users` of
-- prisma/schema.prisma, and the operations on them. A call of the database may reject, and one that
-- rejects may have been carried out; other processes may write between two calls.
pub mod Profiles
pub mod Rows
pub mod Requests
pub mod Serving
pub mod Merging
use codemind_backend.Common.{
  ℕ, zero, suc, ◌+◌, Bool, true, false, not, ◌&&◌, ◌||◌, String, Option, none, some, List, [], ◌∷◌,
  ◌++◌, any, keep, ◌==◌, str_eq, if◌then◌else◌,
}
use codemind_backend.Text.{is_empty}
use codemind_backend.Accounts.Profiles.{NormalizedUser}

pub record User : Type 0 where
  pub id : ℕ
  pub clerk_id : String
  pub email : Option String
  pub name : Option String
  pub github_id : Option String
  pub github_access_token_encrypted : Option String
  pub github_username : Option String
  pub avatar_url : Option String
  pub updated_at : ℕ

-- The codes P1001, P1002, P1008 and P1017; P2002; and all else.
pub data Code : Type 0 where
  transient : Code
  conflict : Code
  other : Code

abbrev pub is_transient : Code → Bool
is_transient transient = true
is_transient conflict = false
is_transient other = false

pub data Outcome (A : Type 0) : Type 0 where
  ok : A → Outcome A
  failed : Code → Outcome A

-- What one call meets: what others wrote before it, and whether it rejects, carried out or not.
pub record Await : Type 0 where
  pub meanwhile : List User → List User
  pub fault : Option Code
  pub lands : Bool

-- A call with no entry in `awaits` meets nothing. `next_id` stands for `uuid()`.
pub record Db : Type 0 where
  pub users : List User
  pub next_id : ℕ
  pub now : ℕ
  pub awaits : List Await

abbrev pub Op : Type 0 → Type 0
Op A = Db → Outcome A × Db

module _ {A : Type 0} where
  abbrev pub meet : Await → List Await → Op A → Op A
  meet a rest op db =
      let before : Db = record db { users = a.meanwhile db.users; awaits = rest } in
      elim a.fault [
        | none ↦ op before
        | some c ↦ (failed c, if a.lands then (op before).1 else before)
      ]

  abbrev pub call_with : List Await → Op A → Op A
  call_with [] op db = op db
  call_with (a ∷ rest) op db = meet a rest op db

  -- One await of the database.
  unfoldable pub call : Op A → Op A
  call op db = call_with db.awaits op db

  abbrev pub retry_on : Op A → Outcome A × Db → Outcome A × Db
  retry_on more (ok a, db) = (ok a, db)
  retry_on more (failed transient, db) = more db
  retry_on more (failed conflict, db) = (failed conflict, db)
  retry_on more (failed other, db) = (failed other, db)

  abbrev pub after_delay : ℕ → Op A → Op A
  after_delay ms op db = op (record db { now = db.now + ms })

  -- The delays that are left, one before each further attempt.
  unfoldable pub attempt : List ℕ → Op A → Op A
  unfolding call
  attempt [] op db = call op db
  attempt (ms ∷ delays) op db =
      let more = after_delay ms (attempt delays op) in retry_on more (call op db)

  unfoldable pub with_db_retry : Op A → Op A
  unfolding attempt
  with_db_retry op db = attempt (150 ∷ 400 ∷ []) op db

unfoldable pub find_by_clerk : String → List User → Option User
find_by_clerk c [] = none
find_by_clerk c (u ∷ us) =
    let later = find_by_clerk c us in if str_eq u.clerk_id c then some u else later

unfoldable pub find_by_id : ℕ → List User → Option User
find_by_id id [] = none
find_by_id id (u ∷ us) = let later = find_by_id id us in if u.id == id then some u else later

abbrev pub same_text : Option String → Option String → Bool
same_text none t = false
same_text (some s) none = false
same_text (some s) (some t) = str_eq s t

-- `github_id` is unique among the rows that have one.
unfoldable pub taken_by_other : User → List User → Bool
taken_by_other u us = any (λ (v : User). not (v.id == u.id) && same_text v.github_id u.github_id) us

unfoldable pub put : User → List User → List User
put u [] = []
put u (v ∷ us) = let rest = put u us in if v.id == u.id then u ∷ rest else v ∷ rest

-- `...(n.email ? { email: n.email } : {})`
abbrev pub sparse : Option String → Option String → Option String
sparse none old = old
sparse (some s) old = if is_empty s then old else some s

abbrev pub updated : NormalizedUser → ℕ → User → User
updated n now u = record u {
  email = sparse n.email u.email;
  name = sparse n.name u.name;
  github_id = sparse n.github_id u.github_id;
  github_username = sparse n.github_username u.github_username;
  avatar_url = sparse n.avatar_url u.avatar_url;
  updated_at = now;
}

abbrev pub created : NormalizedUser → ℕ → ℕ → User
created n id now = record {
  id = id;
  clerk_id = n.clerk_id;
  email = n.email;
  name = n.name;
  github_id = n.github_id;
  github_access_token_encrypted = none;
  github_username = n.github_username;
  avatar_url = n.avatar_url;
  updated_at = now;
}

abbrev pub write : User → Db → Outcome User × Db
write u db =
    if taken_by_other u db.users
    then (failed conflict, db)
    else (ok u, record db { users = put u db.users })

abbrev pub insert_row : User → Db → Outcome User × Db
insert_row u db =
    if taken_by_other u db.users
    then (failed conflict, db)
    else (ok u, record db { users = db.users ++ u ∷ []; next_id = suc db.next_id })

abbrev pub upsert_on : NormalizedUser → Option User → Op User
upsert_on n none db = insert_row (created n db.next_id db.now) db
upsert_on n (some u) db = write (updated n db.now u) db

unfoldable pub upsert_user : NormalizedUser → Op User
unfolding find_by_clerk taken_by_other put is_empty
upsert_user n db = upsert_on n (find_by_clerk n.clerk_id db.users) db

abbrev pub find_unique : String → Op (Option User)
find_unique c db = (ok (find_by_clerk c db.users), db)
