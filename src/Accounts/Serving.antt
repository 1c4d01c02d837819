-- ===== src/Accounts/Serving.antt =====
-- Whom the guard of apps/api-gateway/src/auth/clerk-auth.guard.ts lets in.
use mathlib.Core.List.{Memᴰ}
use codemind_backend.Common.{
  ℕ, suc, Bool, true, false, not, ◌&&◌, ◌||◌, String, Option, none, some, List, [], ◌∷◌, ◌++◌, keep,
  All, ◌==◌, str_eq, str_eq_iff, ◌≡◌, ◌≢◌, refl, sym, ap, subst, ◌∙◌, arith, either_known,
}
use codemind_backend.Text.{is_empty}
use codemind_backend.Accounts.{
  User, Outcome, ok, failed, conflict, Db, call, attempt, with_db_retry, find_unique, find_by_clerk,
  taken_by_other, same_text, upsert_user, created,
}
use codemind_backend.Accounts.Profiles.{NormalizedUser, Profile, minimal, from_clerk_user}
use codemind_backend.Accounts.Requests.{
  is_fresh, normalized_or_minimal, refresh, serve_cached, resolve_user, create_user_safely,
  get_or_create_user, user_deleted, dispatch, delete_by_clerk_id,
}

-- What a request of a user whose row was read is served: that row, or the one that its refresh wrote.
pub data Served (profile : Option Profile) (u : User) (db : Db) : Outcome User × Db → Type 0 where
  cached : (later : Db) → Served profile u db (ok u, later)
  refreshed :
      (p : Profile) (v : User) (later : Db)
      → profile ≡ some p
      → is_fresh db.now u ≡ false
      → with_db_retry (upsert_user (from_clerk_user p)) db ≡ (ok v, later)
      → Served profile u db (ok v, later)

cached-Served :
    (p : Profile) (u : User) (db : Db) (r : Outcome User × Db)
    → is_fresh db.now u ≡ false
    → with_db_retry (upsert_user (from_clerk_user p)) db ≡ r
    → Served (some p) u db (serve_cached u r)
cached-Served p u db (ok v, later) stale e = refreshed p v later refl stale e
cached-Served p u db (failed c, later) stale e = cached later

refresh-Served :
    (profile : Option Profile) (u : User) (db : Db)
    → is_fresh db.now u ≡ false
    → Served profile u db (refresh u profile db)
refresh-Served none u db stale = cached db
refresh-Served (some p) u db stale = cached-Served p u db _ stale refl

-- Once the row of a user is read, the request is served, whatever Clerk answers, and whatever the calls
-- of the database that follow meet: with that row, or, where it is older than an hour, with the one
-- that a refresh from Clerk's profile has written.
pub get_or_create_user-Served :
    (c : String) (profile : Option Profile) (db read : Db) (u : User)
    → with_db_retry (find_unique c) db ≡ (ok (some u), read)
    → Served profile u read (get_or_create_user c profile db)
unfolding get_or_create_user
get_or_create_user-Served c profile db read u e =
    subst (λ r. Served profile u read (resolve_user c profile r)) (sym e)
      (either_known (Served profile u read) (is_fresh read.now u) _ _ (λ f. cached read)
        (λ stale. refresh-Served profile u read stale))

-- No call is disturbed.
abbrev pub calm : List User → ℕ → ℕ → Db
calm users next_id now = record { users = users; next_id = next_id; now = now; awaits = [] }

or-second : {b : Bool} (c : Bool) → b ≡ true → (c || b) ≡ true
or-second true h = refl
or-second false h = h

claimed-taken :
    (u w : User) (users : List User) (g : String)
    → Memᴰ w users
    → All (λ (v : User). v.id ≢ u.id) users
    → w.github_id ≡ some g
    → u.github_id ≡ some g
    → taken_by_other u users ≡ true
unfolding taken_by_other
claimed-taken u w [] g m fresh e d = elim m [ ]
claimed-taken u w (v ∷ users) g (Memᴰ.head same) (p, fresh) e d =
    let same_id : (v.id == u.id) ≡ false = ground (arith, p) in
    let vg : v.github_id ≡ some g = subst (λ (x : User). x.github_id ≡ some g) same e in
    rw (vg, d, same_id, (str_eq_iff g g).1 refl) refl
claimed-taken u w (v ∷ users) g (Memᴰ.tail m) (p, fresh) e d =
    or-second _ (claimed-taken u w users g m fresh e d)

same_text-none : (t : Option String) → same_text t none ≡ false
same_text-none none = refl
same_text-none (some s) = refl

and-false : (b : Bool) {c : Bool} → c ≡ false → (b && c) ≡ false
and-false true h = h
and-false false h = refl

unnamed-free : (u : User) (users : List User) → u.github_id ≡ none → taken_by_other u users ≡ false
unfolding taken_by_other
unnamed-free u [] e = refl
unnamed-free u (v ∷ users) e =
    let here : same_text v.github_id u.github_id ≡ false =
      subst (λ t. same_text v.github_id t ≡ false) (sym e) (same_text-none v.github_id) in
    rw (and-false (not (v.id == u.id)) here) (unnamed-free u users e)

module _ (users : List User) (next_id now : ℕ) where
  -- The user of a row that is not there.
  create-refused :
      (n : NormalizedUser)
      → find_by_clerk n.clerk_id users ≡ none
      → taken_by_other (created n next_id now) users ≡ true
      → create_user_safely n (calm users next_id now) ≡ (failed conflict, calm users next_id now)
  unfolding create_user_safely with_db_retry attempt call upsert_user
  create-refused n e t = rw (e, t, e) refl

  create-inserted :
      (n : NormalizedUser)
      → find_by_clerk n.clerk_id users ≡ none
      → taken_by_other (created n next_id now) users ≡ false
      → create_user_safely n (calm users next_id now)
        ≡ (ok (created n next_id now), calm (users ++ created n next_id now ∷ []) (suc next_id) now)
  unfolding create_user_safely with_db_retry attempt call upsert_user
  create-inserted n e t = rw (e, t) refl

  unknown-creates :
      (c : String) (profile : Option Profile)
      → find_by_clerk c users ≡ none
      → get_or_create_user c profile (calm users next_id now)
        ≡ create_user_safely (normalized_or_minimal c profile) (calm users next_id now)
  unfolding get_or_create_user with_db_retry attempt call
  unknown-creates c profile e = rw e refl

-- A new user whose verified GitHub account stands in another user's row is refused on each request that
-- Clerk answers, and nothing changes, so it stays so; where Clerk does not answer, the same user is let
-- in. (No call of the database is disturbed.)
pub claimed_github-locks_out :
    (users : List User) (next_id now : ℕ) (p : Profile) (w : User) (g : String)
    → find_by_clerk p.id users ≡ none
    → All (λ (v : User). v.id ≢ next_id) users
    → Memᴰ w users
    → w.github_id ≡ some g
    → (from_clerk_user p).github_id ≡ some g
    → (get_or_create_user p.id (some p) (calm users next_id now)
        ≡ (failed conflict, calm users next_id now))
      × ((get_or_create_user p.id none (calm users next_id now)).0
          ≡ ok (created (minimal p.id) next_id now))
unfolding from_clerk_user
claimed_github-locks_out users next_id now p w g unknown fresh m e d =
    let n = from_clerk_user p in
    let t = claimed-taken (created n next_id now) w users g m fresh e d in
    let free = unnamed-free (created (minimal p.id) next_id now) users refl in
    (
      unknown-creates users next_id now p.id (some p) unknown
          ∙ create-refused users next_id now n unknown t,
      ap (λ (r : Outcome User × Db). r.0)
          (unknown-creates users next_id now p.id none unknown
            ∙ create-inserted users next_id now (minimal p.id) unknown free),
    )

not-other : (b : Bool) → not b ≡ true → b ≡ false
not-other true h = sym h
not-other false h = refl

find-deleted :
    (c : String) (users : List User)
    → find_by_clerk c (keep (λ (u : User). not (str_eq u.clerk_id c)) users) ≡ none
unfolding find_by_clerk
find-deleted c [] = refl
find-deleted c (u ∷ us) =
    either_known (λ vs. find_by_clerk c vs ≡ none) (not (str_eq u.clerk_id c)) _ _
      (λ h. rw (not-other (str_eq u.clerk_id c) h) (find-deleted c us)) (λ h. find-deleted c us)

-- Once the webhook has deleted a user, the table has no row of that Clerk id, and the other rows are
-- the ones it had; and a request with a session token that is still good stores a row for it again,
-- empty but for the Clerk id, since Clerk knows no such user and an answer that it does not give counts
-- as an outage: that row is what the request is served, and the table holds it behind the others. (The
-- Clerk id is not empty, and no call of the database is disturbed.)
pub deleted_user-returns :
    (users : List User) (next_id now : ℕ) (c : String)
    → is_empty c ≡ false
    → let rest = keep (λ (u : User). not (str_eq u.clerk_id c)) users in
      let gone = (dispatch (user_deleted (some c)) (calm users next_id now)).1 in
      (gone ≡ calm rest next_id now)
      × (find_by_clerk c gone.users ≡ none)
      × (get_or_create_user c none gone ≡ (
        ok (created (minimal c) next_id now),
        calm (rest ++ created (minimal c) next_id now ∷ []) (suc next_id) now,
      ))
unfolding delete_by_clerk_id with_db_retry attempt call
deleted_user-returns users next_id now c e =
    let rest = keep (λ (u : User). not (str_eq u.clerk_id c)) users in
    let gone : find_by_clerk c rest ≡ none = find-deleted c users in
    let free = unnamed-free (created (minimal c) next_id now) rest refl in
    rw e (
      refl,
      gone,
      unknown-creates rest next_id now c none gone
          ∙ create-inserted rest next_id now (minimal c) gone free,
    )
