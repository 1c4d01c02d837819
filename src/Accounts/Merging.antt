-- ===== src/Accounts/Merging.antt =====
-- What the upsert of apps/api-gateway/src/auth/auth.service.ts keeps of a row, and why it may be
-- repeated.
use mathlib.Core.List.{Memᴰ}
use codemind_backend.Common.{
  ℕ, suc, ◌+◌, true, false, String, Option, none, some, List, [], ◌∷◌, ◌++◌, All, ◌==◌, ◌≡◌, ◌≢◌,
  refl, sym, ap, subst, ◌∙◌, arith, either_way, either_known, Bool-cases, Option-cases, inl, inr,
}
use codemind_backend.Text.{is_empty}
use codemind_backend.Accounts.{
  User, Outcome, ok, failed, transient, conflict, other, Await, Db, call, attempt, after_delay,
  retry_on, with_db_retry, find_by_clerk, taken_by_other, put, sparse, updated, created, write,
  upsert_on, upsert_user,
}
use codemind_backend.Accounts.Profiles.{NormalizedUser}
use codemind_backend.Accounts.Serving.{calm}
use codemind_backend.Accounts.Rows.{
  updated-again, updated-created, find-clerk, find-put, put-again, taken-put, find-append,
  taken-append, put-append,
}

write-lands :
    (us : List User) (k now : ℕ) (u : User)
    → taken_by_other u us ≡ false
    → write u (calm us k now) ≡ (ok u, calm (put u us) k now)
write-lands us k now u free = rw free refl

-- A row that is found is overwritten.
overwritten :
    (n : NormalizedUser) (us vs : List User) (k now : ℕ) (old u : User)
    → find_by_clerk n.clerk_id us ≡ some old
    → updated n now old ≡ u
    → taken_by_other u us ≡ false
    → put u us ≡ vs
    → upsert_user n (calm us k now) ≡ (ok u, calm vs k now)
unfolding upsert_user
overwritten n us vs k now old u known same free kept =
    ap (λ o. upsert_on n o (calm us k now)) known
    ∙ (ap (λ (x : User). write x (calm us k now)) same
        ∙ (write-lands us k now u free ∙ ap (λ ws. (ok u, calm ws k now)) kept))

-- An upsert whose result is lost: it was carried out, and its call rejected as unreachable.
abbrev pub lost : Await
lost = record { meanwhile = λ us. us; fault = some transient; lands = true }

module _ (n : NormalizedUser) (users : List User) (next_id now : ℕ) where
  insert-lands :
      find_by_clerk n.clerk_id users ≡ none
      → taken_by_other (created n next_id now) users ≡ false
      → upsert_user n (calm users next_id now)
        ≡ (ok (created n next_id now), calm (users ++ created n next_id now ∷ []) (suc next_id) now)
  unfolding upsert_user
  insert-lands unknown free = rw (unknown, free) refl

  insert-refused :
      find_by_clerk n.clerk_id users ≡ none
      → taken_by_other (created n next_id now) users ≡ true
      → upsert_user n (calm users next_id now) ≡ (failed conflict, calm users next_id now)
  unfolding upsert_user
  insert-refused unknown taken = rw (unknown, taken) refl

  pub update-lands :
      (old : User)
      → find_by_clerk n.clerk_id users ≡ some old
      → taken_by_other (updated n now old) users ≡ false
      → upsert_user n (calm users next_id now)
        ≡ (ok (updated n now old), calm (put (updated n now old) users) next_id now)
  unfolding upsert_user
  update-lands old known free = rw (known, free) refl

  pub update-refused :
      (old : User)
      → find_by_clerk n.clerk_id users ≡ some old
      → taken_by_other (updated n now old) users ≡ true
      → upsert_user n (calm users next_id now) ≡ (failed conflict, calm users next_id now)
  unfolding upsert_user
  update-refused old known taken = rw (known, taken) refl

module _ (n : NormalizedUser) (users : List User) (next_id now : ℕ) where
  abbrev later : ℕ
  later = now + 150

  abbrev on_second : Outcome User × Db → Outcome User × Db
  on_second r = retry_on (after_delay 400 (attempt [] (upsert_user n))) r

  abbrev again : Db → Outcome User × Db
  again db = on_second (call (upsert_user n) db)

  -- It is retried after the first delay, on the rows that it left.
  settled-later :
      (o first : Outcome User) (us : List User) (k : ℕ) (final : Db)
      → o ≢ failed transient
      → upsert_user n (calm users next_id now) ≡ (first, calm us k now)
      → upsert_user n (calm us k later) ≡ (o, final)
      → with_db_retry (upsert_user n) (record (calm users next_id now) { awaits = lost ∷ [] })
        ≡ (o, final)
  unfolding with_db_retry attempt call
  settled-later (ok v) first us k final h e d =
      ap (λ (r : Outcome User × Db). again (record r.1 { now = r.1.now + 150 })) e ∙ ap on_second d
  settled-later (failed transient) first us k final h e d = absurd (h refl)
  settled-later (failed conflict) first us k final h e d =
      ap (λ (r : Outcome User × Db). again (record r.1 { now = r.1.now + 150 })) e ∙ ap on_second d
  settled-later (failed other) first us k final h e d =
      ap (λ (r : Outcome User × Db). again (record r.1 { now = r.1.now + 150 })) e ∙ ap on_second d

  inserted-later :
      find_by_clerk n.clerk_id users ≡ none
      → All (λ (v : User). v.id ≢ next_id) users
      → taken_by_other (created n next_id later) users ≡ false
      → upsert_user n (calm (users ++ created n next_id now ∷ []) (suc next_id) later) ≡ (
        ok (created n next_id later),
        calm (users ++ created n next_id later ∷ []) (suc next_id) later,
      )
  inserted-later unknown fresh free =
      let u = created n next_id now in
      let v = created n next_id later in
      overwritten n (users ++ u ∷ []) (users ++ v ∷ []) (suc next_id) later u v
        (find-append n.clerk_id u users refl unknown) (updated-created n next_id now later)
        (taken-append v u users refl ∙ free) (put-append v u users refl fresh)

  updated-later :
      (old : User)
      → find_by_clerk n.clerk_id users ≡ some old
      → taken_by_other (updated n later old) users ≡ false
      → upsert_user n (calm (put (updated n now old) users) next_id later)
        ≡ (ok (updated n later old), calm (put (updated n later old) users) next_id later)
  updated-later old known free =
      let u = updated n now old in
      let v = updated n later old in
      let k = find-clerk n.clerk_id users old known in
      overwritten n (put u users) (put v users) next_id later u v
        (find-put n.clerk_id u old users k refl known) (updated-again n now later old)
        (taken-put v u users refl ∙ free) (put-again v u users refl)

  -- Whether another row has the GitHub account does not hang on the time.
  created-taken :
      taken_by_other (created n next_id later) users ≡ taken_by_other (created n next_id now) users
  unfolding taken_by_other
  created-taken = refl

  updated-taken :
      (old : User)
      → taken_by_other (updated n later old) users ≡ taken_by_other (updated n now old) users
  unfolding taken_by_other
  updated-taken old = refl

  -- An upsert that was carried out though its call rejected as unreachable is retried after the first
  -- delay, and comes to the same result and the same rows as a single one made 150 ms later that met
  -- nothing: no second row, and no conflict with itself. (No row has the number of a new one,
  -- nobody else writes, and the time at which a row was made is not in the model.)
  pub lost_upsert-repeats :
      All (λ (v : User). v.id ≢ next_id) users
      → with_db_retry (upsert_user n) (record (calm users next_id now) { awaits = lost ∷ [] })
        ≡ upsert_user n (calm users next_id (now + 150))
  lost_upsert-repeats fresh = elim (Option-cases (find_by_clerk n.clerk_id users)) [
    | inl unknown ↦ elim (Bool-cases (taken_by_other (created n next_id now) users)) [
      | inl taken ↦
          let e = insert-refused n users next_id now unknown taken in
          let d = insert-refused n users next_id later unknown (created-taken ∙ taken) in
          settled-later _ _ _ _ _ (λ h. cc) e d ∙ sym d
      | inr free ↦
          let free_later = created-taken ∙ free in
          settled-later _ _ _ _ _ (λ h. cc) (insert-lands n users next_id now unknown free)
            (inserted-later unknown fresh free_later)
          ∙ sym (insert-lands n users next_id later unknown free_later)
    ]
    | inr (old, known) ↦ elim (Bool-cases (taken_by_other (updated n now old) users)) [
      | inl taken ↦
          let e = update-refused n users next_id now old known taken in
          let d = update-refused n users next_id later old known (updated-taken old ∙ taken) in
          settled-later _ _ _ _ _ (λ h. cc) e d ∙ sym d
      | inr free ↦
          let free_later = updated-taken old ∙ free in
          settled-later _ _ _ _ _ (λ h. cc) (update-lands n users next_id now old known free)
            (updated-later old known free_later)
          ∙ sym (update-lands n users next_id later old known free_later)
    ]
  ]

-- What an update keeps of a row: its numbers, its token, and a text that is not empty wherever there was one.
abbrev HasValue : Option String → Type 0
HasValue t = (s : String) × (t ≡ some s) × (is_empty s ≡ false)

pub record Retains (u v : User) : Type 0 where
  pub same_id : v.id ≡ u.id
  pub same_clerk_id : v.clerk_id ≡ u.clerk_id
  pub same_token : v.github_access_token_encrypted ≡ u.github_access_token_encrypted
  pub email : HasValue u.email → HasValue v.email
  pub name : HasValue u.name → HasValue v.name
  pub github_id : HasValue u.github_id → HasValue v.github_id
  pub github_username : HasValue u.github_username → HasValue v.github_username
  pub avatar_url : HasValue u.avatar_url → HasValue v.avatar_url

sparse-kept : (new old : Option String) → HasValue old → HasValue (sparse new old)
sparse-kept none old h = h
sparse-kept (some s) old h =
    either_known HasValue (is_empty s) old (some s) (λ e. h) (λ e. (s, refl, e))

updated-Retains : (n : NormalizedUser) (now : ℕ) (u : User) → Retains u (updated n now u)
updated-Retains n now u = record {
  same_id = refl;
  same_clerk_id = refl;
  same_token = refl;
  email = sparse-kept n.email u.email;
  name = sparse-kept n.name u.name;
  github_id = sparse-kept n.github_id u.github_id;
  github_username = sparse-kept n.github_username u.github_username;
  avatar_url = sparse-kept n.avatar_url u.avatar_url;
}

put-other : (u w : User) (users : List User) → Memᴰ w users → w.id ≢ u.id → Memᴰ w (put u users)
unfolding put
put-other u w [] m h = elim m [ ]
put-other u w (v ∷ users) (Memᴰ.head same) h =
    let different : (v.id == u.id) ≡ false =
      let k = ap (λ (x : User). x.id) same in ground (arith, k, h) in
    rw different (Memᴰ.head same)
put-other u w (v ∷ users) (Memᴰ.tail m) h =
    either_way (λ us. Memᴰ w us) (v.id == u.id) (u ∷ put u users) (v ∷ put u users)
      (Memᴰ.tail (put-other u w users m h)) (Memᴰ.tail (put-other u w users m h))

-- The end of an upsert for a user whose row is there.
pub data Merged (users : List User) (old : User) (db : Db) : Outcome User × Db → Type 0 where
  merged :
      (v : User) (later : Db)
      → Retains old v
      → find_by_clerk old.clerk_id later.users ≡ some v
      → ((w : User) → Memᴰ w users → w.id ≢ old.id → Memᴰ w later.users)
      → Merged users old db (ok v, later)
  clashed : Merged users old db (failed conflict, db)

-- Whatever a profile or an event gives or leaves out: where a user's row is there, an upsert that no
-- other write disturbs keeps its number, its Clerk id and its token, empties none of its fields, and
-- leaves the rows with other numbers; or it is refused and changes nothing.
pub upsert_user-Merged :
    (n : NormalizedUser) (users : List User) (next_id now : ℕ) (old : User)
    → find_by_clerk n.clerk_id users ≡ some old
    → Merged users old (calm users next_id now) (upsert_user n (calm users next_id now))
upsert_user-Merged n users next_id now old known =
    let u = updated n now old in
    let k = find-clerk n.clerk_id users old known in
    elim (Bool-cases (taken_by_other u users)) [
      | inl taken ↦
          subst (Merged users old (calm users next_id now))
            (sym (update-refused n users next_id now old known taken)) clashed
      | inr free ↦
          subst (Merged users old (calm users next_id now))
            (sym (update-lands n users next_id now old known free))
            (merged u (calm (put u users) next_id now) (updated-Retains n now old)
              (subst (λ c. find_by_clerk c (put u users) ≡ some u) (sym k)
                (find-put n.clerk_id u old users k refl known))
              (λ w m different. put-other u w users m different))
    ]
