-- ===== src/Repos/Latest.antt =====
-- Which job apps/api-gateway/src/repos/repos.service.ts shows beside a repository.
use mathlib.Core.List.{Memᴰ}
use codemind_backend.Common.{
  ℕ, ◌≤◌, Bool, true, false, ◌&&◌, ◌||◌, String, Option, none, some, List, [], ◌∷◌, ◌++◌, keep, any,
  ◌==◌, ==_iff, str_eq, str_eq_iff, All, All-map, All-keep, All-sort_by, All-unkeep, All-unsort,
  Descending, sort_by-Descending, sort_by, ◌≡◌, ◌≢◌, refl, sym, ap, subst, ◌∙◌, arith, either_known,
  Bool-cases, Option-cases, inl, inr, if◌then◌else◌, keep-All,
}
use codemind_backend.Facts.Hops.{Among-self}
use codemind_backend.Repos.{Job, find_last, set_first, first_jobs, is_of, newer, get_last_jobs}

first_named : String → List Job → Option Job
first_named name [] = none
first_named name (j ∷ js) = if str_eq j.repo_full_name name then some j else first_named name js

abbrev or_first : Option Job → Option Job → Option Job
or_first none o = o
or_first (some j) o = some j

find_last-append :
    (name : String) (m : List (String × Job)) (n : String) (j : Job)
    → find_last name (m ++ (n, j) ∷ [])
      ≡ or_first (find_last name m) (if str_eq n name then some j else none)
unfolding find_last
find_last-append name [] n j = refl
find_last-append name ((k, i) ∷ m) n j = elim (Bool-cases (str_eq k name)) [
  | inl e ↦ rw e refl
  | inr e ↦ rw e (find_last-append name m n j)
]

or_first-none : (o : Option Job) → or_first o none ≡ o
or_first-none none = refl
or_first-none (some j) = refl

-- A job that is met: it stands for its repository only where none stood.
set_first-named :
    (name : String) (j : Job) (m : List (String × Job))
    → find_last name (set_first j m (find_last j.repo_full_name m))
      ≡ or_first (find_last name m) (if str_eq j.repo_full_name name then some j else none)
set_first-named name j m = elim (Option-cases (find_last j.repo_full_name m)) [
  | inl e ↦
      ap (λ o. find_last name (set_first j m o)) e ∙ find_last-append name m j.repo_full_name j
  | inr (k, e) ↦
      ap (λ o. find_last name (set_first j m o)) e
      ∙ (elim (Bool-cases (str_eq j.repo_full_name name)) [
        | inl same ↦
            let known : find_last name m ≡ some k =
              subst (λ t. find_last t m ≡ some k) ((str_eq_iff j.repo_full_name name).0 same) e in
            known
            ∙ sym
                (ap (λ o. or_first o (if str_eq j.repo_full_name name then some j else none)) known)
        | inr other ↦ sym (
            ap (λ b. or_first (find_last name m) (if b then some j else none)) other
            ∙ or_first-none (find_last name m))
      ])
]

or_first_assoc : (a b c : Option Job) → or_first (or_first a b) c ≡ or_first a (or_first b c)
or_first_assoc none b c = refl
or_first_assoc (some j) b c = refl

either_first :
    (b : Bool) (j : Job) (o : Option Job)
    → or_first (if b then some j else none) o ≡ (if b then some j else o)
either_first true j o = refl
either_first false j o = refl

find_last-first_jobs :
    (name : String) (js : List Job) (m : List (String × Job))
    → find_last name (first_jobs js m) ≡ or_first (find_last name m) (first_named name js)
unfolding first_jobs first_named
find_last-first_jobs name [] m = sym (or_first-none (find_last name m))
find_last-first_jobs name (j ∷ js) m =
    find_last-first_jobs name js _
    ∙ (ap (λ o. or_first o (first_named name js)) (set_first-named name j m)
        ∙ (or_first_assoc (find_last name m) _ (first_named name js)
            ∙ ap (or_first (find_last name m))
                (either_first (str_eq j.repo_full_name name) j (first_named name js))))

-- The last job of a user for a repository, or that there is none.
pub data Latest (user_id : ℕ) (jobs : List Job) (name : String) : Option Job → Type 0 where
  latest :
      (j : Job)
      → Memᴰ j jobs
      → j.user_id ≡ user_id
      → j.repo_full_name ≡ name
      → All
          (λ (k : Job). k.user_id ≡ user_id → k.repo_full_name ≡ name → k.created_at ≤ j.created_at)
          jobs
      → Latest user_id jobs name (some j)
  no_job :
      All (λ (k : Job). k.user_id ≡ user_id → k.repo_full_name ≢ name) jobs
      → Latest user_id jobs name none

-- The first job of a name, in a list in descending order.
data First (name : String) (js : List Job) (P : Job → Type 0) : Option Job → Type 0 where
  first :
      (j : Job)
      → P j
      → j.repo_full_name ≡ name
      → All (λ (k : Job). k.repo_full_name ≡ name → k.created_at ≤ j.created_at) js
      → First name js P (some j)
  nowhere : All (λ (k : Job). k.repo_full_name ≢ name) js → First name js P none

first_later :
    (name : String) (k : Job) (js : List Job) (P : Job → Type 0) (o : Option Job)
    → k.repo_full_name ≢ name
    → First name js P o
    → First name (k ∷ js) P o
first_later name k js P _ other (first j p e h) = first j p e ((λ same. absurd (other same)), h)
first_later name k js P _ other (nowhere h) = nowhere (other, h)

first_named-First :
    (name : String) (P : Job → Type 0) (js : List Job)
    → Descending (λ (j : Job). j.created_at) js
    → All P js
    → First name js P (first_named name js)
unfolding first_named
first_named-First name P [] d h = nowhere tt
first_named-First name P (j ∷ js) (below, d) (p, h) =
    either_known (First name (j ∷ js) P) (str_eq j.repo_full_name name) (some j)
      (first_named name js)
      (λ e.
        first j p ((str_eq_iff j.repo_full_name name).0 e)
          ((λ same. omega arith), All-map _ _ js (λ k le same. le) below))
      (λ e.
        first_later name j js P (first_named name js)
          (λ same. let h = (str_eq_iff j.repo_full_name name).1 same in absurd (cc))
          (first_named-First name P js d h))

or-later : (b : Bool) {c : Bool} → c ≡ true → (b || c) ≡ true
or-later true h = refl
or-later false h = h

named-among :
    (names : List String) (name : String) → Memᴰ name names → any (str_eq name) names ≡ true
named-among [] name m = elim m [ ]
named-among (n ∷ names) name (Memᴰ.head e) = rw ((str_eq_iff name n).1 e) refl
named-among (n ∷ names) name (Memᴰ.tail m) = or-later (str_eq name n) (named-among names name m)

listed-of :
    (user_id : ℕ) (names : List String) (name : String) (k : Job)
    → Memᴰ name names
    → k.user_id ≡ user_id
    → k.repo_full_name ≡ name
    → is_of user_id names k ≡ true
listed-of user_id names name k m u r =
    rw ((==_iff k.user_id user_id).1 u)
      (subst (λ t. any (str_eq t) names ≡ true) (sym r) (named-among names name m))

and-first : (b c : Bool) → (b && c) ≡ true → b ≡ true
and-first true c h = refl
and-first false c h = absurd cc

both-hold :
    (user_id : ℕ) (names : List String) (jobs js : List Job)
    → All (λ j. Memᴰ j jobs) js
    → All (λ j. is_of user_id names j ≡ true) js
    → All (λ j. Memᴰ j jobs × (is_of user_id names j ≡ true)) js
both-hold u names jobs [] h k = tt
both-hold u names jobs (j ∷ js) (p, h) (q, k) = ((p, q), both-hold u names jobs js h k)

is_of-user :
    (user_id : ℕ) (names : List String) (j : Job)
    → is_of user_id names j ≡ true
    → j.user_id ≡ user_id
is_of-user user_id names j h = (==_iff j.user_id user_id).0 (and-first (j.user_id == user_id) _ h)

Latest-from :
    (user_id : ℕ) (names : List String) (jobs : List Job) (name : String)
    → Memᴰ name names
    → (o : Option Job)
    → First name
        (sort_by newer (keep (is_of user_id names) jobs))
        (λ (j : Job). Memᴰ j jobs × (is_of user_id names j ≡ true))
        o
    → Latest user_id jobs name o
Latest-from user_id names jobs name m _ (first j (in_jobs, mine) e h) =
    latest j in_jobs (is_of-user user_id names j mine) e (
      All-map _ _ jobs (λ k f u r. f (listed-of user_id names name k m u r) r)
        (All-unkeep _ (is_of user_id names) jobs (All-unsort _ newer _ h)))
Latest-from user_id names jobs name m _ (nowhere h) = no_job (
    All-map _ _ jobs (λ k f u r. f (listed-of user_id names name k m u r) r)
      (All-unkeep _ (is_of user_id names) jobs (All-unsort _ newer _ h)))

-- For each repository that is asked for, getLastJobsByRepo gives a job of the user for it, of all
-- jobs in the table, such that none of the user's jobs for that repository is newer. Where it
-- gives none, the user has no job for it.
pub get_last_jobs-Latest :
    (user_id : ℕ) (names : List String) (jobs : List Job) (name : String)
    → Memᴰ name names
    → Latest user_id jobs name (find_last name (get_last_jobs user_id names jobs))
unfolding get_last_jobs find_last
get_last_jobs-Latest user_id names jobs name m =
    let mine = keep (is_of user_id names) jobs in
    let P = λ (j : Job). Memᴰ j jobs × (is_of user_id names j ≡ true) in
    let of_mine : All P mine =
      both-hold user_id names jobs mine (All-keep _ _ jobs (Among-self jobs))
        (keep-All (is_of user_id names) jobs) in
    let f =
      first_named-First name P (sort_by newer mine)
        (sort_by-Descending (λ (j : Job). j.created_at) mine) (All-sort_by P newer mine of_mine) in
    subst (Latest user_id jobs name) (sym (find_last-first_jobs name (sort_by newer mine) []))
      (Latest-from user_id names jobs name m _ f)
