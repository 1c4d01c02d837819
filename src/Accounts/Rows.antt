-- ===== src/Accounts/Rows.antt =====
-- How the rows of apps/api-gateway/src/auth/auth.service.ts are found and written.
use codemind_backend.Common.{
  ℕ, Bool, true, false, not, ◌&&◌, ◌||◌, String, Option, none, some, List, [], ◌∷◌, ◌++◌, All, ◌==◌,
  ==_iff, str_eq, str_eq_iff, ◌≡◌, ◌≢◌, refl, sym, ap, subst, ◌∙◌, arith, either_known, Bool-cases,
  inl, inr, if◌then◌else◌,
}
use codemind_backend.Text.{is_empty}
use codemind_backend.Accounts.{
  User, find_by_clerk, taken_by_other, same_text, put, sparse, updated, created,
}
use codemind_backend.Accounts.Profiles.{NormalizedUser}

pub kept-again :
    {A : Type 0} (b : Bool) (x y : A)
    → (if b then (if b then x else y) else y) ≡ (if b then x else y)
kept-again true x y = refl
kept-again false x y = refl

pub either-same : {A : Type 0} (b : Bool) (x : A) → (if b then x else x) ≡ x
either-same true x = refl
either-same false x = refl

pub sparse-again : (new old : Option String) → sparse new (sparse new old) ≡ sparse new old
sparse-again none old = refl
sparse-again (some s) old = kept-again (is_empty s) old (some s)

pub sparse_self : (t : Option String) → sparse t t ≡ t
sparse_self none = refl
sparse_self (some s) = either-same (is_empty s) (some s)

pub updated-again :
    (n : NormalizedUser) (now later : ℕ) (u : User)
    → updated n later (updated n now u) ≡ updated n later u
updated-again n now later u = λ i. record u {
  email = sparse-again n.email u.email i;
  name = sparse-again n.name u.name i;
  github_id = sparse-again n.github_id u.github_id i;
  github_username = sparse-again n.github_username u.github_username i;
  avatar_url = sparse-again n.avatar_url u.avatar_url i;
  updated_at = later;
}

pub updated-created :
    (n : NormalizedUser) (id now later : ℕ)
    → updated n later (created n id now) ≡ created n id later
updated-created n id now later = λ i. record (created n id later) {
  email = sparse_self n.email i;
  name = sparse_self n.name i;
  github_id = sparse_self n.github_id i;
  github_username = sparse_self n.github_username i;
  avatar_url = sparse_self n.avatar_url i;
}

pub some-injective : (v u : User) → some v ≡ some u → v ≡ u
some-injective v u e = cc

pub find-clerk :
    (c : String) (users : List User) (u : User) → find_by_clerk c users ≡ some u → u.clerk_id ≡ c
unfolding find_by_clerk
find-clerk c [] u = λ e. absurd (cc)
find-clerk c (v ∷ users) u =
    either_known (λ o. o ≡ some u → u.clerk_id ≡ c) (str_eq v.clerk_id c) (some v)
      (find_by_clerk c users)
      (λ same e.
        subst (λ (x : User). x.clerk_id ≡ c) (some-injective v u e)
          ((str_eq_iff v.clerk_id c).0 same))
      (λ other e. find-clerk c users u e)

-- A row that was written over the one with its number is found by its Clerk id.
pub find-put :
    (c : String) (u old : User) (users : List User)
    → u.clerk_id ≡ c
    → u.id ≡ old.id
    → find_by_clerk c users ≡ some old
    → find_by_clerk c (put u users) ≡ some u
unfolding find_by_clerk put
find-put c u old [] k d e = absurd cc
find-put c u old (v ∷ users) k d e =
    either_known (λ us. find_by_clerk c us ≡ some u) (v.id == u.id) _ _
      (λ same. rw ((str_eq_iff u.clerk_id c).1 k) refl)
      (λ different. elim (Bool-cases (str_eq v.clerk_id c)) [
        | inl yes_c ↦
            let v_old =
              some-injective v old
                (subst (λ b. (if b then some v else find_by_clerk c users) ≡ some old) yes_c e) in
            let same_id : v.id ≡ u.id = ap (λ (x : User). x.id) v_old ∙ sym d in
            let h = (==_iff v.id u.id).1 same_id in absurd (cc)
        | inr no_c ↦ rw no_c (
            find-put c u old users k d
              (subst (λ b. (if b then some v else find_by_clerk c users) ≡ some old) no_c e))
      ])

-- A row that is written over another one with the same number.
pub put-again : (u w : User) (users : List User) → w.id ≡ u.id → put u (put w users) ≡ put u users
unfolding put
put-again u w [] k = refl
put-again u w (v ∷ users) k = elim (Bool-cases (v.id == u.id)) [
  | inl same ↦
      let h : (v.id == w.id) ≡ true = ground (arith, same, k) in
      let d : (w.id == u.id) ≡ true = ground (arith, k) in
      rw (h, same, d) (ap (λ us. u ∷ us) (put-again u w users k))
  | inr different ↦
      let h : (v.id == w.id) ≡ false = ground (arith, different, k) in
      rw (h, different) (ap (λ us. v ∷ us) (put-again u w users k))
]

pub taken-put :
    (u w : User) (users : List User)
    → w.id ≡ u.id
    → taken_by_other u (put w users) ≡ taken_by_other u users
unfolding taken_by_other put
taken-put u w [] k = refl
taken-put u w (v ∷ users) k = elim (Bool-cases (v.id == u.id)) [
  | inl same ↦
      let h : (v.id == w.id) ≡ true = ground (arith, same, k) in
      let d : (w.id == u.id) ≡ true = ground (arith, k) in rw (h, same, d) (taken-put u w users k)
  | inr different ↦
      let h : (v.id == w.id) ≡ false = ground (arith, different, k) in
      rw h (
        ap (λ b. (not (v.id == u.id) && same_text v.github_id u.github_id) || b)
          (taken-put u w users k))
]

pub find-append :
    (c : String) (u : User) (users : List User)
    → u.clerk_id ≡ c
    → find_by_clerk c users ≡ none
    → find_by_clerk c (users ++ u ∷ []) ≡ some u
unfolding find_by_clerk
find-append c u [] k = λ e. rw ((str_eq_iff u.clerk_id c).1 k) refl
find-append c u (v ∷ users) k =
    either_known
      (λ o.
        o ≡ none
        → (if str_eq v.clerk_id c then some v else find_by_clerk c (users ++ u ∷ [])) ≡ some u)
      (str_eq v.clerk_id c) (some v) (find_by_clerk c users) (λ same e. absurd (cc))
      (λ other e. rw other (find-append c u users k e))

pub taken-append :
    (u w : User) (users : List User)
    → w.id ≡ u.id
    → taken_by_other u (users ++ w ∷ []) ≡ taken_by_other u users
unfolding taken_by_other
taken-append u w [] k = let d : (w.id == u.id) ≡ true = ground (arith, k) in rw d refl
taken-append u w (v ∷ users) k =
    ap (λ b. (not (v.id == u.id) && same_text v.github_id u.github_id) || b)
      (taken-append u w users k)

pub put-append :
    (u w : User) (users : List User)
    → w.id ≡ u.id
    → All (λ (v : User). v.id ≢ u.id) users
    → put u (users ++ w ∷ []) ≡ users ++ u ∷ []
unfolding put
put-append u w [] k h = let d : (w.id == u.id) ≡ true = ground (arith, k) in rw d refl
put-append u w (v ∷ users) k (p, h) =
    let different : (v.id == u.id) ≡ false = ground (arith, p) in
    rw different (ap (λ us. v ∷ us) (put-append u w users k h))
