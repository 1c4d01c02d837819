-- ===== src/Share/Laws.antt =====
-- What apps/api-gateway/src/jobs/share.service.ts promises: one live link per report, which a
-- revocation ends, and nothing for another user.
use codemind_backend.Common.{
  ℕ, suc, ◌≤◌, max, false, String, Option, none, some, List, [], ◌∷◌, str_eq_iff, if◌then◌else◌,
  ◌≡◌, ◌≢◌, refl, sym, ap, subst, ◌∙◌, arith,
}
use codemind_backend.Share.{
  Job, Share, Store, ShareLink, Answer, found, not_found, find_job, owned_report, not_revoked,
  is_live, find_live, new_share, create_or_get_link, create_or_get, create_for, get_link, link_for,
  revoke_all, revoke_links, revoke_for, find_token, redeem, get_shared_report, report_of,
  link_option,
}

-- How many live links a report has.
unfoldable pub live_count : String → List Share → ℕ
live_count r [] = 0
live_count r (x ∷ xs) = let rest = live_count r xs in if is_live r x then suc rest else rest

find_live-none : (r : String) (xs : List Share) → find_live r xs ≡ none → live_count r xs ≡ 0
unfolding find_live live_count
find_live-none r [] h = refl
find_live-none r (x ∷ xs) h = grind (arith, find_live-none r xs)

find_live-revoke_all :
    (r : String) (now : ℕ) (xs : List Share) → find_live r (revoke_all r now xs) ≡ none
unfolding find_live revoke_all
find_live-revoke_all r now [] = refl
find_live-revoke_all r now (x ∷ xs) = grind (arith, find_live-revoke_all r now xs)

live_count-revoke_all :
    (r q : String) (now : ℕ) (xs : List Share)
    → live_count q (revoke_all r now xs) ≤ live_count q xs
unfolding live_count revoke_all
live_count-revoke_all r q now [] = omega arith
live_count-revoke_all r q now (x ∷ xs) = ground (arith, live_count-revoke_all r q now xs)

find_token-revoke_all :
    (r token : String) (now : ℕ) (xs : List Share) (x : Share)
    → find_token token (revoke_all r now xs) ≡ some x
    → x.report_id ≡ r
    → not_revoked x.revoked_at ≡ false
unfolding revoke_all
find_token-revoke_all r token now [] x h e = cc
find_token-revoke_all r token now (y ∷ ys) x h e =
    grind (arith, find_token-revoke_all r token now ys x, str_eq_iff x.report_id r)

find_live-new :
    (r user token : String) (now : ℕ) (xs : List Share)
    → let x = new_share r user token now in find_live r (x ∷ xs) ≡ some x
unfolding find_live
find_live-new r user token now xs = rw ((str_eq_iff r r).1 refl) refl

-- A second request for a link of the same report finds what the first one left.
abbrev Settled : String → Store → String → String → ℕ → ShareLink × Store → Type 0
Settled r s user token now a =
    (a.1.jobs ≡ s.jobs)
    × (create_for user token now a.1 (found r) ≡ found a)
    × (live_count r a.1.shares ≤ max 1 (live_count r s.shares))

create_or_get-Settled :
    (r user token token' : String) (now now' : ℕ) (s : Store) (o : Option Share)
    → find_live r s.shares ≡ o
    → Settled r s user token' now' (create_or_get r user token now s o)
unfolding live_count
create_or_get-Settled r user token token' now now' s none h =
    let count = find_live-none r s.shares h in
    (
      refl,
      ap
          (λ o. found (
            create_or_get r user token' now'
              (record s { shares = new_share r user token now ∷ s.shares }) o))
          (find_live-new r user token now s.shares),
      rw ((str_eq_iff r r).1 refl) (omega (arith, count)),
    )
create_or_get-Settled r user token token' now now' s (some x) h =
    (refl, ap (λ o. found (create_or_get r user token' now' s o)) h, omega arith)

create_for-Settled :
    (r user token token' : String) (now now' : ℕ) (s : Store) (a : ShareLink × Store)
    → create_for user token now s (found r) ≡ found a
    → Settled r s user token' now' a
create_for-Settled r user token token' now now' s a e =
    let p : create_or_get r user token now s (find_live r s.shares) ≡ a = cc in
    subst (Settled r s user token' now') p
      (create_or_get-Settled r user token token' now now' s (find_live r s.shares) refl)

-- Where the owner gets a link, a later request for one, whatever token it would draw, gets the same
-- link and changes nothing; and the report then has at most one live link, or no more than before.
pub create_or_get_link-idempotent :
    (job user token token' : String) (now now' : ℕ) (s s' : Store) (l : ShareLink)
    → create_or_get_link job user token now s ≡ found (l, s')
    → (create_or_get_link job user token' now' s' ≡ found (l, s'))
      × ((r : String) × (owned_report job user s ≡ found r)
          × (live_count r s'.shares ≤ max 1 (live_count r s.shares)))
unfolding create_or_get_link owned_report
create_or_get_link-idempotent job user token token' now now' s s' l e =
    go (owned_report job user s) refl e
  where
    go :
        (a : Answer String)
        → owned_report job user s ≡ a
        → create_for user token now s a ≡ found (l, s')
        → (create_for user token' now' s' (report_of user (find_job job s'.jobs)) ≡ found (l, s'))
          × ((r : String) × (owned_report job user s ≡ found r)
              × (live_count r s'.shares ≤ max 1 (live_count r s.shares)))
    go (found r) h e =
        let (same, again, count) = create_for-Settled r user token token' now now' s (l, s') e in
        (
          ap (λ js. create_for user token' now' s' (report_of user (find_job job js))) same
              ∙ ap (create_for user token' now' s') h
              ∙ again,
          (r, h, count),
        )
    go (not_found why) h e = cc

revoke_links_lem :
    (job user r : String) (now : ℕ) (s s' : Store)
    → owned_report job user s ≡ found r
    → revoke_links job user now s ≡ found s'
    → (get_link job user s' ≡ found none)
      × ((token : String) (x : Share)
          → find_token token s'.shares ≡ some x
          → x.report_id ≡ r
          → get_shared_report token s' ≡ redeem none)
unfolding revoke_links get_link get_shared_report owned_report
revoke_links_lem job user r now s s' h e =
    let p : record s { shares = revoke_all r now s.shares } ≡ s' =
      revoked (ap (revoke_for now s) (sym h) ∙ e) in
    subst Ended p (
      ap (link_for (record s { shares = revoke_all r now s.shares })) h
          ∙ ap (λ o. found (link_option o)) (find_live-revoke_all r now s.shares),
      λ token x f same.
          ap redeem f ∙ refused x (find_token-revoke_all r token now s.shares x f same),
    )
  where
    Ended : Store → Type 0
    Ended t =
        (link_for t (report_of user (find_job job t.jobs)) ≡ found none)
        × ((token : String) (x : Share)
            → find_token token t.shares ≡ some x
            → x.report_id ≡ r
            → redeem (find_token token t.shares) ≡ redeem none)

    revoked :
        revoke_for now s (found r) ≡ found s' → record s { shares = revoke_all r now s.shares } ≡ s'
    revoked e = cc

    refused : (x : Share) → not_revoked x.revoked_at ≡ false → redeem (some x) ≡ redeem none
    refused x e = rw e refl

-- After the owner revokes the links of a report, none is live, and no token of that report is
-- redeemed: the answer is the one an unknown token gets.
pub revoke_links-ends :
    (job user r token : String) (now : ℕ) (s s' : Store) (x : Share)
    → owned_report job user s ≡ found r
    → revoke_links job user now s ≡ found s'
    → find_token token s'.shares ≡ some x
    → x.report_id ≡ r
    → (get_link job user s' ≡ found none) × (get_shared_report token s' ≡ redeem none)
revoke_links-ends job user r token now s s' x h e f same =
    let (gone, refused) = revoke_links_lem job user r now s s' h e in (gone, refused token x f same)

-- Another user than the owner of a job gets from each operation the answer that an unknown job gets.
pub stranger-Refused :
    (job user token : String) (now : ℕ) (s : Store) (j : Job)
    → find_job job s.jobs ≡ some j
    → j.user_id ≢ user
    → (create_or_get_link job user token now s ≡ not_found "Job not found")
      × (get_link job user s ≡ not_found "Job not found")
      × (revoke_links job user now s ≡ not_found "Job not found")
unfolding create_or_get_link get_link revoke_links owned_report
stranger-Refused job user token now s j h other =
    let e = ap (report_of user) h ∙ stranger j other in
    (ap (create_for user token now s) e, ap (link_for s) e, ap (revoke_for now s) e)
  where
    stranger : (j : Job) → j.user_id ≢ user → report_of user (some j) ≡ not_found "Job not found"
    stranger j other = ground (arith, str_eq_iff j.user_id user)
