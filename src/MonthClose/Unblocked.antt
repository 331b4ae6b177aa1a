-- ===== src/MonthClose/Unblocked.antt =====
-- What a preparation with no blocker leaves: the same preview, and the month in sequence.
use finspace.Common.{
  ℕ, ◌≡◌, refl, sym, ap, ◌∙◌, Bool, true, false, some, List, [], ◌∷◌, ◌&&◌, ◌||◌, ◌==◌, leb, arith,
  find, find_sound, find-All, any, All-map, insert_by, sort_by, Bool-cases, Option-cases, inl, inr,
}
use finspace.Common.Result.{ok, Result-cases}
use finspace.Calendar.{Date}
use finspace.Model.{MonthCloseControl, Runtime, Context}
use finspace.Model.Closures.{MonthClosure, Issue, is_confirmed}
use finspace.Model.Store.{Store, record_audit}
use finspace.Balances.{calculate_balances}
use finspace.Guard.{period_bounds}
use finspace.MonthClose.Issues.{
  Evidence, Preview, has_sequence_issue, closing_start, closing_transactions, draft_count,
  blocking_issues, normalized_issues, collect_preview,
}
use finspace.MonthClose.{
  Hashing, same_date, find_closure, put_closure, prepared_closure, save_prepared, is_empty_issues,
}
use finspace.MonthClose.Run.{IsKeyed}
use finspace.MonthClose.Table.{Apart, put_closure_none}

-- The row that is found after it was put is the row that was put.
pub find_closure-put_closure :
    (workspace : ℕ) (period : Date) (m after : MonthClosure) (ms : List MonthClosure)
    → find_closure workspace period ms ≡ some m
    → after.id ≡ m.id
    → after.workspace_id ≡ m.workspace_id
    → after.period_month ≡ m.period_month
    → find_closure workspace period (put_closure after ms) ≡ some after
unfolding find_closure put_closure
find_closure-put_closure workspace period m after [] e id own same = cc
find_closure-put_closure workspace period m after (x ∷ xs) e id own same =
    let tested =
      find_sound (λ k. (k.workspace_id == workspace) && same_date k.period_month period) (x ∷ xs) m
        e in
    let mine : ((after.workspace_id == workspace) && same_date after.period_month period) ≡ true =
      rw (own, same) tested in
    elim (Bool-cases (x.id == after.id)) [
      | inl put ↦ rw (put, mine) refl
      | inr kept ↦
          elim (Bool-cases ((x.workspace_id == workspace) && same_date x.period_month period)) [
            | inl here ↦ let found : x ≡ m = ground arith in absurd (ground arith)
            | inr later ↦
                rw (kept, later)
                  (find_closure-put_closure workspace period m after xs (rw later at e) id own same)
          ]
    ]

-- A put that keeps the answer of a test keeps `any`.
any-put_closure :
    (p q : MonthClosure → Bool) (m after : MonthClosure) (ms : List MonthClosure)
    → IsKeyed ms
    → find q ms ≡ some m
    → after.id ≡ m.id
    → p after ≡ p m
    → any p (put_closure after ms) ≡ any p ms
unfolding put_closure
any-put_closure p q m after [] h e id same = refl
any-put_closure p q m after (x ∷ xs) h e id same = elim (Bool-cases (q x)) [
  | inl here ↦
      let found : x ≡ m = ground arith in
      let rest =
        put_closure_none after xs
          (All-map _ (λ y. (y.id == after.id) ≡ false) xs (λ y a. rw (id, ← found) a.0) h.0) in
      let put : put_closure after (x ∷ xs) ≡ after ∷ xs =
        let key : (x.id == after.id) ≡ true = ground arith in rw (key, rest) refl in
      ap (any p) put ∙ ap (λ b. b || any p xs) (same ∙ sym (ap p found))
  | inr later ↦
      let there : find q xs ≡ some m = rw later at e in
      let apart = find-All (Apart x) q xs m h.0 there in
      let kept : (x.id == after.id) ≡ false = ground arith in
      rw (kept, any-put_closure p q m after xs h.1 there id same) refl
]

inserted :
    (leb : Issue → Issue → Bool) (x : Issue) (xs : List Issue)
    → is_empty_issues (insert_by leb x xs) ≡ false
unfolding insert_by
inserted leb x [] = refl
inserted leb x (y ∷ ys) = ground arith

sort_by-empty :
    (leb : Issue → Issue → Bool) (xs : List Issue)
    → is_empty_issues (sort_by leb xs) ≡ is_empty_issues xs
unfolding sort_by insert_by
sort_by-empty leb [] = refl
sort_by-empty leb (x ∷ xs) = inserted leb x (sort_by leb xs)

-- What the preview reads is not changed by a preparation.
pub has_sequence_issue-prepared :
    (h : Hashing) (c : Context) (period : Date) (p : Preview) (control : MonthCloseControl)
    (m : MonthClosure) (ms : List MonthClosure)
    → IsKeyed ms
    → find_closure c.workspace_id period ms ≡ some m
    → is_confirmed m.status ≡ false
    → has_sequence_issue c.workspace_id control period (put_closure (prepared_closure h c p m) ms)
      ≡ has_sequence_issue c.workspace_id control period ms
unfolding has_sequence_issue prepared_closure find_closure
has_sequence_issue-prepared h c period p control m ms keyed found not_shut =
    let after = prepared_closure h c p m in
    let asked =
      any-put_closure (λ k. (k.workspace_id == c.workspace_id) && is_confirmed k.status) _ m after
        ms keyed found refl (ground arith) in
    elim (Option-cases control.closed_through) [
      | inl never ↦ rw never (ap ok asked)
      | inr (d, e) ↦ rw e refl
    ]

-- A preparation with no blocker has the month in sequence.
unblocked_sequence :
    (hash : Issue → ℕ) (out : Bool) (drafts : ℕ) (control : MonthCloseControl) (e : Evidence)
    → is_empty_issues (normalized_issues hash (blocking_issues out drafts control e)) ≡ true
    → out ≡ false
unfolding normalized_issues blocking_issues
unblocked_sequence hash false drafts control e h = refl
unblocked_sequence hash true drafts control e h =
    absurd
      (cc (h, sort_by-empty (λ a b. leb (hash a) (hash b)) (blocking_issues true drafts control e)))

pub in_sequence :
    (rt : Runtime) (hash : Issue → ℕ) (c : Context) (period : Date) (control : MonthCloseControl)
    (e : Evidence) (s : Store) (p : Preview)
    → collect_preview rt hash c period control e s ≡ ok p
    → is_empty_issues p.blocking ≡ true
    → has_sequence_issue c.workspace_id control period s.closures ≡ ok false
unfolding collect_preview
in_sequence rt hash c period control e s p h unblocked =
    elim (Result-cases (period_bounds rt period c.timezone)) [
      | inr (x, failed) ↦ absurd (ground arith)
      | inl (bounds, f) ↦ elim (Result-cases (closing_start rt control.closed_through c.timezone)) [
        | inr (x, failed) ↦ absurd (ground arith)
        | inl (start, g) ↦
            elim (Result-cases (has_sequence_issue c.workspace_id control period s.closures)) [
              | inr (x, failed) ↦ absurd (ground arith)
              | inl (false, k) ↦ k
              | inl (true, k) ↦
                  let drafts = draft_count (closing_transactions c.workspace_id start bounds.1 s) in
                  let written : p.blocking
                      ≡ normalized_issues hash (blocking_issues true drafts control e) =
                    ground arith in
                  absurd (
                    cc (
                      unblocked_sequence hash true drafts control e
                        (sym (ap is_empty_issues written) ∙ unblocked)))
            ]
      ]
    ]

-- The preview of the tables that a preparation leaves is the preview that it wrote.
pub collect_preview-prepared :
    (rt : Runtime) (h : Hashing) (c : Context) (period : Date) (p : Preview)
    (control : MonthCloseControl) (e : Evidence) (m : MonthClosure) (s : Store)
    → IsKeyed s.closures
    → find_closure c.workspace_id period s.closures ≡ some m
    → is_confirmed m.status ≡ false
    → collect_preview rt h.issue c period control e
        (save_prepared c p m (prepared_closure h c p m) s).1
      ≡ collect_preview rt h.issue c period control e s
unfolding collect_preview save_prepared record_audit calculate_balances
collect_preview-prepared rt h c period p control e m s keyed found not_shut =
    rw (has_sequence_issue-prepared h c period p control m s.closures keyed found not_shut) refl
