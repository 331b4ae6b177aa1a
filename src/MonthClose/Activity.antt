-- ===== src/MonthClose/Activity.antt =====
-- What may happen between a confirmation and the time when it is sent again: any requests on
-- months, and writes of other services.
use finspace.Common.{
  ℕ, ◌≡◌, refl, sym, ap, ◌∙◌, Bool, true, false, none, some, List, [], ◌∷◌, ◌++◌, ◌&&◌, ◌==◌, arith,
  find, find-All, All, All-map, Bool-cases, inl, inr,
}
use finspace.Common.Result.{Result, ok, err}
use finspace.Calendar.{Date}
use finspace.Model.{Runtime, Context}
use finspace.Model.Closures.{MonthClosure, MonthCloseRevision}
use finspace.Model.Audit.{AuditEntry}
use finspace.Model.Store.{Store}
use finspace.MonthClose.{
  Hashing, same_date, find_closure, put_closure, revision_for_key, reopen_audit_for_key,
  reopened_of, is_close_reopen, has_key, CloseRequest, perform_close,
}
use finspace.MonthClose.Run.{IsKeyed, IsTable}
use finspace.MonthClose.Table.{Apart}
use finspace.MonthClose.Refinement.{IsFresh}

-- A request on a month, by whatever user of whatever workspace, or a write of another service.
pub data Activity : Type 0 where
  closing : Context → ℕ → ℕ → CloseRequest → Activity
  elsewhere : (Store → Store) → Activity

-- The tables after a request, committed or rolled back.
abbrev pub committed_close : Result (MonthClosure × Store) → Store → Store
committed_close (ok r) s = r.1
committed_close (err e) s = s

abbrev pub after_activity : Runtime → Hashing → Activity → Store → Store
after_activity rt h (closing c year month request) s =
    committed_close (perform_close rt h c year month request s) s
after_activity rt h (elsewhere write) s = write s

abbrev pub after_all : Runtime → Hashing → List Activity → Store → Store
after_all rt h [] s = s
after_all rt h (x ∷ xs) s = after_all rt h xs (after_activity rt h x s)

-- The other services leave the closures and their revisions alone, and add no entry of a reopening
-- to the audit trail.
pub record IsSeparate (s t : Store) : Type 0 where
  pub closures : t.closures ≡ s.closures
  pub revisions : t.revisions ≡ s.revisions
  pub entries : List AuditEntry
  pub audit_log : t.audit_log ≡ s.audit_log ++ entries
  pub no_reopening : All (λ a. is_close_reopen a.action ≡ false) entries

abbrev pub IsAllowed : Activity → Store → Type 0
IsAllowed (closing c year month request) s = IsFresh request s
IsAllowed (elsewhere write) s = IsSeparate s (write s)

-- Each activity is allowed in the tables that it meets.
abbrev pub AllAllowed : Runtime → Hashing → List Activity → Store → Type 0
AllAllowed rt h [] s = Unit
AllAllowed rt h (x ∷ xs) s = IsAllowed x s × AllAllowed rt h xs (after_activity rt h x s)

abbrev pub Row : ℕ → Date → ℕ → ℕ → List MonthClosure → Type 0
Row workspace period id home ms =
    (m : MonthClosure) × (find_closure workspace period ms ≡ some m)
    × (m.id ≡ id)
    × (m.workspace_id ≡ home)

-- What an answer to a key rests on: the revision of the key, the row of the month, and that no
-- reopening has the key.
pub record IsKept (workspace : ℕ) (period : Date) (key : List ℕ) (id home : ℕ)
    (revision : MonthCloseRevision) (t : Store) : Type 0 where
  pub table : IsTable t.closures
  pub recorded : revision_for_key workspace key t ≡ some revision
  pub unused : reopen_audit_for_key workspace key t ≡ none
  pub row : Row workspace period id home t.closures

pub find-append_some {ℓ} :
    {A : Type ℓ} (p : A → Bool) (xs ys : List A) (x : A)
    → find p xs ≡ some x
    → find p (xs ++ ys) ≡ some x
find-append_some p [] ys x h = cc
find-append_some p (y ∷ xs) ys x h = elim (Bool-cases (p y)) [
  | inl here ↦ rw here (rw here at h)
  | inr later ↦ rw later (find-append_some p xs ys x (rw later at h))
]

pub find-append_missing {ℓ} :
    {A : Type ℓ} (p : A → Bool) (xs ys : List A)
    → find p xs ≡ none
    → find p ys ≡ none
    → find p (xs ++ ys) ≡ none
find-append_missing p [] ys h k = k
find-append_missing p (x ∷ xs) ys h k = elim (Bool-cases (p x)) [
  | inl here ↦ absurd (ground arith)
  | inr later ↦ rw later (find-append_missing p xs ys (rw later at h) k)
]

abbrev pub reopens : ℕ → List ℕ → AuditEntry → Bool
reopens workspace key a =
    (a.workspace_id == workspace)
    && is_close_reopen a.action
    && has_key key (reopened_of a.after_data)

module _ (workspace : ℕ) (period : Date) (key : List ℕ) (id home : ℕ)
    (revision : MonthCloseRevision) where
  pub write-IsKept :
      (s t : Store) (revisions : List MonthCloseRevision) (entries : List AuditEntry)
      → IsKept workspace period key id home revision s
      → IsTable t.closures
      → Row workspace period id home t.closures
      → t.revisions ≡ s.revisions ++ revisions
      → t.audit_log ≡ s.audit_log ++ entries
      → find (reopens workspace key) entries ≡ none
      → IsKept workspace period key id home revision t
  unfolding revision_for_key reopen_audit_for_key
  write-IsKept s t revisions entries kept table row longer logged none_reopens = record {
    table = table;
    recorded = ap (find _) longer ∙ find-append_some _ s.revisions revisions revision kept.recorded;
    unused =
        ap (find _) logged ∙ find-append_missing _ s.audit_log entries kept.unused none_reopens;
    row = row;
  }

-- A row that a query finds is the only one of its primary key.
pub only_closure :
    (p : MonthClosure → Bool) (ms : List MonthClosure) (m : MonthClosure)
    → IsKeyed ms
    → find p ms ≡ some m
    → All (λ n. (n.id == m.id) ≡ true → n ≡ m) ms
only_closure p [] m h e = tt
only_closure p (x ∷ xs) m h e = elim (Bool-cases (p x)) [
  | inl here ↦
      let same : x ≡ m = ground arith in
      (
        λ k. same,
        All-map (Apart x) (λ n. (n.id == m.id) ≡ true → n ≡ m) xs
            (λ n other k. absurd (ground (arith, other.0))) h.0,
      )
  | inr later ↦
      let there : find p xs ≡ some m = rw later at e in
      let apart = find-All (Apart x) p xs m h.0 there in
      (λ k. absurd (ground (arith, apart.0)), only_closure p xs m h.1 there)
]

-- A put of one row leaves, for each month, a row of the same key and workspace.
pub put_closure-Row :
    (workspace : ℕ) (period : Date) (id home : ℕ) (m after : MonthClosure) (ms : List MonthClosure)
    → All (λ n. (n.id == m.id) ≡ true → n ≡ m) ms
    → after.id ≡ m.id
    → after.workspace_id ≡ m.workspace_id
    → after.period_month ≡ m.period_month
    → Row workspace period id home ms
    → Row workspace period id home (put_closure after ms)
unfolding find_closure put_closure
put_closure-Row workspace period id home m after [] only same own month (n, e, k, l) = absurd cc
put_closure-Row workspace period id home m after (x ∷ xs) only same own month (n, e, k, l) =
    let here_of : MonthClosure → Bool =
      λ y. (y.workspace_id == workspace) && same_date y.period_month period in
    elim (Bool-cases (x.id == after.id)) [
      | inl put ↦
          let found : x ≡ m = only.0 (rw same at put) in
          let mine : here_of after ≡ here_of x =
            ground (arith, ap (λ y. y.workspace_id) found, ap (λ y. y.period_month) found) in
          elim (Bool-cases (here_of x)) [
            | inl here ↦
                let first : x ≡ n = ground arith in
                (
                  after,
                  rw (put, mine, here) refl,
                  same ∙ sym (ap (λ y. y.id) found) ∙ ap (λ y. y.id) first ∙ k,
                  own ∙ sym (ap (λ y. y.workspace_id) found) ∙ ap (λ y. y.workspace_id) first ∙ l,
                )
            | inr later ↦
                let (o, f, a, b) =
                  put_closure-Row workspace period id home m after xs only.1 same own month
                    (n, rw later at e, k, l) in
                (o, rw (put, mine, later) f, a, b)
          ]
      | inr kept ↦ elim (Bool-cases (here_of x)) [
        | inl here ↦ (n, rw (kept, here) (rw here at e), k, l)
        | inr later ↦
            let (o, f, a, b) =
              put_closure-Row workspace period id home m after xs only.1 same own month
                (n, rw later at e, k, l) in
            (o, rw (kept, later) f, a, b)
      ]
    ]
