-- ===== src/MonthClose/Since.antt =====
-- No activity forgets a confirmation: not a request on a month, nor a write of another service.
use mathlib.Core.List.{append-nil}
use finspace.Common.{
  ℕ, ◌≡◌, refl, sym, ◌∙◌, subst, false, none, List, [], ◌∷◌, arith, find, All, inl, inr,
}
use finspace.Common.Result.{ok, Result-cases}
use finspace.Calendar.{Date}
use finspace.Model.{Runtime, Context}
use finspace.Model.Closures.{MonthClosure, MonthCloseRevision}
use finspace.Model.Audit.{AuditEntry}
use finspace.Model.Store.{Store}
use finspace.MonthClose.{
  Hashing, period_date, is_close_reopen, CloseRequest, prepare_request, confirm_request,
  reopen_request, perform_for, perform_close,
}
use finspace.MonthClose.Run.{IsMonth, IsTable}
use finspace.MonthClose.Months.{period_date-IsMonth}
use finspace.MonthClose.Refinement.{IsFresh}
use finspace.MonthClose.Activity.{
  Activity, closing, elsewhere, committed_close, after_all, AllAllowed, Row, reopens, write-IsKept,
}
use finspace.MonthClose.Kept.{Kept, prepare-Kept, confirm-Kept, reopen-Kept}

module _ (workspace : ℕ) (period : Date) (key : List ℕ) (id home : ℕ)
    (revision : MonthCloseRevision) where
  performed-Kept :
      (rt : Runtime) (h : Hashing) (c : Context) (p : Date) (request : CloseRequest) (s : Store)
      (r : MonthClosure × Store)
      → Kept workspace period key id home revision s
      → IsMonth p
      → IsFresh request s
      → perform_for rt h c p request s ≡ ok r
      → Kept workspace period key id home revision r.1
  performed-Kept rt h c p (prepare_request drawn e) s r kept v fresh k =
      prepare-Kept workspace period key id home revision rt h c p drawn e s r kept v fresh k
  performed-Kept rt h c p (confirm_request request text drawn e) s r kept v fresh k =
      confirm-Kept workspace period key id home revision rt h c p request text drawn e s r kept k
  performed-Kept rt h c p (reopen_request version reason text) s r kept v fresh k =
      reopen-Kept workspace period key id home revision rt h c p version reason text s r kept k

  closing-Kept :
      (rt : Runtime) (h : Hashing) (c : Context) (year month : ℕ) (request : CloseRequest)
      (s : Store)
      → Kept workspace period key id home revision s
      → IsFresh request s
      → Kept workspace period key id home revision
          (committed_close (perform_close rt h c year month request s) s)
  unfolding perform_close
  closing-Kept rt h c year month request s kept fresh =
      elim (Result-cases (period_date year month)) [
        | inr (x, failed) ↦ rw failed kept
        | inl (p, e) ↦ elim (Result-cases (perform_for rt h c p request s)) [
          | inr (x, failed) ↦ rw (e, failed) kept
          | inl (r, done) ↦
              rw (e, done)
                (performed-Kept rt h c p request s r kept (period_date-IsMonth year month p e) fresh
                  done)
        ]
      ]

  no_reopens :
      (entries : List AuditEntry)
      → All (λ a. is_close_reopen a.action ≡ false) entries
      → find (reopens workspace key) entries ≡ none
  no_reopens [] h = refl
  no_reopens (a ∷ entries) h = ground (arith, no_reopens entries h.1)

  pub after_all-Kept :
      (rt : Runtime) (h : Hashing) (xs : List Activity) (s : Store)
      → Kept workspace period key id home revision s
      → AllAllowed rt h xs s
      → Kept workspace period key id home revision (after_all rt h xs s)
  after_all-Kept rt h [] s kept allowed = kept
  after_all-Kept rt h (closing c year month request ∷ xs) s kept allowed =
      after_all-Kept rt h xs _ (closing-Kept rt h c year month request s kept allowed.0) allowed.1
  after_all-Kept rt h (elsewhere write ∷ xs) s kept allowed =
      let apart = allowed.0 in
      after_all-Kept rt h xs (write s)
        (write-IsKept workspace period key id home revision s (write s) [] apart.entries kept
          (subst IsTable (sym apart.closures) kept.table)
          (subst (Row workspace period id home) (sym apart.closures) kept.row)
          (apart.revisions ∙ sym (append-nil s.revisions)) apart.audit_log
          (no_reopens apart.entries apart.no_reopening))
        allowed.1
