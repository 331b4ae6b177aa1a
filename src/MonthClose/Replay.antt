-- ===== src/MonthClose/Replay.antt =====
-- A confirmation that is sent again: the key of the request answers what it answered before.
use finspace.Common.{ℕ, ◌≡◌, ==_iff, refl, sym, ap, ◌∙◌, true, none, some, List}
use finspace.Common.Result.{ok}
use finspace.Calendar.{Date}
use finspace.Model.{Runtime, Context}
use finspace.Model.Closures.{MonthClosure, MonthCloseRevision}
use finspace.Model.Store.{Store}
use finspace.MonthClose.Issues.{Evidence}
use finspace.MonthClose.{
  Hashing, same_date, find_closure, get_closure, validate_completed_period,
  validate_idempotency_key, revision_for_key, reopen_audit_for_key, ConfirmRequest, replay_confirm,
  confirm,
}
use finspace.MonthClose.Run.{IsTable}
use finspace.MonthClose.Activity.{Activity, after_all, AllAllowed}
use finspace.MonthClose.Kept.{begun-Kept}
use finspace.MonthClose.Since.{after_all-Kept}
use finspace.MonthClose.Outcome.{begun}
use finspace.MonthClose.Recorded.{confirmed-Recorded}

-- A confirmation whose key a revision has answers what that says, on the tables as they are.
confirm_old :
    (rt : Runtime) (h : Hashing) (c : Context) (period : Date) (request : ConfirmRequest)
    (idempotency_key key : List ℕ) (revision_id : ℕ) (e : Evidence) (m : MonthClosure)
    (revision : MonthCloseRevision) (s : Store)
    → validate_idempotency_key rt idempotency_key ≡ ok key
    → revision_for_key c.workspace_id key (begun c s) ≡ some revision
    → same_date revision.period_month period ≡ true
    → reopen_audit_for_key c.workspace_id key (begun c s) ≡ none
    → validate_completed_period rt c period ≡ ok tt
    → find_closure c.workspace_id period (begun c s).closures ≡ some m
    → confirm rt h c period request idempotency_key revision_id e s
      ≡ replay_confirm
          (h.confirmation m.workspace_id m.id request.version request.explicit request.token)
          m
          revision
          s
unfolding confirm get_closure
confirm_old rt h c period request idempotency_key key revision_id e m revision s valid old same
      unused completed found =
    rw (valid, old, same, unused, completed, found) refl

replay_confirm_stored :
    (hash : ℕ) (m answer : MonthClosure) (revision : MonthCloseRevision) (s : Store)
    → revision.closure_id ≡ m.id
    → revision.payload_hash ≡ hash
    → revision.response ≡ some answer
    → replay_confirm hash m revision s ≡ ok (answer, s)
unfolding replay_confirm
replay_confirm_stored hash m answer revision s mine same kept =
    rw ((==_iff revision.closure_id m.id).1 mine, (==_iff revision.payload_hash hash).1 same, kept)
      refl

-- A confirmation under a new key is idempotent for good. Whatever happens after it, be it requests
-- on this or other months by anyone (preparing, confirming, reopening) or writes of other
-- services, which leave the closures alone: the same request again, by any member of the
-- workspace and at any time when the month is over, answers the closure as it was confirmed, even
-- if the month is reopened since, and changes nothing. The table of closures has one row for a
-- month and a primary key, and the keys drawn for new rows are new.
pub confirm-replay :
    (rt : Runtime) (h : Hashing) (c d : Context) (period : Date) (request : ConfirmRequest)
    (idempotency_key key : List ℕ) (revision_id again_id : ℕ) (e later : Evidence)
    (activities : List Activity) (s : Store) (r : MonthClosure × Store)
    → IsTable s.closures
    → validate_idempotency_key rt idempotency_key ≡ ok key
    → revision_for_key c.workspace_id key s ≡ none
    → confirm rt h c period request idempotency_key revision_id e s ≡ ok r
    → AllAllowed rt h activities r.1
    → d.workspace_id ≡ c.workspace_id
    → validate_completed_period rt d period ≡ ok tt
    → confirm rt h d period request idempotency_key again_id later (after_all rt h activities r.1)
      ≡ ok (r.0, after_all rt h activities r.1)
confirm-replay rt h c d period request idempotency_key key revision_id again_id e later activities s
      r table valid new k allowed here completed =
    let first =
      confirmed-Recorded rt h c period request idempotency_key key revision_id e s r table valid new
        k in
    let t = after_all rt h activities r.1 in
    let kept = begun-Kept c.workspace_id period key first.id first.home first.revision d t (
      after_all-Kept c.workspace_id period key first.id first.home first.revision rt h activities
        r.1 first.kept allowed) in
    let (m, found, mine, home) = kept.row in
    let hash = h.confirmation m.workspace_id m.id request.version request.explicit request.token in
    confirm_old rt h d period request idempotency_key key again_id later m first.revision t valid
      (ap (λ w. revision_for_key w key (begun d t)) here ∙ kept.recorded) first.of_month
      (ap (λ w. reopen_audit_for_key w key (begun d t)) here ∙ kept.unused) completed
      (ap (λ w. find_closure w period (begun d t).closures) here ∙ found)
    ∙ replay_confirm_stored hash m r.0 first.revision t (first.of_row ∙ sym mine)
        (rw (home, mine) first.of_request) first.answers
