-- ===== src/MonthClose/Recorded.antt =====
-- What a confirmation under a new key leaves behind for the times that it is sent again.
use finspace.Common.{
  ℕ, ◌≡◌, refl, sym, ap, ◌∙◌, subst, true, false, none, some, List, [], ◌∷◌, ◌&&◌, ◌==◌, arith,
  find, find_sound, find-append_none, Option-cases, inl, inr,
}
use finspace.Common.Text.{same_text}
use finspace.Common.Result.{ok, Result-cases}
use finspace.Calendar.{Date}
use finspace.Model.{MonthCloseControl, Runtime, Context}
use finspace.Model.Closures.{MonthClosure, MonthCloseRevision}
use finspace.Model.Store.{Store, record_audit}
use finspace.MonthClose.Issues.{Evidence, Preview}
use finspace.MonthClose.{
  Hashing, same_date, find_closure, get_closure, validate_completed_period,
  validate_idempotency_key, revision_for_key, reopen_audit_for_key, is_of_other_month,
  ConfirmRequest, confirm_fresh, confirm, save_confirmed, confirmed_closure, next_revision,
  new_revision,
}
use finspace.MonthClose.Run.{IsTable}
use finspace.MonthClose.Keys.{put_closure-IsTable}
use finspace.MonthClose.Activity.{IsKept, find-append_missing}
use finspace.MonthClose.Kept.{begun-tables_of}
use finspace.MonthClose.Outcome.{control_of, begun, confirm_fresh-Confirmed}
use finspace.MonthClose.Unblocked.{find_closure-put_closure}

-- What a successful confirmation has passed, whether its key is new or not.
record Passed (rt : Runtime) (c : Context) (period : Date) (idempotency_key : List ℕ) (s : Store)
    : Type 0 where
  key : List ℕ
  valid : validate_idempotency_key rt idempotency_key ≡ ok key
  of_month : is_of_other_month (revision_for_key c.workspace_id key (begun c s)) period ≡ false
  unused : reopen_audit_for_key c.workspace_id key (begun c s) ≡ none
  completed : validate_completed_period rt c period ≡ ok tt
  row : MonthClosure
  found : find_closure c.workspace_id period (begun c s).closures ≡ some row

confirm-Passed :
    (rt : Runtime) (h : Hashing) (c : Context) (period : Date) (request : ConfirmRequest)
    (idempotency_key : List ℕ) (revision_id : ℕ) (e : Evidence) (s : Store)
    (r : MonthClosure × Store)
    → confirm rt h c period request idempotency_key revision_id e s ≡ ok r
    → Passed rt c period idempotency_key s
unfolding confirm get_closure
confirm-Passed rt h c period request idempotency_key revision_id e s r k =
    elim (Result-cases (validate_idempotency_key rt idempotency_key)) [
      | inr (x, failed) ↦ absurd (ground arith)
      | inl (key, valid) ↦ elim (Result-cases (validate_completed_period rt c period)) [
        | inr (x, failed) ↦ absurd (ground arith)
        | inl (u, completed) ↦
            elim (Option-cases (find_closure c.workspace_id period (begun c s).closures)) [
              | inl missing ↦ absurd (ground arith)
              | inr (m, found) ↦
                  elim (Option-cases (reopen_audit_for_key c.workspace_id key (begun c s))) [
                    | inr (a, used) ↦ absurd (ground arith)
                    | inl unused ↦ record {
                      key = key;
                      valid = valid;
                      of_month = ground arith;
                      unused = unused;
                      completed = completed;
                      row = m;
                      found = found;
                    }
                  ]
            ]
      ]
    ]

same_text_self : (t : List ℕ) → same_text t t ≡ true
same_text_self [] = refl
same_text_self (c ∷ cs) = ground (arith, same_text_self cs)

-- A revision that a confirmation adds is the one that its key finds.
revision_for_key-save_confirmed :
    (c : Context) (revision_id : ℕ) (key : List ℕ) (hash : ℕ) (bounds : ℕ × ℕ) (p : Preview)
    (through : Date) (control : MonthCloseControl) (m : MonthClosure) (s : Store)
    → revision_for_key c.workspace_id key s ≡ none
    → revision_for_key c.workspace_id key
        (save_confirmed c revision_id key hash bounds p through control m s).1
      ≡ some (
          new_revision c revision_id key hash bounds p
            (next_revision m.id s.revisions)
            m
            (confirmed_closure c revision_id p m))
unfolding revision_for_key save_confirmed record_audit
revision_for_key-save_confirmed c revision_id key hash bounds p through control m s new =
    let mine : ((c.workspace_id == c.workspace_id) && same_text key key) ≡ true =
      ground (arith, same_text_self key) in
    find-append_none (λ r. (r.workspace_id == c.workspace_id) && same_text r.idempotency_key key)
      s.revisions _ new mine

reopen_audit_for_key-save_confirmed :
    (c : Context) (revision_id : ℕ) (key : List ℕ) (hash : ℕ) (bounds : ℕ × ℕ) (p : Preview)
    (through : Date) (control : MonthCloseControl) (m : MonthClosure) (s : Store)
    → reopen_audit_for_key c.workspace_id key s ≡ none
    → reopen_audit_for_key c.workspace_id key
        (save_confirmed c revision_id key hash bounds p through control m s).1
      ≡ none
unfolding reopen_audit_for_key save_confirmed record_audit
reopen_audit_for_key-save_confirmed c revision_id key hash bounds p through control m s unused =
    find-append_missing _ s.audit_log _ unused (ground arith)

-- Where no revision has the key yet, a confirmation goes through the steps for a new one.
confirm_unused :
    (rt : Runtime) (h : Hashing) (c : Context) (period : Date) (request : ConfirmRequest)
    (idempotency_key : List ℕ) (revision_id : ℕ) (e : Evidence) (s : Store)
    (r : MonthClosure × Store) (passed : Passed rt c period idempotency_key s)
    → revision_for_key c.workspace_id passed.key (begun c s) ≡ none
    → confirm rt h c period request idempotency_key revision_id e s ≡ ok r
    → confirm_fresh rt h c period request passed.key
        (h.confirmation passed.row.workspace_id passed.row.id request.version request.explicit
          request.token)
        revision_id
        e
        (control_of c s)
        passed.row
        (begun c s)
      ≡ ok r
unfolding confirm get_closure
confirm_unused rt h c period request idempotency_key revision_id e s r passed new k =
    rw (passed.valid, new, passed.unused, passed.completed, passed.found) at k

-- What a new confirmation leaves behind, for the times that it is sent again.
pub record Recorded (h : Hashing) (c : Context) (period : Date) (request : ConfirmRequest)
    (key : List ℕ) (r : MonthClosure × Store) : Type 0 where
  pub id : ℕ
  pub home : ℕ
  pub revision : MonthCloseRevision
  pub kept : IsKept c.workspace_id period key id home revision r.1
  pub of_month : same_date revision.period_month period ≡ true
  pub of_row : revision.closure_id ≡ id
  pub of_request :
      revision.payload_hash ≡ h.confirmation home id request.version request.explicit request.token
  pub answers : revision.response ≡ some r.0

saved-Recorded :
    (h : Hashing) (c : Context) (period : Date) (request : ConfirmRequest) (key : List ℕ)
    (revision_id : ℕ) (bounds : ℕ × ℕ) (p : Preview) (through : Date) (control : MonthCloseControl)
    (m : MonthClosure) (s : Store)
    → IsTable s.closures
    → revision_for_key c.workspace_id key s ≡ none
    → reopen_audit_for_key c.workspace_id key s ≡ none
    → find_closure c.workspace_id period s.closures ≡ some m
    → Recorded h c period request key (
        save_confirmed c revision_id key
          (h.confirmation m.workspace_id m.id request.version request.explicit request.token)
          bounds
          p
          through
          control
          m
          s)
unfolding save_confirmed record_audit confirmed_closure find_closure
saved-Recorded h c period request key revision_id bounds p through control m s table new unused
      found =
    let hash = h.confirmation m.workspace_id m.id request.version request.explicit request.token in
    let after = confirmed_closure c revision_id p m in
    let tested =
      find_sound (λ k. (k.workspace_id == c.workspace_id) && same_date k.period_month period)
        s.closures m found in
    record {
      id = m.id;
      home = m.workspace_id;
      revision =
          new_revision c revision_id key hash bounds p (next_revision m.id s.revisions) m after;
      kept = record {
        table =
            put_closure-IsTable c.workspace_id period m after s.closures table found refl refl refl;
        recorded =
            revision_for_key-save_confirmed c revision_id key hash bounds p through control m s new;
        unused =
            reopen_audit_for_key-save_confirmed c revision_id key hash bounds p through control m s
              unused;
        row = (
          after,
          find_closure-put_closure c.workspace_id period m after s.closures found refl refl refl,
          refl,
          refl,
        );
      };
      of_month = ground arith;
      of_row = refl;
      of_request = refl;
      answers = refl;
    }

pub confirmed-Recorded :
    (rt : Runtime) (h : Hashing) (c : Context) (period : Date) (request : ConfirmRequest)
    (idempotency_key key : List ℕ) (revision_id : ℕ) (e : Evidence) (s : Store)
    (r : MonthClosure × Store)
    → IsTable s.closures
    → validate_idempotency_key rt idempotency_key ≡ ok key
    → revision_for_key c.workspace_id key s ≡ none
    → confirm rt h c period request idempotency_key revision_id e s ≡ ok r
    → Recorded h c period request key r
unfolding revision_for_key
confirmed-Recorded rt h c period request idempotency_key key revision_id e s r table valid new k =
    let passed = confirm-Passed rt h c period request idempotency_key revision_id e s r k in
    let one : key ≡ passed.key = ground (arith, sym valid ∙ passed.valid) in
    let same = begun-tables_of c s in
    let free : revision_for_key c.workspace_id passed.key (begun c s) ≡ none =
      ap (find _) (ap (λ x. x.1.0) same)
      ∙ subst (λ u. revision_for_key c.workspace_id u s ≡ none) one new in
    let done =
      confirm_fresh-Confirmed rt h c period request passed.key _ revision_id e (control_of c s)
        passed.row (begun c s) r
        (confirm_unused rt h c period request idempotency_key revision_id e s r passed free k) in
    subst (λ u. Recorded h c period request u r) (sym one)
      (subst (Recorded h c period request passed.key) (sym done.saved) (
        saved-Recorded h c period request passed.key revision_id done.bounds done.preview
          done.through (control_of c s) passed.row (begun c s)
          (subst IsTable (sym (ap (λ x. x.0) same)) table) free passed.unused passed.found))
