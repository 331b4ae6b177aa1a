-- ===== src/MonthClose/Progress.antt =====
-- A preparation with no blocker can be confirmed: the token and the version that it answered are
-- taken, while what the preview reads stays the same.
use finspace.Common.{
  ℕ, ◌≡◌, ==_iff, refl, sym, ap, ◌∙◌, subst, true, false, none, some, List, ◌||◌, ◌==◌, not, arith,
  find, All, inl, inr,
}
use finspace.Common.Result.{ok, Result-cases}
use finspace.Calendar.{Date}
use finspace.Model.{MonthCloseControl, Runtime, Context}
use finspace.Model.Closures.{MonthClosure, confirmed, is_confirmed, is_ready}
use finspace.Model.Store.{Store, record_audit}
use finspace.Guard.{get_or_create_control, period_bounds, month_end}
use finspace.MonthClose.Issues.{Evidence, Preview, has_sequence_issue, collect_preview}
use finspace.MonthClose.{
  Hashing, find_closure, get_closure, get_or_create_closure, prepare_token, prepared_closure,
  save_prepared, prepare, validate_completed_period, validate_idempotency_key, revision_for_key,
  reopen_audit_for_key, ConfirmRequest, same_option_token, confirm_fresh, confirm, save_confirmed,
  confirmed_closure, is_empty_issues,
}
use finspace.MonthClose.Run.{Run, IsMonth, IsKeyed, Represents}
use finspace.MonthClose.Months.{month_end-IsMonth}
use finspace.MonthClose.Stands.{Stands, begins}
use finspace.MonthClose.Outcome.{control_of, begun, prepare-Prepared}
use finspace.MonthClose.Refinement.{begun_closures, created}
use finspace.MonthClose.Unblocked.{
  find_closure-put_closure, in_sequence, has_sequence_issue-prepared, collect_preview-prepared,
}

ready_unblocked :
    (h : Hashing) (c : Context) (p : Preview) (m : MonthClosure)
    → is_ready (prepared_closure h c p m).status ≡ true
    → is_empty_issues p.blocking ≡ true
unfolding prepared_closure
ready_unblocked h c p m ready = ground arith

prepared-IsOpen :
    (h : Hashing) (c : Context) (p : Preview) (m : MonthClosure)
    → is_confirmed (prepared_closure h c p m).status ≡ false
unfolding prepared_closure
prepared-IsOpen h c p m = ground arith

-- The token of a preparation is that of its row, with the version that the row has then.
not_stale :
    (h : Hashing) (c : Context) (p : Preview) (m : MonthClosure) (token : ℕ)
    → (prepared_closure h c p m).prepare_token ≡ some token
    → (not (same_option_token token (prepared_closure h c p m).prepare_token)
        || not (same_option_token p.fingerprint (prepared_closure h c p m).prepared_fingerprint)
        || not (
            same_option_token
              (prepare_token h (prepared_closure h c p m) (prepared_closure h c p m).version p)
              (prepared_closure h c p m).prepare_token))
      ≡ false
unfolding prepared_closure prepare_token
not_stale h c p m token kept = ground arith

prepared_sequence :
    (h : Hashing) (c : Context) (period : Date) (p : Preview) (control : MonthCloseControl)
    (m : MonthClosure) (s : Store)
    → IsKeyed s.closures
    → find_closure c.workspace_id period s.closures ≡ some m
    → is_confirmed m.status ≡ false
    → has_sequence_issue c.workspace_id control period
        (save_prepared c p m (prepared_closure h c p m) s).1.closures
      ≡ has_sequence_issue c.workspace_id control period s.closures
unfolding save_prepared record_audit
prepared_sequence h c period p control m s keyed found not_shut =
    has_sequence_issue-prepared h c period p control m s.closures keyed found not_shut

-- The steps of a confirmation, after a preparation.
confirm_fresh-prepared :
    (rt : Runtime) (h : Hashing) (c : Context) (period : Date) (p : Preview) (token : ℕ)
    (key : List ℕ) (hash revision_id : ℕ) (e : Evidence) (control : MonthCloseControl)
    (m : MonthClosure) (s : Store) (bounds : ℕ × ℕ) (last : Date)
    → IsKeyed s.closures
    → find_closure c.workspace_id period s.closures ≡ some m
    → is_confirmed m.status ≡ false
    → collect_preview rt h.issue c period control e s ≡ ok p
    → is_ready (prepared_closure h c p m).status ≡ true
    → (prepared_closure h c p m).prepare_token ≡ some token
    → period_bounds rt period c.timezone ≡ ok bounds
    → month_end period ≡ ok last
    → confirm_fresh rt h c period
        (record { version = (prepared_closure h c p m).version; explicit = true; token = token })
        key
        hash
        revision_id
        e
        control
        (prepared_closure h c p m)
        (save_prepared c p m (prepared_closure h c p m) s).1
      ≡ ok (
          save_confirmed c revision_id key hash bounds p last control
            (prepared_closure h c p m)
            (save_prepared c p m (prepared_closure h c p m) s).1)
unfolding confirm_fresh
confirm_fresh-prepared rt h c period p token key hash revision_id e control m s bounds last keyed
      found not_shut collected ready kept bounded ended =
    let unblocked = ready_unblocked h c p m ready in
    let sequence : has_sequence_issue c.workspace_id control period
          (save_prepared c p m (prepared_closure h c p m) s).1.closures
        ≡ ok false =
      prepared_sequence h c period p control m s keyed found not_shut
      ∙ in_sequence rt h.issue c period control e s p collected unblocked in
    let again =
      collect_preview-prepared rt h c period p control e m s keyed found not_shut ∙ collected in
    let current =
      (==_iff (prepared_closure h c p m).version (prepared_closure h c p m).version).1 refl in
    rw
      (
        prepared-IsOpen h c p m,
        ready,
        current,
        sequence,
        again,
        not_stale h c p m token kept,
        unblocked,
        bounded,
        ended,
      )
      refl

pub control_again :
    (workspace : ℕ) (s : Store) (control : MonthCloseControl)
    → find (λ k. k.workspace_id == workspace) s.controls ≡ some control
    → get_or_create_control workspace s ≡ (control, s)
unfolding get_or_create_control
control_again workspace s control e = ground arith

save_confirmed-status :
    (c : Context) (revision_id : ℕ) (key : List ℕ) (hash : ℕ) (bounds : ℕ × ℕ) (p : Preview)
    (through : Date) (control : MonthCloseControl) (m : MonthClosure) (s : Store)
    → (save_confirmed c revision_id key hash bounds p through control m s).0.status ≡ confirmed
unfolding save_confirmed confirmed_closure
save_confirmed-status c revision_id key hash bounds p through control m s = refl

-- A new confirmation is that of the row and the control that it finds.
confirm_new :
    (rt : Runtime) (h : Hashing) (c : Context) (period : Date) (request : ConfirmRequest)
    (idempotency_key key : List ℕ) (revision_id : ℕ) (e : Evidence) (control : MonthCloseControl)
    (m : MonthClosure) (s : Store)
    → get_or_create_control c.workspace_id s ≡ (control, s)
    → validate_idempotency_key rt idempotency_key ≡ ok key
    → revision_for_key c.workspace_id key s ≡ none
    → reopen_audit_for_key c.workspace_id key s ≡ none
    → validate_completed_period rt c period ≡ ok tt
    → find_closure c.workspace_id period s.closures ≡ some m
    → confirm rt h c period request idempotency_key revision_id e s
      ≡ confirm_fresh rt h c period request key
          (h.confirmation m.workspace_id m.id request.version request.explicit request.token)
          revision_id
          e
          control
          m
          s
unfolding confirm get_closure
confirm_new rt h c period request idempotency_key key revision_id e control m s settled valid new
      unused completed found =
    let same : (get_or_create_control c.workspace_id s).0 ≡ control = ap (λ p. p.0) settled in
    let kept : (get_or_create_control c.workspace_id s).1 ≡ s = ap (λ p. p.1) settled in
    rw (valid, kept, new, unused, completed, found, same, kept) refl

-- The confirmation of what a preparation answered succeeds.
abbrev pub CanConfirm :
    Runtime → Hashing → Context → Date → ℕ → ℕ → List ℕ → Evidence → MonthClosure × Store → Type 0
CanConfirm rt h c period token revision_id idempotency_key e r =
    (o : MonthClosure × Store) × (confirm rt h c period
        (record { version = r.0.version; explicit = true; token = token }) idempotency_key
        revision_id e r.1
      ≡ ok o)
    × (o.0.status ≡ confirmed)

completed_bounds :
    (rt : Runtime) (c : Context) (period : Date)
    → validate_completed_period rt c period ≡ ok tt
    → (bounds : ℕ × ℕ) × (period_bounds rt period c.timezone ≡ ok bounds)
unfolding validate_completed_period
completed_bounds rt c period h = elim (Result-cases (period_bounds rt period c.timezone)) [
  | inl known ↦ known
  | inr (x, failed) ↦ absurd (ground arith)
]

confirm_prepared :
    (rt : Runtime) (h : Hashing) (c : Context) (period : Date) (p : Preview) (token revision_id : ℕ)
    (idempotency_key key : List ℕ) (e : Evidence) (control : MonthCloseControl) (m : MonthClosure)
    (s : Store) (run : Run)
    → Stands c.workspace_id control s run
    → IsMonth period
    → find_closure c.workspace_id period s.closures ≡ some m
    → is_confirmed m.status ≡ false
    → collect_preview rt h.issue c period control e s ≡ ok p
    → validate_completed_period rt c period ≡ ok tt
    → validate_idempotency_key rt idempotency_key ≡ ok key
    → is_ready (prepared_closure h c p m).status ≡ true
    → (prepared_closure h c p m).prepare_token ≡ some token
    → revision_for_key c.workspace_id key (save_prepared c p m (prepared_closure h c p m) s).1
      ≡ none
    → reopen_audit_for_key c.workspace_id key (save_prepared c p m (prepared_closure h c p m) s).1
      ≡ none
    → CanConfirm rt h c period token revision_id idempotency_key e
        (save_prepared c p m (prepared_closure h c p m) s)
unfolding prepared_closure save_prepared record_audit
confirm_prepared rt h c period p token revision_id idempotency_key key e control m s run now v found
      not_shut collected completed valid ready kept new unused =
    let after = prepared_closure h c p m in
    let t = (save_prepared c p m after s).1 in
    let (bounds, bounded) = completed_bounds rt c period completed in
    let settled = control_again c.workspace_id t control now.present in
    let there =
      find_closure-put_closure c.workspace_id period m after s.closures found refl refl refl in
    let request : ConfirmRequest = record {
      version = after.version;
      explicit = true;
      token = token;
    } in
    let steps =
      confirm_fresh-prepared rt h c period p token key
        (h.confirmation after.workspace_id after.id request.version true token) revision_id e
        control m s bounds _ now.table.keyed found not_shut collected ready kept bounded
        (month_end-IsMonth period v) in
    (
      _,
      confirm_new rt h c period request idempotency_key key revision_id e control after t settled
            valid new unused completed there
          ∙ steps,
      save_confirmed-status c revision_id key _ bounds p _ control after t,
    )

-- A successful preparation of a month that finds no blocker can be confirmed: with the version and
-- the token that it answered, an explicit consent, a key of 1 to 255 characters that no
-- confirmation and no reopening has, and the same evidence, `confirm` succeeds on the tables that
-- the preparation left, and the closure that it answers is confirmed. The month is one that the
-- routes take, the closures and the control stand for a run of closed months, and the primary key
-- drawn for the row is new.
pub confirm-prepare :
    (rt : Runtime) (h : Hashing) (c : Context) (period : Date) (id : ℕ) (e : Evidence) (s : Store)
    (run : Run) (r : MonthClosure × Store) (token revision_id : ℕ) (idempotency_key key : List ℕ)
    → Represents c.workspace_id s run
    → IsMonth period
    → All (λ m. (m.id == id) ≡ false) s.closures
    → prepare rt h c period id e s ≡ ok r
    → is_ready r.0.status ≡ true
    → r.0.prepare_token ≡ some token
    → validate_idempotency_key rt idempotency_key ≡ ok key
    → revision_for_key c.workspace_id key r.1 ≡ none
    → reopen_audit_for_key c.workspace_id key r.1 ≡ none
    → CanConfirm rt h c period token revision_id idempotency_key e r
unfolding save_prepared prepared_closure
confirm-prepare rt h c period id e s run r token revision_id idempotency_key key stands v fresh k
      ready kept valid new unused =
    let done = prepare-Prepared rt h c period id e s r k in
    let made = get_or_create_closure c id period (begun c s) in
    let (now, found) =
      created c id period (control_of c s) (begun c s) run (begins c.workspace_id s run stands) v
        (subst (λ ms. All (λ m. (m.id == id) ≡ false) ms) (sym (begun_closures c s)) fresh) in
    subst
      (λ o.
        is_ready o.0.status ≡ true
        → o.0.prepare_token ≡ some token
        → revision_for_key c.workspace_id key o.1 ≡ none
        → reopen_audit_for_key c.workspace_id key o.1 ≡ none
        → CanConfirm rt h c period token revision_id idempotency_key e o)
      (sym done.saved)
      (confirm_prepared rt h c period done.preview token revision_id idempotency_key key e
        (control_of c s) made.0 made.1 run now v found done.not_confirmed done.collected
        done.completed valid)
      ready kept new unused
