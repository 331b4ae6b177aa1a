-- ===== src/MonthClose.antt =====
-- Closing and reopening months: `prepare`, `confirm` and `reopen` of
-- backend/app/services/month_close.py. The hash of a request's payload and of a preview is a
-- parameter; a stored response is the closure itself.
use finspace.Common.{
  ℕ, ◌+◌, Bool, true, false, Option, none, some, List, [], ◌∷◌, ◌++◌, ◌&&◌, ◌||◌, not, ◌==◌, ltb,
  leb, if◌then◌else◌, is_some, same_option, filter, find, length,
}
use finspace.Common.Text.{strip, same_text}
use finspace.Common.Result.{
  Result, ok, err, ◌>>=◌, ◌>>◌, api_error, raise_if, or_raise, validation_error,
  month_close_period_invalid, month_close_period_not_ended, month_close_not_found,
  month_already_closed, month_close_invalid_state, month_close_version_conflict,
  month_close_sequence_conflict, month_close_preview_stale, month_close_blocked,
  month_close_idempotency_conflict, month_close_reopen_order_conflict,
}
use finspace.Calendar.{Date, date}
use finspace.Model.{MonthCloseControl, Runtime, Context, month_closure_entity, AuditAction}
use finspace.Model.Closures.{
  draft, blocked, ready, confirmed, reopened, is_ready, is_confirmed, Issue, ClosureSummary,
  MonthClosure, MonthCloseRevision,
}
use finspace.Model.Audit.{
  PreparedData, ConfirmedData, ReopenedData, Snapshot, closure_before, prepared_data,
  confirmed_data, reopened_data, AuditEntry,
}
use finspace.Model.Store.{Store, record_audit}
use finspace.Guard.{period_bounds, month_end, previous_month, get_or_create_control}
use finspace.MonthClose.Issues.{Evidence, has_sequence_issue, Preview, collect_preview}
pub mod Issues
pub mod Run
pub mod Table
pub mod Keys
pub mod Months
pub mod Stands
pub mod Outcome
pub mod Moves
pub mod Refinement
pub mod Unblocked
pub mod Progress
pub mod Activity
pub mod Kept
pub mod Since
pub mod Recorded
pub mod Replay
pub mod Guarded

-- `hash_canonical`, on what the services hash.
pub record Hashing : Type 0 where
  pub issue : Issue → ℕ
  pub prepared : ℕ → ℕ → ℕ → Date → Preview → ℕ
  pub confirmation : ℕ → ℕ → ℕ → Bool → ℕ → ℕ
  pub reopening : ℕ → ℕ → ℕ → List ℕ → ℕ

abbrev pub same_date : Date → Date → Bool
same_date a b = (a.year == b.year) && (a.month == b.month) && (a.day == b.day)

unfoldable pub period_date : ℕ → ℕ → Result Date
period_date year month = do
  raise_if (ltb year 2000 || ltb 2200 year || ltb month 1 || ltb 12 month) 422
      month_close_period_invalid
  ok (date year month 1)

unfoldable pub validate_completed_period : Runtime → Context → Date → Result (Unit {0})
validate_completed_period rt c period = do
  bounds ← period_bounds rt period c.timezone
  raise_if (ltb c.now bounds.1) 409 month_close_period_not_ended

-- The row of a workspace and a month.
unfoldable pub find_closure : ℕ → Date → List MonthClosure → Option MonthClosure
find_closure workspace period closures =
    find (λ m. (m.workspace_id == workspace) && same_date m.period_month period) closures

unfoldable pub get_closure : ℕ → Date → Store → Result MonthClosure
unfolding find_closure
get_closure workspace period s =
    or_raise (find_closure workspace period s.closures) 404 month_close_not_found

abbrev pub new_closure : Context → ℕ → Date → MonthClosure
new_closure c id period = record {
  id = id;
  workspace_id = c.workspace_id;
  period_month = period;
  status = draft;
  prepared_by = none;
  confirmed_by = none;
  prepared_at = none;
  confirmed_at = none;
  summary = none;
  info_issues = [];
  blocking_issues = [];
  warning_issues = [];
  prepare_token = none;
  prepared_fingerprint = none;
  current_revision_id = none;
  last_reopened_at = none;
  last_reopened_by = none;
  last_reopen_reason = none;
  version = 1;
  updated_at = c.now;
}

-- `_get_or_create_closure`: the insertion does nothing where the month has a row.
unfoldable pub get_or_create_closure : Context → ℕ → Date → Store → MonthClosure × Store
unfolding find_closure
get_or_create_closure c id period s = elim (find_closure c.workspace_id period s.closures) [
  | some m ↦ (m, s)
  | none ↦
      (new_closure c id period, record s { closures = s.closures ++ new_closure c id period ∷ [] })
]

-- The flush of a changed closure and of a changed control.
unfoldable pub put_closure : MonthClosure → List MonthClosure → List MonthClosure
put_closure m [] = []
put_closure m (n ∷ ns) = (if n.id == m.id then m else n) ∷ put_closure m ns

unfoldable pub put_control : MonthCloseControl → List MonthCloseControl → List MonthCloseControl
put_control k [] = []
put_control k (l ∷ ls) = (if l.workspace_id == k.workspace_id then k else l) ∷ put_control k ls

-- `_prepare_token`
unfoldable pub prepare_token : Hashing → MonthClosure → ℕ → Preview → ℕ
prepare_token h m generation p = h.prepared m.workspace_id m.id generation m.period_month p

abbrev pub is_empty_issues : List Issue → Bool
is_empty_issues [] = true
is_empty_issues (i ∷ is) = false

-- The assignments of `prepare`.
unfoldable pub prepared_closure : Hashing → Context → Preview → MonthClosure → MonthClosure
unfolding prepare_token
prepared_closure h c p m = record m {
  status = if is_empty_issues p.blocking then ready else blocked;
  prepared_by = some c.user_id;
  prepared_at = some c.now;
  summary = some p.summary;
  info_issues = p.infos;
  blocking_issues = p.blocking;
  warning_issues = p.warnings;
  prepare_token = some (prepare_token h m (m.version + 1) p);
  prepared_fingerprint = some p.fingerprint;
  version = m.version + 1;
  updated_at = c.now;
}

abbrev pub write_closure : MonthClosure → Store → Store
write_closure m s = record s { closures = put_closure m s.closures }

unfoldable pub save_prepared :
    Context → Preview → MonthClosure → MonthClosure → Store → MonthClosure × Store
save_prepared c p before m s = (
  m,
  record_audit c month_closure_entity m.id AuditAction.close_prepare
      (some (closure_before before.status before.version none))
      (some (
        prepared_data (record {
          period = m.period_month;
          status = m.status;
          version = m.version;
          financial_fingerprint = p.fingerprint;
          budget_plan_fingerprint = p.budget_plan_fingerprint;
          blocking_count = length p.blocking;
          warning_count = length p.warnings;
          info_count = length p.infos;
        })))
      (write_closure m s),
)

unfoldable pub prepare :
    Runtime → Hashing → Context → Date → ℕ → Evidence → Store → Result (MonthClosure × Store)
prepare rt h c period id e s₀ = do
  validate_completed_period rt c period
  let control = (get_or_create_control c.workspace_id s₀).0
  let s₁ = (get_or_create_control c.workspace_id s₀).1
  let m = (get_or_create_closure c id period s₁).0
  let s = (get_or_create_closure c id period s₁).1
  raise_if (is_confirmed m.status) 409 month_already_closed
  p ← collect_preview rt h.issue c period control e s
  ok (save_prepared c p m (prepared_closure h c p m) s)

unfoldable pub validate_idempotency_key : Runtime → List ℕ → Result (List ℕ)
unfolding strip
validate_idempotency_key rt value = do
  let normalized = strip rt.is_space value
  raise_if ((length normalized == 0) || ltb 255 (length normalized)) 422 validation_error
  ok normalized

unfoldable pub revision_for_key : ℕ → List ℕ → Store → Option MonthCloseRevision
revision_for_key workspace key s =
    find (λ r. (r.workspace_id == workspace) && same_text r.idempotency_key key) s.revisions

-- `AuditLog.after_data["idempotency_key"]`, of an entry that a reopening wrote.
abbrev pub reopened_of : Option Snapshot → Option ReopenedData
reopened_of (some (reopened_data d)) = some d
reopened_of _ = none

abbrev pub is_close_reopen : AuditAction → Bool
is_close_reopen AuditAction.close_reopen = true
is_close_reopen _ = false

abbrev pub has_key : List ℕ → Option ReopenedData → Bool
has_key key none = false
has_key key (some d) = same_text d.idempotency_key key

unfoldable pub reopen_audit_for_key : ℕ → List ℕ → Store → Option AuditEntry
reopen_audit_for_key workspace key s =
    find
      (λ a.
        (a.workspace_id == workspace)
        && is_close_reopen a.action
        && has_key key (reopened_of a.after_data))
      s.audit_log

-- `max(revision_number) + 1` over the revisions of a closure.
unfoldable pub next_revision : ℕ → List MonthCloseRevision → ℕ
next_revision closure [] = 1
next_revision closure (r ∷ rs) =
    let rest = next_revision closure rs in
    if (r.closure_id == closure) && leb rest r.revision_number then r.revision_number + 1 else rest

-- The assignments of `confirm`.
unfoldable pub confirmed_closure : Context → ℕ → Preview → MonthClosure → MonthClosure
confirmed_closure c revision_id p m = record m {
  status = confirmed;
  confirmed_by = some c.user_id;
  confirmed_at = some c.now;
  summary = some p.summary;
  info_issues = p.infos;
  blocking_issues = [];
  warning_issues = p.warnings;
  current_revision_id = some revision_id;
  version = m.version + 1;
  updated_at = c.now;
}

abbrev pub new_revision :
    Context
    → ℕ
    → List ℕ
    → ℕ
    → ℕ × ℕ
    → Preview
    → ℕ
    → MonthClosure
    → MonthClosure
    → MonthCloseRevision
new_revision c revision_id key hash bounds p number before after = record {
  id = revision_id;
  workspace_id = c.workspace_id;
  closure_id = before.id;
  revision_number = number;
  period_month = before.period_month;
  period_start_at = bounds.0;
  period_end_at = bounds.1;
  summary = p.summary;
  warning_issues = p.warnings;
  info_issues = p.infos;
  payload_hash = hash;
  response = some after;
  financial_fingerprint = p.fingerprint;
  confirmed_by = c.user_id;
  confirmed_at = c.now;
  idempotency_key = key;
}

-- The control after a change of the last closed day.
abbrev pub moved_control : Option Date → MonthCloseControl → MonthCloseControl
moved_control through k = record k { closed_through = through; version = k.version + 1 }

abbrev pub write_close : MonthClosure → MonthCloseControl → List MonthCloseRevision → Store → Store
write_close m control revisions s = record s {
  closures = put_closure m s.closures;
  controls = put_control control s.controls;
  revisions = s.revisions ++ revisions;
}

-- What `confirm` writes once its checks have passed.
unfoldable pub save_confirmed :
    Context
    → ℕ
    → List ℕ
    → ℕ
    → ℕ × ℕ
    → Preview
    → Date
    → MonthCloseControl
    → MonthClosure
    → Store
    → MonthClosure × Store
save_confirmed c revision_id key hash bounds p through control m s =
    let after = confirmed_closure c revision_id p m in
    let number = next_revision m.id s.revisions in
    let revision = new_revision c revision_id key hash bounds p number m after in
    (
      after,
      record_audit c month_closure_entity m.id AuditAction.close_confirm
          (some (closure_before m.status m.version none))
          (some (
            confirmed_data (record {
              period = m.period_month;
              revision_id = revision_id;
              revision_number = number;
              financial_fingerprint = p.fingerprint;
              budget_plan_fingerprint = p.budget_plan_fingerprint;
              idempotency_key = key;
            })))
          (write_close after (moved_control (some through) control) (revision ∷ []) s),
    )

pub record ConfirmRequest : Type 0 where
  pub version : ℕ
  pub explicit : Bool
  pub token : ℕ

abbrev pub same_option_token : ℕ → Option ℕ → Bool
same_option_token token stored = same_option (some token) stored

-- `confirm` for a key that no revision has.
unfoldable pub confirm_fresh :
    Runtime
    → Hashing
    → Context
    → Date
    → ConfirmRequest
    → List ℕ
    → ℕ
    → ℕ
    → Evidence
    → MonthCloseControl
    → MonthClosure
    → Store
    → Result (MonthClosure × Store)
confirm_fresh rt h c period request key hash revision_id e control m s = do
  raise_if (not request.explicit) 409 month_close_invalid_state
  raise_if (is_confirmed m.status) 409 month_already_closed
  raise_if (not (is_ready m.status)) 409 month_close_invalid_state
  raise_if (not (m.version == request.version)) 409 month_close_version_conflict
  out_of_sequence ← has_sequence_issue c.workspace_id control period s.closures
  raise_if out_of_sequence 409 month_close_sequence_conflict
  p ← collect_preview rt h.issue c period control e s
  raise_if
      (not (same_option_token request.token m.prepare_token)
        || not (same_option_token p.fingerprint m.prepared_fingerprint)
        || not (same_option_token (prepare_token h m m.version p) m.prepare_token))
      409 month_close_preview_stale
  raise_if (not (is_empty_issues p.blocking)) 409 month_close_blocked
  bounds ← period_bounds rt period c.timezone
  through ← month_end period
  ok (save_confirmed c revision_id key hash bounds p through control m s)

-- The answer to a key that a revision has. It commits nothing, so the tables stay those of the
-- beginning of the request.
unfoldable pub replay_confirm :
    ℕ → MonthClosure → MonthCloseRevision → Store → Result (MonthClosure × Store)
replay_confirm hash m existing s = do
  raise_if (not (existing.closure_id == m.id) || not (existing.payload_hash == hash)) 409
      month_close_idempotency_conflict
  elim existing.response [ some response ↦ ok (response, s) | none ↦ ok (m, s) ]

abbrev pub is_of_other_month : Option MonthCloseRevision → Date → Bool
is_of_other_month none period = false
is_of_other_month (some r) period = not (same_date r.period_month period)

unfoldable pub confirm :
    Runtime
    → Hashing
    → Context
    → Date
    → ConfirmRequest
    → List ℕ
    → ℕ
    → Evidence
    → Store
    → Result (MonthClosure × Store)
confirm rt h c period request idempotency_key revision_id e s₀ = do
  key ← validate_idempotency_key rt idempotency_key
  let control = (get_or_create_control c.workspace_id s₀).0
  let s = (get_or_create_control c.workspace_id s₀).1
  let existing = revision_for_key c.workspace_id key s
  raise_if (is_of_other_month existing period) 409 month_close_idempotency_conflict
  raise_if (is_some (reopen_audit_for_key c.workspace_id key s)) 409
      month_close_idempotency_conflict
  validate_completed_period rt c period
  m ← get_closure c.workspace_id period s
  let hash = h.confirmation m.workspace_id m.id request.version request.explicit request.token
  elim existing [
    | some revision ↦ replay_confirm hash m revision s₀
    | none ↦ confirm_fresh rt h c period request key hash revision_id e control m s
  ]

-- The assignments of `reopen`.
unfoldable pub reopened_closure : Context → List ℕ → MonthClosure → MonthClosure
reopened_closure c reason m = record m {
  status = reopened;
  last_reopened_at = some c.now;
  last_reopened_by = some c.user_id;
  last_reopen_reason = some reason;
  version = m.version + 1;
  updated_at = c.now;
}

-- What `reopen` writes once its checks have passed.
unfoldable pub save_reopened :
    Context
    → List ℕ
    → List ℕ
    → ℕ
    → Option Date
    → MonthCloseControl
    → MonthClosure
    → Store
    → MonthClosure × Store
save_reopened c key reason hash through control m s =
    let after = reopened_closure c reason m in
    (
      after,
      record_audit c month_closure_entity m.id AuditAction.close_reopen
          (some (closure_before m.status m.version control.closed_through))
          (some (
            reopened_data (record {
              reason = reason;
              closed_through = through;
              current_revision_id = after.current_revision_id;
              idempotency_key = key;
              payload_hash = hash;
              response = after;
            })))
          (write_close after (moved_control through control) [] s),
    )

-- `control.closed_through != month_end(period)`
abbrev pub is_closed_through : Option Date → Date → Bool
is_closed_through none d = false
is_closed_through (some through) d = same_date through d

-- `previous_closure`: whether the month is confirmed.
unfoldable pub has_confirmed : ℕ → Date → List MonthClosure → Bool
has_confirmed workspace period closures = is_some (
    find
      (λ m.
        (m.workspace_id == workspace) && same_date m.period_month period && is_confirmed m.status)
      closures)

-- The last closed day once the month is open again.
unfoldable pub reopened_through : ℕ → Date → List MonthClosure → Result (Option Date)
unfolding has_confirmed
reopened_through workspace period closures = do
  previous ← previous_month period
  if has_confirmed workspace previous closures
      then (do through ← month_end previous; ok (some through))
      else ok none

-- `reopen` for a key that no reopening has.
unfoldable pub reopen_fresh :
    Context
    → Date
    → ℕ
    → List ℕ
    → List ℕ
    → ℕ
    → MonthCloseControl
    → MonthClosure
    → Store
    → Result (MonthClosure × Store)
reopen_fresh c period version reason key hash control m s = do
  raise_if (not (m.version == version)) 409 month_close_version_conflict
  raise_if (not (is_confirmed m.status)) 409 month_close_invalid_state
  last ← month_end period
  raise_if (not (is_closed_through control.closed_through last)) 409
      month_close_reopen_order_conflict
  through ← reopened_through c.workspace_id period s.closures
  ok (save_reopened c key reason hash through control m s)

-- The answer to a key that a reopening has, which commits nothing either. The entry has the
-- response, from which `_reopen_audit_period` takes the month.
unfoldable pub replay_reopen : ℕ → MonthClosure → AuditEntry → Store → Result (MonthClosure × Store)
replay_reopen hash m entry s = elim (reopened_of entry.after_data) [
  | none ↦ err (api_error 409 month_close_idempotency_conflict)
  | some d ↦ do
    raise_if (not (entry.entity_id == m.id) || not (d.payload_hash == hash)) 409
        month_close_idempotency_conflict
    ok (d.response, s)
]

abbrev pub reopens_other_month : Option AuditEntry → Date → Bool
reopens_other_month none period = false
reopens_other_month (some a) period = elim (reopened_of a.after_data) [
  | none ↦ true
  | some d ↦ not (same_date d.response.period_month period)
]

unfoldable pub reopen :
    Runtime → Hashing → Context → Date → ℕ → List ℕ → List ℕ → Store → Result (MonthClosure × Store)
reopen rt h c period version reason idempotency_key s₀ = do
  key ← validate_idempotency_key rt idempotency_key
  let control = (get_or_create_control c.workspace_id s₀).0
  let s = (get_or_create_control c.workspace_id s₀).1
  raise_if (is_some (revision_for_key c.workspace_id key s)) 409 month_close_idempotency_conflict
  let existing = reopen_audit_for_key c.workspace_id key s
  raise_if (reopens_other_month existing period) 409 month_close_idempotency_conflict
  m ← get_closure c.workspace_id period s
  let text = strip rt.is_space reason
  let hash = h.reopening m.workspace_id m.id version text
  elim existing [
    | some entry ↦ replay_reopen hash m entry s₀
    | none ↦ reopen_fresh c period version text key hash control m s
  ]

-- The requests on a month, with what the database draws for them and what the preview reads.
pub data CloseRequest : Type 0 where
  prepare_request : ℕ → Evidence → CloseRequest
  confirm_request : ConfirmRequest → List ℕ → ℕ → Evidence → CloseRequest
  reopen_request : ℕ → List ℕ → List ℕ → CloseRequest

abbrev pub perform_for :
    Runtime → Hashing → Context → Date → CloseRequest → Store → Result (MonthClosure × Store)
perform_for rt h c period (prepare_request id e) s = prepare rt h c period id e s
perform_for rt h c period (confirm_request request key revision_id e) s =
    confirm rt h c period request key revision_id e s
perform_for rt h c period (reopen_request version reason key) s =
    reopen rt h c period version reason key s

-- A route with its path's year and month.
unfoldable pub perform_close :
    Runtime → Hashing → Context → ℕ → ℕ → CloseRequest → Store → Result (MonthClosure × Store)
perform_close rt h c year month request s = do
  period ← period_date year month
  perform_for rt h c period request s
