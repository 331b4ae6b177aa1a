-- ===== src/Model/Closures.antt =====
-- Rows of month closing: MonthClosure and MonthCloseRevision of backend/app/db/models/automations.py,
-- and the issues that a preview lists. Hashes and identifiers are numbers.
use finspace.Common.{ℕ, Bool, true, false, Option, List}
use finspace.Calendar.{Date}

pub data ClosureStatus : Type 0 where
  draft blocked ready confirmed reopened : ClosureStatus

abbrev pub is_confirmed : ClosureStatus → Bool
is_confirmed confirmed = true
is_confirmed _ = false

abbrev pub is_ready : ClosureStatus → Bool
is_ready ready = true
is_ready _ = false

-- The codes of `ISSUE_DEFINITIONS`; the code of a backup issue carries the status.
pub data IssueCode : Type 0 where
  draft_transactions sync_conflicts_in_period sequence_conflict : IssueCode
  uncategorized_transactions possible_duplicates negative_period_end_balances : IssueCode
  account_not_reconciled failed_recurring_executions failed_sync_outbox : IssueCode
  import_rows_requiring_attention staged_imports out_of_period_sync_conflicts : IssueCode
  no_financial_activity : IssueCode
  backup : ℕ → IssueCode

pub record Issue : Type 0 where
  pub code : IssueCode
  pub count : ℕ

-- The summary of a preview: the numbers that it counts itself; the sections that reports fill are
-- one number.
pub record ClosureSummary : Type 0 where
  pub transaction_count : ℕ
  pub draft_count : ℕ
  pub uncategorized_count : ℕ
  pub possible_duplicate_count : ℕ
  pub negative_balance_count : ℕ
  pub sections : ℕ

pub record MonthClosure : Type 0 where
  pub id : ℕ
  pub workspace_id : ℕ
  pub period_month : Date
  pub status : ClosureStatus
  pub prepared_by : Option ℕ
  pub confirmed_by : Option ℕ
  pub prepared_at : Option ℕ
  pub confirmed_at : Option ℕ
  pub summary : Option ClosureSummary
  pub info_issues : List Issue
  pub blocking_issues : List Issue
  pub warning_issues : List Issue
  pub prepare_token : Option ℕ
  pub prepared_fingerprint : Option ℕ
  pub current_revision_id : Option ℕ
  pub last_reopened_at : Option ℕ
  pub last_reopened_by : Option ℕ
  pub last_reopen_reason : Option (List ℕ)
  pub version : ℕ
  pub updated_at : ℕ

-- `snapshot["_idempotency"]` is `payload_hash` and `response`, which is the closure as it was
-- returned; the rest of the snapshot repeats the summary and the issues.
pub record MonthCloseRevision : Type 0 where
  pub id : ℕ
  pub workspace_id : ℕ
  pub closure_id : ℕ
  pub revision_number : ℕ
  pub period_month : Date
  pub period_start_at : ℕ
  pub period_end_at : ℕ
  pub summary : ClosureSummary
  pub warning_issues : List Issue
  pub info_issues : List Issue
  pub payload_hash : ℕ
  pub response : Option MonthClosure
  pub financial_fingerprint : ℕ
  pub confirmed_by : ℕ
  pub confirmed_at : ℕ
  pub idempotency_key : List ℕ
