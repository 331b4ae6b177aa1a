-- ===== src/Model/Audit.antt =====
-- Audit entries: `snapshot` with its `AUDIT_FIELDS` for a transaction and an account, and
-- `record_audit`, of backend/app/services/audit.py.
use finspace.Common.{ℕ, Bool, Option, List}
use finspace.Common.Int.{ℤ}
use finspace.Calendar.{Date}
use finspace.Model.Closures.{ClosureStatus, MonthClosure}
use finspace.Model.Rows.{
  TransactionType, TransactionStatus, CategoryType, Account, Category, Transaction, EntityType,
  AuditAction,
}

pub record TransactionSnapshot : Type 0 where
  pub id : ℕ
  pub workspace_id : ℕ
  pub occurred_at : ℕ
  pub transaction_type : TransactionType
  pub amount : ℤ
  pub currency : ℕ
  pub account_id : ℕ
  pub target_account_id : Option ℕ
  pub category_id : Option ℕ
  pub payee_id : Option ℕ
  pub counterparty : Option ℕ
  pub description : Option ℕ
  pub comment : Option (List ℕ)
  pub status : TransactionStatus
  pub source : ℕ
  pub related_transaction_id : Option ℕ
  pub external_id : Option ℕ
  pub import_batch_id : Option ℕ
  pub version : ℕ
  pub deleted_at : Option ℕ

pub record AccountSnapshot : Type 0 where
  pub id : ℕ
  pub workspace_id : ℕ
  pub name : ℕ
  pub account_type : ℕ
  pub currency : ℕ
  pub institution : Option ℕ
  pub opening_balance : ℤ
  pub opening_balance_at : ℕ
  pub credit_limit : Option ℤ
  pub description : Option ℕ
  pub is_archived : Bool
  pub version : ℕ
  pub deleted_at : Option ℕ

pub record CategorySnapshot : Type 0 where
  pub id : ℕ
  pub workspace_id : ℕ
  pub parent_id : Option ℕ
  pub name : ℕ
  pub category_type : CategoryType
  pub color : Option ℕ
  pub icon : Option ℕ
  pub sort_order : ℤ
  pub is_archived : Bool
  pub version : ℕ
  pub deleted_at : Option ℕ

-- What the steps of month closing record.
pub record PreparedData : Type 0 where
  pub period : Date
  pub status : ClosureStatus
  pub version : ℕ
  pub financial_fingerprint : ℕ
  pub budget_plan_fingerprint : ℕ
  pub blocking_count : ℕ
  pub warning_count : ℕ
  pub info_count : ℕ

pub record ConfirmedData : Type 0 where
  pub period : Date
  pub revision_id : ℕ
  pub revision_number : ℕ
  pub financial_fingerprint : ℕ
  pub budget_plan_fingerprint : ℕ
  pub idempotency_key : List ℕ

pub record ReopenedData : Type 0 where
  pub reason : List ℕ
  pub closed_through : Option Date
  pub current_revision_id : Option ℕ
  pub idempotency_key : List ℕ
  pub payload_hash : ℕ
  pub response : MonthClosure

-- What a confirmed reconciliation records.
pub record ReconciliationData : Type 0 where
  pub account_id : ℕ
  pub statement_date : Date
  pub statement_balance : ℤ
  pub calculated_balance : ℤ
  pub currency : ℕ
  pub transaction_count : ℕ

pub data Snapshot : Type 0 where
  reconciliation_data : ReconciliationData → Snapshot
  closure_before : ClosureStatus → ℕ → Option Date → Snapshot
  prepared_data : PreparedData → Snapshot
  confirmed_data : ConfirmedData → Snapshot
  reopened_data : ReopenedData → Snapshot
  transaction_data : TransactionSnapshot → Snapshot
  account_data : AccountSnapshot → Snapshot
  category_data : CategorySnapshot → Snapshot

unfoldable pub transaction_snapshot : Transaction → Snapshot
transaction_snapshot t = transaction_data (record {
  id = t.id;
  workspace_id = t.workspace_id;
  occurred_at = t.occurred_at;
  transaction_type = t.transaction_type;
  amount = t.amount;
  currency = t.currency;
  account_id = t.account_id;
  target_account_id = t.target_account_id;
  category_id = t.category_id;
  payee_id = t.payee_id;
  counterparty = t.counterparty;
  description = t.description;
  comment = t.comment;
  status = t.status;
  source = t.source;
  related_transaction_id = t.related_transaction_id;
  external_id = t.external_id;
  import_batch_id = t.import_batch_id;
  version = t.version;
  deleted_at = t.deleted_at;
})

unfoldable pub account_snapshot : Account → Snapshot
account_snapshot t = account_data (record {
  id = t.id;
  workspace_id = t.workspace_id;
  name = t.name;
  account_type = t.account_type;
  currency = t.currency;
  institution = t.institution;
  opening_balance = t.opening_balance;
  opening_balance_at = t.opening_balance_at;
  credit_limit = t.credit_limit;
  description = t.description;
  is_archived = t.is_archived;
  version = t.version;
  deleted_at = t.deleted_at;
})

unfoldable pub category_snapshot : Category → Snapshot
category_snapshot t = category_data (record {
  id = t.id;
  workspace_id = t.workspace_id;
  parent_id = t.parent_id;
  name = t.name;
  category_type = t.category_type;
  color = t.color;
  icon = t.icon;
  sort_order = t.sort_order;
  is_archived = t.is_archived;
  version = t.version;
  deleted_at = t.deleted_at;
})

-- `AuditLog`, without its cause columns.
pub record AuditEntry : Type 0 where
  pub workspace_id : ℕ
  pub actor_user_id : ℕ
  pub entity_type : EntityType
  pub entity_id : ℕ
  pub action : AuditAction
  pub before_data : Option Snapshot
  pub after_data : Option Snapshot
  pub request_id : ℕ
