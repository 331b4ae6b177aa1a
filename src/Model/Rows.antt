-- ===== src/Model/Rows.antt =====
-- Database rows: backend/app/db/models/{accounts,categories,payees,transactions,audit}.py,
-- MonthCloseControl of automations.py, and GoogleSheetBinding and SyncOutbox of google_sync.py.
use finspace.Common.{ℕ, Bool, true, false, ◌||◌, Option, List}
use finspace.Common.Int.{ℤ}
use finspace.Calendar.{Date}

-- The values of the `Literal` and `String` columns that the code tests.
pub data TransactionType : Type 0 where
  income expense transfer refund adjustment : TransactionType

pub data TransactionStatus : Type 0 where
  draft confirmed reconciled cancelled : TransactionStatus

pub data CategoryType : Type 0 where
  income_category expense_category both_categories : CategoryType

pub record Account : Type 0 where
  pub id : ℕ
  pub workspace_id : ℕ
  pub name : ℕ
  pub account_type : ℕ
  pub currency : ℕ
  pub institution : Option ℕ
  pub opening_balance : ℤ
  pub opening_balance_at : ℕ
  pub credit_limit : Option ℤ
  pub description : Option ℕ
  pub is_archived : Bool
  pub version : ℕ
  pub updated_at : ℕ
  pub deleted_at : Option ℕ

pub record Category : Type 0 where
  pub id : ℕ
  pub workspace_id : ℕ
  pub parent_id : Option ℕ
  pub name : ℕ
  pub category_type : CategoryType
  pub color : Option ℕ
  pub icon : Option ℕ
  pub sort_order : ℤ
  pub is_archived : Bool
  pub version : ℕ
  pub updated_at : ℕ
  pub deleted_at : Option ℕ

pub record Payee : Type 0 where
  pub id : ℕ
  pub workspace_id : ℕ
  pub name : ℕ
  pub deleted_at : Option ℕ

-- `FinancialTransaction`. A comment is the list of its code points, which one check reads.
pub record Transaction : Type 0 where
  pub id : ℕ
  pub workspace_id : ℕ
  pub occurred_at : ℕ
  pub transaction_type : TransactionType
  pub amount : ℤ
  pub currency : ℕ
  pub account_id : ℕ
  pub target_account_id : Option ℕ
  pub category_id : Option ℕ
  pub payee_id : Option ℕ
  pub counterparty : Option ℕ
  pub description : Option ℕ
  pub comment : Option (List ℕ)
  pub status : TransactionStatus
  pub source : ℕ
  pub related_transaction_id : Option ℕ
  pub external_id : Option ℕ
  pub created_by : Option ℕ
  pub updated_by : Option ℕ
  pub import_batch_id : Option ℕ
  pub version : ℕ
  pub updated_at : ℕ
  pub deleted_at : Option ℕ

-- `TransactionSplit`
pub record Split : Type 0 where
  pub id : ℕ
  pub transaction_id : ℕ
  pub category_id : ℕ
  pub amount : ℤ
  pub comment : Option ℕ
  pub created_at : ℕ

-- `backup_policy` is here whether it is "require_healthy".
pub record MonthCloseControl : Type 0 where
  pub workspace_id : ℕ
  pub closed_through : Option Date
  pub require_healthy_backup : Bool
  pub version : ℕ

-- `GoogleSheetBinding`: the columns that `active_binding` reads, each value that it does not name
-- as one more.
pub data BindingStatus : Type 0 where
  active paused creating initializing other_status : BindingStatus

pub record SheetBinding : Type 0 where
  pub id : ℕ
  pub workspace_id : ℕ
  pub status : BindingStatus
  pub sync_enabled : Bool
  pub sync_mode_is_paused : Bool
  pub provider_is_bridge : Bool
  pub deleted_at : Option ℕ

pub data EntityType : Type 0 where
  account_entity category_entity transaction_entity : EntityType
  account_reconciliation_entity month_closure_entity : EntityType

-- The `operation` of an outbox event and the `action` of an audit entry.
pub data Operation : Type 0 where
  upsert delete restore archive : Operation

pub data AuditAction : Type 0 where
  create update delete restore cancel archive reconcile : AuditAction
  close_prepare close_confirm close_reopen : AuditAction

-- The parts that `idempotency_key` joins by colons, which none of them contains.
pub record IdempotencyKey : Type 0 where
  pub binding_id : ℕ
  pub entity_type : EntityType
  pub entity_id : ℕ
  pub version : ℕ
  pub operation : Operation

-- `SyncOutbox`, without the payload and the delivery columns.
pub record OutboxEvent : Type 0 where
  pub workspace_id : ℕ
  pub idempotency_key : IdempotencyKey
  pub available_at : ℕ

-- The tests that the services make on these values.
abbrev pub is_transfer : TransactionType → Bool
is_transfer transfer = true
is_transfer _ = false

abbrev pub is_refund : TransactionType → Bool
is_refund refund = true
is_refund _ = false

abbrev pub is_adjustment : TransactionType → Bool
is_adjustment adjustment = true
is_adjustment _ = false

abbrev pub is_income : TransactionType → Bool
is_income income = true
is_income _ = false

abbrev pub is_expense : TransactionType → Bool
is_expense expense = true
is_expense _ = false

-- `transaction_type in {"income", "expense"}`
abbrev pub is_income_or_expense : TransactionType → Bool
is_income_or_expense t = is_income t || is_expense t

abbrev pub is_draft : TransactionStatus → Bool
is_draft draft = true
is_draft _ = false

abbrev pub is_confirmed : TransactionStatus → Bool
is_confirmed confirmed = true
is_confirmed _ = false

abbrev pub is_reconciled : TransactionStatus → Bool
is_reconciled reconciled = true
is_reconciled _ = false

abbrev pub is_cancelled : TransactionStatus → Bool
is_cancelled cancelled = true
is_cancelled _ = false

-- `status in EFFECTIVE_STATUSES`
abbrev pub is_effective : TransactionStatus → Bool
is_effective s = is_confirmed s || is_reconciled s

-- `AccountReconciliation`; the column `status` has one value, "confirmed".
pub record AccountReconciliation : Type 0 where
  pub id : ℕ
  pub workspace_id : ℕ
  pub account_id : ℕ
  pub statement_date : Date
  pub statement_balance : ℤ
  pub calculated_balance : ℤ
  pub difference : ℤ
  pub currency : ℕ
  pub preview_token : ℕ
  pub idempotency_key : List ℕ
  pub account_version : ℕ
  pub version : ℕ
  pub created_by : ℕ
  pub confirmed_by : ℕ
  pub confirmed_at : ℕ

pub record AccountReconciliationItem : Type 0 where
  pub reconciliation_id : ℕ
  pub transaction_id : ℕ
  pub transaction_version : ℕ
