-- ===== src/Model/Store.antt =====
-- The tables that a request's database session sees. A request that raises is not committed: its
-- outcome is the error, and the store it began with stands (backend/app/db/session.py).
use finspace.Common.{
  ℕ, Bool, true, false, Option, none, some, List, [], ◌∷◌, ◌++◌, ◌&&◌, ◌||◌, not, ◌==◌, leb, ltb,
  if◌then◌else◌, is_none, filter, find,
}
use finspace.Model.Rows.{
  Account, AccountReconciliation, AccountReconciliationItem, Category, Payee, Transaction, Split,
  MonthCloseControl, SheetBinding, BindingStatus, EntityType, Operation, AuditAction, OutboxEvent,
  active, paused, creating, initializing, other_status,
}
use finspace.Model.Closures.{MonthClosure, MonthCloseRevision}
use finspace.Model.Requests.{Context}
use finspace.Model.Audit.{Snapshot, AuditEntry}
pub mod Outbox
pub mod Rows
pub mod Untouched

pub record Store : Type 0 where
  pub accounts : List Account
  pub categories : List Category
  pub payees : List Payee
  pub transactions : List Transaction
  pub splits : List Split
  pub controls : List MonthCloseControl
  pub closures : List MonthClosure
  pub revisions : List MonthCloseRevision
  pub reconciliations : List AccountReconciliation
  pub reconciliation_items : List AccountReconciliationItem
  pub bindings : List SheetBinding
  pub outbox : List OutboxEvent
  pub audit_log : List AuditEntry

-- repositories/accounts.py: `get_account`
unfoldable pub get_account : ℕ → ℕ → Bool → Store → Option Account
get_account workspace id include_deleted s =
    find
      (λ a.
        (a.id == id) && (a.workspace_id == workspace) && (include_deleted || is_none a.deleted_at))
      s.accounts

-- repositories/categories.py: `get_category`
unfoldable pub get_category : ℕ → ℕ → Bool → Store → Option Category
get_category workspace id include_deleted s =
    find
      (λ c.
        (c.id == id) && (c.workspace_id == workspace) && (include_deleted || is_none c.deleted_at))
      s.categories

-- repositories/payees.py: `get_payee`, which every caller here asks for live rows
unfoldable pub get_payee : ℕ → ℕ → Store → Option Payee
get_payee workspace id s =
    find (λ p. (p.id == id) && (p.workspace_id == workspace) && is_none p.deleted_at) s.payees

-- repositories/transactions.py: `get_transaction`
unfoldable pub get_transaction : ℕ → ℕ → Bool → Store → Option Transaction
get_transaction workspace id include_deleted s =
    find
      (λ t.
        (t.id == id) && (t.workspace_id == workspace) && (include_deleted || is_none t.deleted_at))
      s.transactions

-- `order_by(TransactionSplit.created_at, TransactionSplit.id)`
abbrev pub split_leb : Split → Split → Bool
split_leb p q = ltb p.created_at q.created_at || ((p.created_at == q.created_at) && leb p.id q.id)

unfoldable pub insert_split : Split → List Split → List Split
insert_split p [] = p ∷ []
insert_split p (q ∷ qs) = if split_leb p q then p ∷ q ∷ qs else q ∷ insert_split p qs

unfoldable pub sort_splits : List Split → List Split
sort_splits [] = []
sort_splits (p ∷ ps) = insert_split p (sort_splits ps)

-- repositories/transactions.py: `get_splits`
unfoldable pub get_splits : ℕ → Store → List Split
get_splits id s = sort_splits (filter (λ p. p.transaction_id == id) s.splits)

-- The flush of a changed row: the row of that primary key is replaced.
unfoldable pub put_transaction : Transaction → List Transaction → List Transaction
put_transaction t [] = []
put_transaction t (u ∷ us) = (if u.id == t.id then t else u) ∷ put_transaction t us

unfoldable pub put_account : Account → List Account → List Account
put_account a [] = []
put_account a (b ∷ bs) = (if b.id == a.id then a else b) ∷ put_account a bs

-- services/audit.py: `record_audit`
unfoldable pub record_audit :
    Context → EntityType → ℕ → AuditAction → Option Snapshot → Option Snapshot → Store → Store
record_audit c type id action before after s = record s {
  audit_log =
      s.audit_log
      ++ (record {
        workspace_id = c.workspace_id;
        actor_user_id = c.user_id;
        entity_type = type;
        entity_id = id;
        action = action;
        before_data = before;
        after_data = after;
        request_id = c.request_id;
      })
        ∷ [];
}
