-- ===== src/Transactions/Write.antt =====
-- The operations of backend/app/services/transactions.py that change the ledger: `create`,
-- `update`, the lifecycle actions and `confirm`. Each returns the transaction and the store to
-- commit. The primary keys that the database draws are arguments.
mod Merge
unfoldable pub use Merge.*
use finspace.Common.{
  is_empty, ℕ, suc, ◌+◌, Bool, true, false, Option, none, some, List, [], ◌∷◌, ◌++◌, ◌&&◌, not,
  ◌==◌, if◌then◌else◌, filter, map,
}
use finspace.Common.Result.{
  Result, ok, err, ◌>>=◌, ◌>>◌, api_error, raise_if, or_raise, transaction_not_found,
  payee_not_found, version_conflict, reconciled_transaction_immutable, reconciliation_required,
  validation_error,
}
use finspace.Model.{
  Transaction, TransactionStatus, confirmed, cancelled, is_draft, is_confirmed, is_reconciled,
  Split, MonthCloseControl, transaction_entity, Operation, upsert, AuditAction, Runtime, Context,
  SplitInput, TransactionCreate, TransactionUpdate, Change, unset, null, given,
}
use finspace.Model.Audit.{transaction_snapshot}
use finspace.Model.Store.{
  Store, get_payee, get_transaction, get_splits, put_transaction, record_audit,
}
use finspace.Model.Store.Outbox.{enqueue_entity}
use finspace.Guard.{get_or_create_control, instant, assert_dates_open}
use finspace.Transactions.Validate.{validate_transaction}

-- `payee_service.get_assignable_payee_for_write`, where a payee is given.
unfoldable pub check_payee : ℕ → Option ℕ → Store → Result (Unit {0})
check_payee workspace none s = ok tt
check_payee workspace (some id) s = do
  or_raise (get_payee workspace id s) 404 payee_not_found
  ok tt

-- The rows that `_replace_splits` adds; `draw` gives their primary keys.
unfoldable pub split_rows : (ℕ → ℕ) → ℕ → ℕ → List SplitInput → List Split
split_rows draw now id [] = []
split_rows draw now id (p ∷ ps) =
    record {
      id = draw 0;
      transaction_id = id;
      category_id = p.category_id;
      amount = p.amount;
      comment = p.comment;
      created_at = now;
    }
    ∷ split_rows (λ i. draw (suc i)) now id ps

unfoldable pub replace_splits : (ℕ → ℕ) → ℕ → ℕ → List SplitInput → Store → Store
unfolding split_rows
replace_splits draw now id inputs s = record s {
  splits = filter (λ p. not (p.transaction_id == id)) s.splits ++ split_rows draw now id inputs;
}

-- The row that `create_transaction` adds.
unfoldable pub new_transaction : Context → ℕ → TransactionCreate → Transaction
new_transaction c id t = record {
  id = id;
  workspace_id = c.workspace_id;
  occurred_at = t.occurred_at;
  transaction_type = t.transaction_type;
  amount = t.amount;
  currency = t.currency;
  account_id = t.account_id;
  target_account_id = t.target_account_id;
  category_id = t.category_id;
  payee_id = t.payee_id;
  counterparty = t.counterparty;
  description = t.description;
  comment = t.comment;
  status = t.status;
  source = t.source;
  related_transaction_id = t.related_transaction_id;
  external_id = t.external_id;
  created_by = some c.user_id;
  updated_by = some c.user_id;
  import_batch_id = none;
  version = 1;
  updated_at = c.now;
  deleted_at = none;
}

abbrev pub add_transaction : Transaction → Store → Store
add_transaction t s = record s { transactions = s.transactions ++ t ∷ [] }

abbrev pub write_transaction : Transaction → Store → Store
write_transaction t s = record s { transactions = put_transaction t s.transactions }

-- `record_audit` and `enqueue_entity` at the end of every operation.
unfoldable pub publish :
    Context → AuditAction → Operation → Option Transaction → Transaction → Store → Store
publish c action operation before t s =
    enqueue_entity c transaction_entity t.id t.version operation (
      record_audit c transaction_entity t.id action
        (elim before [ none ↦ none | some u ↦ some (transaction_snapshot u) ])
        (some (transaction_snapshot t)) s)

-- What `create_transaction` writes once its checks have passed.
unfoldable pub save_new : Context → ℕ → (ℕ → ℕ) → TransactionCreate → Store → Transaction × Store
save_new c id draw request s =
    let t = new_transaction c id request in
    let added = add_transaction t s in
    let split =
      if is_empty request.splits
      then added
      else replace_splits draw c.now id request.splits added in
    (t, publish c AuditAction.create Operation.upsert none t split)

unfoldable pub create_transaction :
    Runtime → Context → ℕ → (ℕ → ℕ) → TransactionCreate → Store → Result (Transaction × Store)
create_transaction rt c id draw request s₀ = do
  let control = (get_or_create_control c.workspace_id s₀).0
  let s = (get_or_create_control c.workspace_id s₀).1
  assert_dates_open rt control c.timezone (instant request.occurred_at ∷ [])
  check_payee c.workspace_id request.payee_id s
  validate_transaction rt c.workspace_id request none s
  ok (save_new c id draw request s)

-- What `update_transaction` writes once its checks have passed.
unfoldable pub save_update :
    Context
    → (ℕ → ℕ)
    → TransactionUpdate
    → TransactionCreate
    → Transaction
    → Store
    → Transaction × Store
save_update c draw changes merged t s =
    let t' = apply_changes c changes t in
    let written = write_transaction t' s in
    let split =
      if is_set changes.splits
      then replace_splits draw c.now t.id merged.splits written
      else written in
    (t', publish c AuditAction.update Operation.upsert (some t) t' split)

-- `update_transaction` from where the row is at hand: the checks, in their order, and the writes.
unfoldable pub update_row :
    Runtime
    → Context
    → (ℕ → ℕ)
    → TransactionUpdate
    → MonthCloseControl
    → Transaction
    → Store
    → Result (Transaction × Store)
update_row rt c draw changes control t s = do
  raise_if (not (t.version == changes.version)) 409 version_conflict
  raise_if (is_reconciled t.status) 409 reconciled_transaction_immutable
  check_payee c.workspace_id (given_value changes.payee_id) s
  raise_if (asks_reconciled changes.status) 409 reconciliation_required
  merged ← merge changes t (get_splits t.id s)
  assert_dates_open rt control c.timezone (instant t.occurred_at ∷ instant merged.occurred_at ∷ [])
  validate_transaction rt c.workspace_id merged (some t.id) s
  ok (save_update c draw changes merged t s)

unfoldable pub update_transaction :
    Runtime → Context → ℕ → (ℕ → ℕ) → TransactionUpdate → Store → Result (Transaction × Store)
unfolding update_row
update_transaction rt c id draw changes s₀ = do
  let control = (get_or_create_control c.workspace_id s₀).0
  let s = (get_or_create_control c.workspace_id s₀).1
  t ← or_raise (get_transaction c.workspace_id id false s) 404 transaction_not_found
  update_row rt c draw changes control t s

-- The `action` of `_change_lifecycle`.
pub data Lifecycle : Type 0 where
  delete restore cancel : Lifecycle

abbrev pub is_restore : Lifecycle → Bool
is_restore restore = true
is_restore _ = false

-- The assignments of the `if action == ...` ladder.
unfoldable pub change_state : Lifecycle → ℕ → Transaction → Transaction
change_state delete now t = record t { deleted_at = some now }
change_state restore now t = record t { deleted_at = none }
change_state cancel now t = record t { status = cancelled }

-- The user, the version and the time, which every change sets.
unfoldable pub stamp : Context → Transaction → Transaction
stamp c t = record t { updated_by = some c.user_id; version = t.version + 1; updated_at = c.now }

abbrev pub lifecycle_action : Lifecycle → AuditAction
lifecycle_action delete = AuditAction.delete
lifecycle_action restore = AuditAction.restore
lifecycle_action cancel = AuditAction.cancel

-- `{"delete": "delete", "restore": "restore", "cancel": "upsert"}[action]`
abbrev pub lifecycle_operation : Lifecycle → Operation
lifecycle_operation delete = Operation.delete
lifecycle_operation restore = Operation.restore
lifecycle_operation cancel = Operation.upsert

-- What a lifecycle action writes once its checks have passed.
unfoldable pub save_state : Context → Lifecycle → Transaction → Store → Transaction × Store
unfolding change_state stamp
save_state c action t s =
    let t' = stamp c (change_state action c.now t) in
    (
      t',
      publish c (lifecycle_action action) (lifecycle_operation action) (some t) t'
          (write_transaction t' s),
    )

unfoldable pub change_row :
    Runtime
    → Context
    → ℕ
    → Lifecycle
    → MonthCloseControl
    → Transaction
    → Store
    → Result (Transaction × Store)
change_row rt c version action control t s = do
  raise_if (not (t.version == version)) 409 version_conflict
  raise_if (is_reconciled t.status && not (is_restore action)) 409 reconciled_transaction_immutable
  assert_dates_open rt control c.timezone (instant t.occurred_at ∷ [])
  ok (save_state c action t s)

unfoldable pub change_lifecycle :
    Runtime → Context → ℕ → ℕ → Lifecycle → Store → Result (Transaction × Store)
unfolding change_row
change_lifecycle rt c id version action s₀ = do
  let control = (get_or_create_control c.workspace_id s₀).0
  let s = (get_or_create_control c.workspace_id s₀).1
  t ← or_raise (get_transaction c.workspace_id id (is_restore action) s) 404 transaction_not_found
  change_row rt c version action control t s

-- `confirm_transaction`: a confirmed transaction is returned as it is, and nothing is committed.
unfoldable pub confirm_transaction :
    Runtime → Context → ℕ → ℕ → (ℕ → ℕ) → Store → Result (Transaction × Store)
confirm_transaction rt c id version draw s₀ = do
  let control = (get_or_create_control c.workspace_id s₀).0
  let s = (get_or_create_control c.workspace_id s₀).1
  t ← or_raise (get_transaction c.workspace_id id false s) 404 transaction_not_found
  if is_confirmed t.status then ok (t, s₀) else do
    raise_if (not (is_draft t.status)) 409 validation_error
    assert_dates_open rt control c.timezone (instant t.occurred_at ∷ [])
    update_transaction rt c id draw (status_update version confirmed) s
