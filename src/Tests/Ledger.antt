-- ===== src/Tests/Ledger.antt =====
-- Runs of the transaction services on the fixture.
use finspace.Common.{ℕ, ◌+◌, ◌≡◌, refl, false, none, some, List, [], ◌∷◌, arith, sort_by, insert_by}
use finspace.Common.Int.{pos, ◌+ℤ◌, ◌-ℤ◌}
use finspace.Common.Result.{err, api_error, version_conflict}
use finspace.Calendar.{is_leap, days_in_month, make_date}
use finspace.Model.{
  Transaction, is_reconciled, AuditAction, confirmed, Context, TransactionUpdate, unset, given,
  passes_schema,
}
use finspace.Model.Audit.{transaction_snapshot}
use finspace.Model.Store.{
  Store, get_account, get_category, get_payee, get_transaction, get_splits, insert_split,
  sort_splits, put_transaction, record_audit,
}
use finspace.Model.Store.Outbox.{takes_events, active_binding, same_key, enqueue_entity}
use finspace.Guard.{
  get_or_create_control, local_date_of, insert_date, sorted_dates, closed_dates, assert_dates_open,
}
use finspace.Transactions.Validate.{
  usable_account, usable_category, allowed_category, check_transfer_target, check_target,
  check_category_of, check_category, check_split_categories, check_splits, counts_as_refund_of,
  sum_of, refunded, check_refund_of, check_refund, check_comment, validate_transaction,
}
use finspace.Transactions.Write.{
  required, merge, apply_changes, check_payee, split_rows, replace_splits, new_transaction, publish,
  save_new, create_transaction, save_update, update_row, update_transaction, Lifecycle,
  change_state, stamp, save_state, change_row, change_lifecycle, confirm_transaction, status_update,
}
use finspace.Transactions.Service.{Request, create_request, lifecycle_request, perform, serve}
use finspace.Transactions.Protected.{protected_rows, perform_protects}
use finspace.Transactions.Shape.{ShapedRow, ShapedRequest, validate_transaction-ShapedRequest}
use finspace.Transactions.Locking.{entry_of, update_transaction_lem}
use finspace.Transactions.Races.{first_update_wins}
use finspace.Transactions.Outcome.{begun}
use finspace.Transactions.Invariant.{IsLedger, serve-IsLedger}
use finspace.Tests.Fixture.{runtime, context, spending, moving, store, shopping, value_or}

services : Unit {0}
unfolding sort_by insert_by ◌+ℤ◌ ◌-ℤ◌ is_leap days_in_month make_date passes_schema
    transaction_snapshot get_account get_category get_payee get_transaction get_splits insert_split
    sort_splits put_transaction record_audit takes_events active_binding same_key enqueue_entity
    get_or_create_control local_date_of insert_date sorted_dates closed_dates assert_dates_open
    usable_account usable_category allowed_category check_transfer_target check_target
    check_category_of check_category check_split_categories check_splits counts_as_refund_of sum_of
    refunded check_refund_of check_refund check_comment validate_transaction required merge
    apply_changes check_payee split_rows replace_splits new_transaction publish save_new
    create_transaction save_update update_row update_transaction change_state stamp save_state
    change_row change_lifecycle confirm_transaction perform serve
services = tt

abbrev buy : Request
buy = create_request 60 (λ i. 80 + i) shopping

abbrev bought : Transaction × Store
bought = value_or (spending, store) (perform runtime context buy store)

perform_protects_example :
    protected_rows runtime context store bought.1.transactions
    ≡ protected_rows runtime context store store.transactions
unfolding services
perform_protects_example = perform_protects runtime context buy store bought (ground arith) refl

-- The closed expense of February is what the request leaves alone.
protected_before : protected_rows runtime context store store.transactions ≡ spending ∷ []
unfolding services
protected_before = refl

-- A session that buys, asks again under the same key of the split, and deletes the transfer.
abbrev session : List (Context × Request)
session = (context, buy) ∷ (context, lifecycle_request 51 1 Lifecycle.delete) ∷ []

spending_shape : ShapedRow [] spending
spending_shape = ground arith

moving_shape : ShapedRow [] moving
moving_shape = ground arith

store-IsLedger : IsLedger store
unfolding services
store-IsLedger = (((refl, tt), (tt, tt)), (spending_shape, (moving_shape, tt)))

serve-IsLedger_example : IsLedger (serve runtime session store)
unfolding services
serve-IsLedger_example =
    serve-IsLedger runtime session store store-IsLedger ((refl, (refl, (refl, tt)), tt), (tt, tt))

validate_transaction-ShapedRequest_example : ShapedRequest shopping
unfolding services
validate_transaction-ShapedRequest_example =
    validate_transaction-ShapedRequest runtime 1 shopping none store refl refl

-- A change of the amount of the transfer.
abbrev dearer : ℕ → TransactionUpdate
dearer version = record (status_update version confirmed) {
  status = unset;
  amount = given (pos 250000);
}

abbrev updated : Transaction × Store
updated =
    value_or (moving, store) (update_transaction runtime context 51 (λ i. 90 + i) (dearer 1) store)

update_transaction_lem_example :
    (t : Transaction) × (get_transaction 1 51 false (begun context store) ≡ some t)
    × (t.version ≡ 1)
    × (updated.0.version ≡ t.version + 1)
    × (updated.0.id ≡ t.id)
    × (updated.0.workspace_id ≡ t.workspace_id)
    × (updated.0.source ≡ t.source)
    × (updated.0.created_by ≡ t.created_by)
    × (is_reconciled t.status ≡ false)
    × (updated.1.audit_log ≡ entry_of context AuditAction.update (some t) updated.0 ∷ [])
unfolding services
update_transaction_lem_example =
    update_transaction_lem runtime context 51 (λ i. 90 + i) (dearer 1) store updated refl

-- Whoever asks next with version 1 of the transfer is too late.
first_update_wins_example :
    (update_transaction runtime context 51 (λ i. 95 + i) (dearer 1) updated.1
      ≡ err (api_error 409 version_conflict))
    × (change_lifecycle runtime context 51 1 Lifecycle.delete updated.1
        ≡ err (api_error 409 version_conflict))
unfolding services
first_update_wins_example =
    first_update_wins runtime context context 51 (λ i. 90 + i) (λ i. 95 + i) (dearer 1) (dearer 1)
      Lifecycle.delete store updated refl refl refl refl
