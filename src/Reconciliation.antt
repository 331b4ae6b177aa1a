-- ===== src/Reconciliation.antt =====
-- Account reconciliation: backend/app/services/account_reconciliation.py. `Balance` has the
-- balance that is compared with the statement, `Candidates` the preview.
use finspace.Common.{
  ℕ, ◌+◌, Bool, false, Option, none, some, List, [], ◌∷◌, ◌++◌, ◌&&◌, not, ◌==◌, leb, filter, find,
  map, length, sort_by,
}
use finspace.Common.Int.{pos, eqb_ℤ}
use finspace.Common.Text.{same_text}
use finspace.Common.Result.{
  Result, ok, err, ◌>>=◌, ◌>>◌, raise_if, or_raise, account_not_found, idempotency_conflict,
  reconciliation_preview_stale, reconciliation_difference,
}
use finspace.Calendar.{Date}
use finspace.Model.{
  Account, Transaction, reconciled, AccountReconciliation, AccountReconciliationItem,
  account_entity, transaction_entity, account_reconciliation_entity, AuditAction, Operation,
  Runtime, Context,
}
use finspace.Model.Audit.{reconciliation_data, transaction_snapshot, account_snapshot}
use finspace.Model.Store.{Store, get_account, put_transaction, put_account, record_audit}
use finspace.Model.Store.Outbox.{enqueue_entity}
use finspace.Guard.{get_or_create_control}
use finspace.Reconciliation.Candidates.{Statement, TokenHash, Preview, build_preview}
pub mod Balance
pub mod Candidates
pub mod Outcome
pub mod Written
pub mod Unchanged

-- `AccountReconciliationConfirmRequest`
pub record ReconciliationConfirm : Type 0 where
  pub statement : Statement
  pub preview_token : ℕ
  pub idempotency_key : List ℕ

abbrev same_day : Date → Date → Bool
same_day a b = (a.year == b.year) && (a.month == b.month) && (a.day == b.day)

unfoldable pub same_idempotent_request : AccountReconciliation → ℕ → ReconciliationConfirm → Bool
same_idempotent_request r account request =
    (r.account_id == account)
    && same_day r.statement_date request.statement.statement_date
    && eqb_ℤ r.statement_balance request.statement.statement_balance
    && (r.currency == request.statement.currency)
    && (r.account_version == request.statement.account_version)
    && (r.preview_token == request.preview_token)

unfoldable pub get_by_idempotency_key : ℕ → List ℕ → Store → Option AccountReconciliation
get_by_idempotency_key workspace key s =
    find (λ r. (r.workspace_id == workspace) && same_text r.idempotency_key key) s.reconciliations

-- `transaction_ids`, ordered
unfoldable pub transaction_ids : ℕ → Store → List ℕ
transaction_ids reconciliation s = sort_by leb (
    map (λ i. i.transaction_id)
      (filter (λ i. i.reconciliation_id == reconciliation) s.reconciliation_items))

-- `AccountReconciliationResponse`: the row and its transactions.
abbrev pub Response : Type 0
Response = AccountReconciliation × List ℕ

unfoldable pub reconciliation_response : AccountReconciliation → Store → Response
unfolding transaction_ids
reconciliation_response r s = (r, transaction_ids r.id s)

abbrev pub new_reconciliation :
    Context → ℕ → Account → ReconciliationConfirm → Preview → AccountReconciliation
new_reconciliation c id account request p = record {
  id = id;
  workspace_id = c.workspace_id;
  account_id = account.id;
  statement_date = request.statement.statement_date;
  statement_balance = request.statement.statement_balance;
  calculated_balance = p.calculated_balance;
  difference = p.difference;
  currency = account.currency;
  preview_token = p.preview_token;
  idempotency_key = request.idempotency_key;
  account_version = account.version;
  version = 1;
  created_by = c.user_id;
  confirmed_by = c.user_id;
  confirmed_at = c.now;
}

abbrev pub reconciled_transaction : Context → Transaction → Transaction
reconciled_transaction c t = record t {
  status = reconciled;
  updated_by = some c.user_id;
  updated_at = c.now;
  version = t.version + 1;
}

-- One round of the loop over the candidates.
unfoldable pub reconcile_transaction : Context → ℕ → Transaction → Store → Store
reconcile_transaction c id t s =
    let t' = reconciled_transaction c t in
    enqueue_entity c transaction_entity t'.id t'.version Operation.upsert (
      record_audit c transaction_entity t'.id AuditAction.reconcile (some (transaction_snapshot t))
        (some (transaction_snapshot t'))
        (record s {
          transactions = put_transaction t' s.transactions;
          reconciliation_items =
              s.reconciliation_items
              ++ (record {
                reconciliation_id = id;
                transaction_id = t.id;
                transaction_version = t.version;
              })
                ∷ [];
        }))

unfoldable pub reconcile_transactions : Context → ℕ → List Transaction → Store → Store
unfolding reconcile_transaction
reconcile_transactions c id [] s = s
reconcile_transactions c id (t ∷ ts) s =
    reconcile_transactions c id ts (reconcile_transaction c id t s)

abbrev pub reconciled_account : Context → Account → Account
reconciled_account c a = record a { version = a.version + 1; updated_at = c.now }

unfoldable pub reconcile_account : Context → Account → Store → Store
reconcile_account c a s =
    let a' = reconciled_account c a in
    enqueue_entity c account_entity a'.id a'.version Operation.upsert (
      record_audit c account_entity a'.id AuditAction.reconcile (some (account_snapshot a))
        (some (account_snapshot a')) (record s { accounts = put_account a' s.accounts }))

-- What `confirm_reconciliation` writes once its checks have passed.
unfoldable pub save_reconciliation :
    Context → Account → List Transaction → AccountReconciliation → Store → Response × Store
unfolding reconcile_transactions reconcile_account reconciliation_response
save_reconciliation c account candidates r s =
    let added = record s { reconciliations = s.reconciliations ++ r ∷ [] } in
    let marked = reconcile_account c account (reconcile_transactions c r.id candidates added) in
    let done =
      record_audit c account_reconciliation_entity r.id AuditAction.reconcile none
        (some (
          reconciliation_data (record {
            account_id = r.account_id;
            statement_date = r.statement_date;
            statement_balance = r.statement_balance;
            calculated_balance = r.calculated_balance;
            currency = r.currency;
            transaction_count = length candidates;
          })))
        marked in
    (reconciliation_response r done, done)

-- `confirm_reconciliation` for a key that is new.
unfoldable pub confirm_new_reconciliation :
    Runtime
    → TokenHash
    → Context
    → ℕ
    → ReconciliationConfirm
    → ℕ
    → Store
    → Result (Response × Store)
confirm_new_reconciliation rt token c account_id request id s₀ = do
  let s = (get_or_create_control c.workspace_id s₀).1
  account ← or_raise (get_account c.workspace_id account_id false s) 404 account_not_found
  p ← build_preview rt token c account request.statement s
  raise_if (not (p.preview_token == request.preview_token)) 409 reconciliation_preview_stale
  raise_if (not (eqb_ℤ p.difference (pos 0))) 409 reconciliation_difference
  ok (save_reconciliation c account p.candidates (new_reconciliation c id account request p) s)

-- `_idempotent_result_or_conflict`, for the row that has the key.
unfoldable pub answer_again :
    AccountReconciliation → ℕ → ReconciliationConfirm → Store → Result (Response × Store)
unfolding same_idempotent_request
answer_again r account request s = do
  raise_if (not (same_idempotent_request r account request)) 409 idempotency_conflict
  ok (reconciliation_response r s, s)

unfoldable pub confirm_reconciliation :
    Runtime
    → TokenHash
    → Context
    → ℕ
    → ReconciliationConfirm
    → ℕ
    → Store
    → Result (Response × Store)
unfolding confirm_new_reconciliation answer_again get_by_idempotency_key
confirm_reconciliation rt token c account_id request id s =
    elim (get_by_idempotency_key c.workspace_id request.idempotency_key s) [
      | some r ↦ answer_again r account_id request s
      | none ↦ confirm_new_reconciliation rt token c account_id request id s
    ]
