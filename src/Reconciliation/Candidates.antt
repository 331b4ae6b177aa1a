-- ===== src/Reconciliation/Candidates.antt =====
-- What a reconciliation of an account with a bank statement is judged by: `_validate_request`,
-- `_is_candidate` and `_build_preview`, with the query for the accounts that have reconciled a
-- transaction.
use finspace.Common.{ℕ, Bool, false, List, ◌&&◌, ◌||◌, not, ◌==◌, if◌then◌else◌, filter, any}
use finspace.Common.Int.{ℤ, ◌-ℤ◌}
use finspace.Common.Result.{
  Result, ok, ◌>>=◌, ◌>>◌, raise_if, version_conflict, currency_mismatch,
  statement_date_before_account_opening,
}
use finspace.Calendar.{Date, day_after, date_ltb}
use finspace.Model.{
  Account, Transaction, AccountReconciliation, AccountReconciliationItem, is_transfer, is_confirmed,
  is_reconciled, Runtime, Context,
}
use finspace.Model.Store.{Store}
use finspace.Reconciliation.Balance.{effective_transactions, calculated_balance}

-- `AccountReconciliationPreviewRequest`
pub record Statement : Type 0 where
  pub statement_date : Date
  pub statement_balance : ℤ
  pub currency : ℕ
  pub account_version : ℕ

-- The hash of `_preview_token`, on what it hashes.
abbrev pub TokenHash : Type 0
TokenHash = Context → Account → Statement → ℕ → ℤ → List Transaction → List Transaction → ℕ

-- The instant at which the day after the statement begins.
unfoldable pub cutoff_at : Runtime → Context → Date → Result ℕ
cutoff_at rt c statement_date = do
  next_day ← day_after statement_date
  ok (rt.midnight c.timezone next_day)

unfoldable pub validate_request : Runtime → Context → Account → Statement → Result (Unit {0})
validate_request rt c account statement = do
  raise_if (not (statement.currency == account.currency)) 422 currency_mismatch
  raise_if (not (statement.account_version == account.version)) 409 version_conflict
  raise_if (date_ltb statement.statement_date (rt.local_date c.timezone account.opening_balance_at))
      422 statement_date_before_account_opening

-- The reconciliations of a workspace that a transaction stands in.
abbrev pub links : ℕ → AccountReconciliation → ℕ → AccountReconciliationItem → Bool
links workspace r transaction i =
    (r.workspace_id == workspace)
    && (i.reconciliation_id == r.id)
    && (i.transaction_id == transaction)

-- `account_id in linked_accounts.get(transaction.id, set())`
unfoldable pub is_linked_to : ℕ → ℕ → ℕ → Store → Bool
is_linked_to workspace account transaction s =
    any
      (λ r. (r.account_id == account) && any (links workspace r transaction) s.reconciliation_items)
      s.reconciliations

-- `bool(linked_accounts.get(transaction.id, set()))`
unfoldable pub is_linked : ℕ → ℕ → Store → Bool
is_linked workspace transaction s =
    any (λ r. any (links workspace r transaction) s.reconciliation_items) s.reconciliations

unfoldable pub is_candidate : ℕ → Account → Store → Transaction → Bool
unfolding is_linked_to is_linked
is_candidate workspace account s t =
    if is_linked_to workspace account.id t.id s
    then false
    else is_confirmed t.status
      || (is_reconciled t.status && is_transfer t.transaction_type && is_linked workspace t.id s)

pub record Preview : Type 0 where
  pub cutoff : ℕ
  pub calculated_balance : ℤ
  pub difference : ℤ
  pub preview_token : ℕ
  pub candidates : List Transaction

-- `_build_preview`
unfoldable pub build_preview :
    Runtime → TokenHash → Context → Account → Statement → Store → Result Preview
unfolding validate_request cutoff_at is_candidate
build_preview rt token c account statement s = do
  validate_request rt c account statement
  cutoff ← cutoff_at rt c statement.statement_date
  let ts = effective_transactions c.workspace_id account cutoff s
  balance ← calculated_balance c.workspace_id account cutoff s
  let candidates = filter (is_candidate c.workspace_id account s) ts
  ok (record {
    cutoff = cutoff;
    calculated_balance = balance;
    difference = statement.statement_balance -ℤ balance;
    preview_token = token c account statement cutoff balance ts candidates;
    candidates = candidates;
  })
