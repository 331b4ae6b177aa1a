-- ===== src/Transactions/Validate.antt =====
-- `_account`, `_category`, `_allowed_category` and `_validate_transaction` of
-- backend/app/services/transactions.py, a definition for each group of checks, in their order.
use finspace.Common.{
  is_empty, ℕ, Bool, true, false, Option, none, some, List, [], ◌∷◌, ◌&&◌, ◌||◌, not, ◌==◌,
  if◌then◌else◌, is_none, is_some, same_option, filter, all,
}
use finspace.Common.Int.{ℤ, pos, ◌+ℤ◌, ltb_ℤ, eqb_ℤ}
use finspace.Common.Result.{
  Result, ok, err, ◌>>=◌, ◌>>◌, api_error, raise_if, or_raise, account_not_found,
  category_not_found, transaction_not_found, reconciliation_required, validation_error,
  invalid_transfer, invalid_split_total, invalid_category_type, refund_limit_exceeded,
}
use finspace.Model.{
  Account, Category, CategoryType, income_category, expense_category, both_categories, Transaction,
  TransactionType, income, expense, is_transfer, is_refund, is_adjustment, is_income_or_expense,
  is_reconciled, is_cancelled, Runtime, SplitInput, TransactionCreate,
}
use finspace.Model.Store.{Store, get_account, get_category, get_transaction}

unfoldable pub usable_account : ℕ → ℕ → Store → Result Account
usable_account workspace id s = do
  account ← or_raise (get_account workspace id false s) 404 account_not_found
  raise_if account.is_archived 404 account_not_found
  ok account

unfoldable pub usable_category : ℕ → ℕ → Store → Result Category
usable_category workspace id s = do
  category ← or_raise (get_category workspace id false s) 404 category_not_found
  raise_if category.is_archived 404 category_not_found
  ok category

unfoldable pub allowed_category : TransactionType → CategoryType → Bool
allowed_category income income_category = true
allowed_category income both_categories = true
allowed_category income expense_category = false
allowed_category expense expense_category = true
allowed_category expense both_categories = true
allowed_category expense income_category = false
allowed_category _ _ = true

-- The checks of a transfer against its target account.
unfoldable pub check_transfer_target :
    ℕ → TransactionCreate → Account → Option ℕ → Store → Result (Unit {0})
unfolding usable_account
check_transfer_target workspace t source none s = err (api_error 422 invalid_transfer)
check_transfer_target workspace t source (some target_id) s = do
  raise_if (target_id == t.account_id) 422 invalid_transfer
  target ← usable_account workspace target_id s
  raise_if (not (target.currency == source.currency)) 422 invalid_transfer
  raise_if (is_some t.category_id || not (is_empty t.splits)) 422 invalid_transfer
  ok tt

unfoldable pub check_target : ℕ → TransactionCreate → Account → Store → Result (Unit {0})
unfolding check_transfer_target
check_target workspace t source s =
    if is_transfer t.transaction_type
    then check_transfer_target workspace t source t.target_account_id s
    else raise_if (is_some t.target_account_id) 422 validation_error

unfoldable pub check_category_of : ℕ → TransactionType → Option ℕ → Store → Result (Unit {0})
unfolding usable_category allowed_category
check_category_of workspace type none s = ok tt
check_category_of workspace type (some id) s = do
  category ← usable_category workspace id s
  raise_if (not (allowed_category type category.category_type)) 422 invalid_category_type
  ok tt

unfoldable pub check_category : ℕ → TransactionCreate → Store → Result (Unit {0})
unfolding check_category_of
check_category workspace t s = do
  raise_if (is_some t.category_id && not (is_empty t.splits)) 422 invalid_split_total
  raise_if
      (is_income_or_expense t.transaction_type
        && not (is_some t.category_id || not (is_empty t.splits)))
      422 invalid_category_type
  check_category_of workspace t.transaction_type t.category_id s

abbrev pub sum_amounts : List SplitInput → ℤ
sum_amounts [] = pos 0
sum_amounts (p ∷ ps) = p.amount +ℤ sum_amounts ps

unfoldable pub check_split_categories :
    ℕ → TransactionType → List SplitInput → Store → Result (Unit {0})
check_split_categories workspace type [] s = ok tt
check_split_categories workspace type (p ∷ ps) s = do
  check_category_of workspace type (some p.category_id) s
  check_split_categories workspace type ps s

unfoldable pub check_splits : ℕ → TransactionCreate → Store → Result (Unit {0})
unfolding check_split_categories
check_splits workspace t s = if is_empty t.splits then ok tt else do
  raise_if (is_transfer t.transaction_type) 422 invalid_transfer
  raise_if (not (eqb_ℤ (sum_amounts t.splits) t.amount)) 422 invalid_split_total
  check_split_categories workspace t.transaction_type t.splits s

-- The filters of the query for what was refunded already; `excluded` is `current_id`.
unfoldable pub counts_as_refund_of : ℕ → ℕ → Option ℕ → Transaction → Bool
counts_as_refund_of workspace original_id excluded u =
    (u.workspace_id == workspace)
    && same_option u.related_transaction_id (some original_id)
    && is_refund u.transaction_type
    && not (is_cancelled u.status)
    && is_none u.deleted_at
    && not (same_option excluded (some u.id))

unfoldable pub sum_of : List Transaction → ℤ
sum_of [] = pos 0
sum_of (u ∷ us) = u.amount +ℤ sum_of us

unfoldable pub refunded : ℕ → ℕ → Option ℕ → Store → ℤ
unfolding sum_of
refunded workspace original_id excluded s =
    sum_of (filter (counts_as_refund_of workspace original_id excluded) s.transactions)

unfoldable pub check_refund_of :
    ℕ → TransactionCreate → Option ℕ → Option ℕ → Store → Result (Unit {0})
check_refund_of workspace t excluded none s = err (api_error 422 validation_error)
check_refund_of workspace t excluded (some related_id) s = do
  original ← or_raise (get_transaction workspace related_id false s) 422 transaction_not_found
  raise_if (not (is_income_or_expense original.transaction_type)) 422 transaction_not_found
  raise_if (not ((t.account_id == original.account_id) && (t.currency == original.currency))) 422
      validation_error
  raise_if (ltb_ℤ original.amount (refunded workspace original.id excluded s +ℤ t.amount)) 422
      refund_limit_exceeded
  ok tt

unfoldable pub check_refund : ℕ → TransactionCreate → Option ℕ → Store → Result (Unit {0})
unfolding check_refund_of
check_refund workspace t excluded s =
    if is_refund t.transaction_type
    then check_refund_of workspace t excluded t.related_transaction_id s
    else ok tt

-- `not (data.comment or "").strip()`
abbrev pub is_blank : Runtime → Option (List ℕ) → Bool
is_blank rt none = true
is_blank rt (some text) = all rt.is_space text

unfoldable pub check_comment : Runtime → TransactionCreate → Result (Unit {0})
check_comment rt t =
    raise_if (is_adjustment t.transaction_type && is_blank rt t.comment) 422 validation_error

unfoldable pub validate_transaction :
    Runtime → ℕ → TransactionCreate → Option ℕ → Store → Result (Unit {0})
validate_transaction rt workspace t excluded s = do
  raise_if (is_reconciled t.status) 409 reconciliation_required
  source ← usable_account workspace t.account_id s
  raise_if (not (source.currency == t.currency)) 422 validation_error
  check_target workspace t source s
  check_category workspace t s
  check_splits workspace t s
  check_refund workspace t excluded s
  check_comment rt t
