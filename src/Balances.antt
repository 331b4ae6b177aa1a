-- ===== src/Balances.antt =====
-- Account balances: `calculate_balances` of backend/app/services/calculations.py. `_money` keeps
-- four decimal places, which every sum of money values has.
use finspace.Common.{
  ℕ, Bool, true, false, Option, none, some, List, [], ◌∷◌, ◌&&◌, ◌||◌, not, ◌==◌, ltb, leb,
  if◌then◌else◌, is_none, same_option, filter, find, insert_by, sort_by,
}
use finspace.Common.Int.{ℤ, ◌+ℤ◌, ◌-ℤ◌}
use finspace.Model.{
  Account, Transaction, TransactionType, income, expense, transfer, refund, adjustment,
  is_effective,
}
use finspace.Model.Store.{Store}
pub mod Alike
pub mod Effects
pub mod Entries
pub mod Transfers
pub mod Summary

pub record AccountBalance : Type 0 where
  pub account_id : ℕ
  pub name : ℕ
  pub currency : ℕ
  pub opening_balance : ℤ
  pub balance : ℤ

-- `occurred_at < as_of`, where there is an `as_of`
abbrev pub is_before : Option ℕ → ℕ → Bool
is_before none t = true
is_before (some limit) t = ltb t limit

-- The filters of the transactions query.
unfoldable pub counts : ℕ → Option ℕ → Transaction → Bool
counts workspace as_of t =
    (t.workspace_id == workspace)
    && is_effective t.status
    && is_none t.deleted_at
    && is_before as_of t.occurred_at

unfoldable pub counted_transactions : ℕ → Option ℕ → Store → List Transaction
unfolding counts
counted_transactions workspace as_of s = filter (counts workspace as_of) s.transactions

-- The accounts query, with `order_by(Account.name, Account.id)`.
unfoldable pub listed_accounts : ℕ → Store → List Account
listed_accounts workspace s =
    sort_by (λ a b. ltb a.name b.name || ((a.name == b.name) && leb a.id b.id))
      (filter (λ a. (a.workspace_id == workspace) && is_none a.deleted_at) s.accounts)

-- The transaction that a refund refers to: among those at hand, or by a query for any status.
unfoldable pub original_of : ℕ → List Transaction → Store → Option ℕ → Option Transaction
original_of workspace at_hand s none = none
original_of workspace at_hand s (some id) = elim (find (λ t. t.id == id) at_hand) [
  | some t ↦ some t
  | none ↦ find (λ t. (t.id == id) && (t.workspace_id == workspace)) s.transactions
]

-- A refund, by the type of its original.
abbrev pub add_refund : Option Transaction → ℤ → ℤ → ℤ
add_refund none amount balance = balance
add_refund (some original) amount balance = elim original.transaction_type [
  | expense ↦ balance +ℤ amount
  | income ↦ balance -ℤ amount
  | _ ↦ balance
]

-- The ladder on `transaction_type`; `mine` and `theirs` say that the account is the source or the
-- target of the transaction.
abbrev pub add_item : TransactionType → Bool → Bool → Option Transaction → ℤ → ℤ → ℤ
add_item income mine theirs original amount balance = if mine then balance +ℤ amount else balance
add_item expense mine theirs original amount balance = if mine then balance -ℤ amount else balance
add_item transfer mine theirs original amount balance =
    let paid = if mine then balance -ℤ amount else balance in
    if theirs then paid +ℤ amount else paid
add_item adjustment mine theirs original amount balance =
    if mine then balance +ℤ amount else balance
add_item refund mine theirs original amount balance =
    if mine then add_refund original amount balance else balance

-- One round of the loop over the transactions.
unfoldable pub balance_step : ℕ → List Transaction → Store → Account → Transaction → ℤ → ℤ
unfolding original_of
balance_step workspace at_hand s account item balance =
    if ltb item.occurred_at account.opening_balance_at
    then balance
    else add_item item.transaction_type (item.account_id == account.id)
        (same_option item.target_account_id (some account.id))
        (original_of workspace at_hand s item.related_transaction_id) item.amount balance

unfoldable pub balance_from : ℕ → List Transaction → Store → Account → List Transaction → ℤ → ℤ
unfolding balance_step
balance_from workspace at_hand s account [] balance = balance
balance_from workspace at_hand s account (item ∷ items) balance =
    balance_from workspace at_hand s account items
      (balance_step workspace at_hand s account item balance)

-- `as_of is not None and account.opening_balance_at >= as_of`
abbrev pub opens_later : Option ℕ → Account → Bool
opens_later none account = false
opens_later (some limit) account = leb limit account.opening_balance_at

unfoldable pub balances_of :
    ℕ → Option ℕ → List Transaction → Store → List Account → List AccountBalance
unfolding balance_from
balances_of workspace as_of at_hand s [] = []
balances_of workspace as_of at_hand s (account ∷ accounts) =
    let rest = balances_of workspace as_of at_hand s accounts in
    if opens_later as_of account
    then rest
    else record {
      account_id = account.id;
      name = account.name;
      currency = account.currency;
      opening_balance = account.opening_balance;
      balance = balance_from workspace at_hand s account at_hand account.opening_balance;
    }
      ∷ rest

unfoldable pub calculate_balances : ℕ → Option ℕ → Store → List AccountBalance
unfolding balances_of listed_accounts counted_transactions
calculate_balances workspace as_of s =
    balances_of workspace as_of (counted_transactions workspace as_of s) s
      (listed_accounts workspace s)
