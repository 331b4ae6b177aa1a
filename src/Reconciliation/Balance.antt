-- ===== src/Reconciliation/Balance.antt =====
-- The balance that a reconciliation compares with the statement: `_effective_transactions`,
-- `_transaction_effects` and the sum in `_build_preview`.
use finspace.Common.{
  ℕ, Bool, true, false, Option, none, some, List, [], ◌∷◌, ◌&&◌, ◌||◌, not, ◌==◌, ltb, leb,
  if◌then◌else◌, is_none, same_option, filter, find, any, sort_by,
}
use finspace.Common.Int.{ℤ, pos, ◌+ℤ◌, ◌-ℤ◌}
use finspace.Common.Result.{
  Result, ok, err, ◌>>=◌, ◌>>◌, api_error, raise_if, transaction_currency_conflict,
}
use finspace.Model.{
  Account, Transaction, TransactionType, income, expense, transfer, refund, adjustment,
  is_effective, is_refund,
}
use finspace.Model.Store.{Store}
pub mod Agreement

abbrev pub concerns : Account → Transaction → Bool
concerns account t =
    (t.account_id == account.id) || same_option t.target_account_id (some account.id)

-- `order_by(occurred_at, id)`
abbrev pub transaction_leb : Transaction → Transaction → Bool
transaction_leb t u =
    ltb t.occurred_at u.occurred_at || ((t.occurred_at == u.occurred_at) && leb t.id u.id)

unfoldable pub is_selected : ℕ → Account → ℕ → Transaction → Bool
is_selected workspace account cutoff t =
    (t.workspace_id == workspace)
    && is_effective t.status
    && is_none t.deleted_at
    && leb account.opening_balance_at t.occurred_at
    && ltb t.occurred_at cutoff
    && concerns account t

unfoldable pub effective_transactions : ℕ → Account → ℕ → Store → List Transaction
unfolding is_selected
effective_transactions workspace account cutoff s =
    sort_by transaction_leb (filter (is_selected workspace account cutoff) s.transactions)

-- `originals`: the workspace's rows that refunds among the transactions refer to.
abbrev pub is_referred : List Transaction → ℕ → Bool
is_referred ts id =
    any (λ t. is_refund t.transaction_type && same_option t.related_transaction_id (some id)) ts

unfoldable pub originals : Account → List Transaction → Store → List Transaction
originals account ts s =
    filter (λ t. is_referred ts t.id && (t.workspace_id == account.workspace_id)) s.transactions

unfoldable pub original_among : List Transaction → Option ℕ → Option Transaction
original_among rows none = none
original_among rows (some id) = find (λ t. t.id == id) rows

abbrev pub refund_effect : Option Transaction → ℤ → ℤ
refund_effect none amount = pos 0
refund_effect (some original) amount = elim original.transaction_type [
  | expense ↦ amount
  | income ↦ pos 0 -ℤ amount
  | _ ↦ pos 0
]

-- The ladder on `transaction_type`.
abbrev pub signed_amount : TransactionType → Bool → Bool → Option Transaction → ℤ → ℤ
signed_amount income mine theirs original amount = if mine then amount else pos 0
signed_amount expense mine theirs original amount = if mine then pos 0 -ℤ amount else pos 0
signed_amount transfer mine theirs original amount =
    let paid = if mine then pos 0 -ℤ amount else pos 0 in if theirs then paid +ℤ amount else paid
signed_amount adjustment mine theirs original amount = if mine then amount else pos 0
signed_amount refund mine theirs original amount =
    if mine then refund_effect original amount else pos 0

unfoldable pub transaction_effect : Account → List Transaction → Transaction → ℤ
unfolding original_among
transaction_effect account rows item =
    signed_amount item.transaction_type (item.account_id == account.id)
      (same_option item.target_account_id (some account.id))
      (original_among rows item.related_transaction_id) item.amount

-- `sum(effects[item.id] for item in transactions)`, with the currency check of each round.
unfoldable pub sum_signed : Account → List Transaction → List Transaction → Result ℤ
unfolding transaction_effect
sum_signed account rows [] = ok (pos 0)
sum_signed account rows (item ∷ items) = do
  raise_if (not (item.currency == account.currency)) 409 transaction_currency_conflict
  rest ← sum_signed account rows items
  ok (transaction_effect account rows item +ℤ rest)

unfoldable pub calculated_balance : ℕ → Account → ℕ → Store → Result ℤ
unfolding sum_signed effective_transactions originals
calculated_balance workspace account cutoff s = do
  let ts = effective_transactions workspace account cutoff s
  total ← sum_signed account (originals account ts s) ts
  ok (account.opening_balance +ℤ total)
