-- ===== src/Balances/Summary.antt =====
-- The financial summary: `calculate_summary` of backend/app/services/calculations.py, with its
-- groups as it collects them, and as the response lists them.
use finspace.Common.{
  ℕ, ◌+◌, Bool, true, false, Option, none, some, List, [], ◌∷◌, ◌&&◌, ◌==◌, leb, is_none, filter,
  find, map, sort_by,
}
use finspace.Common.Dicts.{change_entry}
use finspace.Common.Int.{ℤ, pos, ◌+ℤ◌, ◌-ℤ◌}
use finspace.Model.{
  Transaction, TransactionType, income, expense, transfer, refund, adjustment, is_effective,
}
use finspace.Model.Store.{Store}

pub record SummaryTotals : Type 0 where
  pub income : ℤ
  pub expense : ℤ
  pub adjustment : ℤ
  pub transfer : ℤ
  pub count : ℕ

abbrev pub no_totals : SummaryTotals
no_totals = record {
  income = pos 0;
  expense = pos 0;
  adjustment = pos 0;
  transfer = pos 0;
  count = 0;
}

abbrev pub is_from : Option ℕ → ℕ → Bool
is_from none t = true
is_from (some first) t = leb first t

abbrev pub is_to : Option ℕ → ℕ → Bool
is_to none t = true
is_to (some last) t = leb t last

-- The transactions query.
unfoldable pub summary_transactions : ℕ → Option ℕ → Option ℕ → Store → List Transaction
summary_transactions workspace date_from date_to s =
    filter
      (λ t.
        (t.workspace_id == workspace)
        && is_effective t.status
        && is_none t.deleted_at
        && is_from date_from t.occurred_at
        && is_to date_to t.occurred_at)
      s.transactions

abbrev pub is_income_or_expense : TransactionType → Bool
is_income_or_expense income = true
is_income_or_expense expense = true
is_income_or_expense _ = false

-- The transaction that a refund refers to: of the period, or by a query for incomes and expenses.
unfoldable pub summary_original : ℕ → List Transaction → Store → Option ℕ → Option Transaction
summary_original workspace ts s none = none
summary_original workspace ts s (some id) = elim (find (λ t. t.id == id) ts) [
  | some t ↦ some t
  | none ↦
      find
        (λ t.
          (t.id == id) && (t.workspace_id == workspace) && is_income_or_expense t.transaction_type)
        s.transactions
]

unfoldable pub add_summary_refund : Option TransactionType → ℤ → SummaryTotals → SummaryTotals
add_summary_refund (some expense) amount g = record g { expense = g.expense -ℤ amount }
add_summary_refund (some income) amount g = record g { income = g.income -ℤ amount }
add_summary_refund _ amount g = g

abbrev pub type_of : Option Transaction → Option TransactionType
type_of none = none
type_of (some t) = some t.transaction_type

-- One round of the loop after the count, by the type of the transaction.
unfoldable pub add_to_totals :
    TransactionType → Option TransactionType → ℤ → SummaryTotals → SummaryTotals
unfolding add_summary_refund
add_to_totals income original amount g = record g { income = g.income +ℤ amount }
add_to_totals expense original amount g = record g { expense = g.expense +ℤ amount }
add_to_totals transfer original amount g = record g { transfer = g.transfer +ℤ amount }
add_to_totals adjustment original amount g = record g { adjustment = g.adjustment +ℤ amount }
add_to_totals refund original amount g = add_summary_refund original amount g

unfoldable pub summary_step :
    (Option ℕ → Option Transaction) → Transaction → SummaryTotals → SummaryTotals
unfolding add_to_totals
summary_step original_for item g =
    add_to_totals item.transaction_type (type_of (original_for item.related_transaction_id))
      item.amount (record g { count = g.count + 1 })

unfoldable pub totals_from :
    (Option ℕ → Option Transaction)
    → List Transaction
    → List (ℕ × SummaryTotals)
    → List (ℕ × SummaryTotals)
unfolding summary_step change_entry
totals_from original_for [] totals = totals
totals_from original_for (item ∷ items) totals =
    totals_from original_for items
      (change_entry no_totals item.currency (summary_step original_for item) totals)

-- `totals` at the end of the loop.
unfoldable pub summary_totals : ℕ → Option ℕ → Option ℕ → Store → List (ℕ × SummaryTotals)
unfolding totals_from summary_transactions summary_original
summary_totals workspace date_from date_to s =
    let ts = summary_transactions workspace date_from date_to s in
    totals_from (summary_original workspace ts s) ts []

pub record FinancialSummaryGroup : Type 0 where
  pub currency : ℕ
  pub income : ℤ
  pub expense : ℤ
  pub net_cashflow : ℤ
  pub transfer_volume : ℤ
  pub transactions_count : ℕ

unfoldable pub summary_group : ℕ × SummaryTotals → FinancialSummaryGroup
summary_group (currency, g) = record {
  currency = currency;
  income = g.income;
  expense = g.expense;
  net_cashflow = (g.income -ℤ g.expense) +ℤ g.adjustment;
  transfer_volume = g.transfer;
  transactions_count = g.count;
}

unfoldable pub calculate_summary : ℕ → Option ℕ → Option ℕ → Store → List FinancialSummaryGroup
unfolding summary_totals summary_group
calculate_summary workspace date_from date_to s =
    map summary_group (sort_by (λ a b. leb a.0 b.0) (summary_totals workspace date_from date_to s))
