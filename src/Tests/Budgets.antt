-- ===== src/Tests/Budgets.antt =====
-- A run of the budget projection: a split expense of 50 and a refund of 10 of it, in one month.
use finspace.Common.{◌≡◌, refl, arith, ℕ, none, some, List, [], ◌∷◌, All, insert_by, sort_by}
use finspace.Common.Dicts.{change_entry, read_entry}
use finspace.Common.Int.{ℤ, pos, negsuc, ◌+ℤ◌, ◌-ℤ◌}
use finspace.Calendar.{date, is_leap, days_in_month, make_date}
use finspace.Model.{Transaction, refund, Split}
use finspace.Model.Store.{Store}
use finspace.Guard.{next_month, period_bounds}
use finspace.Budgets.{
  BudgetActual, period_transactions, period_originals, related_original, expense_splits,
  add_expense, allocate_splits, allocate_expense, add_period_refund, add_refund_of, actual_step,
  actuals_from, project_budget_actuals,
}
use finspace.Balances.Summary.{summary_totals, calculate_summary}
use finspace.Budgets.Figures.{expenses, actual_figure, total_figure}
use finspace.Budgets.Agreement.{project_budget_actuals-summary_totals}
use finspace.Budgets.Balanced.{IsBalanced, project_budget_actuals-IsBalanced}
use finspace.Tests.Fixture.{runtime, spending, store}

budget_services : Unit {0}
unfolding insert_by sort_by ◌+ℤ◌ ◌-ℤ◌ is_leap days_in_month make_date next_month period_bounds
    period_transactions period_originals related_original expense_splits add_expense allocate_splits
    allocate_expense add_period_refund add_refund_of actual_step change_entry actuals_from
    project_budget_actuals
budget_services = tt

abbrev groceries : Transaction
groceries = record spending {
  id = 60;
  occurred_at = 240405;
  amount = pos 500000;
  category_id = none;
}

abbrev returned : Transaction
returned = record groceries {
  id = 61;
  occurred_at = 240406;
  transaction_type = refund;
  amount = pos 100000;
  related_transaction_id = some 60;
}

abbrev part : ℕ → ℕ → ℕ → Split
part id target amount = record {
  id = id;
  transaction_id = 60;
  category_id = target;
  amount = pos amount;
  comment = none;
  created_at = 240405;
}

abbrev shopped : Store
shopped = record store {
  transactions = returned ∷ groceries ∷ store.transactions;
  splits = part 80 30 200000 ∷ part 81 31 300000 ∷ [];
}

-- The shares of the run: two fifths, rounded.
abbrev two_fifths : ℤ → ℤ → ℤ → ℤ
two_fifths (pos amount) part_amount whole = pos 200000
two_fifths (negsuc amount) part_amount whole = negsuc 39999

abbrev actuals : List (ℕ × BudgetActual)
actuals =
    (
      643,
      record {
        income = pos 0;
        expense = pos 400000;
        adjustment = pos 0;
        category_expense = (some 30, pos 160000) ∷ (some 31, pos 240000) ∷ [];
      },
    )
    ∷ []

project_budget_actuals-IsBalanced_example : All (λ g. IsBalanced g.1) actuals
unfolding budget_services
project_budget_actuals-IsBalanced_example =
    project_budget_actuals-IsBalanced runtime two_fifths 1 (date 2024 4 1) 0 shopped actuals refl

project_budget_actuals-summary_totals_example :
    read_entry (actual_figure expenses) 643 actuals
    ≡ read_entry (total_figure expenses) 643 (summary_totals 1 (some 240401) (some 240500) shopped)
unfolding budget_services
project_budget_actuals-summary_totals_example =
    project_budget_actuals-summary_totals runtime two_fifths 1 (date 2024 4 1) 0 240401 240500
      shopped actuals expenses 643 (ground arith) refl refl

summary_run :
    calculate_summary 1 (some 240401) (some 240500) shopped
    ≡ (record {
      currency = 643;
      income = pos 0;
      expense = pos 400000;
      net_cashflow = negsuc 399999;
      transfer_volume = pos 0;
      transactions_count = 2;
    })
      ∷ []
unfolding budget_services calculate_summary
summary_run = refl
