-- ===== src/Budgets.antt =====
-- Budget actuals: `project_budget_actuals` of backend/app/services/budget_actuals.py. `money` keeps
-- four decimal places, which all sums of money values have. The rounded quotient of Python's
-- `Decimal`, `money(amount * split.amount / original.amount)`, is the parameter `share`.
use finspace.Common.{
  ℕ, Bool, true, false, Option, none, some, List, [], ◌∷◌, ◌++◌, ◌&&◌, ◌||◌, not, ◌==◌, ltb, leb,
  if◌then◌else◌, is_none, is_some, same_option, filter, find, any, sort_by,
}
use finspace.Common.Int.{ℤ, pos, ◌+ℤ◌, ◌-ℤ◌}
use finspace.Common.Dicts.{change_entry}
use finspace.Common.Result.{Result, ok, err, ◌>>=◌}
use finspace.Calendar.{Date}
use finspace.Model.{
  Transaction, TransactionType, income, expense, transfer, refund, adjustment, Split, is_effective,
  is_refund, Runtime,
}
use finspace.Model.Store.{Store}
use finspace.Guard.{period_bounds}
pub mod Balanced
pub mod Figures
pub mod Originals
pub mod Agreement

-- `category_expense` lists the entries of the dictionary in the order of their insertion.
pub record BudgetActual : Type 0 where
  pub income : ℤ
  pub expense : ℤ
  pub adjustment : ℤ
  pub category_expense : List (Option ℕ × ℤ)

unfoldable pub net_cashflow : BudgetActual → ℤ
net_cashflow b = (b.income -ℤ b.expense) +ℤ b.adjustment

abbrev pub no_actual : BudgetActual
no_actual = record { income = pos 0; expense = pos 0; adjustment = pos 0; category_expense = [] }

-- The transactions query: the effective ones of the period.
unfoldable pub period_transactions : ℕ → ℕ → ℕ → Store → List Transaction
period_transactions workspace start end s =
    sort_by
      (λ a b.
        ltb a.occurred_at b.occurred_at || ((a.occurred_at == b.occurred_at) && leb a.id b.id))
      (filter
        (λ t.
          (t.workspace_id == workspace)
          && leb start t.occurred_at
          && ltb t.occurred_at end
          && is_effective t.status
          && is_none t.deleted_at)
        s.transactions)

abbrev pub is_expense : TransactionType → Bool
is_expense expense = true
is_expense _ = false

-- `originals`: a row that a refund of the period refers to comes before the rows of the period, as
-- the update of the dictionary lets it win.
unfoldable pub period_originals : ℕ → List Transaction → Store → List Transaction
period_originals workspace ts s =
    filter
      (λ t.
        (t.workspace_id == workspace)
        && any
            (λ r. is_refund r.transaction_type && same_option r.related_transaction_id (some t.id))
            ts)
      s.transactions
    ++ ts

-- `originals.get(...)`
unfoldable pub related_original : List Transaction → Option ℕ → Option Transaction
related_original originals none = none
related_original originals (some id) = find (λ t. t.id == id) originals

-- `splits.get(original.id, [])`, where only the splits of expenses were read.
unfoldable pub expense_splits : List Transaction → Store → ℕ → List Split
expense_splits originals s id =
    if any (λ t. is_expense t.transaction_type && (t.id == id)) originals
    then sort_by (λ p q. leb p.id q.id) (filter (λ p. p.transaction_id == id) s.splits)
    else []

-- `target.category_expense[category] += amount`
unfoldable pub add_expense : Option ℕ → ℤ → List (Option ℕ × ℤ) → List (Option ℕ × ℤ)
add_expense category amount [] = (category, pos 0 +ℤ amount) ∷ []
add_expense category amount ((c, a) ∷ entries) =
    let rest = add_expense category amount entries in
    if same_option c category then (c, a +ℤ amount) ∷ entries else (c, a) ∷ rest

-- The loop of `allocate_expense`: the last split gets what remains.
unfoldable pub allocate_splits :
    (ℤ → ℤ → ℤ → ℤ) → Transaction → ℤ → ℤ → List Split → List (Option ℕ × ℤ) → List (Option ℕ × ℤ)
unfolding add_expense
allocate_splits share original amount remaining [] entries = entries
allocate_splits share original amount remaining (p ∷ []) entries =
    add_expense (some p.category_id) remaining entries
allocate_splits share original amount remaining (p ∷ q ∷ qs) entries =
    let allocated = share amount p.amount original.amount in
    allocate_splits share original amount (remaining -ℤ allocated) (q ∷ qs)
      (add_expense (some p.category_id) allocated entries)

unfoldable pub allocate_expense :
    (ℤ → ℤ → ℤ → ℤ) → List Split → Transaction → ℤ → BudgetActual → BudgetActual
unfolding add_expense allocate_splits
allocate_expense share [] original amount target = record target {
  category_expense = add_expense original.category_id amount target.category_expense;
}
allocate_expense share (p ∷ ps) original amount target = record target {
  category_expense = allocate_splits share original amount amount (p ∷ ps) target.category_expense;
}

-- A refund, by the type of its original.
unfoldable pub add_period_refund :
    (ℤ → ℤ → ℤ → ℤ) → List Split → TransactionType → Transaction → ℤ → BudgetActual → BudgetActual
unfolding allocate_expense
add_period_refund share ps expense original amount target =
    allocate_expense share ps original (pos 0 -ℤ amount)
      (record target { expense = target.expense -ℤ amount })
add_period_refund share ps income original amount target = record target {
  income = target.income -ℤ amount;
}
add_period_refund share ps _ original amount target = target

unfoldable pub add_refund_of :
    (ℤ → ℤ → ℤ → ℤ) → (ℕ → List Split) → Option Transaction → ℤ → BudgetActual → BudgetActual
unfolding add_period_refund
add_refund_of share splits none amount target = target
add_refund_of share splits (some original) amount target =
    add_period_refund share (splits original.id) original.transaction_type original amount target

-- One round of the loop over the transactions, by the type of the transaction.
unfoldable pub actual_step :
    (ℤ → ℤ → ℤ → ℤ)
    → List Transaction
    → (ℕ → List Split)
    → TransactionType
    → Transaction
    → BudgetActual
    → BudgetActual
unfolding allocate_expense add_refund_of
actual_step share originals splits income item target = record target {
  income = target.income +ℤ item.amount;
}
actual_step share originals splits expense item target =
    allocate_expense share (splits item.id) item item.amount
      (record target { expense = target.expense +ℤ item.amount })
actual_step share originals splits adjustment item target = record target {
  adjustment = target.adjustment +ℤ item.amount;
}
actual_step share originals splits refund item target =
    add_refund_of share splits (related_original originals item.related_transaction_id) item.amount
      target
actual_step share originals splits transfer item target = target

-- `result[currency]`, which is there from then on, and is changed.
abbrev pub change_actual :
    ℕ → (BudgetActual → BudgetActual) → List (ℕ × BudgetActual) → List (ℕ × BudgetActual)
change_actual currency change groups = change_entry no_actual currency change groups

unfoldable pub actuals_from :
    (ℤ → ℤ → ℤ → ℤ)
    → List Transaction
    → (ℕ → List Split)
    → List Transaction
    → List (ℕ × BudgetActual)
    → List (ℕ × BudgetActual)
unfolding actual_step change_entry
actuals_from share originals splits [] groups = groups
actuals_from share originals splits (item ∷ items) groups =
    actuals_from share originals splits items (
      change_actual item.currency (actual_step share originals splits item.transaction_type item)
        groups)

unfoldable pub project_budget_actuals :
    Runtime → (ℤ → ℤ → ℤ → ℤ) → ℕ → Date → ℕ → Store → Result (List (ℕ × BudgetActual))
project_budget_actuals rt share workspace period timezone s = do
  bounds ← period_bounds rt period timezone
  let ts = period_transactions workspace bounds.0 bounds.1 s
  let originals = period_originals workspace ts s
  ok (actuals_from share originals (expense_splits originals s) ts [])
