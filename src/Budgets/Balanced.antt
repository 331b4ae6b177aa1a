-- ===== src/Budgets/Balanced.antt =====
-- The expenses of a budget's categories add up to the expense of their currency.
use finspace.Common.{
  ℕ, ◌≡◌, refl, sym, ◌∙◌, ap, subst, Option, none, some, List, [], ◌∷◌, ◌==◌, arith, All,
  same_option, Bool-cases, inl, inr,
}
use finspace.Common.Int.{ℤ, pos, ◌+ℤ◌, ◌-ℤ◌, int_laws}
use finspace.Common.Dicts.{change_entry}
use finspace.Common.Result.{ok, Result-cases}
use finspace.Common.Queries.{sum_map}
use finspace.Calendar.{Date}
use finspace.Model.{
  Transaction, TransactionType, income, expense, transfer, refund, adjustment, Split, Runtime,
}
use finspace.Model.Store.{Store}
use finspace.Guard.{period_bounds}
use finspace.Budgets.{
  BudgetActual, no_actual, add_expense, allocate_splits, allocate_expense, add_period_refund,
  add_refund_of, actual_step, change_actual, actuals_from, project_budget_actuals,
  period_transactions, period_originals, expense_splits,
}

-- `sum(category_expense.values())`
abbrev pub allocated_sum : List (Option ℕ × ℤ) → ℤ
allocated_sum entries = sum_map (λ e. e.1) entries

abbrev pub IsBalanced : BudgetActual → Type 0
IsBalanced b = allocated_sum b.category_expense ≡ b.expense

sum-add_expense :
    (category : Option ℕ) (amount : ℤ) (entries : List (Option ℕ × ℤ))
    → allocated_sum (add_expense category amount entries) ≡ allocated_sum entries +ℤ amount
unfolding add_expense
sum-add_expense category amount [] = omega int_laws
sum-add_expense category amount ((c, a) ∷ entries) = elim (Bool-cases (same_option c category)) [
  | inl here ↦ rw here (omega int_laws)
  | inr later ↦ rw (later, sum-add_expense category amount entries) (omega int_laws)
]

-- Whatever the quotients are, the splits get the whole amount together.
sum-allocate_splits :
    (share : ℤ → ℤ → ℤ → ℤ) (original : Transaction) (amount remaining : ℤ) (p : Split)
    (ps : List Split) (entries : List (Option ℕ × ℤ))
    → allocated_sum (allocate_splits share original amount remaining (p ∷ ps) entries)
      ≡ allocated_sum entries +ℤ remaining
unfolding allocate_splits
sum-allocate_splits share original amount remaining p [] entries =
    sum-add_expense (some p.category_id) remaining entries
sum-allocate_splits share original amount remaining p (q ∷ qs) entries =
    let allocated = share amount p.amount original.amount in
    let added = add_expense (some p.category_id) allocated entries in
    sum-allocate_splits share original amount (remaining -ℤ allocated) q qs added
    ∙ ap (λ z. z +ℤ (remaining -ℤ allocated))
        (sum-add_expense (some p.category_id) allocated entries)
    ∙ omega int_laws

sum-allocate_expense :
    (share : ℤ → ℤ → ℤ → ℤ) (ps : List Split) (original : Transaction) (amount : ℤ)
    (b : BudgetActual)
    → allocated_sum (allocate_expense share ps original amount b).category_expense
      ≡ allocated_sum b.category_expense +ℤ amount
unfolding allocate_expense
sum-allocate_expense share [] original amount b =
    sum-add_expense original.category_id amount b.category_expense
sum-allocate_expense share (p ∷ ps) original amount b =
    sum-allocate_splits share original amount amount p ps b.category_expense

allocate_expense-expense :
    (share : ℤ → ℤ → ℤ → ℤ) (ps : List Split) (original : Transaction) (amount : ℤ)
    (b : BudgetActual)
    → (allocate_expense share ps original amount b).expense ≡ b.expense
unfolding allocate_expense
allocate_expense-expense share [] original amount b = refl
allocate_expense-expense share (p ∷ ps) original amount b = refl

-- Allocating an amount keeps the balance, where the expense has the amount already.
allocate_expense-IsBalanced :
    (share : ℤ → ℤ → ℤ → ℤ) (ps : List Split) (original : Transaction) (amount : ℤ)
    (b : BudgetActual)
    → b.expense ≡ allocated_sum b.category_expense +ℤ amount
    → IsBalanced (allocate_expense share ps original amount b)
allocate_expense-IsBalanced share ps original amount b h =
    sum-allocate_expense share ps original amount b
    ∙ sym h
    ∙ sym (allocate_expense-expense share ps original amount b)

add_period_refund-IsBalanced :
    (share : ℤ → ℤ → ℤ → ℤ) (ps : List Split) (type : TransactionType) (original : Transaction)
    (amount : ℤ) (b : BudgetActual)
    → IsBalanced b
    → IsBalanced (add_period_refund share ps type original amount b)
unfolding add_period_refund
add_period_refund-IsBalanced share ps expense original amount b h =
    allocate_expense-IsBalanced share ps original _ _
      (subst (λ z. b.expense -ℤ amount ≡ z +ℤ (pos 0 -ℤ amount)) (sym h) (omega int_laws))
add_period_refund-IsBalanced share ps income original amount b h = h
add_period_refund-IsBalanced share ps transfer original amount b h = h
add_period_refund-IsBalanced share ps refund original amount b h = h
add_period_refund-IsBalanced share ps adjustment original amount b h = h

add_refund_of-IsBalanced :
    (share : ℤ → ℤ → ℤ → ℤ) (splits : ℕ → List Split) (original : Option Transaction) (amount : ℤ)
    (b : BudgetActual)
    → IsBalanced b
    → IsBalanced (add_refund_of share splits original amount b)
unfolding add_refund_of
add_refund_of-IsBalanced share splits none amount b h = h
add_refund_of-IsBalanced share splits (some original) amount b h =
    add_period_refund-IsBalanced share (splits original.id) original.transaction_type original
      amount b h

actual_step-IsBalanced :
    (share : ℤ → ℤ → ℤ → ℤ) (originals : List Transaction) (splits : ℕ → List Split)
    (type : TransactionType) (item : Transaction) (b : BudgetActual)
    → IsBalanced b
    → IsBalanced (actual_step share originals splits type item b)
unfolding actual_step
actual_step-IsBalanced share originals splits income item b h = h
actual_step-IsBalanced share originals splits expense item b h =
    allocate_expense-IsBalanced share (splits item.id) item item.amount _
      (ap (λ z. z +ℤ item.amount) (sym h))
actual_step-IsBalanced share originals splits adjustment item b h = h
actual_step-IsBalanced share originals splits refund item b h =
    add_refund_of-IsBalanced share splits _ item.amount b h
actual_step-IsBalanced share originals splits transfer item b h = h

change_actual-IsBalanced :
    (currency : ℕ) (change : BudgetActual → BudgetActual) (groups : List (ℕ × BudgetActual))
    → ((b : BudgetActual) → IsBalanced b → IsBalanced (change b))
    → All (λ g. IsBalanced g.1) groups
    → All (λ g. IsBalanced g.1) (change_actual currency change groups)
unfolding change_entry
change_actual-IsBalanced currency change [] keeps h = (keeps no_actual refl, tt)
change_actual-IsBalanced currency change ((c, b) ∷ groups) keeps h =
    elim (Bool-cases (c == currency)) [
      | inl here ↦ rw here (keeps b h.0, h.1)
      | inr later ↦ rw later (h.0, change_actual-IsBalanced currency change groups keeps h.1)
    ]

actuals_from-IsBalanced :
    (share : ℤ → ℤ → ℤ → ℤ) (originals : List Transaction) (splits : ℕ → List Split)
    (items : List Transaction) (groups : List (ℕ × BudgetActual))
    → All (λ g. IsBalanced g.1) groups
    → All (λ g. IsBalanced g.1) (actuals_from share originals splits items groups)
unfolding actuals_from
actuals_from-IsBalanced share originals splits [] groups h = h
actuals_from-IsBalanced share originals splits (item ∷ items) groups h =
    actuals_from-IsBalanced share originals splits items _ (
      change_actual-IsBalanced item.currency
        (actual_step share originals splits item.transaction_type item) groups
        (actual_step-IsBalanced share originals splits item.transaction_type item) h)

-- In the budget actuals of a period, the expenses of the categories add up to the expense of their
-- currency, whatever the rounded shares of the splits are.
pub project_budget_actuals-IsBalanced :
    (rt : Runtime) (share : ℤ → ℤ → ℤ → ℤ) (workspace : ℕ) (period : Date) (timezone : ℕ)
    (s : Store) (groups : List (ℕ × BudgetActual))
    → project_budget_actuals rt share workspace period timezone s ≡ ok groups
    → All (λ g. IsBalanced g.1) groups
unfolding project_budget_actuals
project_budget_actuals-IsBalanced rt share workspace period timezone s groups h =
    elim (Result-cases (period_bounds rt period timezone)) [
      | inr (e, failed) ↦ absurd (ground arith)
      | inl (bounds, found) ↦
          let ts = period_transactions workspace bounds.0 bounds.1 s in
          let originals = period_originals workspace ts s in
          let same : actuals_from share originals (expense_splits originals s) ts [] ≡ groups =
            ground arith in
          subst (All (λ g. IsBalanced g.1)) same
            (actuals_from-IsBalanced share originals (expense_splits originals s) ts [] tt)
    ]
