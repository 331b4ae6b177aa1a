-- ===== src/Budgets/Figures.antt =====
-- The budget actuals of a period and the financial summary of the same period have the same income,
-- expense and adjustment in each currency.
use finspace.Common.{ℕ, ◌≡◌, refl, ◌∙◌, Option, none, some, List, [], ◌∷◌}
use finspace.Common.Int.{ℤ, pos, ◌+ℤ◌, ◌-ℤ◌, int_laws}
use finspace.Model.{
  Transaction, TransactionType, income, expense, transfer, refund, adjustment, Split,
}
use finspace.Balances.Summary.{SummaryTotals, type_of, add_summary_refund, add_to_totals}
use finspace.Budgets.{
  BudgetActual, allocate_expense, add_period_refund, add_refund_of, actual_step, related_original,
}

pub data Figure : Type 0 where
  incomes expenses adjustments : Figure

abbrev pub actual_figure : Figure → BudgetActual → ℤ
actual_figure incomes b = b.income
actual_figure expenses b = b.expense
actual_figure adjustments b = b.adjustment

abbrev pub total_figure : Figure → SummaryTotals → ℤ
total_figure incomes g = g.income
total_figure expenses g = g.expense
total_figure adjustments g = g.adjustment

-- What a refund adds to a figure, by the type of its original.
abbrev pub refund_delta : Figure → Option TransactionType → ℤ → ℤ
refund_delta incomes (some income) amount = pos 0 -ℤ amount
refund_delta expenses (some expense) amount = pos 0 -ℤ amount
refund_delta _ _ amount = pos 0

-- What a transaction adds to a figure.
abbrev pub delta : Figure → TransactionType → Option TransactionType → ℤ → ℤ
delta incomes income original amount = amount
delta expenses expense original amount = amount
delta adjustments adjustment original amount = amount
delta f refund original amount = refund_delta f original amount
delta _ _ original amount = pos 0

add_summary_refund-figure :
    (f : Figure) (original : Option TransactionType) (amount : ℤ) (g : SummaryTotals)
    → total_figure f (add_summary_refund original amount g)
      ≡ total_figure f g +ℤ refund_delta f original amount
unfolding add_summary_refund
add_summary_refund-figure incomes none amount g = omega int_laws
add_summary_refund-figure incomes (some income) amount g = omega int_laws
add_summary_refund-figure incomes (some expense) amount g = omega int_laws
add_summary_refund-figure incomes (some transfer) amount g = omega int_laws
add_summary_refund-figure incomes (some refund) amount g = omega int_laws
add_summary_refund-figure incomes (some adjustment) amount g = omega int_laws
add_summary_refund-figure expenses none amount g = omega int_laws
add_summary_refund-figure expenses (some income) amount g = omega int_laws
add_summary_refund-figure expenses (some expense) amount g = omega int_laws
add_summary_refund-figure expenses (some transfer) amount g = omega int_laws
add_summary_refund-figure expenses (some refund) amount g = omega int_laws
add_summary_refund-figure expenses (some adjustment) amount g = omega int_laws
add_summary_refund-figure adjustments none amount g = omega int_laws
add_summary_refund-figure adjustments (some income) amount g = omega int_laws
add_summary_refund-figure adjustments (some expense) amount g = omega int_laws
add_summary_refund-figure adjustments (some transfer) amount g = omega int_laws
add_summary_refund-figure adjustments (some refund) amount g = omega int_laws
add_summary_refund-figure adjustments (some adjustment) amount g = omega int_laws

pub add_to_totals-figure :
    (f : Figure) (type : TransactionType) (original : Option TransactionType) (amount : ℤ)
    (g : SummaryTotals)
    → total_figure f (add_to_totals type original amount g)
      ≡ total_figure f g +ℤ delta f type original amount
unfolding add_to_totals
add_to_totals-figure incomes income original amount g = omega int_laws
add_to_totals-figure incomes expense original amount g = omega int_laws
add_to_totals-figure incomes transfer original amount g = omega int_laws
add_to_totals-figure incomes refund original amount g =
    add_summary_refund-figure incomes original amount g
add_to_totals-figure incomes adjustment original amount g = omega int_laws
add_to_totals-figure expenses income original amount g = omega int_laws
add_to_totals-figure expenses expense original amount g = omega int_laws
add_to_totals-figure expenses transfer original amount g = omega int_laws
add_to_totals-figure expenses refund original amount g =
    add_summary_refund-figure expenses original amount g
add_to_totals-figure expenses adjustment original amount g = omega int_laws
add_to_totals-figure adjustments income original amount g = omega int_laws
add_to_totals-figure adjustments expense original amount g = omega int_laws
add_to_totals-figure adjustments transfer original amount g = omega int_laws
add_to_totals-figure adjustments refund original amount g =
    add_summary_refund-figure adjustments original amount g
add_to_totals-figure adjustments adjustment original amount g = omega int_laws

allocate_expense-figure :
    (f : Figure) (share : ℤ → ℤ → ℤ → ℤ) (ps : List Split) (original : Transaction) (amount : ℤ)
    (b : BudgetActual)
    → actual_figure f (allocate_expense share ps original amount b) ≡ actual_figure f b
unfolding allocate_expense
allocate_expense-figure incomes share [] original amount b = refl
allocate_expense-figure incomes share (p ∷ ps) original amount b = refl
allocate_expense-figure expenses share [] original amount b = refl
allocate_expense-figure expenses share (p ∷ ps) original amount b = refl
allocate_expense-figure adjustments share [] original amount b = refl
allocate_expense-figure adjustments share (p ∷ ps) original amount b = refl

add_period_refund-figure :
    (f : Figure) (share : ℤ → ℤ → ℤ → ℤ) (ps : List Split) (type : TransactionType)
    (original : Transaction) (amount : ℤ) (b : BudgetActual)
    → actual_figure f (add_period_refund share ps type original amount b)
      ≡ actual_figure f b +ℤ refund_delta f (some type) amount
unfolding add_period_refund
add_period_refund-figure incomes share ps income original amount b = omega int_laws
add_period_refund-figure incomes share ps expense original amount b =
    allocate_expense-figure incomes share ps original _ _ ∙ omega int_laws
add_period_refund-figure incomes share ps transfer original amount b = omega int_laws
add_period_refund-figure incomes share ps refund original amount b = omega int_laws
add_period_refund-figure incomes share ps adjustment original amount b = omega int_laws
add_period_refund-figure expenses share ps income original amount b = omega int_laws
add_period_refund-figure expenses share ps expense original amount b =
    allocate_expense-figure expenses share ps original _ _ ∙ omega int_laws
add_period_refund-figure expenses share ps transfer original amount b = omega int_laws
add_period_refund-figure expenses share ps refund original amount b = omega int_laws
add_period_refund-figure expenses share ps adjustment original amount b = omega int_laws
add_period_refund-figure adjustments share ps income original amount b = omega int_laws
add_period_refund-figure adjustments share ps expense original amount b =
    allocate_expense-figure adjustments share ps original _ _ ∙ omega int_laws
add_period_refund-figure adjustments share ps transfer original amount b = omega int_laws
add_period_refund-figure adjustments share ps refund original amount b = omega int_laws
add_period_refund-figure adjustments share ps adjustment original amount b = omega int_laws

add_refund_of-figure :
    (f : Figure) (share : ℤ → ℤ → ℤ → ℤ) (splits : ℕ → List Split) (original : Option Transaction)
    (amount : ℤ) (b : BudgetActual)
    → actual_figure f (add_refund_of share splits original amount b)
      ≡ actual_figure f b +ℤ refund_delta f (type_of original) amount
unfolding add_refund_of
add_refund_of-figure incomes share splits none amount b = omega int_laws
add_refund_of-figure expenses share splits none amount b = omega int_laws
add_refund_of-figure adjustments share splits none amount b = omega int_laws
add_refund_of-figure f share splits (some t) amount b =
    add_period_refund-figure f share (splits t.id) t.transaction_type t amount b

pub actual_step-figure :
    (f : Figure) (share : ℤ → ℤ → ℤ → ℤ) (originals : List Transaction) (splits : ℕ → List Split)
    (type : TransactionType) (item : Transaction) (b : BudgetActual)
    → actual_figure f (actual_step share originals splits type item b)
      ≡ actual_figure f b
        +ℤ delta f type
            (type_of (related_original originals item.related_transaction_id))
            item.amount
unfolding actual_step
actual_step-figure incomes share originals splits income item b = omega int_laws
actual_step-figure incomes share originals splits expense item b =
    allocate_expense-figure incomes share (splits item.id) item item.amount _ ∙ omega int_laws
actual_step-figure incomes share originals splits transfer item b = omega int_laws
actual_step-figure incomes share originals splits refund item b =
    add_refund_of-figure incomes share splits
      (related_original originals item.related_transaction_id) item.amount b
actual_step-figure incomes share originals splits adjustment item b = omega int_laws
actual_step-figure expenses share originals splits income item b = omega int_laws
actual_step-figure expenses share originals splits expense item b =
    allocate_expense-figure expenses share (splits item.id) item item.amount _ ∙ omega int_laws
actual_step-figure expenses share originals splits transfer item b = omega int_laws
actual_step-figure expenses share originals splits refund item b =
    add_refund_of-figure expenses share splits
      (related_original originals item.related_transaction_id) item.amount b
actual_step-figure expenses share originals splits adjustment item b = omega int_laws
actual_step-figure adjustments share originals splits income item b = omega int_laws
actual_step-figure adjustments share originals splits expense item b =
    allocate_expense-figure adjustments share (splits item.id) item item.amount _ ∙ omega int_laws
actual_step-figure adjustments share originals splits transfer item b = omega int_laws
actual_step-figure adjustments share originals splits refund item b =
    add_refund_of-figure adjustments share splits
      (related_original originals item.related_transaction_id) item.amount b
actual_step-figure adjustments share originals splits adjustment item b = omega int_laws
