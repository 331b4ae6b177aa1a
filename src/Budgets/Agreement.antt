-- ===== src/Budgets/Agreement.antt =====
-- The budget actuals of a period and the financial summary of the same period agree.
use finspace.Common.{
  ℕ, ◌+◌, suc, ◌≡◌, refl, sym, ◌∙◌, ap, Bool, true, Option, none, some, List, [], ◌∷◌, ◌&&◌, ◌==◌,
  arith, All, All-map, leb, ltb, is_none, same_option, filter,
}
use finspace.Common.Dicts.{change_entry, read_entry, added_at, read-change_entry}
use finspace.Common.Int.{ℤ, pos, ◌+ℤ◌, int_laws}
use finspace.Common.Queries.{
  All-forall, sum_map, sum_map-sort_by, sum_map-filter, any-filter, any-sort_by, any_of_All,
}
use finspace.Common.Result.{ok}
use finspace.Calendar.{Date}
use finspace.Model.{
  Transaction, TransactionType, income, expense, transfer, refund, adjustment, Split, is_effective,
  is_refund, Runtime,
}
use finspace.Model.Store.{Store}
use finspace.Model.Store.Rows.{IsUnique}
use finspace.Guard.{period_bounds}
use finspace.Balances.Summary.{
  SummaryTotals, no_totals, type_of, summary_step, totals_from, summary_totals,
  summary_transactions, summary_original,
}
use finspace.Budgets.{
  BudgetActual, no_actual, actual_step, related_original, actuals_from, period_transactions,
  period_originals, expense_splits, project_budget_actuals,
}
use finspace.Budgets.Originals.{is_referred, related_original-eq, summary_original-eq}
use finspace.Budgets.Figures.{
  Figure, incomes, expenses, adjustments, actual_figure, total_figure, refund_delta, delta,
  actual_step-figure, add_to_totals-figure,
}

-- What the transactions add to a figure of a currency, with a way to find originals.
abbrev added : Figure → ℕ → (Option ℕ → Option Transaction) → Transaction → ℤ
added f currency original_for t =
    added_at currency t.currency
      (delta f t.transaction_type (type_of (original_for t.related_transaction_id)) t.amount)

zero_actual : (f : Figure) → actual_figure f no_actual ≡ pos 0
zero_actual incomes = refl
zero_actual expenses = refl
zero_actual adjustments = refl

zero_totals : (f : Figure) → total_figure f no_totals ≡ pos 0
zero_totals incomes = refl
zero_totals expenses = refl
zero_totals adjustments = refl

counted_figure :
    (f : Figure) (g : SummaryTotals)
    → total_figure f (record g { count = g.count + 1 }) ≡ total_figure f g
counted_figure incomes g = refl
counted_figure expenses g = refl
counted_figure adjustments g = refl

read-actuals_from :
    (f : Figure) (currency : ℕ) (share : ℤ → ℤ → ℤ → ℤ) (originals : List Transaction)
    (splits : ℕ → List Split) (items : List Transaction) (groups : List (ℕ × BudgetActual))
    → read_entry (actual_figure f) currency (actuals_from share originals splits items groups)
      ≡ read_entry (actual_figure f) currency groups
        +ℤ sum_map (added f currency (related_original originals)) items
unfolding actuals_from
read-actuals_from f currency share originals splits [] groups = omega int_laws
read-actuals_from f currency share originals splits (t ∷ ts) groups =
    let step = actual_step share originals splits t.transaction_type t in
    read-actuals_from f currency share originals splits ts
      (change_entry no_actual t.currency step groups)
    ∙ ap (λ z. z +ℤ sum_map (added f currency (related_original originals)) ts)
        (read-change_entry no_actual (actual_figure f) currency t.currency step _ groups
          (zero_actual f) (actual_step-figure f share originals splits t.transaction_type t))
    ∙ omega int_laws

read-totals_from :
    (f : Figure) (currency : ℕ) (original_for : Option ℕ → Option Transaction)
    (items : List Transaction) (totals : List (ℕ × SummaryTotals))
    → read_entry (total_figure f) currency (totals_from original_for items totals)
      ≡ read_entry (total_figure f) currency totals +ℤ sum_map (added f currency original_for) items
unfolding totals_from summary_step
read-totals_from f currency original_for [] totals = omega int_laws
read-totals_from f currency original_for (t ∷ ts) totals =
    let original = type_of (original_for t.related_transaction_id) in
    read-totals_from f currency original_for ts
      (change_entry no_totals t.currency (summary_step original_for t) totals)
    ∙ ap (λ z. z +ℤ sum_map (added f currency original_for) ts)
        (read-change_entry no_totals (total_figure f) currency t.currency
          (summary_step original_for t) _ totals (zero_totals f)
          (λ g.
            add_to_totals-figure f t.transaction_type original t.amount
              (record g { count = g.count + 1 })
            ∙ ap (λ z. z +ℤ delta f t.transaction_type original t.amount) (counted_figure f g)))
    ∙ omega int_laws

originals_alike :
    (f : Figure) (workspace start last : ℕ) (s : Store) (related : Option ℕ) (amount : ℤ)
    → IsUnique s.transactions
    → ((id : ℕ)
        → related ≡ some id
        → is_referred (period_transactions workspace start (suc last) s) id ≡ true)
    → refund_delta f
        (type_of (
          related_original
            (period_originals workspace (period_transactions workspace start (suc last) s) s)
            related))
        amount
      ≡ refund_delta f
          (type_of (
            summary_original workspace
              (summary_transactions workspace (some start) (some last) s)
              s
              related))
          amount
unfolding related_original summary_original
originals_alike f workspace start last s none amount unique referred = refl
originals_alike f workspace start last s (some id) amount unique referred =
    ap (λ o. refund_delta f (type_of o) amount)
      (related_original-eq workspace start (suc last) s id (referred id refl))
    ∙ sym (summary_original-eq f workspace (some start) (some last) s id amount unique)

-- Only of a refund does it matter which original is found.
delta_alike :
    (f : Figure) (type : TransactionType) (o p : Option TransactionType) (amount : ℤ)
    → (is_refund type ≡ true → refund_delta f o amount ≡ refund_delta f p amount)
    → delta f type o amount ≡ delta f type p amount
delta_alike incomes income o p amount h = refl
delta_alike incomes expense o p amount h = refl
delta_alike incomes transfer o p amount h = refl
delta_alike incomes refund o p amount h = h refl
delta_alike incomes adjustment o p amount h = refl
delta_alike expenses income o p amount h = refl
delta_alike expenses expense o p amount h = refl
delta_alike expenses transfer o p amount h = refl
delta_alike expenses refund o p amount h = h refl
delta_alike expenses adjustment o p amount h = refl
delta_alike adjustments income o p amount h = refl
delta_alike adjustments expense o p amount h = refl
delta_alike adjustments transfer o p amount h = refl
delta_alike adjustments refund o p amount h = h refl
delta_alike adjustments adjustment o p amount h = refl

abbrev in_period : ℕ → ℕ → ℕ → Transaction → Bool
in_period workspace start end t =
    (t.workspace_id == workspace)
    && leb start t.occurred_at
    && ltb t.occurred_at end
    && is_effective t.status
    && is_none t.deleted_at

abbrev refers : ℕ → Transaction → Bool
refers id t = is_refund t.transaction_type && same_option t.related_transaction_id (some id)

-- The refunds of the period make what they refer to be loaded.
referred_rows :
    (workspace start end : ℕ) (s : Store)
    → All
        (λ t.
          (id : ℕ)
          → (in_period workspace start end t && refers id t) ≡ true
          → is_referred (period_transactions workspace start end s) id ≡ true)
        s.transactions
unfolding period_transactions
referred_rows workspace start end s = All-forall _ s.transactions (λ id.
    All-map _ _ s.transactions
      (λ t h k.
        any-sort_by _ (refers id) _
        ∙ any-filter (refers id) (in_period workspace start end) s.transactions
        ∙ h k)
      (any_of_All (λ t. in_period workspace start end t && refers id t) s.transactions))

sorted_sum :
    (one : Transaction → ℤ) (workspace start end : ℕ) (s : Store)
    → sum_map one (period_transactions workspace start end s)
      ≡ sum_map one (filter (in_period workspace start end) s.transactions)
unfolding period_transactions
sorted_sum one workspace start end s = sum_map-sort_by one _ _

selected_sum :
    (one two : Transaction → ℤ) (workspace start last : ℕ) (s : Store)
    → All (λ t. in_period workspace start (suc last) t ≡ true → one t ≡ two t) s.transactions
    → sum_map one (filter (in_period workspace start (suc last)) s.transactions)
      ≡ sum_map two (summary_transactions workspace (some start) (some last) s)
unfolding summary_transactions
selected_sum one two workspace start last s h = sum_map-filter one two _ _ s.transactions (
    All-map _ _ s.transactions
      (λ t same. (λ inside. (ground arith, same inside), λ outside selected. absurd (ground arith)))
      h)

period_sums :
    (f : Figure) (currency workspace start last : ℕ) (s : Store)
    → IsUnique s.transactions
    → sum_map
        (added f currency (
          related_original
            (period_originals workspace (period_transactions workspace start (suc last) s) s)))
        (period_transactions workspace start (suc last) s)
      ≡ sum_map
          (added f currency (
            summary_original workspace
              (summary_transactions workspace (some start) (some last) s)
              s))
          (summary_transactions workspace (some start) (some last) s)
period_sums f currency workspace start last s unique =
    let ts = period_transactions workspace start (suc last) s in
    let us = summary_transactions workspace (some start) (some last) s in
    let one = added f currency (related_original (period_originals workspace ts s)) in
    let two = added f currency (summary_original workspace us s) in
    sorted_sum one workspace start (suc last) s
    ∙ selected_sum one two workspace start last s (
        All-map _ _ s.transactions
          (λ t referred inside. ap (added_at currency t.currency) (
            delta_alike f t.transaction_type _ _ t.amount (λ refunds.
              originals_alike f workspace start last s t.related_transaction_id t.amount unique
                (λ id e. referred id (ground arith)))))
          (referred_rows workspace start (suc last) s))

-- Where the projection of a period succeeds, it and the summary from the period's start to its last
-- instant have the same income, expense and adjustment in each currency, if primary keys are
-- unique.
pub project_budget_actuals-summary_totals :
    (rt : Runtime) (share : ℤ → ℤ → ℤ → ℤ) (workspace : ℕ) (period : Date) (timezone start last : ℕ)
    (s : Store) (groups : List (ℕ × BudgetActual)) (f : Figure) (currency : ℕ)
    → IsUnique s.transactions
    → period_bounds rt period timezone ≡ ok (start, suc last)
    → project_budget_actuals rt share workspace period timezone s ≡ ok groups
    → read_entry (actual_figure f) currency groups
      ≡ read_entry (total_figure f) currency (summary_totals workspace (some start) (some last) s)
unfolding project_budget_actuals summary_totals read_entry
project_budget_actuals-summary_totals rt share workspace period timezone start last s groups f
      currency unique bounds h =
    let ts = period_transactions workspace start (suc last) s in
    let originals = period_originals workspace ts s in
    let same : actuals_from share originals (expense_splits originals s) ts [] ≡ groups =
      ground arith in
    ap (read_entry (actual_figure f) currency) (sym same)
    ∙ read-actuals_from f currency share originals (expense_splits originals s) ts []
    ∙ ap (λ z. pos 0 +ℤ z) (period_sums f currency workspace start last s unique)
    ∙ sym (
        read-totals_from f currency _ (summary_transactions workspace (some start) (some last) s)
          [])
