-- ===== src/MonthClose/Issues.antt =====
-- What a month close is judged by: `collect_preview` of backend/app/services/month_close.py, with
-- `_sequence_issue_for_state`.
use finspace.Common.{
  ℕ, ◌+◌, ◌/◌, Bool, true, false, Option, none, some, List, [], ◌∷◌, ◌++◌, ◌&&◌, not, ◌==◌, ltb,
  leb, if◌then◌else◌, is_none, filter, find, any, length, sort_by,
}
use finspace.Common.Int.{pos, ltb_ℤ, eqb_ℤ}
use finspace.Common.Result.{Result, ok, ◌>>=◌}
use finspace.Calendar.{Date, date}
use finspace.Model.{
  Account, Transaction, is_income_or_expense, is_draft, is_cancelled, MonthCloseControl, Runtime,
  Context,
}
use finspace.Model.Closures.{
  IssueCode, draft_transactions, sync_conflicts_in_period, sequence_conflict,
  uncategorized_transactions, possible_duplicates, negative_period_end_balances,
  account_not_reconciled, failed_recurring_executions, failed_sync_outbox,
  import_rows_requiring_attention, staged_imports, out_of_period_sync_conflicts,
  no_financial_activity, backup, Issue, ClosureSummary, MonthClosure, is_confirmed,
}
use finspace.Model.Store.{Store}
use finspace.Matcher.{same_type}
use finspace.Balances.{AccountBalance, calculate_balances}
use finspace.Guard.{next_month, period_bounds}

-- What `collect_preview` reads from tables and services that are not modelled: open conflicts of
-- the synchronisation, failed deliveries, imports, executions of recurring rules, the state of the
-- backup, accounts with no reconciliation, and the reports with their fingerprints.
pub record Evidence : Type 0 where
  pub in_period_conflicts : ℕ
  pub out_of_period_conflicts : ℕ
  pub failed_outbox : ℕ
  pub invalid_import_rows : ℕ
  pub staged_imports_count : ℕ
  pub failed_recurring : ℕ
  pub backup_is_healthy : Bool
  pub backup_status : ℕ
  pub unreconciled : ℕ
  pub effective_count : ℕ
  pub sections : ℕ
  pub financial_fingerprint : ℕ
  pub budget_plan_fingerprint : ℕ

-- `_expected_next_period`, and whether it is another month than the one asked for.
unfoldable pub is_out_of_sequence : Option Date → Date → Result Bool
is_out_of_sequence none period = ok false
is_out_of_sequence (some through) period = do
  expected ← next_month (date through.year through.month 1)
  ok (
      not (
        (period.year == expected.year)
        && (period.month == expected.month)
        && (period.day == expected.day)))

-- `_sequence_issue_for_state`, as whether there is an issue.
unfoldable pub has_sequence_issue : ℕ → MonthCloseControl → Date → List MonthClosure → Result Bool
unfolding is_out_of_sequence
has_sequence_issue workspace control period closures = elim control.closed_through [
  | some through ↦ is_out_of_sequence (some through) period
  | none ↦ ok (any (λ c. (c.workspace_id == workspace) && is_confirmed c.status) closures)
]

abbrev pub issue_if : Bool → IssueCode → ℕ → List Issue
issue_if true code count = record { code = code; count = count } ∷ []
issue_if false code count = []

-- `if count: issues.append(_issue(code, count=count))`
abbrev pub issue_of : IssueCode → ℕ → List Issue
issue_of code count = issue_if (not (count == 0)) code count

-- `closing_start`
unfoldable pub closing_start : Runtime → Option Date → ℕ → Result (Option ℕ)
closing_start rt none timezone = ok none
closing_start rt (some through) timezone = do
  following ← next_month (date through.year through.month 1)
  bounds ← period_bounds rt following timezone
  ok (some bounds.0)

abbrev pub is_since : Option ℕ → ℕ → Bool
is_since none t = true
is_since (some start) t = leb start t

unfoldable pub closing_transactions : ℕ → Option ℕ → ℕ → Store → List Transaction
closing_transactions workspace start end s =
    filter
      (λ t.
        (t.workspace_id == workspace)
        && ltb t.occurred_at end
        && is_none t.deleted_at
        && is_since start t.occurred_at)
      s.transactions

unfoldable pub month_transactions : ℕ → ℕ → ℕ → Store → List Transaction
month_transactions workspace start end s =
    filter
      (λ t.
        (t.workspace_id == workspace)
        && leb start t.occurred_at
        && ltb t.occurred_at end
        && is_none t.deleted_at)
      s.transactions

unfoldable pub draft_count : List Transaction → ℕ
draft_count ts = length (filter (λ t. is_draft t.status) ts)

unfoldable pub uncategorized_count : List Transaction → ℕ
uncategorized_count ts = length (
    filter
      (λ t.
        not (is_cancelled t.status)
        && is_income_or_expense t.transaction_type
        && is_none t.category_id)
      ts)

-- The key of `duplicate_keys`; the second of an instant is its number of microseconds, divided.
abbrev pub same_key : Transaction → Transaction → Bool
same_key t u =
    (t.occurred_at / 1000000 == u.occurred_at / 1000000)
    && same_type t.transaction_type u.transaction_type
    && eqb_ℤ t.amount u.amount
    && (t.currency == u.currency)
    && (t.account_id == u.account_id)

-- The rows beyond the first of each key.
unfoldable pub duplicate_count : List Transaction → ℕ
duplicate_count [] = 0
duplicate_count (t ∷ ts) = (if any (same_key t) ts then 1 else 0) + duplicate_count ts

-- "credit_card", by its place in `AccountType`.
abbrev pub credit_card : ℕ
credit_card = 2

abbrev pub is_credit_card : Option Account → Bool
is_credit_card none = false
is_credit_card (some a) = a.account_type == credit_card

unfoldable pub negative_count : ℕ → List AccountBalance → Store → ℕ
negative_count workspace balances s = length (
    filter
      (λ b.
        ltb_ℤ b.balance (pos 0)
        && not (
            is_credit_card
              (find (λ a. (a.id == b.account_id) && (a.workspace_id == workspace)) s.accounts)))
      balances)

pub record Preview : Type 0 where
  pub summary : ClosureSummary
  pub blocking : List Issue
  pub warnings : List Issue
  pub infos : List Issue
  pub fingerprint : ℕ
  pub budget_plan_fingerprint : ℕ

-- The blockers, in the order of the code.
unfoldable pub blocking_issues : Bool → ℕ → MonthCloseControl → Evidence → List Issue
blocking_issues out_of_sequence drafts control e =
    issue_if out_of_sequence sequence_conflict 1
    ++ (issue_of draft_transactions drafts
        ++ (issue_of sync_conflicts_in_period e.in_period_conflicts
            ++ issue_if (not e.backup_is_healthy && control.require_healthy_backup)
                (backup e.backup_status) 1))

unfoldable pub warning_issues : ClosureSummary → MonthCloseControl → Evidence → List Issue
warning_issues m control e =
    issue_of uncategorized_transactions m.uncategorized_count
    ++ (issue_of failed_sync_outbox e.failed_outbox
        ++ (issue_of import_rows_requiring_attention e.invalid_import_rows
            ++ (issue_of failed_recurring_executions e.failed_recurring
                ++ (issue_if (not e.backup_is_healthy && not control.require_healthy_backup)
                      (backup e.backup_status) 1
                    ++ (issue_of possible_duplicates m.possible_duplicate_count
                        ++ (issue_of negative_period_end_balances m.negative_balance_count
                            ++ issue_of account_not_reconciled e.unreconciled))))))

unfoldable pub info_issues : Evidence → List Issue
info_issues e =
    issue_of out_of_period_sync_conflicts e.out_of_period_conflicts
    ++ (issue_of staged_imports e.staged_imports_count
        ++ issue_if (e.effective_count == 0) no_financial_activity 0)

-- `_normalized_issues`, for a hash of issues.
unfoldable pub normalized_issues : (Issue → ℕ) → List Issue → List Issue
normalized_issues hash issues = sort_by (λ a b. leb (hash a) (hash b)) issues

unfoldable pub collect_preview :
    Runtime → (Issue → ℕ) → Context → Date → MonthCloseControl → Evidence → Store → Result Preview
unfolding has_sequence_issue closing_start closing_transactions month_transactions draft_count
    uncategorized_count duplicate_count negative_count blocking_issues warning_issues info_issues
    normalized_issues
collect_preview rt hash c period control e s = do
  bounds ← period_bounds rt period c.timezone
  start ← closing_start rt control.closed_through c.timezone
  out_of_sequence ← has_sequence_issue c.workspace_id control period s.closures
  let closing = closing_transactions c.workspace_id start bounds.1 s
  let month = month_transactions c.workspace_id bounds.0 bounds.1 s
  let balances = calculate_balances c.workspace_id (some bounds.1) s
  let summary : ClosureSummary = record {
    transaction_count = e.effective_count;
    draft_count = draft_count closing;
    uncategorized_count = uncategorized_count month;
    possible_duplicate_count = duplicate_count (filter (λ t. not (is_cancelled t.status)) month);
    negative_balance_count = negative_count c.workspace_id balances s;
    sections = e.sections;
  }
  ok (record {
    summary = summary;
    blocking =
        normalized_issues hash (blocking_issues out_of_sequence summary.draft_count control e);
    warnings = normalized_issues hash (warning_issues summary control e);
    infos = normalized_issues hash (info_issues e);
    fingerprint = e.financial_fingerprint;
    budget_plan_fingerprint = e.budget_plan_fingerprint;
  })
