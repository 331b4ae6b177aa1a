-- ===== src/Transactions/Shape.antt =====
-- The rules that a transaction of the ledger obeys, and that `_validate_transaction` enforces them.
use finspace.Common.{
  is_empty, ℕ, ◌≡◌, Bool, true, false, Option, none, some, List, ◌||◌, not, arith, is_some,
  same_option, ◌==◌, inl, inr,
}
use finspace.Common.Int.{ℤ, eqb_ℤ, eq_of_parts}
use finspace.Common.Result.{ok, Result-cases}
use finspace.Model.{
  Account, Transaction, TransactionType, is_transfer, is_refund, is_income_or_expense,
  is_reconciled, Split, Runtime, TransactionCreate, passes_schema, is_positive,
}
use finspace.Model.Store.{Store}
use finspace.Transactions.Validate.{
  usable_account, sum_amounts, check_target, check_category, check_splits, check_refund,
  check_comment, validate_transaction,
}
use finspace.Transactions.Splits.{rows_of, total_of}

-- The rules on one transaction, over the columns that they read; `plain` says that it has no
-- splits, and `total` is what its splits add up to.
pub record IsShaped (type : TransactionType) (amount : ℤ) (account : ℕ)
    (target category related : Option ℕ) (plain : Bool) (total : ℤ) : Type 0 where
  pub positive : is_positive amount ≡ true
  pub splits_add_up : plain ≡ false → total ≡ amount
  pub splits_or_category : plain ≡ false → category ≡ none
  pub transfer_target :
      is_transfer type ≡ true
      → (is_some target ≡ true) × (same_option target (some account) ≡ false)
  pub transfer_plain : is_transfer type ≡ true → (plain ≡ true) × (category ≡ none)
  pub only_transfer_target : is_transfer type ≡ false → target ≡ none
  pub categorized : is_income_or_expense type ≡ true → (is_some category || not plain) ≡ true
  pub refund_linked : is_refund type ≡ true → is_some related ≡ true

abbrev pub ShapedRequest : TransactionCreate → Type 0
ShapedRequest t =
    IsShaped t.transaction_type t.amount t.account_id t.target_account_id t.category_id
      t.related_transaction_id (is_empty t.splits) (sum_amounts t.splits)

abbrev pub ShapedRow : List Split → Transaction → Type 0
ShapedRow ps t =
    IsShaped t.transaction_type t.amount t.account_id t.target_account_id t.category_id
      t.related_transaction_id (is_empty (rows_of t.id ps)) (total_of (rows_of t.id ps))

eqb_ℤ→eq : (a b : ℤ) → eqb_ℤ a b ≡ true → a ≡ b
eqb_ℤ→eq a b h = eq_of_parts a b (ground arith)

-- What a successful validation has checked.
record Validated (rt : Runtime) (workspace : ℕ) (t : TransactionCreate) (excluded : Option ℕ)
    (s : Store) : Type 0 where
  not_reconciled : is_reconciled t.status ≡ false
  source : Account
  source_usable : usable_account workspace t.account_id s ≡ ok source
  source_currency : (source.currency == t.currency) ≡ true
  target_checked : check_target workspace t source s ≡ ok tt
  category_checked : check_category workspace t s ≡ ok tt
  splits_checked : check_splits workspace t s ≡ ok tt
  refund_checked : check_refund workspace t excluded s ≡ ok tt
  comment_checked : check_comment rt t ≡ ok tt

validate_transaction-Validated :
    (rt : Runtime) (workspace : ℕ) (t : TransactionCreate) (excluded : Option ℕ) (s : Store)
    → validate_transaction rt workspace t excluded s ≡ ok tt
    → Validated rt workspace t excluded s
unfolding validate_transaction
validate_transaction-Validated rt workspace t excluded s h =
    elim (Result-cases (usable_account workspace t.account_id s)) [
      | inl (a, e) ↦ record {
        not_reconciled = ground arith;
        source = a;
        source_usable = e;
        source_currency = ground arith;
        target_checked = ground arith;
        category_checked = ground arith;
        splits_checked = ground arith;
        refund_checked = ground arith;
        comment_checked = ground arith;
      }
      | inr (x, e) ↦ absurd (ground arith)
    ]

check_target-ok :
    (workspace : ℕ) (t : TransactionCreate) (source : Account) (s : Store)
    → check_target workspace t source s ≡ ok tt
    → (is_transfer t.transaction_type ≡ true
        → (is_some t.target_account_id ≡ true)
          × (same_option t.target_account_id (some t.account_id) ≡ false)
          × (is_empty t.splits ≡ true)
          × (t.category_id ≡ none))
      × (is_transfer t.transaction_type ≡ false → t.target_account_id ≡ none)
unfolding check_target
check_target-ok workspace t source s h = (λ k. ground arith, λ k. ground arith)

check_category-ok :
    (workspace : ℕ) (t : TransactionCreate) (s : Store)
    → check_category workspace t s ≡ ok tt
    → (is_empty t.splits ≡ false → t.category_id ≡ none)
      × (is_income_or_expense t.transaction_type ≡ true
          → (is_some t.category_id || not (is_empty t.splits)) ≡ true)
unfolding check_category
check_category-ok workspace t s h = (λ k. ground arith, λ k. ground arith)

check_splits-ok :
    (workspace : ℕ) (t : TransactionCreate) (s : Store)
    → check_splits workspace t s ≡ ok tt
    → is_empty t.splits ≡ false
    → sum_amounts t.splits ≡ t.amount
unfolding check_splits
check_splits-ok workspace t s h k = eqb_ℤ→eq (sum_amounts t.splits) t.amount (ground arith)

check_refund-ok :
    (workspace : ℕ) (t : TransactionCreate) (excluded : Option ℕ) (s : Store)
    → check_refund workspace t excluded s ≡ ok tt
    → is_refund t.transaction_type ≡ true
    → is_some t.related_transaction_id ≡ true
unfolding check_refund
check_refund-ok workspace t excluded s h k = ground arith

-- A request that passes the schema and the validation has a transaction's shape: a positive amount;
-- splits that add up to it and then no category; a target account for a transfer alone, other than
-- the source; a category or splits for income and expense; a linked transaction for a refund.
pub validate_transaction-ShapedRequest :
    (rt : Runtime) (workspace : ℕ) (t : TransactionCreate) (excluded : Option ℕ) (s : Store)
    → passes_schema t ≡ true
    → validate_transaction rt workspace t excluded s ≡ ok tt
    → ShapedRequest t
unfolding passes_schema
validate_transaction-ShapedRequest rt workspace t excluded s schema h =
    let v = validate_transaction-Validated rt workspace t excluded s h in
    let (as_transfer, as_other) = check_target-ok workspace t v.source s v.target_checked in
    let (with_splits, with_category) = check_category-ok workspace t s v.category_checked in
    record {
      positive = ground arith;
      splits_add_up = check_splits-ok workspace t s v.splits_checked;
      splits_or_category = with_splits;
      transfer_target = λ e. ((as_transfer e).0, (as_transfer e).1);
      transfer_plain = λ e. ((as_transfer e).2, (as_transfer e).3);
      only_transfer_target = as_other;
      categorized = with_category;
      refund_linked = check_refund-ok workspace t excluded s v.refund_checked;
    }
