-- ===== src/Transactions/Write/Merge.antt =====
-- How an update request meets a row: `current.update(changes)`, the check of the result as a
-- `TransactionCreate`, and the assignments to the row, in `update_transaction`.
use finspace.Common.{ℕ, ◌+◌, Bool, true, false, not, Option, none, some, List, map}
use finspace.Common.Result.{Result, ok, err, ◌>>=◌, ◌>>◌, api_error, raise_if, internal_error}
use finspace.Model.{
  Transaction, TransactionStatus, is_reconciled, Split, Context, SplitInput, TransactionCreate,
  TransactionUpdate, Change, unset, null, given, passes_schema,
}

module _ {ℓ} {A : Type ℓ} where
  -- `name in changes`
  abbrev pub is_set : Change A → Bool
  is_set unset = false
  is_set _ = true

  -- `changes[name]` where it is there and not None
  abbrev pub given_value : Change A → Option A
  given_value (given a) = some a
  given_value _ = none

  -- A field that the schema requires: a null is a validation error, which no service catches.
  unfoldable pub required : Change A → A → Result A
  required unset old = ok old
  required null old = err (api_error 500 internal_error)
  required (given a) old = ok a

  abbrev pub optional : Change A → Option A → Option A
  optional unset old = old
  optional null old = none
  optional (given a) old = some a

  -- The assignment to a required column, which the merge has shown not to be null.
  abbrev pub assigned : Change A → A → A
  assigned (given a) old = a
  assigned _ old = old

-- `changes.get("status") == "reconciled"`
abbrev pub asks_reconciled : Change TransactionStatus → Bool
asks_reconciled (given s) = is_reconciled s
asks_reconciled _ = false

abbrev pub split_input : Split → SplitInput
split_input p = record { category_id = p.category_id; amount = p.amount; comment = p.comment }

-- `TransactionCreate.model_validate(current)` on the merged fields.
unfoldable pub merge : TransactionUpdate → Transaction → List Split → Result TransactionCreate
merge changes t existing = do
  occurred_at ← required changes.occurred_at t.occurred_at
  transaction_type ← required changes.transaction_type t.transaction_type
  amount ← required changes.amount t.amount
  currency ← required changes.currency t.currency
  account_id ← required changes.account_id t.account_id
  status ← required changes.status t.status
  splits ← required changes.splits (map split_input existing)
  let merged : TransactionCreate = record {
    occurred_at = occurred_at;
    transaction_type = transaction_type;
    amount = amount;
    currency = currency;
    account_id = account_id;
    target_account_id = optional changes.target_account_id t.target_account_id;
    category_id = optional changes.category_id t.category_id;
    payee_id = optional changes.payee_id t.payee_id;
    counterparty = optional changes.counterparty t.counterparty;
    description = optional changes.description t.description;
    comment = optional changes.comment t.comment;
    status = status;
    source = t.source;
    related_transaction_id = optional changes.related_transaction_id t.related_transaction_id;
    external_id = optional changes.external_id t.external_id;
    splits = splits;
  }
  raise_if (not (passes_schema merged)) 500 internal_error
  ok merged

-- `setattr` for each change but the splits, then the user, the time and the version.
unfoldable pub apply_changes : Context → TransactionUpdate → Transaction → Transaction
apply_changes c changes t = record t {
  occurred_at = assigned changes.occurred_at t.occurred_at;
  transaction_type = assigned changes.transaction_type t.transaction_type;
  amount = assigned changes.amount t.amount;
  currency = assigned changes.currency t.currency;
  account_id = assigned changes.account_id t.account_id;
  target_account_id = optional changes.target_account_id t.target_account_id;
  category_id = optional changes.category_id t.category_id;
  payee_id = optional changes.payee_id t.payee_id;
  counterparty = optional changes.counterparty t.counterparty;
  description = optional changes.description t.description;
  comment = optional changes.comment t.comment;
  status = assigned changes.status t.status;
  related_transaction_id = optional changes.related_transaction_id t.related_transaction_id;
  external_id = optional changes.external_id t.external_id;
  updated_by = some c.user_id;
  updated_at = c.now;
  version = t.version + 1;
}

-- `TransactionUpdate(version=version, status=...)`
abbrev pub status_update : ℕ → TransactionStatus → TransactionUpdate
status_update version status = record {
  version = version;
  occurred_at = unset;
  transaction_type = unset;
  amount = unset;
  currency = unset;
  account_id = unset;
  target_account_id = unset;
  category_id = unset;
  payee_id = unset;
  counterparty = unset;
  description = unset;
  comment = unset;
  status = given status;
  related_transaction_id = unset;
  external_id = unset;
  splits = unset;
}
