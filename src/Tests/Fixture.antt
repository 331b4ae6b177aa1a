-- ===== src/Tests/Fixture.antt =====
-- A small workspace with two accounts, one category and a month that is closed, on which the
-- services run. Instants are read as the decimal digits of a date, YYMMDD.
use finspace.Common.{ℕ, ◌+◌, ◌-◌, ◌*◌, ◌/◌, ◌%◌, true, false, Option, none, some, [], ◌∷◌, ◌==◌}
use finspace.Common.Int.{ℤ, pos}
use finspace.Common.Result.{Result, ok, err}
use finspace.Calendar.{date}
use finspace.Model.{
  Account, Category, both_categories, Transaction, expense, transfer, confirmed, active, Runtime,
  Context, TransactionCreate,
}
use finspace.Model.Store.{Store}

abbrev pub runtime : Runtime
runtime = record {
  local_date = λ zone t. date (2000 + t / 10000) (t / 100 % 100) (t % 100);
  midnight = λ zone d. (d.year - 2000) * 10000 + d.month * 100 + d.day;
  is_space = λ c. c == 32;
}

abbrev pub context : Context
context = record { user_id = 7; workspace_id = 1; timezone = 0; request_id = 900; now = 240401 }

abbrev pub account : ℕ → ℤ → Account
account id opening = record {
  id = id;
  workspace_id = 1;
  name = id;
  account_type = 0;
  currency = 643;
  institution = none;
  opening_balance = opening;
  opening_balance_at = 240101;
  credit_limit = none;
  description = none;
  is_archived = false;
  version = 1;
  updated_at = 240101;
  deleted_at = none;
}

abbrev pub category : ℕ → Option ℕ → Category
category id parent = record {
  id = id;
  workspace_id = 1;
  parent_id = parent;
  name = id;
  category_type = both_categories;
  color = none;
  icon = none;
  sort_order = pos 0;
  is_archived = false;
  version = 1;
  updated_at = 240101;
  deleted_at = none;
}

-- A spending of 30 on the first account, in February, and a transfer of 20 in March.
abbrev pub spending : Transaction
spending = record {
  id = 50;
  workspace_id = 1;
  occurred_at = 240210;
  transaction_type = expense;
  amount = pos 300000;
  currency = 643;
  account_id = 10;
  target_account_id = none;
  category_id = some 30;
  payee_id = none;
  counterparty = none;
  description = none;
  comment = none;
  status = confirmed;
  source = 0;
  related_transaction_id = none;
  external_id = none;
  created_by = some 7;
  updated_by = some 7;
  import_batch_id = none;
  version = 1;
  updated_at = 240210;
  deleted_at = none;
}

abbrev pub moving : Transaction
moving = record spending {
  id = 51;
  occurred_at = 240315;
  transaction_type = transfer;
  amount = pos 200000;
  target_account_id = some 11;
  category_id = none;
}

abbrev pub store : Store
store = record {
  accounts = account 10 (pos 1000000) ∷ account 11 (pos 0) ∷ [];
  categories = category 30 none ∷ category 31 (some 30) ∷ [];
  payees = [];
  transactions = spending ∷ moving ∷ [];
  splits = [];
  controls =
      record {
        workspace_id = 1;
        closed_through = some (date 2024 2 29);
        require_healthy_backup = false;
        version = 1;
      }
      ∷ [];
  closures = [];
  revisions = [];
  reconciliations = [];
  reconciliation_items = [];
  bindings =
      record {
        id = 70;
        workspace_id = 1;
        status = active;
        sync_enabled = true;
        sync_mode_is_paused = false;
        provider_is_bridge = true;
        deleted_at = none;
      }
      ∷ [];
  outbox = [];
  audit_log = [];
}

-- A split expense of 50 in April.
abbrev pub shopping : TransactionCreate
shopping = record {
  occurred_at = 240401;
  transaction_type = expense;
  amount = pos 500000;
  currency = 643;
  account_id = 10;
  target_account_id = none;
  category_id = none;
  payee_id = none;
  counterparty = none;
  description = none;
  comment = none;
  status = confirmed;
  source = 0;
  related_transaction_id = none;
  external_id = none;
  splits =
      record { category_id = 30; amount = pos 200000; comment = none }
      ∷ record { category_id = 31; amount = pos 300000; comment = none }
      ∷ [];
}

-- The value of an outcome that is known not to be an error.
abbrev pub value_or {ℓ} : {A : Type ℓ} → A → Result A → A
value_or d (ok a) = a
value_or d (err e) = d
