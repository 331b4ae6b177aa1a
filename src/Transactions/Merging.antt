-- ===== src/Transactions/Merging.antt =====
-- The merged request and the updated row agree: what was validated is what is written.
use finspace.Common.{◌≡◌, refl, List, ◌⊎◌, inl, inr, arith, map, true}
use finspace.Common.Result.{ok, err, api_error, internal_error}
use finspace.Model.{
  Transaction, Split, Context, Change, unset, null, given, TransactionCreate, TransactionUpdate,
  passes_schema,
}
use finspace.Transactions.Write.{required, assigned, merge, apply_changes, split_input}

required_or {ℓ} :
    {A : Type ℓ} (change : Change A) (old : A)
    → (required change old ≡ ok (assigned change old))
      ⊎ (required change old ≡ err (api_error 500 internal_error))
unfolding required
required_or unset old = inl refl
required_or null old = inr refl
required_or (given a) old = inl refl

-- The columns of a row that the rules of a transaction read.
pub record Agree (m : TransactionCreate) (t : Transaction) : Type 0 where
  pub occurred_at : m.occurred_at ≡ t.occurred_at
  pub transaction_type : m.transaction_type ≡ t.transaction_type
  pub amount : m.amount ≡ t.amount
  pub currency : m.currency ≡ t.currency
  pub account_id : m.account_id ≡ t.account_id
  pub target_account_id : m.target_account_id ≡ t.target_account_id
  pub category_id : m.category_id ≡ t.category_id
  pub status : m.status ≡ t.status
  pub related_transaction_id : m.related_transaction_id ≡ t.related_transaction_id

pub merge-Agree :
    (c : Context) (changes : TransactionUpdate) (t : Transaction) (existing : List Split)
    (m : TransactionCreate)
    → merge changes t existing ≡ ok m
    → Agree m (apply_changes c changes t)
      × (passes_schema m ≡ true)
      × (m.splits ≡ assigned changes.splits (map split_input existing))
unfolding merge apply_changes
merge-Agree c changes t existing m h = ground (
  arith,
  required_or changes.occurred_at t.occurred_at,
  required_or changes.transaction_type t.transaction_type,
  required_or changes.amount t.amount,
  required_or changes.currency t.currency,
  required_or changes.account_id t.account_id,
  required_or changes.status t.status,
  required_or changes.splits (map split_input existing),
)
