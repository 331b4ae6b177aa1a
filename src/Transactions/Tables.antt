-- ===== src/Transactions/Tables.antt =====
-- Which tables each write of Transactions/Write.antt touches: the transactions and splits after
-- `save_new`, `save_update` and `save_state`, with the bookkeeping taken off.
use finspace.Common.{
  is_empty, is_empty, ℕ, ◌≡◌, ap, Option, List, [], ◌∷◌, ◌++◌, arith, ◌∙◌, if◌then◌else◌,
}
use finspace.Model.{
  Transaction, Split, Context, AuditAction, Operation, TransactionCreate, TransactionUpdate,
  transaction_entity,
}
use finspace.Model.Store.{Store, put_transaction, record_audit}
use finspace.Model.Store.Untouched.{enqueue_entity_outbox}
use finspace.Guard.{get_or_create_control}
use finspace.Transactions.Write.{
  publish, replace_splits, new_transaction, save_new, apply_changes, is_set, save_update, Lifecycle,
  change_state, stamp, save_state,
}
use finspace.Transactions.Outcome.{begun}

-- The rows of transactions and splits.
abbrev pub ledger_of : Store → List Transaction × List Split
ledger_of s = (s.transactions, s.splits)

pub begun-ledger_of : (c : Context) (s : Store) → ledger_of (begun c s) ≡ ledger_of s
unfolding get_or_create_control
begun-ledger_of c s = ground arith

pub publish-ledger_of :
    (c : Context) (action : AuditAction) (operation : Operation) (before : Option Transaction)
    (t : Transaction) (s : Store)
    → ledger_of (publish c action operation before t s) ≡ ledger_of s
unfolding publish record_audit
publish-ledger_of c action operation before t s =
    ap ledger_of (enqueue_entity_outbox c transaction_entity t.id t.version operation _)

abbrev pub new_splits : (ℕ → ℕ) → Context → ℕ → TransactionCreate → Store → List Split
new_splits draw c id request s =
    if is_empty request.splits
    then s.splits
    else (replace_splits draw c.now id request.splits s).splits

pub save_new-ledger_of :
    (c : Context) (id : ℕ) (draw : ℕ → ℕ) (request : TransactionCreate) (s : Store)
    → ledger_of (save_new c id draw request s).1
      ≡ (s.transactions ++ new_transaction c id request ∷ [], new_splits draw c id request s)
unfolding save_new replace_splits
save_new-ledger_of c id draw request s = publish-ledger_of c _ _ _ _ _ ∙ ground arith

abbrev pub updated_splits :
    (ℕ → ℕ) → Context → TransactionUpdate → TransactionCreate → Transaction → Store → List Split
updated_splits draw c changes merged t s =
    if is_set changes.splits
    then (replace_splits draw c.now t.id merged.splits s).splits
    else s.splits

pub save_update-ledger_of :
    (c : Context) (draw : ℕ → ℕ) (changes : TransactionUpdate) (merged : TransactionCreate)
    (t : Transaction) (s : Store)
    → ledger_of (save_update c draw changes merged t s).1 ≡ (
      put_transaction (apply_changes c changes t) s.transactions,
      updated_splits draw c changes merged t s,
    )
unfolding save_update replace_splits
save_update-ledger_of c draw changes merged t s = publish-ledger_of c _ _ _ _ _ ∙ ground arith

pub save_state-ledger_of :
    (c : Context) (action : Lifecycle) (t : Transaction) (s : Store)
    → ledger_of (save_state c action t s).1
      ≡ (put_transaction (stamp c (change_state action c.now t)) s.transactions, s.splits)
unfolding save_state
save_state-ledger_of c action t s = publish-ledger_of c _ _ _ _ _
