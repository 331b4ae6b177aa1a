-- ===== src/Transactions/Locking.antt =====
-- What a successful update of a transaction leaves: its version, its identity and the audit trail.
use finspace.Common.{
  ℕ, ◌+◌, ◌≡◌, sym, ◌∙◌, ap, subst, false, Option, none, some, [], ◌∷◌, ◌++◌, arith,
}
use finspace.Common.Result.{ok}
use finspace.Model.{
  Transaction, is_reconciled, Runtime, Context, TransactionCreate, TransactionUpdate,
  transaction_entity, AuditAction, Operation,
}
use finspace.Model.Audit.{AuditEntry, transaction_snapshot}
use finspace.Model.Store.{Store, get_transaction, record_audit}
use finspace.Model.Store.Untouched.{enqueue_entity_outbox}
use finspace.Guard.{get_or_create_control}
use finspace.Transactions.Write.{
  publish, replace_splits, apply_changes, save_update, update_transaction,
}
use finspace.Transactions.Outcome.{begun, update_transaction-Updated}

-- The entry that an operation writes, before its later part is known.
abbrev pub entry_of : Context → AuditAction → Option Transaction → Transaction → AuditEntry
entry_of c action before t = record {
  workspace_id = c.workspace_id;
  actor_user_id = c.user_id;
  entity_type = transaction_entity;
  entity_id = t.id;
  action = action;
  before_data = elim before [ none ↦ none | some u ↦ some (transaction_snapshot u) ];
  after_data = some (transaction_snapshot t);
  request_id = c.request_id;
}

publish-audit_log :
    (c : Context) (action : AuditAction) (operation : Operation) (before : Option Transaction)
    (t : Transaction) (s : Store)
    → (publish c action operation before t s).audit_log
      ≡ s.audit_log ++ entry_of c action before t ∷ []
unfolding publish record_audit
publish-audit_log c action operation before t s =
    ap (λ x. x.audit_log)
      (enqueue_entity_outbox c transaction_entity t.id t.version operation
        (record_audit c transaction_entity t.id action _ _ s))

begun-audit_log : (c : Context) (s : Store) → (begun c s).audit_log ≡ s.audit_log
unfolding get_or_create_control
begun-audit_log c s = ground arith

save_update-audit_log :
    (c : Context) (draw : ℕ → ℕ) (changes : TransactionUpdate) (merged : TransactionCreate)
    (t : Transaction) (s : Store)
    → (save_update c draw changes merged t s).1.audit_log
      ≡ s.audit_log
        ++ entry_of c AuditAction.update (some t) (save_update c draw changes merged t s).0 ∷ []
unfolding save_update replace_splits
save_update-audit_log c draw changes merged t s = publish-audit_log c _ _ _ _ _ ∙ ground arith

-- A successful update was asked for at the version of the row, raises that version by one, leaves
-- the key, the workspace, the source and the creator as they were, and adds one audit entry, with
-- the row as it was and as it is.
pub update_transaction_lem :
    (rt : Runtime) (c : Context) (id : ℕ) (draw : ℕ → ℕ) (changes : TransactionUpdate) (s : Store)
    (r : Transaction × Store)
    → update_transaction rt c id draw changes s ≡ ok r
    → (t : Transaction) × (get_transaction c.workspace_id id false (begun c s) ≡ some t)
      × (t.version ≡ changes.version)
      × (r.0.version ≡ t.version + 1)
      × (r.0.id ≡ t.id)
      × (r.0.workspace_id ≡ t.workspace_id)
      × (r.0.source ≡ t.source)
      × (r.0.created_by ≡ t.created_by)
      × (is_reconciled t.status ≡ false)
      × (r.1.audit_log ≡ s.audit_log ++ entry_of c AuditAction.update (some t) r.0 ∷ [])
unfolding save_update apply_changes
update_transaction_lem rt c id draw changes s r h =
    let (t, found, done) = update_transaction-Updated rt c id draw changes s r h in
    let logged =
      save_update-audit_log c draw changes done.merged t (begun c s)
      ∙ ap (λ l. l ++ entry_of c AuditAction.update (some t) (apply_changes c changes t) ∷ [])
          (begun-audit_log c s) in
    (
      t,
      found,
      done.version_current,
      ap (λ x. x.0.version) done.saved,
      ap (λ x. x.0.id) done.saved,
      ap (λ x. x.0.workspace_id) done.saved,
      ap (λ x. x.0.source) done.saved,
      ap (λ x. x.0.created_by) done.saved,
      done.not_reconciled,
      subst (λ x. x.1.audit_log ≡ s.audit_log ++ entry_of c AuditAction.update (some t) x.0 ∷ [])
          (sym done.saved) logged,
    )
