-- ===== src/Model/Store/Outbox.antt =====
-- The outbox of sheet synchronisation: `active_binding` and `enqueue_entity` of
-- backend/app/services/sync_outbox.py.
use finspace.Common.{
  ℕ, Bool, true, false, Option, none, some, [], ◌∷◌, ◌++◌, ◌&&◌, ◌||◌, not, ◌==◌, if◌then◌else◌,
  is_none, is_some, find,
}
use finspace.Model.Rows.{
  SheetBinding, BindingStatus, EntityType, account_entity, category_entity, transaction_entity,
  account_reconciliation_entity, month_closure_entity, Operation, IdempotencyKey, active, paused,
  creating, initializing,
}
use finspace.Model.Requests.{Context}
use finspace.Model.Store.{Store}

abbrev is_active : BindingStatus → Bool
is_active active = true
is_active _ = false

abbrev is_paused : BindingStatus → Bool
is_paused paused = true
is_paused _ = false

-- `status.in_(("creating", "initializing"))`
abbrev is_starting : BindingStatus → Bool
is_starting creating = true
is_starting initializing = true
is_starting _ = false

unfoldable pub takes_events : SheetBinding → Bool
takes_events b =
    (is_active b.status && b.sync_enabled && not b.sync_mode_is_paused)
    || (is_paused b.status && b.sync_mode_is_paused)
    || (b.provider_is_bridge && is_starting b.status && b.sync_enabled && not b.sync_mode_is_paused)

unfoldable pub active_binding : ℕ → Store → Option SheetBinding
unfolding takes_events
active_binding workspace s =
    find (λ b. (b.workspace_id == workspace) && is_none b.deleted_at && takes_events b) s.bindings

abbrev same_entity_type : EntityType → EntityType → Bool
same_entity_type account_entity account_entity = true
same_entity_type category_entity category_entity = true
same_entity_type transaction_entity transaction_entity = true
same_entity_type account_reconciliation_entity account_reconciliation_entity = true
same_entity_type month_closure_entity month_closure_entity = true
same_entity_type _ _ = false

abbrev same_operation : Operation → Operation → Bool
same_operation Operation.upsert Operation.upsert = true
same_operation Operation.delete Operation.delete = true
same_operation Operation.restore Operation.restore = true
same_operation Operation.archive Operation.archive = true
same_operation _ _ = false

-- `SyncOutbox.idempotency_key == idempotency_key`
unfoldable pub same_key : IdempotencyKey → IdempotencyKey → Bool
same_key a b =
    (a.binding_id == b.binding_id)
    && same_entity_type a.entity_type b.entity_type
    && (a.entity_id == b.entity_id)
    && (a.version == b.version)
    && same_operation a.operation b.operation

-- The event is added unless one of its key is there.
abbrev add_event : Context → IdempotencyKey → Store → Store
add_event c key s =
    if is_some (find (λ e. same_key e.idempotency_key key) s.outbox) then s else record s {
      outbox =
          s.outbox
          ++ (record { workspace_id = c.workspace_id; idempotency_key = key; available_at = c.now })
            ∷ [];
    }

unfoldable pub enqueue_entity : Context → EntityType → ℕ → ℕ → Operation → Store → Store
unfolding active_binding same_key
enqueue_entity c type id version operation s = elim (active_binding c.workspace_id s) [
  | none ↦ s
  | some b ↦
      add_event c
        (record {
          binding_id = b.id;
          entity_type = type;
          entity_id = id;
          version = version;
          operation = operation;
        })
        s
]
