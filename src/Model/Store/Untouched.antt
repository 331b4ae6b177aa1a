-- ===== src/Model/Store/Untouched.antt =====
-- The tables that the bookkeeping leaves alone: `record_audit` writes the audit log only, and
-- `enqueue_entity` the outbox only.
use finspace.Common.{ℕ, ◌≡◌, arith}
use finspace.Model.{EntityType, Operation, Context}
use finspace.Model.Store.{Store}
use finspace.Model.Store.Outbox.{enqueue_entity}

pub enqueue_entity_outbox :
    (c : Context) (type : EntityType) (id version : ℕ) (operation : Operation) (s : Store)
    → enqueue_entity c type id version operation s
      ≡ record s { outbox = (enqueue_entity c type id version operation s).outbox }
unfolding enqueue_entity
enqueue_entity_outbox c type id version operation s = ground arith
