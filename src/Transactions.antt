-- ===== src/Transactions.antt =====
-- The ledger's transactions: backend/app/services/transactions.py. `Validate` has the rules of
-- `_validate_transaction`, `Write` the operations that change a transaction; the other children
-- prove what they keep.
pub mod Validate
pub mod Write
pub mod Outcome
pub mod Service
pub mod Tables
pub mod Merging
pub mod Protected
pub mod Splits
pub mod Shape
pub mod Invariant
pub mod Locking
pub mod Races
