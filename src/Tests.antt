-- ===== src/Tests.antt =====
-- Concrete runs: the theorems of the library at inputs where their hypotheses hold.
mod Fixture
mod Ledger
mod Periods
mod Balance
mod Matcher
mod Categories
mod Budgets
mod MonthClose
mod Recurrence
mod Reconciliation
