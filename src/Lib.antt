-- ===== src/Lib.antt =====
-- The financial core of the backend (backend/app): the ledger of a workspace.
--
-- The program is a web service over a database. A request runs one service function in a session;
-- if it raises, nothing is committed. `Model` has the rows and the request data, `Model.Store` the
-- tables of a session with the single-row queries of backend/app/repositories and the bookkeeping
-- of backend/app/services/audit.py and sync_outbox.py. A service function is a function from the
-- tables to an error or to its value and the new tables (`Common.Result`).
--
-- - Common: tests, lists, integers, texts and results; Common.Queries has the laws of list queries.
-- - Calendar: dates of the standard library, as far as the code uses them.
-- - Model: rows (Rows), request data (Requests), closures of months (Closures), audit
--   entries (Audit) and tables (Store).
-- - Guard: backend/app/services/financial_period_guard.py, `next_month`, `previous_month`,
--   `month_end`, `period_bounds`, `get_or_create_control`, `closed_dates`, `assert_dates_open`.
-- - Transactions: backend/app/services/transactions.py. Validate is `_validate_transaction`;
--   Write is `create_transaction`, `update_transaction`, `_change_lifecycle` and
--   `confirm_transaction`; Service is a session that serves several such requests. Races is about
--   two requests on one row.
-- - Balances: backend/app/services/calculations.py, `calculate_balances`; Summary is
--   `calculate_summary`. Effects, Transfers and Entries are about the loop over the transactions.
-- - Reconciliation: backend/app/services/account_reconciliation.py. Balance is the balance of an
--   account, Candidates `_build_preview`, the parent `confirm_reconciliation`.
-- - Matcher: backend/app/services/categorization_matcher.py, from the query of the active rules to
--   the rule that wins.
-- - Categories: backend/app/services/categories.py. The walk of `_validate_parent` has as fuel one
--   more than the number of rows, which is enough since it visits no row twice.
-- - MonthClose: backend/app/services/month_close.py, `prepare`, `confirm` and `reopen`, with
--   `collect_preview` in Issues. Run is the abstract view of a workspace: no closed month, or all
--   months from a first to a last one. Table and Keys are about the table of closures, Stands about
--   the run that the tables stand for, Outcome about what a request has passed, Moves about the
--   steps of a request. Recorded is about what a confirmation leaves behind, and Activity, Kept and
--   Since are about what may happen until it is sent again.
-- - Recurrence: backend/app/services/recurrence.py. Due is about a day, Search about
--   `next_occurrence`, Expanded about `occurrences_between`, whose loop has as fuel one more than
--   the limit, which is enough since each turn counts towards it.
-- - Budgets: backend/app/services/budget_actuals.py, the spending of a month by category.
-- - Tests: runs on a small workspace.
--
-- Identifiers and texts that are only compared are numbers, instants are numbers, and money is a
-- number of ten-thousandths, since all money columns and fields have four decimal places. It has no
-- largest value: that a sum is too long for its column is an error of the database.
-- Primary keys that the database draws, the clock, the time zone database and `str.isspace` are
-- arguments (`Runtime`, `Context`, `Zone`), and so are the hashes of a request's payload and of a
-- preview (`Hashing`, `TokenHash`) and what the preview of a month reads from other services
-- (`Evidence`). The other loops run over lists. Locks are not modelled: a request sees the tables
-- as the last one left them.
--
-- Not modelled: the HTTP layer, texts of messages, paged lists and responses, the payload of
-- outbox events, and the services that this library has no module for.
pub mod Common
pub mod Calendar
pub mod Model
pub mod Guard
pub mod Transactions
pub mod Balances
pub mod Reconciliation
pub mod Matcher
pub mod Categories
pub mod Budgets
pub mod MonthClose
pub mod Recurrence
mod Tests
