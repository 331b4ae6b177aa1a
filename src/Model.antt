-- ===== src/Model.antt =====
-- The rows that the ledger services read and write (backend/app/db/models) and the request data
-- (backend/app/schemas/transactions.py). Identifiers, and texts that the code only compares, are
-- numbers; an instant is a number of microseconds; money is a number of ten-thousandths.
mod Rows
mod Requests
pub mod Closures
pub mod Audit
pub mod Store
unfoldable pub use Rows.*
unfoldable pub use Requests.*
