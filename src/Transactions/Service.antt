-- ===== src/Transactions/Service.antt =====
-- The requests that change transactions, as the routes of backend/app/api/routes/transactions.py
-- pass them on, and a session that answers several: a request that raises leaves the tables as
-- they were (backend/app/db/session.py closes the session without a commit).
use finspace.Common.{ℕ, List, [], ◌∷◌}
use finspace.Common.Result.{Result, ok, err}
use finspace.Model.{Transaction, Runtime, Context, TransactionCreate, TransactionUpdate}
use finspace.Model.Store.{Store}
use finspace.Transactions.Write.{
  create_transaction, update_transaction, Lifecycle, change_lifecycle, confirm_transaction,
}

pub data Request : Type 0 where
  create_request : ℕ → (ℕ → ℕ) → TransactionCreate → Request
  update_request : ℕ → (ℕ → ℕ) → TransactionUpdate → Request
  lifecycle_request : ℕ → ℕ → Lifecycle → Request
  confirm_request : ℕ → ℕ → (ℕ → ℕ) → Request

unfoldable pub perform : Runtime → Context → Request → Store → Result (Transaction × Store)
perform rt c (create_request id draw request) s = create_transaction rt c id draw request s
perform rt c (update_request id draw changes) s = update_transaction rt c id draw changes s
perform rt c (lifecycle_request id version action) s = change_lifecycle rt c id version action s
perform rt c (confirm_request id version draw) s = confirm_transaction rt c id version draw s

-- The store after a request, committed or rolled back.
abbrev pub committed : Result (Transaction × Store) → Store → Store
committed (ok r) s = r.1
committed (err e) s = s

unfoldable pub serve : Runtime → List (Context × Request) → Store → Store
serve rt [] s = s
serve rt ((c, q) ∷ qs) s = serve rt qs (committed (perform rt c q s) s)
