-- ===== src/Transactions/Outcome.antt =====
-- What a successful operation has passed on its way: the checks of each operation of
-- Transactions/Write.antt, read off from its success.
use finspace.Common.{ℕ, ◌≡◌, false, ◌&&◌, not, inl, inr, none, some, [], ◌∷◌, arith}
use finspace.Common.Result.{Result-cases, or_raise->>=-eq-ok, ok}
use finspace.Model.{
  Transaction, MonthCloseControl, is_reconciled, Runtime, Context, TransactionCreate,
  TransactionUpdate,
}
use finspace.Model.Store.{Store, get_transaction, get_splits}
use finspace.Guard.{get_or_create_control, instant, assert_dates_open}
use finspace.Transactions.Validate.{validate_transaction}
use finspace.Transactions.Write.{
  check_payee, save_new, create_transaction, merge, save_update, update_row, update_transaction,
  Lifecycle, is_restore, save_state, change_row, change_lifecycle,
}

-- The control row and the store that every operation begins with.
abbrev pub control_of : Context → Store → MonthCloseControl
control_of c s = (get_or_create_control c.workspace_id s).0

abbrev pub begun : Context → Store → Store
begun c s = (get_or_create_control c.workspace_id s).1

pub record Created (rt : Runtime) (c : Context) (id : ℕ) (draw : ℕ → ℕ)
    (request : TransactionCreate) (s : Store) (r : Transaction × Store) : Type 0 where
  pub date_open :
      assert_dates_open rt (control_of c s) c.timezone (instant request.occurred_at ∷ []) ≡ ok tt
  pub payee_known : check_payee c.workspace_id request.payee_id (begun c s) ≡ ok tt
  pub validated : validate_transaction rt c.workspace_id request none (begun c s) ≡ ok tt
  pub saved : r ≡ save_new c id draw request (begun c s)

pub create_transaction-Created :
    (rt : Runtime) (c : Context) (id : ℕ) (draw : ℕ → ℕ) (request : TransactionCreate) (s : Store)
    (r : Transaction × Store)
    → create_transaction rt c id draw request s ≡ ok r
    → Created rt c id draw request s r
unfolding create_transaction
create_transaction-Created rt c id draw request s r h = ground arith

pub record Updated (rt : Runtime) (c : Context) (draw : ℕ → ℕ) (changes : TransactionUpdate)
    (control : MonthCloseControl) (t : Transaction) (s : Store) (r : Transaction × Store)
    : Type 0 where
  pub merged : TransactionCreate
  pub version_current : t.version ≡ changes.version
  pub not_reconciled : is_reconciled t.status ≡ false
  pub merges : merge changes t (get_splits t.id s) ≡ ok merged
  pub dates_open :
      assert_dates_open rt control c.timezone
        (instant t.occurred_at ∷ instant merged.occurred_at ∷ [])
      ≡ ok tt
  pub validated : validate_transaction rt c.workspace_id merged (some t.id) s ≡ ok tt
  pub saved : r ≡ save_update c draw changes merged t s

pub update_row-Updated :
    (rt : Runtime) (c : Context) (draw : ℕ → ℕ) (changes : TransactionUpdate)
    (control : MonthCloseControl) (t : Transaction) (s : Store) (r : Transaction × Store)
    → update_row rt c draw changes control t s ≡ ok r
    → Updated rt c draw changes control t s r
unfolding update_row
update_row-Updated rt c draw changes control t s r h =
    elim (Result-cases (merge changes t (get_splits t.id s))) [
      | inl (m, e) ↦ record {
        merged = m;
        version_current = ground arith;
        not_reconciled = ground arith;
        merges = e;
        dates_open = ground arith;
        validated = ground arith;
        saved = ground arith;
      }
      | inr (x, e) ↦ absurd (ground arith)
    ]

-- A successful update found the row and went through the steps of `update_row`.
pub update_transaction-Updated :
    (rt : Runtime) (c : Context) (id : ℕ) (draw : ℕ → ℕ) (changes : TransactionUpdate) (s : Store)
    (r : Transaction × Store)
    → update_transaction rt c id draw changes s ≡ ok r
    → (t : Transaction) × (get_transaction c.workspace_id id false (begun c s) ≡ some t)
      × Updated rt c draw changes (control_of c s) t (begun c s) r
unfolding update_transaction
update_transaction-Updated rt c id draw changes s r h =
    let (t, found, rest) =
      or_raise->>=-eq-ok (get_transaction c.workspace_id id false (begun c s)) _ _
        (λ t. update_row rt c draw changes (control_of c s) t (begun c s)) h in
    (t, found, update_row-Updated rt c draw changes (control_of c s) t (begun c s) r rest)

pub record Changed (rt : Runtime) (c : Context) (version : ℕ) (action : Lifecycle)
    (control : MonthCloseControl) (t : Transaction) (s : Store) (r : Transaction × Store)
    : Type 0 where
  pub version_current : t.version ≡ version
  pub restores_or_open : (is_reconciled t.status && not (is_restore action)) ≡ false
  pub date_open : assert_dates_open rt control c.timezone (instant t.occurred_at ∷ []) ≡ ok tt
  pub saved : r ≡ save_state c action t s

change_row-Changed :
    (rt : Runtime) (c : Context) (version : ℕ) (action : Lifecycle) (control : MonthCloseControl)
    (t : Transaction) (s : Store) (r : Transaction × Store)
    → change_row rt c version action control t s ≡ ok r
    → Changed rt c version action control t s r
unfolding change_row
change_row-Changed rt c version action control t s r h = ground arith

-- A successful lifecycle action found the row and passed its checks.
pub change_lifecycle-Changed :
    (rt : Runtime) (c : Context) (id version : ℕ) (action : Lifecycle) (s : Store)
    (r : Transaction × Store)
    → change_lifecycle rt c id version action s ≡ ok r
    → (t : Transaction) × (get_transaction c.workspace_id id (is_restore action) (begun c s)
        ≡ some t)
      × Changed rt c version action (control_of c s) t (begun c s) r
unfolding change_lifecycle
change_lifecycle-Changed rt c id version action s r h =
    let (t, found, rest) =
      or_raise->>=-eq-ok (get_transaction c.workspace_id id (is_restore action) (begun c s)) _ _
        (λ t. change_row rt c version action (control_of c s) t (begun c s)) h in
    (t, found, change_row-Changed rt c version action (control_of c s) t (begun c s) r rest)
