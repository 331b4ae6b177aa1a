-- ===== src/Transactions/Protected.antt =====
-- What no request on transactions can touch: the rows of other workspaces, and the rows dated
-- in the closed months of its own.
use mathlib.Core.List.{append-nil}
use finspace.Common.{
  ℕ, ◌≡◌, refl, ◌∙◌, ap, Bool, true, false, none, some, List, [], ◌∷◌, ◌||◌, not, ◌==◌, arith,
  All-map, filter, filter-append, find, find_sound, find-append_none, Option-cases, inl, inr, ◌⊎◌,
}
use finspace.Common.Result.{ok}
use finspace.Model.{
  Transaction, MonthCloseControl, Runtime, Context, TransactionCreate, TransactionUpdate, confirmed,
}
use finspace.Model.Store.{Store, get_transaction, put_transaction}
use finspace.Model.Store.Rows.{IsUnique, only_row, filter-put_transaction}
use finspace.Guard.{get_or_create_control, instant, local_date_of, assert_dates_open}
use finspace.Guard.Closed.{is_open, assert_dates_open-eq-ok}
use finspace.Transactions.Write.{
  new_transaction, apply_changes, Lifecycle, is_restore, change_state, stamp, create_transaction,
  update_transaction, change_lifecycle, confirm_transaction, status_update,
}
use finspace.Transactions.Outcome.{
  begun, control_of, create_transaction-Created, update_transaction-Updated,
  change_lifecycle-Changed,
}
use finspace.Transactions.Merging.{merge-Agree}
use finspace.Transactions.Tables.{
  begun-ledger_of, save_new-ledger_of, save_update-ledger_of, save_state-ledger_of,
}
use finspace.Transactions.Service.{
  Request, create_request, update_request, lifecycle_request, confirm_request, perform,
}

-- A row is out of reach of a request if it belongs to another workspace, or if its local date
-- is not past the last closed day.
abbrev pub is_protected : Runtime → Context → MonthCloseControl → Transaction → Bool
is_protected rt c control t =
    not (t.workspace_id == c.workspace_id)
    || not (is_open control.closed_through (rt.local_date c.timezone t.occurred_at))

module _ (rt : Runtime) (c : Context) (control : MonthCloseControl) where
  open_at :
      (x : ℕ)
      → assert_dates_open rt control c.timezone (instant x ∷ []) ≡ ok tt
      → is_open control.closed_through (rt.local_date c.timezone x) ≡ true
  unfolding local_date_of
  open_at x h =
      let checked = (assert_dates_open-eq-ok rt control c.timezone (instant x ∷ [])).0 h in
      ground arith

  open_at_both :
      (x y : ℕ)
      → assert_dates_open rt control c.timezone (instant x ∷ instant y ∷ []) ≡ ok tt
      → (is_open control.closed_through (rt.local_date c.timezone x) ≡ true)
        × (is_open control.closed_through (rt.local_date c.timezone y) ≡ true)
  unfolding local_date_of
  open_at_both x y h =
      let checked =
        (assert_dates_open-eq-ok rt control c.timezone (instant x ∷ instant y ∷ [])).0 h in
      ground arith

  -- A row that the request found and both of whose versions are open changes no protected row.
  replaced :
      (p : Transaction → Bool) (t t' : Transaction) (ts : List Transaction)
      → IsUnique ts
      → find p ts ≡ some t
      → t'.id ≡ t.id
      → is_protected rt c control t ≡ false
      → is_protected rt c control t' ≡ false
      → filter (is_protected rt c control) (put_transaction t' ts)
        ≡ filter (is_protected rt c control) ts
  replaced p t t' ts unique found key before after =
      filter-put_transaction (is_protected rt c control) t' ts after (
        All-map (λ u. (u.id == t.id) ≡ true → u ≡ t) _ ts
          (λ u only k. ap (is_protected rt c control) (only (rw key at k)) ∙ before)
          (only_row p ts t unique found))

pub found_workspace :
    (workspace id : ℕ) (deleted : Bool) (s : Store) (t : Transaction)
    → get_transaction workspace id deleted s ≡ some t
    → (t.workspace_id ≡ workspace) × (t.id ≡ id)
unfolding get_transaction
found_workspace workspace id deleted s t h = ground (arith, find_sound _ s.transactions t h)

-- The rows out of reach, as a request on `s` sees them.
abbrev pub protected_rows : Runtime → Context → Store → List Transaction → List Transaction
protected_rows rt c s ts = filter (is_protected rt c (control_of c s)) ts

begun-transactions : (c : Context) (s : Store) → (begun c s).transactions ≡ s.transactions
begun-transactions c s = ap (λ l. l.0) (begun-ledger_of c s)

create-protects :
    (rt : Runtime) (c : Context) (id : ℕ) (draw : ℕ → ℕ) (request : TransactionCreate) (s : Store)
    (r : Transaction × Store)
    → create_transaction rt c id draw request s ≡ ok r
    → protected_rows rt c s r.1.transactions ≡ protected_rows rt c s s.transactions
unfolding new_transaction
create-protects rt c id draw request s r h =
    let made = create_transaction-Created rt c id draw request s r h in
    let rows = ap (λ l. l.0) (save_new-ledger_of c id draw request (begun c s)) in
    let out : is_protected rt c (control_of c s) (new_transaction c id request) ≡ false =
      ground (arith, open_at rt c (control_of c s) request.occurred_at made.date_open) in
    rw
      (
        made.saved,
        rows,
        begun-transactions c s,
        filter-append (is_protected rt c (control_of c s)),
        out,
      )
      (append-nil _)

update-protects :
    (rt : Runtime) (c : Context) (id : ℕ) (draw : ℕ → ℕ) (changes : TransactionUpdate) (s : Store)
    (r : Transaction × Store)
    → IsUnique s.transactions
    → update_transaction rt c id draw changes s ≡ ok r
    → protected_rows rt c s r.1.transactions ≡ protected_rows rt c s s.transactions
unfolding apply_changes get_transaction
update-protects rt c id draw changes s r unique h =
    let (t, found, done) = update_transaction-Updated rt c id draw changes s r h in
    let rows = ap (λ l. l.0) (save_update-ledger_of c draw changes done.merged t (begun c s)) in
    let (agree, _, _) = merge-Agree c changes t _ done.merged done.merges in
    let (was, now) =
      open_at_both rt c (control_of c s) t.occurred_at done.merged.occurred_at done.dates_open in
    let home = (found_workspace c.workspace_id id false (begun c s) t found).0 in
    rw (done.saved, rows)
      (rw (begun-transactions c s) (
        replaced rt c (control_of c s) _ t (apply_changes c changes t) s.transactions unique
          (rw (begun-transactions c s) at found) refl (ground arith) (ground arith)))

change-protects :
    (rt : Runtime) (c : Context) (id version : ℕ) (action : Lifecycle) (s : Store)
    (r : Transaction × Store)
    → IsUnique s.transactions
    → change_lifecycle rt c id version action s ≡ ok r
    → protected_rows rt c s r.1.transactions ≡ protected_rows rt c s s.transactions
unfolding change_state stamp get_transaction
change-protects rt c id version action s r unique h =
    let (t, found, done) = change_lifecycle-Changed rt c id version action s r h in
    let rows = ap (λ l. l.0) (save_state-ledger_of c action t (begun c s)) in
    let was = open_at rt c (control_of c s) t.occurred_at done.date_open in
    let home = (found_workspace c.workspace_id id (is_restore action) (begun c s) t found).0 in
    rw (done.saved, rows)
      (rw (begun-transactions c s) (
        replaced rt c (control_of c s) _ t (stamp c (change_state action c.now t)) s.transactions
          unique (rw (begun-transactions c s) at found) (ground arith) (ground arith)
          (ground arith)))

control_of-begun : (c : Context) (s : Store) → control_of c (begun c s) ≡ control_of c s
unfolding get_or_create_control
control_of-begun c s =
    elim (Option-cases (find (λ k. k.workspace_id == c.workspace_id) s.controls)) [
      | inl missing ↦ ground (
        arith,
        find-append_none (λ k. k.workspace_id == c.workspace_id) s.controls
            (record {
              workspace_id = c.workspace_id;
              closed_through = none;
              require_healthy_backup = false;
              version = 1;
            })
            missing (ground arith),
      )
      | inr (k, there) ↦ ground arith
    ]

-- A confirmation changes nothing, or is an update of its status.
pub confirm-cases :
    (rt : Runtime) (c : Context) (id version : ℕ) (draw : ℕ → ℕ) (s : Store)
    (r : Transaction × Store)
    → confirm_transaction rt c id version draw s ≡ ok r
    → (r.1 ≡ s)
      ⊎ (update_transaction rt c id draw (status_update version confirmed) (begun c s) ≡ ok r)
unfolding confirm_transaction
confirm-cases rt c id version draw s r h = ground arith

-- No request on transactions, if it succeeds, changes, removes or adds a row of another workspace
-- or a row whose local date is within the closed months, provided that primary keys are unique.
pub perform_protects :
    (rt : Runtime) (c : Context) (q : Request) (s : Store) (r : Transaction × Store)
    → IsUnique s.transactions
    → perform rt c q s ≡ ok r
    → protected_rows rt c s r.1.transactions ≡ protected_rows rt c s s.transactions
unfolding perform
perform_protects rt c (create_request id draw request) s r unique h =
    create-protects rt c id draw request s r h
perform_protects rt c (update_request id draw changes) s r unique h =
    update-protects rt c id draw changes s r unique h
perform_protects rt c (lifecycle_request id version action) s r unique h =
    change-protects rt c id version action s r unique h
perform_protects rt c (confirm_request id version draw) s r unique h =
    elim (confirm-cases rt c id version draw s r h) [
      | inl same ↦ rw same refl
      | inr updated ↦
          let kept =
            update-protects rt c id draw (status_update version confirmed) (begun c s) r
              (rw (begun-transactions c s) unique) updated in
          rw (control_of-begun c s, begun-transactions c s) at kept
    ]
