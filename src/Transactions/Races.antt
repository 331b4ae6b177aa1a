-- ===== src/Transactions/Races.antt =====
-- Two requests on one row that were made at the same version of it: the first one wins.
use finspace.Common.{
  ℕ, ◌+◌, ◌≡◌, ◌∙◌, ==_iff, refl, sym, ap, subst, Bool, true, false, some, List, [], ◌∷◌, ◌&&◌,
  ◌||◌, ◌==◌, is_none, arith, find, find_sound, Bool-cases, inl, inr,
}
use finspace.Common.Result.{ok, err, api_error, version_conflict}
use finspace.Model.{Transaction, Runtime, Context, TransactionUpdate}
use finspace.Model.Store.{Store, get_transaction, put_transaction}
use finspace.Transactions.Write.{
  apply_changes, save_update, update_row, update_transaction, Lifecycle, is_restore, change_row,
  change_lifecycle,
}
use finspace.Transactions.Outcome.{begun, update_transaction-Updated}
use finspace.Transactions.Tables.{begun-ledger_of, save_update-ledger_of}

abbrev is_live : ℕ → ℕ → Transaction → Bool
is_live workspace id t =
    (t.id == id) && (t.workspace_id == workspace) && (false || is_none t.deleted_at)

-- The row that a request finds is replaced by the one that it puts.
find-put_transaction :
    (workspace id : ℕ) (t after : Transaction) (ts : List Transaction)
    → find (is_live workspace id) ts ≡ some t
    → after.id ≡ t.id
    → is_live workspace id after ≡ true
    → find (is_live workspace id) (put_transaction after ts) ≡ some after
unfolding put_transaction
find-put_transaction workspace id t after [] e key live = cc
find-put_transaction workspace id t after (x ∷ xs) e key live =
    elim (Bool-cases (x.id == after.id)) [
      | inl put ↦ rw (put, live) refl
      | inr kept ↦ elim (Bool-cases (is_live workspace id x)) [
        | inl here ↦
            let same : x ≡ t = ground arith in
            let other : (t.id == after.id) ≡ false =
              subst (λ u. (u.id == after.id) ≡ false) same kept in
            absurd (cc (other, (==_iff t.id after.id).1 (sym key)))
        | inr later ↦
            rw (kept, later) (find-put_transaction workspace id t after xs (rw later at e) key live)
      ]
    ]

-- The row after a successful update, as the next request finds it.
find-updated :
    (rt : Runtime) (c d : Context) (id : ℕ) (draw : ℕ → ℕ) (changes : TransactionUpdate) (s : Store)
    (r : Transaction × Store)
    → update_transaction rt c id draw changes s ≡ ok r
    → d.workspace_id ≡ c.workspace_id
    → (get_transaction d.workspace_id id false (begun d r.1) ≡ some r.0)
      × (r.0.version ≡ changes.version + 1)
unfolding get_transaction apply_changes save_update
find-updated rt c d id draw changes s r h home =
    let (t, found, done) = update_transaction-Updated rt c id draw changes s r h in
    let rows = ap (λ l. l.0) (save_update-ledger_of c draw changes done.merged t (begun c s)) in
    let now : r.0 ≡ apply_changes c changes t = ap (λ x. x.0) done.saved in
    let here : r.1.transactions
        ≡ put_transaction (apply_changes c changes t) (begun c s).transactions =
      ap (λ x. x.1.transactions) done.saved ∙ rows in
    let later : (begun d r.1).transactions
        ≡ put_transaction (apply_changes c changes t) (begun c s).transactions =
      ap (λ l. l.0) (begun-ledger_of d r.1) ∙ here in
    let live : is_live c.workspace_id id t ≡ true =
      find_sound (is_live c.workspace_id id) (begun c s).transactions t found in
    (
      ap (λ w. find (is_live w id) (begun d r.1).transactions) home
          ∙ ap (find (is_live c.workspace_id id)) later
          ∙ find-put_transaction c.workspace_id id t (apply_changes c changes t)
              (begun c s).transactions found refl live
          ∙ ap some (sym now),
      ap (λ u. u.version) now ∙ ap (λ v. v + 1) done.version_current,
    )

-- No update is lost: after an update has succeeded, each other request on that row, by anyone in
-- the workspace, which was made at the version that the update was made at, is refused with a
-- version conflict, be it an update, a deletion or a cancellation.
pub first_update_wins :
    (rt : Runtime) (c d : Context) (id : ℕ) (draw later_draw : ℕ → ℕ)
    (changes later : TransactionUpdate) (action : Lifecycle) (s : Store) (r : Transaction × Store)
    → update_transaction rt c id draw changes s ≡ ok r
    → d.workspace_id ≡ c.workspace_id
    → later.version ≡ changes.version
    → is_restore action ≡ false
    → (update_transaction rt d id later_draw later r.1 ≡ err (api_error 409 version_conflict))
      × (change_lifecycle rt d id later.version action r.1 ≡ err (api_error 409 version_conflict))
unfolding update_transaction update_row change_lifecycle change_row
first_update_wins rt c d id draw later_draw changes later action s r h home same kind =
    let (found, raised) = find-updated rt c d id draw changes s r h home in
    let stale : (r.0.version == later.version) ≡ false = ground arith in
    (rw (found, stale) refl, rw (kind, found, stale) refl)
