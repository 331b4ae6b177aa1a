-- ===== src/Transactions/Invariant.antt =====
-- The ledger's invariant: primary keys are unique and every transaction has its shape.
use finspace.Common.{
  is_empty, ℕ, ◌≡◌, refl, sym, ◌∙◌, ap, true, false, none, some, List, [], ◌∷◌, ◌==◌, map, arith,
  All, All-append, All-map, find-All, Bool-cases, inl, inr, subst,
}
use finspace.Common.Result.{ok, Result-cases}
use finspace.Model.{
  Transaction, Split, Runtime, Context, TransactionCreate, TransactionUpdate, Change, unset, null,
  given, passes_schema, confirmed,
}
use finspace.Model.Store.{Store, get_transaction, get_splits}
use finspace.Model.Store.Rows.{
  IsUnique, All-put_transaction, put_transaction-IsUnique, append-IsUnique,
}
use finspace.Transactions.Validate.{sum_amounts}
use finspace.Transactions.Write.{
  new_transaction, save_new, split_input, merge, is_set, assigned, apply_changes, save_update,
  Lifecycle, change_state, stamp, save_state, update_transaction, status_update,
}
use finspace.Transactions.Outcome.{
  begun, create_transaction-Created, update_transaction-Updated, change_lifecycle-Changed,
}
use finspace.Transactions.Merging.{Agree, merge-Agree}
use finspace.Transactions.Tables.{
  ledger_of, begun-ledger_of, new_splits, save_new-ledger_of, updated_splits, save_update-ledger_of,
  save_state-ledger_of,
}
use finspace.Transactions.Splits.{rows_of, total_of, existing_splits, replaced_totals, other_splits}
use finspace.Transactions.Shape.{ShapedRequest, ShapedRow, validate_transaction-ShapedRequest}
use finspace.Transactions.Protected.{confirm-cases}
use finspace.Transactions.Service.{
  Request, create_request, update_request, lifecycle_request, confirm_request, perform, committed,
  serve,
}

abbrev pub IsSound : List Transaction × List Split → Type 0
IsSound (ts, ps) = IsUnique ts × All (ShapedRow ps) ts

-- Primary keys are unique, and every transaction has the shape of `IsShaped` with its splits.
abbrev pub IsLedger : Store → Type 0
IsLedger s = IsSound (ledger_of s)

-- What is asked of a request: a new transaction passed the schema, and its key is new.
abbrev pub IsAdmissible : Request → Store → Type 0
IsAdmissible (create_request id draw request) s =
    (passes_schema request ≡ true)
    × All (λ (t : Transaction). (t.id == id) ≡ false) s.transactions
    × All (λ (p : Split). (p.transaction_id == id) ≡ false) s.splits
IsAdmissible _ s = Unit

-- A row keeps its shape when its splits do.
reshape :
    (ps qs : List Split) (t : Transaction)
    → rows_of t.id qs ≡ rows_of t.id ps
    → ShapedRow ps t
    → ShapedRow qs t
reshape ps qs t same h = rw same h

no_rows :
    (id : ℕ) (ps : List Split) → All (λ p. (p.transaction_id == id) ≡ false) ps → rows_of id ps ≡ []
no_rows id [] h = refl
no_rows id (p ∷ ps) h = rw h.0 (no_rows id ps h.1)

-- The splits after a creation: the new transaction's, and the others as before.
new_splits_mine :
    (draw : ℕ → ℕ) (c : Context) (id : ℕ) (request : TransactionCreate) (s : Store)
    → All (λ p. (p.transaction_id == id) ≡ false) s.splits
    → (total_of (rows_of id (new_splits draw c id request s)) ≡ sum_amounts request.splits)
      × (is_empty (rows_of id (new_splits draw c id request s)) ≡ is_empty request.splits)
new_splits_mine draw c id request s fresh = elim (Bool-cases (is_empty request.splits)) [
  | inl plain ↦ rw plain (rw (no_rows id s.splits fresh) (ground arith))
  | inr split ↦
      let (sum, empty) = replaced_totals draw c.now id request.splits s in
      rw split (sum, empty ∙ split)
]

new_splits_other :
    (draw : ℕ → ℕ) (c : Context) (id k : ℕ) (request : TransactionCreate) (s : Store)
    → (k == id) ≡ false
    → rows_of k (new_splits draw c id request s) ≡ rows_of k s.splits
new_splits_other draw c id k request s h = elim (Bool-cases (is_empty request.splits)) [
  | inl plain ↦ rw plain
  | inr split ↦ rw split (other_splits draw c.now id k request.splits s h)
]

All-both :
    (P Q : Transaction → Type 0) (ts : List Transaction)
    → All P ts
    → All Q ts
    → All (λ t. P t × Q t) ts
All-both P Q [] h k = tt
All-both P Q (t ∷ ts) h k = ((h.0, k.0), All-both P Q ts h.1 k.1)

save_new-IsSound :
    (c : Context) (id : ℕ) (draw : ℕ → ℕ) (request : TransactionCreate) (s : Store)
    → IsLedger s
    → IsAdmissible (create_request id draw request) s
    → ShapedRequest request
    → IsLedger (save_new c id draw request s).1
unfolding new_transaction
save_new-IsSound c id draw request s (unique, shaped) (schema, fresh, no_split) shape =
    let ps = new_splits draw c id request s in
    let (sum, plain) = new_splits_mine draw c id request s no_split in
    let old =
      All-map (λ u. ((u.id == id) ≡ false) × ShapedRow s.splits u) (ShapedRow ps) s.transactions
        (λ u h. reshape s.splits ps u (new_splits_other draw c id u.id request s h.0) h.1)
        (All-both (λ u. (u.id == id) ≡ false) (ShapedRow s.splits) s.transactions fresh shaped) in
    rw (save_new-ledger_of c id draw request s) (
      append-IsUnique (new_transaction c id request) s.transactions unique fresh,
      All-append (ShapedRow ps) s.transactions _ old (rw (sum, plain) shape, tt),
    )

assigned_unset {ℓ} :
    {A : Type ℓ} (change : Change A) (old : A) → is_set change ≡ false → assigned change old ≡ old
assigned_unset unset old h = refl
assigned_unset null old h = cc
assigned_unset (given a) old h = cc

-- The splits after an update: those of the merged request, and the others as before.
updated_splits_mine :
    (draw : ℕ → ℕ) (c : Context) (changes : TransactionUpdate) (merged : TransactionCreate)
    (t : Transaction) (s : Store)
    → merged.splits ≡ assigned changes.splits (map split_input (get_splits t.id s))
    → (total_of (rows_of t.id (updated_splits draw c changes merged t s))
        ≡ sum_amounts merged.splits)
      × (is_empty (rows_of t.id (updated_splits draw c changes merged t s))
          ≡ is_empty merged.splits)
updated_splits_mine draw c changes merged t s e = elim (Bool-cases (is_set changes.splits)) [
  | inl set ↦ rw set (replaced_totals draw c.now t.id merged.splits s)
  | inr kept ↦
      let same = e ∙ assigned_unset changes.splits (map split_input (get_splits t.id s)) kept in
      let (sum, empty) = existing_splits t.id s in
      rw kept (sym (ap sum_amounts same ∙ sum), sym (ap is_empty same ∙ empty))
]

updated_splits_other :
    (draw : ℕ → ℕ) (c : Context) (changes : TransactionUpdate) (merged : TransactionCreate)
    (t : Transaction) (k : ℕ) (s : Store)
    → (k == t.id) ≡ false
    → rows_of k (updated_splits draw c changes merged t s) ≡ rows_of k s.splits
updated_splits_other draw c changes merged t k s h = elim (Bool-cases (is_set changes.splits)) [
  | inl set ↦ rw set (other_splits draw c.now t.id k merged.splits s h)
  | inr kept ↦ rw kept
]

-- The shape of a request is that of a row that agrees with it and has its splits.
row_of_request :
    (m : TransactionCreate) (t : Transaction) (ps : List Split)
    → Agree m t
    → total_of (rows_of t.id ps) ≡ sum_amounts m.splits
    → is_empty (rows_of t.id ps) ≡ is_empty m.splits
    → ShapedRequest m
    → ShapedRow ps t
row_of_request m t ps agree sum plain shape =
    rw
      (
        sum,
        plain,
        ← agree.transaction_type,
        ← agree.amount,
        ← agree.account_id,
        ← agree.target_account_id,
        ← agree.category_id,
        ← agree.related_transaction_id,
      )
      shape

save_update-IsSound :
    (c : Context) (draw : ℕ → ℕ) (changes : TransactionUpdate) (merged : TransactionCreate)
    (t : Transaction) (s : Store)
    → IsLedger s
    → merge changes t (get_splits t.id s) ≡ ok merged
    → ShapedRequest merged
    → IsLedger (save_update c draw changes merged t s).1
unfolding apply_changes
save_update-IsSound c draw changes merged t s (unique, shaped) merges shape =
    let ps = updated_splits draw c changes merged t s in
    let (agree, _, splits) = merge-Agree c changes t (get_splits t.id s) merged merges in
    let (sum, plain) = updated_splits_mine draw c changes merged t s splits in
    rw (save_update-ledger_of c draw changes merged t s) (
      put_transaction-IsUnique (apply_changes c changes t) s.transactions unique,
      All-put_transaction (ShapedRow ps) (apply_changes c changes t) s.transactions
          (row_of_request merged (apply_changes c changes t) ps agree sum plain shape)
          (All-map (ShapedRow s.splits) (λ u. (u.id == t.id) ≡ false → ShapedRow ps u)
            s.transactions
            (λ u h other.
              reshape s.splits ps u (updated_splits_other draw c changes merged t u.id s other) h)
            shaped),
    )

stamped_shape :
    (c : Context) (action : Lifecycle) (t : Transaction) (ps : List Split)
    → ShapedRow ps t
    → ShapedRow ps (stamp c (change_state action c.now t))
unfolding change_state stamp
stamped_shape c Lifecycle.delete t ps h = h
stamped_shape c Lifecycle.restore t ps h = h
stamped_shape c Lifecycle.cancel t ps h = h

save_state-IsSound :
    (c : Context) (action : Lifecycle) (t : Transaction) (s : Store)
    → IsLedger s
    → ShapedRow s.splits t
    → IsLedger (save_state c action t s).1
save_state-IsSound c action t s (unique, shaped) shape = rw (save_state-ledger_of c action t s) (
  put_transaction-IsUnique _ s.transactions unique,
  All-put_transaction (ShapedRow s.splits) _ s.transactions
      (stamped_shape c action t s.splits shape)
      (All-map (ShapedRow s.splits) _ s.transactions (λ u h other. h) shaped),
)

begun-IsLedger : (c : Context) (s : Store) → IsLedger s → IsLedger (begun c s)
begun-IsLedger c s h = subst IsSound (sym (begun-ledger_of c s)) h

begun-IsAdmissible :
    (c : Context) (id : ℕ) (draw : ℕ → ℕ) (request : TransactionCreate) (s : Store)
    → IsAdmissible (create_request id draw request) s
    → IsAdmissible (create_request id draw request) (begun c s)
begun-IsAdmissible c id draw request s (schema, fresh, no_split) = (
  schema,
  rw (ap (λ l. l.0) (begun-ledger_of c s)) fresh,
  rw (ap (λ l. l.1) (begun-ledger_of c s)) no_split,
)

update-IsLedger :
    (rt : Runtime) (c : Context) (id : ℕ) (draw : ℕ → ℕ) (changes : TransactionUpdate) (s : Store)
    (r : Transaction × Store)
    → IsLedger s
    → update_transaction rt c id draw changes s ≡ ok r
    → IsLedger r.1
update-IsLedger rt c id draw changes s r ledger h =
    let (t, found, done) = update_transaction-Updated rt c id draw changes s r h in
    let (_, schema, _) = merge-Agree c changes t _ done.merged done.merges in
    let shape =
      validate_transaction-ShapedRequest rt c.workspace_id done.merged (some t.id) (begun c s)
        schema done.validated in
    rw done.saved (
      save_update-IsSound c draw changes done.merged t (begun c s) (begun-IsLedger c s ledger)
        done.merges shape)

-- Every request on transactions that succeeds keeps the ledger: primary keys stay unique, and
-- every transaction keeps its shape, with splits that add up to its amount.
pub perform-IsLedger :
    (rt : Runtime) (c : Context) (q : Request) (s : Store) (r : Transaction × Store)
    → IsLedger s
    → IsAdmissible q s
    → perform rt c q s ≡ ok r
    → IsLedger r.1
unfolding perform get_transaction
perform-IsLedger rt c (create_request id draw request) s r ledger admissible h =
    let made = create_transaction-Created rt c id draw request s r h in
    let shape =
      validate_transaction-ShapedRequest rt c.workspace_id request none (begun c s) admissible.0
        made.validated in
    rw made.saved (
      save_new-IsSound c id draw request (begun c s) (begun-IsLedger c s ledger)
        (begun-IsAdmissible c id draw request s admissible) shape)
perform-IsLedger rt c (update_request id draw changes) s r ledger _ h =
    update-IsLedger rt c id draw changes s r ledger h
perform-IsLedger rt c (lifecycle_request id version action) s r ledger _ h =
    let (t, found, done) = change_lifecycle-Changed rt c id version action s r h in
    let ledger' = begun-IsLedger c s ledger in
    rw done.saved (
      save_state-IsSound c action t (begun c s) ledger'
        (find-All (ShapedRow (begun c s).splits) _ (begun c s).transactions t ledger'.1 found))
perform-IsLedger rt c (confirm_request id version draw) s r ledger _ h =
    elim (confirm-cases rt c id version draw s r h) [
      | inl same ↦ rw same ledger
      | inr updated ↦
          update-IsLedger rt c id draw (status_update version confirmed) (begun c s) r
            (begun-IsLedger c s ledger) updated
    ]

-- A session's requests are admissible one by one, each in the store that it meets.
abbrev pub AllAdmissible : Runtime → List (Context × Request) → Store → Type 0
AllAdmissible rt [] s = Unit
AllAdmissible rt ((c, q) ∷ qs) s =
    IsAdmissible q s × AllAdmissible rt qs (committed (perform rt c q s) s)

-- Whatever requests a session serves, successful or not, the ledger is kept.
pub serve-IsLedger :
    (rt : Runtime) (qs : List (Context × Request)) (s : Store)
    → IsLedger s
    → AllAdmissible rt qs s
    → IsLedger (serve rt qs s)
unfolding serve
serve-IsLedger rt [] s ledger h = ledger
serve-IsLedger rt ((c, q) ∷ qs) s ledger (here, later) =
    serve-IsLedger rt qs (committed (perform rt c q s) s) kept later
  where
    kept : IsLedger (committed (perform rt c q s) s)
    kept = elim (Result-cases (perform rt c q s)) [
      | inl (r, e) ↦ rw e (perform-IsLedger rt c q s r ledger here e)
      | inr (x, e) ↦ rw e ledger
    ]
