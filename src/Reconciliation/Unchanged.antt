-- ===== src/Reconciliation/Unchanged.antt =====
-- A confirmed reconciliation changes no balance.
use finspace.Common.{
  ℕ, ◌≡◌, sym, ap, ◌∙◌, subst, false, Option, List, [], ◌∷◌, ◌==◌, filter, All, All-map, arith,
  Option-cases, inl, inr,
}
use finspace.Common.Pointwise.{Pointwise, Pointwise-refl}
use finspace.Common.Result.{ok, Result-cases}
use finspace.Model.{Account, Transaction, Runtime, Context}
use finspace.Model.Store.{Store, get_account}
use finspace.Model.Store.Rows.{IsUnique}
use finspace.Balances.{calculate_balances}
use finspace.Balances.Alike.{Alike, AlikeAccount, calculate_balances-Alike}
use finspace.Reconciliation.{
  ReconciliationConfirm, Response, new_reconciliation, confirm_new_reconciliation,
  get_by_idempotency_key, answer_again, confirm_reconciliation,
}
use finspace.Reconciliation.Balance.{
  transaction_leb, is_selected, effective_transactions, calculated_balance,
}
use finspace.Reconciliation.Candidates.{
  TokenHash, Statement, Preview, cutoff_at, is_candidate, build_preview,
}
use finspace.Reconciliation.Outcome.{confirm_new_reconciliation-Reconciled}
use finspace.Common.Queries.{All-filter, All-sort_by}
use finspace.Guard.{get_or_create_control}
use finspace.Reconciliation.Written.{
  Alike-refl, AlikeAccount-refl, IsLikeRows, IsCounted, HasKeys, found_account,
  save_reconciliation-balances,
}

unique_rows : (xs : List Transaction) → IsUnique xs → All (IsLikeRows xs) xs
unique_rows [] h = tt
unique_rows (x ∷ xs) h = (
  (λ k. Alike-refl x, All-map _ _ xs (λ u other k. absurd (cc (other, k))) h.0),
  both_rows x xs xs h.0 (unique_rows xs h.1),
)
  where
    both_rows :
        (x : Transaction) (xs ys : List Transaction)
        → All (λ u. (u.id == x.id) ≡ false) ys
        → All (IsLikeRows xs) ys
        → All (IsLikeRows (x ∷ xs)) ys
    both_rows x xs [] h k = tt
    both_rows x xs (y ∷ ys) h k =
        ((λ same. absurd (ground (arith, h.0)), k.0), both_rows x xs ys h.1 k.1)

effective_IsCounted :
    (workspace : ℕ) (account : Account) (cutoff : ℕ) (s : Store)
    → IsUnique s.transactions
    → All (IsCounted s.transactions) (effective_transactions workspace account cutoff s)
unfolding effective_transactions is_selected
effective_IsCounted workspace account cutoff s unique = All-sort_by transaction_leb _ _ (
    All-map _ (IsCounted s.transactions) _ (λ t k. (ground (arith, k.1), k.0))
      (All-filter (IsLikeRows s.transactions) (is_selected workspace account cutoff) s.transactions
        (unique_rows s.transactions unique)))

candidates_IsCounted :
    (rt : Runtime) (token : TokenHash) (c : Context) (account : Account) (statement : Statement)
    (s : Store) (p : Preview)
    → IsUnique s.transactions
    → build_preview rt token c account statement s ≡ ok p
    → All (IsCounted s.transactions) p.candidates
unfolding build_preview
candidates_IsCounted rt token c account statement s p unique h =
    elim (Result-cases (cutoff_at rt c statement.statement_date)) [
      | inr (e, failed) ↦ absurd (ground arith)
      | inl (cutoff, known) ↦
          let ts = effective_transactions c.workspace_id account cutoff s in
          elim (Result-cases (calculated_balance c.workspace_id account cutoff s)) [
            | inr (e, failed) ↦ absurd (ground arith)
            | inl (balance, counted) ↦
                let same : filter (is_candidate c.workspace_id account s) ts ≡ p.candidates =
                  ground arith in
                subst (All (IsCounted s.transactions)) same (
                  All-map _ (IsCounted s.transactions) _ (λ t k. k.0)
                    (All-filter (IsCounted s.transactions) (is_candidate c.workspace_id account s)
                      ts (effective_IsCounted c.workspace_id account cutoff s unique)))
          ]
    ]

begun_tables :
    (workspace : ℕ) (s : Store)
    → ((get_or_create_control workspace s).1.transactions ≡ s.transactions)
      × ((get_or_create_control workspace s).1.accounts ≡ s.accounts)
unfolding get_or_create_control
begun_tables workspace s = (ground arith, ground arith)

begun_balances :
    (workspace other : ℕ) (as_of : Option ℕ) (s : Store)
    → calculate_balances other as_of (get_or_create_control workspace s).1
      ≡ calculate_balances other as_of s
begun_balances workspace other as_of s =
    let (rows, accounts) = begun_tables workspace s in
    calculate_balances-Alike other as_of _ s
      (subst (λ xs. Pointwise Alike xs s.transactions) (sym rows)
        (Pointwise-refl Alike Alike-refl s.transactions))
      (subst (λ xs. Pointwise AlikeAccount xs s.accounts) (sym accounts)
        (Pointwise-refl AlikeAccount AlikeAccount-refl s.accounts))

new_balances :
    (rt : Runtime) (token : TokenHash) (c : Context) (account_id : ℕ)
    (request : ReconciliationConfirm) (id : ℕ) (s : Store) (r : Response × Store) (workspace : ℕ)
    (as_of : Option ℕ)
    → IsUnique s.transactions
    → HasKeys s.accounts
    → confirm_new_reconciliation rt token c account_id request id s ≡ ok r
    → calculate_balances workspace as_of r.1 ≡ calculate_balances workspace as_of s
unfolding get_account
new_balances rt token c account_id request id s r workspace as_of unique keys h =
    let t = (get_or_create_control c.workspace_id s).1 in
    let (rows, accounts) = begun_tables c.workspace_id s in
    let done = confirm_new_reconciliation-Reconciled rt token c account_id request id s r h in
    ap (λ o. calculate_balances workspace as_of o.1) done.saved
    ∙ save_reconciliation-balances c done.account done.preview.candidates
        (new_reconciliation c id done.account request done.preview) t workspace as_of
        (candidates_IsCounted rt token c done.account request.statement t done.preview
          (subst IsUnique (sym rows) unique) done.built)
        (found_account _ t.accounts done.account (subst HasKeys (sym accounts) keys) done.there)
    ∙ begun_balances c.workspace_id workspace as_of s

-- Confirming a reconciliation, under a new key or one that has been used, changes no balance that
-- `calculate_balances` computes, in whichever workspace and as of whichever instant, if the primary
-- keys of the transactions and of the accounts are unique.
pub confirm_reconciliation-balances :
    (rt : Runtime) (token : TokenHash) (c : Context) (account_id : ℕ)
    (request : ReconciliationConfirm) (id : ℕ) (s : Store) (r : Response × Store) (workspace : ℕ)
    (as_of : Option ℕ)
    → IsUnique s.transactions
    → HasKeys s.accounts
    → confirm_reconciliation rt token c account_id request id s ≡ ok r
    → calculate_balances workspace as_of r.1 ≡ calculate_balances workspace as_of s
unfolding confirm_reconciliation answer_again
confirm_reconciliation-balances rt token c account_id request id s r workspace as_of unique keys h =
    elim (Option-cases (get_by_idempotency_key c.workspace_id request.idempotency_key s)) [
      | inl new ↦
          new_balances rt token c account_id request id s r workspace as_of unique keys
            (ground arith)
      | inr (row, used) ↦
          let same : r.1 ≡ s = ground arith in ap (calculate_balances workspace as_of) same
    ]
