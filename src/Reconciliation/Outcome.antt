-- ===== src/Reconciliation/Outcome.antt =====
-- What a confirmed reconciliation says of the account's balance.
use finspace.Common.{
  ℕ, ◌≡◌, sym, ap, ◌∙◌, Bool, true, false, none, some, [], ◌∷◌, ◌++◌, ◌&&◌, ◌||◌, is_none, find,
  ◌==◌, arith, find_sound, Option-cases, inl, inr,
}
use finspace.Common.Int.{ℤ, pos, pos_part, neg_part, ◌-ℤ◌, eqb_ℤ, int_laws}
use finspace.Common.Result.{ok, Result-cases}
use finspace.Model.{Account, Runtime, Context}
use finspace.Model.Store.{Store, get_account}
use finspace.Model.Store.Rows.{IsUnique}
use finspace.Guard.{get_or_create_control}
use finspace.Balances.{counted_transactions, balance_from}
use finspace.MonthClose.Stands.{new_control}
use finspace.Reconciliation.Balance.{effective_transactions, originals, calculated_balance}
use finspace.Reconciliation.Balance.Agreement.{calculated_balance-balance_from}
use finspace.Reconciliation.Candidates.{TokenHash, Statement, Preview, cutoff_at, build_preview}
use finspace.Reconciliation.{
  ReconciliationConfirm, Response, get_by_idempotency_key, new_reconciliation, save_reconciliation,
  reconciliation_response, confirm_new_reconciliation, confirm_reconciliation,
}

-- What a confirmation under a new key has passed.
pub record Reconciled (rt : Runtime) (token : TokenHash) (c : Context) (account_id : ℕ)
    (request : ReconciliationConfirm) (id : ℕ) (s : Store) (r : Response × Store) : Type 0 where
  pub account : Account
  pub there : get_account c.workspace_id account_id false s ≡ some account
  pub preview : Preview
  pub built : build_preview rt token c account request.statement s ≡ ok preview
  pub no_difference : eqb_ℤ preview.difference (pos 0) ≡ true
  pub saved :
      r
      ≡ save_reconciliation c account preview.candidates
          (new_reconciliation c id account request preview)
          s

pub confirm_new_reconciliation-Reconciled :
    (rt : Runtime) (token : TokenHash) (c : Context) (account_id : ℕ)
    (request : ReconciliationConfirm) (id : ℕ) (s : Store) (r : Response × Store)
    → confirm_new_reconciliation rt token c account_id request id s ≡ ok r
    → Reconciled rt token c account_id request id (get_or_create_control c.workspace_id s).1 r
unfolding confirm_new_reconciliation
confirm_new_reconciliation-Reconciled rt token c account_id request id s r h =
    let t = (get_or_create_control c.workspace_id s).1 in
    elim (Option-cases (get_account c.workspace_id account_id false t)) [
      | inl missing ↦ absurd (ground arith)
      | inr (account, there) ↦
          elim (Result-cases (build_preview rt token c account request.statement t)) [
            | inr (e, failed) ↦ absurd (ground arith)
            | inl (p, built) ↦ record {
              account = account;
              there = there;
              preview = p;
              built = built;
              no_difference = ground arith;
              saved = ground arith;
            }
          ]
    ]

-- What a preview says of the balances.
previewed :
    (rt : Runtime) (token : TokenHash) (c : Context) (account : Account) (statement : Statement)
    (s : Store) (p : Preview)
    → build_preview rt token c account statement s ≡ ok p
    → (cutoff : ℕ) × (cutoff_at rt c statement.statement_date ≡ ok cutoff)
      × (calculated_balance c.workspace_id account cutoff s ≡ ok p.calculated_balance)
      × (p.difference ≡ statement.statement_balance -ℤ p.calculated_balance)
unfolding build_preview
previewed rt token c account statement s p h =
    elim (Result-cases (cutoff_at rt c statement.statement_date)) [
      | inr (e, failed) ↦ absurd (ground arith)
      | inl (cutoff, known) ↦
          elim (Result-cases (calculated_balance c.workspace_id account cutoff s)) [
            | inr (e, failed) ↦ absurd (ground arith)
            | inl (balance, counted) ↦
                let same : balance ≡ p.calculated_balance = ground arith in
                (cutoff, known, counted ∙ ap ok same, ground arith)
          ]
    ]

no_difference : (a b d : ℤ) → d ≡ a -ℤ b → eqb_ℤ d (pos 0) ≡ true → a ≡ b
no_difference a b d h k =
    let zero_parts : d ≡ pos 0 = ground arith in
    let gone : a -ℤ b ≡ pos 0 = sym h ∙ zero_parts in
    let more : pos_part (a -ℤ b) ≡ 0 = ap pos_part gone in
    let less : neg_part (a -ℤ b) ≡ 0 = ap neg_part gone in omega int_laws

calculated_balance-begun :
    (c : Context) (account : Account) (cutoff : ℕ) (s : Store)
    → calculated_balance c.workspace_id account cutoff (get_or_create_control c.workspace_id s).1
      ≡ calculated_balance c.workspace_id account cutoff s
unfolding get_or_create_control calculated_balance originals effective_transactions
calculated_balance-begun c account cutoff s =
    elim (Option-cases (find (λ k. k.workspace_id == c.workspace_id) s.controls)) [
      | inl missing ↦
          let k = new_control c.workspace_id in
          let whole : get_or_create_control c.workspace_id s
              ≡ (k, record s { controls = s.controls ++ k ∷ [] }) =
            ground arith in
          ap (λ x. calculated_balance c.workspace_id account cutoff x.1) whole
      | inr (k, e) ↦
          let whole : get_or_create_control c.workspace_id s ≡ (k, s) = ground arith in
          ap (λ x. calculated_balance c.workspace_id account cutoff x.1) whole
    ]

get_account-begun :
    (c : Context) (account_id : ℕ) (s : Store)
    → get_account c.workspace_id account_id false (get_or_create_control c.workspace_id s).1
      ≡ get_account c.workspace_id account_id false s
unfolding get_or_create_control get_account
get_account-begun c account_id s = ground arith

get_account-workspace :
    (workspace id : ℕ) (deleted : Bool) (s : Store) (a : Account)
    → get_account workspace id deleted s ≡ some a
    → (a.workspace_id ≡ workspace) × (a.id ≡ id)
unfolding get_account
get_account-workspace workspace id deleted s a h =
    let tested =
      find_sound
        (λ b. (b.id == id) && (b.workspace_id == workspace) && (deleted || is_none b.deleted_at))
        s.accounts a h in
    (ground arith, ground arith)

-- A reconciliation that is confirmed under a new key records for the account that was asked for,
-- which the store has, a statement balance which is that account's balance by
-- `calculate_balances` as of the cutoff, the beginning of the day after the statement, if the
-- primary keys of the transactions are unique.
pub confirm_reconciliation-balance_from :
    (rt : Runtime) (token : TokenHash) (c : Context) (account_id : ℕ)
    (request : ReconciliationConfirm) (id : ℕ) (s : Store) (r : Response × Store)
    → IsUnique s.transactions
    → get_by_idempotency_key c.workspace_id request.idempotency_key s ≡ none
    → confirm_reconciliation rt token c account_id request id s ≡ ok r
    → (account : Account) × (cutoff : ℕ) × (get_account c.workspace_id account_id false s
        ≡ some account)
      × (r.0.0.account_id ≡ account_id)
      × (cutoff_at rt c r.0.0.statement_date ≡ ok cutoff)
      × (r.0.0.statement_balance
          ≡ balance_from account.workspace_id
              (counted_transactions account.workspace_id (some cutoff) s)
              s
              account
              (counted_transactions account.workspace_id (some cutoff) s)
              account.opening_balance)
unfolding confirm_reconciliation save_reconciliation reconciliation_response
confirm_reconciliation-balance_from rt token c account_id request id s r unique new h =
    let t = (get_or_create_control c.workspace_id s).1 in
    let done =
      confirm_new_reconciliation-Reconciled rt token c account_id request id s r (ground arith) in
    let (cutoff, known, counted, gap) =
      previewed rt token c done.account request.statement t done.preview done.built in
    let (home, mine) =
      get_account-workspace c.workspace_id account_id false t done.account done.there in
    let row : r.0.0 ≡ new_reconciliation c id done.account request done.preview =
      ap (λ o. o.0.0) done.saved in
    let computed : calculated_balance done.account.workspace_id done.account cutoff s
        ≡ ok done.preview.calculated_balance =
      ap (λ w. calculated_balance w done.account cutoff s) home
      ∙ sym (calculated_balance-begun c done.account cutoff s)
      ∙ counted in
    (
      done.account,
      cutoff,
      sym (get_account-begun c account_id s) ∙ done.there,
      ap (λ k. k.account_id) row ∙ mine,
      ap (λ k. cutoff_at rt c k.statement_date) row ∙ known,
      ap (λ k. k.statement_balance) row
          ∙ no_difference request.statement.statement_balance done.preview.calculated_balance
              done.preview.difference gap done.no_difference
          ∙ calculated_balance-balance_from done.account cutoff s unique
              done.preview.calculated_balance computed,
    )
