-- ===== src/Tests/Reconciliation.antt =====
-- A reconciliation of the first account of the fixture with a statement of the end of March.
use finspace.Common.{false, none, ℕ, ◌+◌, ◌≡◌, refl, some, [], ◌∷◌, map, sort_by, insert_by, length}
use finspace.Common.Int.{pos, ◌+ℤ◌, ◌-ℤ◌}
use finspace.Common.Result.{ok, err, api_error, idempotency_conflict, reconciliation_preview_stale}
use finspace.Calendar.{date, make_date, days_in_month, day_after}
use finspace.Model.{Account, reconciled}
use finspace.Model.Store.{Store, get_account, put_transaction, put_account, record_audit}
use finspace.Model.Store.Outbox.{enqueue_entity, active_binding, takes_events, same_key}
use finspace.Guard.{get_or_create_control}
use finspace.Balances.{calculate_balances, counted_transactions, balance_from}
use finspace.Reconciliation.Balance.{
  is_selected, effective_transactions, originals, original_among, transaction_effect, sum_signed,
  calculated_balance,
}
use finspace.Reconciliation.Candidates.{
  TokenHash, cutoff_at, validate_request, is_linked_to, is_linked, is_candidate, build_preview,
}
use finspace.Reconciliation.{
  ReconciliationConfirm, Response, same_idempotent_request, get_by_idempotency_key, transaction_ids,
  reconciliation_response, reconcile_transaction, reconcile_transactions, reconcile_account,
  save_reconciliation, confirm_new_reconciliation, answer_again, confirm_reconciliation,
}
use finspace.Reconciliation.Unchanged.{confirm_reconciliation-balances}
use finspace.Reconciliation.Outcome.{confirm_reconciliation-balance_from}
use finspace.Tests.Fixture.{runtime, context, store, value_or}

abbrev token : TokenHash
token c a statement cutoff balance ts candidates = cutoff + length ts + length candidates

abbrev request : ReconciliationConfirm
request = record {
  statement = record {
    statement_date = date 2024 3 31;
    statement_balance = pos 500000;
    currency = 643;
    account_version = 1;
  };
  preview_token = 240405;
  idempotency_key = 115 ∷ 49 ∷ [];
}

abbrev nothing : Response × Store
nothing = (
  (
    record {
      id = 0;
      workspace_id = 0;
      account_id = 0;
      statement_date = date 2024 1 1;
      statement_balance = pos 0;
      calculated_balance = pos 0;
      difference = pos 0;
      currency = 0;
      preview_token = 0;
      idempotency_key = [];
      account_version = 0;
      version = 0;
      created_by = 0;
      confirmed_by = 0;
      confirmed_at = 0;
    },
    [],
  ),
  store,
)

abbrev answered : Response × Store
answered = value_or nothing (confirm_reconciliation runtime token context 10 request 95 store)

-- Both transactions become reconciled; the key answers the same again, and nothing else.
reconciled_once :
    (confirm_reconciliation runtime token context 10 request 95 store ≡ ok answered)
    × (answered.0.1 ≡ 50 ∷ 51 ∷ [])
    × (map (λ t. t.status) answered.1.transactions ≡ reconciled ∷ reconciled ∷ [])
    × (confirm_reconciliation runtime token context 10 request 96 answered.1 ≡ ok answered)
    × (confirm_reconciliation runtime token context 11 request 96 answered.1
        ≡ err (api_error 409 idempotency_conflict))
    × (confirm_reconciliation runtime token context 10
          (record request { preview_token = 1 })
          95
          store
        ≡ err (api_error 409 reconciliation_preview_stale))
unfolding confirm_reconciliation answer_again confirm_new_reconciliation save_reconciliation
    reconcile_account reconcile_transactions reconcile_transaction reconciliation_response
    transaction_ids get_by_idempotency_key same_idempotent_request build_preview is_candidate
    is_linked is_linked_to validate_request cutoff_at day_after make_date days_in_month
    calculated_balance sum_signed transaction_effect original_among originals effective_transactions
    is_selected get_or_create_control get_account put_transaction put_account record_audit
    enqueue_entity active_binding takes_events same_key sort_by insert_by ◌+ℤ◌ ◌-ℤ◌
reconciled_once = (refl, refl, refl, refl, refl, refl)

confirm_reconciliation-balance_from_example :
    (a : Account) × (cutoff : ℕ) × (get_account 1 10 false store ≡ some a)
    × (answered.0.0.account_id ≡ 10)
    × (cutoff_at runtime context answered.0.0.statement_date ≡ ok cutoff)
    × (answered.0.0.statement_balance
        ≡ balance_from a.workspace_id
            (counted_transactions a.workspace_id (some cutoff) store)
            store
            a
            (counted_transactions a.workspace_id (some cutoff) store)
            a.opening_balance)
unfolding get_by_idempotency_key
confirm_reconciliation-balance_from_example =
    confirm_reconciliation-balance_from runtime token context 10 request 95 store answered
      ((refl, tt), (tt, tt)) refl reconciled_once.0

confirm_reconciliation-balances_example :
    calculate_balances 1 none answered.1 ≡ calculate_balances 1 none store
confirm_reconciliation-balances_example =
    confirm_reconciliation-balances runtime token context 10 request 95 store answered 1 none
      ((refl, tt), (tt, tt)) ((refl, tt), (tt, tt)) reconciled_once.0
