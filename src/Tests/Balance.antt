-- ===== src/Tests/Balance.antt =====
-- Runs of the balances on the fixture.
use finspace.Common.{◌≡◌, refl, some, none, [], ◌∷◌, filter, map, sort_by, insert_by}
use finspace.Common.Int.{pos, ◌+ℤ◌, ◌-ℤ◌}
use finspace.Common.Queries.{sum_map}
use finspace.Balances.{original_of, counted_transactions, balance_from, calculate_balances}
use finspace.Balances.Entries.{credits, debits, sum_amounts, balance_from_lem}
use finspace.Balances.Transfers.{transfer_conserves}
use finspace.Reconciliation.Balance.{calculated_balance}
use finspace.Reconciliation.Balance.Agreement.{calculated_balance-balance_from}
use finspace.Tests.Fixture.{account, spending, moving, store}

-- 100 less the spending of 30 and the transfer of 20; and the transfer.
balances_run : map (λ b. b.balance) (calculate_balances 1 none store) ≡ pos 500000 ∷ pos 200000 ∷ []
unfolding calculate_balances ◌+ℤ◌ ◌-ℤ◌ sort_by insert_by
balances_run = refl

-- The spending and the transfer are what the first account pays; the transfer pays the second.
entries_run :
    (map (λ t. t.id) (filter (debits 1 [] store (account 10 (pos 1000000))) store.transactions)
      ≡ 50 ∷ 51 ∷ [])
    × (map (λ t. t.id) (filter (credits 1 [] store (account 11 (pos 0))) store.transactions)
        ≡ 51 ∷ [])
unfolding original_of
entries_run = (refl, refl)

balance_from_lem_example :
    balance_from 1
      (counted_transactions 1 none store)
      store
      (account 10 (pos 1000000))
      (counted_transactions 1 none store)
      (pos 1000000)
    ≡ (pos 1000000
        +ℤ sum_amounts (
            filter
              (credits 1 (counted_transactions 1 none store) store (account 10 (pos 1000000)))
              (counted_transactions 1 none store)))
      -ℤ sum_amounts (
          filter
            (debits 1 (counted_transactions 1 none store) store (account 10 (pos 1000000)))
            (counted_transactions 1 none store))
balance_from_lem_example =
    balance_from_lem 1 (counted_transactions 1 none store) store (account 10 (pos 1000000))
      (counted_transactions 1 none store) (pos 1000000)

transfer_conserves_example :
    sum_map
      (λ a. balance_from 1 [] store a (spending ∷ moving ∷ []) a.opening_balance)
      store.accounts
    ≡ sum_map (λ a. balance_from 1 [] store a (spending ∷ []) a.opening_balance) store.accounts
transfer_conserves_example =
    transfer_conserves 1 [] store moving 11 (spending ∷ []) [] store.accounts refl refl refl
      (refl, (refl, tt))

calculated_balance-balance_from_example :
    pos 500000
    ≡ balance_from 1
        (counted_transactions 1 (some 240401) store)
        store
        (account 10 (pos 1000000))
        (counted_transactions 1 (some 240401) store)
        (pos 1000000)
unfolding calculated_balance ◌+ℤ◌ ◌-ℤ◌ sort_by insert_by
calculated_balance-balance_from_example =
    calculated_balance-balance_from (account 10 (pos 1000000)) 240401 store ((refl, tt), (tt, tt))
      (pos 500000) refl
