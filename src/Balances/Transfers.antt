-- ===== src/Balances/Transfers.antt =====
-- What a transfer does to the sum of the balances of several accounts.
use finspace.Common.{
  zero, suc, ℕ, ◌≡◌, false, none, some, List, [], ◌∷◌, ◌++◌, ◌==◌, ltb, All, Bool-cases, inl, inr,
  if◌then◌else◌,
}
use finspace.Common.Int.{ℤ, pos, ◌+ℤ◌, ◌-ℤ◌, int_laws}
use finspace.Common.Queries.{sum_map}
use finspace.Model.{Account, Transaction, transfer}
use finspace.Model.Store.{Store}
use finspace.Balances.{balance_from}
use finspace.Balances.Effects.{effect, effect_on, sum_effects, balance_from-sum_effects}

-- The sum of a transaction's effects over a list of accounts.
abbrev effects_over : ℕ → List Transaction → Store → Transaction → List Account → ℤ
effects_over workspace at_hand s item [] = pos 0
effects_over workspace at_hand s item (a ∷ accounts) =
    effect_on workspace at_hand s a item +ℤ effects_over workspace at_hand s item accounts

-- How many of the accounts are the given one.
abbrev pub count_account : ℕ → List Account → ℕ
count_account id [] = 0
count_account id (a ∷ accounts) =
    let rest = count_account id accounts in if id == a.id then suc rest else rest

abbrev times : ℕ → ℤ → ℤ
times zero a = pos 0
times (suc n) a = a +ℤ times n a

effect_of_transfer :
    (workspace : ℕ) (at_hand : List Transaction) (s : Store) (item : Transaction) (target : ℕ)
    (a : Account)
    → item.transaction_type ≡ transfer
    → item.target_account_id ≡ some target
    → ltb item.occurred_at a.opening_balance_at ≡ false
    → effect_on workspace at_hand s a item
      ≡ effect transfer (item.account_id == a.id) (target == a.id) none item.amount
effect_of_transfer workspace at_hand s item target a kind to opened = rw (opened, kind, to)

-- Over a list of accounts a transfer adds its amount once for each mention of the target, and
-- takes it away once for each mention of the source.
effects_of_transfer :
    (workspace : ℕ) (at_hand : List Transaction) (s : Store) (item : Transaction) (target : ℕ)
    (accounts : List Account)
    → item.transaction_type ≡ transfer
    → item.target_account_id ≡ some target
    → All (λ a. ltb item.occurred_at a.opening_balance_at ≡ false) accounts
    → effects_over workspace at_hand s item accounts
      ≡ times (count_account target accounts) item.amount
        -ℤ times (count_account item.account_id accounts) item.amount
effects_of_transfer workspace at_hand s item target [] kind to opened = omega int_laws
effects_of_transfer workspace at_hand s item target (a ∷ accounts) kind to opened =
    rw
      (
        effect_of_transfer workspace at_hand s item target a kind to opened.0,
        effects_of_transfer workspace at_hand s item target accounts kind to opened.1,
      )
      split
  where
    split :
        effect transfer (item.account_id == a.id) (target == a.id) none item.amount
          +ℤ (times (count_account target accounts) item.amount
              -ℤ times (count_account item.account_id accounts) item.amount)
        ≡ times (count_account target (a ∷ accounts)) item.amount
          -ℤ times (count_account item.account_id (a ∷ accounts)) item.amount
    split = elim (Bool-cases (item.account_id == a.id)) [
      | inl mine ↦ elim (Bool-cases (target == a.id)) [
        | inl theirs ↦ rw (mine, theirs) (omega int_laws)
        | inr other ↦ rw (mine, other) (omega int_laws)
      ]
      | inr not_mine ↦ elim (Bool-cases (target == a.id)) [
        | inl theirs ↦ rw (not_mine, theirs) (omega int_laws)
        | inr other ↦ rw (not_mine, other) (omega int_laws)
      ]
    ]

sum_effects-append :
    (workspace : ℕ) (at_hand : List Transaction) (s : Store) (a : Account) (item : Transaction)
    (front back : List Transaction)
    → sum_effects workspace at_hand s a (front ++ item ∷ back)
      ≡ sum_effects workspace at_hand s a (front ++ back) +ℤ effect_on workspace at_hand s a item
sum_effects-append workspace at_hand s a item [] back = omega int_laws
sum_effects-append workspace at_hand s a item (x ∷ front) back =
    rw (sum_effects-append workspace at_hand s a item front back) (omega int_laws)

-- One transaction more in the list changes a balance by its effect.
balance_from-insert :
    (workspace : ℕ) (at_hand : List Transaction) (s : Store) (a : Account) (item : Transaction)
    (front back : List Transaction)
    → balance_from workspace at_hand s a (front ++ item ∷ back) a.opening_balance
      ≡ balance_from workspace at_hand s a (front ++ back) a.opening_balance
        +ℤ effect_on workspace at_hand s a item
balance_from-insert workspace at_hand s a item front back =
    rw
      (
        balance_from-sum_effects workspace at_hand s a (front ++ item ∷ back) a.opening_balance,
        balance_from-sum_effects workspace at_hand s a (front ++ back) a.opening_balance,
        sum_effects-append workspace at_hand s a item front back,
      )
      (omega int_laws)

sum_balances :
    (workspace : ℕ) (at_hand : List Transaction) (s : Store) (item : Transaction)
    (front back : List Transaction) (accounts : List Account)
    → sum_map
        (λ a. balance_from workspace at_hand s a (front ++ item ∷ back) a.opening_balance)
        accounts
      ≡ sum_map (λ a. balance_from workspace at_hand s a (front ++ back) a.opening_balance) accounts
        +ℤ effects_over workspace at_hand s item accounts
sum_balances workspace at_hand s item front back [] = omega int_laws
sum_balances workspace at_hand s item front back (a ∷ accounts) =
    rw
      (
        balance_from-insert workspace at_hand s a item front back,
        sum_balances workspace at_hand s item front back accounts,
      )
      (omega int_laws)

-- A transfer moves money and makes none: with it among the transactions of `calculate_balances` or
-- without it, the balances of the accounts have one sum, if the accounts mention its source and its
-- target equally often (once each, say) and all of them were open by then.
pub transfer_conserves :
    (workspace : ℕ) (at_hand : List Transaction) (s : Store) (item : Transaction) (target : ℕ)
    (front back : List Transaction) (accounts : List Account)
    → item.transaction_type ≡ transfer
    → item.target_account_id ≡ some target
    → count_account item.account_id accounts ≡ count_account target accounts
    → All (λ a. ltb item.occurred_at a.opening_balance_at ≡ false) accounts
    → sum_map
        (λ a. balance_from workspace at_hand s a (front ++ item ∷ back) a.opening_balance)
        accounts
      ≡ sum_map (λ a. balance_from workspace at_hand s a (front ++ back) a.opening_balance) accounts
transfer_conserves workspace at_hand s item target front back accounts kind to once opened =
    let moved = effects_of_transfer workspace at_hand s item target accounts kind to opened in
    rw (sum_balances workspace at_hand s item front back accounts, moved, once) (omega int_laws)
