-- ===== src/Balances/Effects.antt =====
-- What one transaction does to one account, and the balances as sums of such effects.
use finspace.Common.{
  ℕ, ◌≡◌, Bool, true, false, Option, none, some, List, [], ◌∷◌, ◌==◌, ltb, same_option, Bool-cases,
  inl, inr, if◌then◌else◌,
}
use finspace.Common.Int.{ℤ, pos, ◌+ℤ◌, ◌-ℤ◌, int_laws}
use finspace.Model.{
  Account, Transaction, TransactionType, income, expense, transfer, refund, adjustment,
}
use finspace.Model.Store.{Store}
use finspace.Balances.{add_refund, add_item, original_of, balance_step, balance_from}

-- The signed effect on an account's balance, from zero.
abbrev pub effect : TransactionType → Bool → Bool → Option Transaction → ℤ → ℤ
effect type mine theirs original amount = add_item type mine theirs original amount (pos 0)

add_refund-eq : (o : Option Transaction) (a b : ℤ) → add_refund o a b ≡ b +ℤ add_refund o a (pos 0)
add_refund-eq none a b = omega int_laws
add_refund-eq (some t) a b =
    elim t.transaction_type
      as (λ k.
        (elim k [ expense ↦ b +ℤ a | income ↦ b -ℤ a | _ ↦ b ])
        ≡ b +ℤ (elim k [ expense ↦ pos 0 +ℤ a | income ↦ pos 0 -ℤ a | _ ↦ pos 0 ])) [
          | expense ↦ omega int_laws
          | income ↦ omega int_laws
          | transfer ↦ omega int_laws
          | refund ↦ omega int_laws
          | adjustment ↦ omega int_laws
        ]

add_item-eq :
    (type : TransactionType) (mine theirs : Bool) (o : Option Transaction) (a b : ℤ)
    → add_item type mine theirs o a b ≡ b +ℤ effect type mine theirs o a
add_item-eq income true theirs o a b = omega int_laws
add_item-eq income false theirs o a b = omega int_laws
add_item-eq expense true theirs o a b = omega int_laws
add_item-eq expense false theirs o a b = omega int_laws
add_item-eq transfer true true o a b = omega int_laws
add_item-eq transfer true false o a b = omega int_laws
add_item-eq transfer false true o a b = omega int_laws
add_item-eq transfer false false o a b = omega int_laws
add_item-eq refund true theirs o a b = add_refund-eq o a b
add_item-eq refund false theirs o a b = omega int_laws
add_item-eq adjustment true theirs o a b = omega int_laws
add_item-eq adjustment false theirs o a b = omega int_laws

-- The effect of a transaction on an account, nothing before the account's opening.
abbrev pub effect_on : ℕ → List Transaction → Store → Account → Transaction → ℤ
effect_on workspace at_hand s account item =
    if ltb item.occurred_at account.opening_balance_at
    then pos 0
    else effect item.transaction_type (item.account_id == account.id)
        (same_option item.target_account_id (some account.id))
        (original_of workspace at_hand s item.related_transaction_id) item.amount

abbrev pub sum_effects : ℕ → List Transaction → Store → Account → List Transaction → ℤ
sum_effects workspace at_hand s account [] = pos 0
sum_effects workspace at_hand s account (item ∷ items) =
    effect_on workspace at_hand s account item +ℤ sum_effects workspace at_hand s account items

balance_step-eq :
    (workspace : ℕ) (at_hand : List Transaction) (s : Store) (account : Account)
    (item : Transaction) (b : ℤ)
    → balance_step workspace at_hand s account item b
      ≡ b +ℤ effect_on workspace at_hand s account item
unfolding balance_step
balance_step-eq workspace at_hand s account item b =
    elim (Bool-cases (ltb item.occurred_at account.opening_balance_at)) [
      | inl early ↦ rw early (omega int_laws)
      | inr counted ↦ rw counted (add_item-eq item.transaction_type _ _ _ item.amount b)
    ]

-- The loop of `calculate_balances` adds to the opening balance each transaction's effect on the
-- account.
pub balance_from-sum_effects :
    (workspace : ℕ) (at_hand : List Transaction) (s : Store) (account : Account)
    (items : List Transaction) (b : ℤ)
    → balance_from workspace at_hand s account items b
      ≡ b +ℤ sum_effects workspace at_hand s account items
unfolding balance_from
balance_from-sum_effects workspace at_hand s account [] b = omega int_laws
balance_from-sum_effects workspace at_hand s account (item ∷ items) b =
    rw
      (
        balance_from-sum_effects workspace at_hand s account items _,
        balance_step-eq workspace at_hand s account item b,
      )
      (omega int_laws)
