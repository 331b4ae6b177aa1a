-- ===== src/Balances/Entries.antt =====
-- Balances as double entries: what is paid in, less what is paid out.
use finspace.Common.{
  ℕ, ◌≡◌, Bool, true, false, Option, none, some, List, [], ◌∷◌, ◌&&◌, ◌||◌, not, ◌==◌, ltb,
  same_option, arith, filter, Bool-cases, inl, inr,
}
use finspace.Common.Int.{ℤ, pos, ◌+ℤ◌, ◌-ℤ◌, int_laws}
use finspace.Common.Queries.{sum_map}
use finspace.Model.{
  Account, Transaction, TransactionType, income, expense, transfer, refund, adjustment,
}
use finspace.Model.Store.{Store}
use finspace.Balances.{add_refund, add_item, original_of, balance_step, balance_from}

-- The types of which the source account is paid.
abbrev is_receipt : TransactionType → Bool
is_receipt income = true
is_receipt adjustment = true
is_receipt _ = false

-- The types which the source account pays.
abbrev is_payment : TransactionType → Bool
is_payment expense = true
is_payment transfer = true
is_payment _ = false

abbrev is_transfer : TransactionType → Bool
is_transfer transfer = true
is_transfer _ = false

abbrev is_refund : TransactionType → Bool
is_refund refund = true
is_refund _ = false

abbrev returns_expense : Option Transaction → Bool
returns_expense none = false
returns_expense (some t) = elim t.transaction_type [ expense ↦ true | _ ↦ false ]

abbrev returns_income : Option Transaction → Bool
returns_income none = false
returns_income (some t) = elim t.transaction_type [ income ↦ true | _ ↦ false ]

-- The account is paid: it is the source of an income, an adjustment or the refund of an expense,
-- or the target of a transfer.
abbrev pub is_credit : TransactionType → Bool → Bool → Option Transaction → Bool
is_credit type mine theirs original =
    (mine && (is_receipt type || (is_refund type && returns_expense original)))
    || (theirs && is_transfer type)

-- The account pays: it is the source of an expense, a transfer or the refund of an income.
abbrev pub is_debit : TransactionType → Bool → Option Transaction → Bool
is_debit type mine original =
    mine && (is_payment type || (is_refund type && returns_income original))

abbrev when : Bool → ℤ → ℤ
when true amount = amount
when false amount = pos 0

add_refund-entries :
    (o : Option Transaction) (a b : ℤ)
    → add_refund o a b ≡ (b +ℤ when (returns_expense o) a) -ℤ when (returns_income o) a
add_refund-entries none a b = omega int_laws
add_refund-entries (some t) a b =
    elim t.transaction_type
      as (λ k.
        (elim k [ expense ↦ b +ℤ a | income ↦ b -ℤ a | _ ↦ b ])
        ≡ (b +ℤ when (elim k [ expense ↦ true | _ ↦ false ]) a)
          -ℤ when (elim k [ income ↦ true | _ ↦ false ]) a) [
            | expense ↦ omega int_laws
            | income ↦ omega int_laws
            | transfer ↦ omega int_laws
            | refund ↦ omega int_laws
            | adjustment ↦ omega int_laws
          ]

or_false : (a : Bool) → (a || false) ≡ a
or_false a = ground arith

add_item-entries :
    (type : TransactionType) (mine theirs : Bool) (o : Option Transaction) (a b : ℤ)
    → add_item type mine theirs o a b
      ≡ (b +ℤ when (is_credit type mine theirs o) a) -ℤ when (is_debit type mine o) a
add_item-entries income true true o a b = omega int_laws
add_item-entries income true false o a b = omega int_laws
add_item-entries income false true o a b = omega int_laws
add_item-entries income false false o a b = omega int_laws
add_item-entries expense true true o a b = omega int_laws
add_item-entries expense true false o a b = omega int_laws
add_item-entries expense false true o a b = omega int_laws
add_item-entries expense false false o a b = omega int_laws
add_item-entries transfer true true o a b = omega int_laws
add_item-entries transfer true false o a b = omega int_laws
add_item-entries transfer false true o a b = omega int_laws
add_item-entries transfer false false o a b = omega int_laws
add_item-entries refund true true o a b =
    rw (or_false (returns_expense o)) (add_refund-entries o a b)
add_item-entries refund true false o a b =
    rw (or_false (returns_expense o)) (add_refund-entries o a b)
add_item-entries refund false true o a b = omega int_laws
add_item-entries refund false false o a b = omega int_laws
add_item-entries adjustment true true o a b = omega int_laws
add_item-entries adjustment true false o a b = omega int_laws
add_item-entries adjustment false true o a b = omega int_laws
add_item-entries adjustment false false o a b = omega int_laws

-- What the account is paid by a transaction since its opening, and what it pays.
abbrev pub credits : ℕ → List Transaction → Store → Account → Transaction → Bool
credits workspace at_hand s account item =
    not (ltb item.occurred_at account.opening_balance_at)
    && is_credit item.transaction_type (item.account_id == account.id)
        (same_option item.target_account_id (some account.id))
        (original_of workspace at_hand s item.related_transaction_id)

abbrev pub debits : ℕ → List Transaction → Store → Account → Transaction → Bool
debits workspace at_hand s account item =
    not (ltb item.occurred_at account.opening_balance_at)
    && is_debit item.transaction_type (item.account_id == account.id)
        (original_of workspace at_hand s item.related_transaction_id)

abbrev pub sum_amounts : List Transaction → ℤ
sum_amounts ts = sum_map (λ t. t.amount) ts

balance_step-entries :
    (workspace : ℕ) (at_hand : List Transaction) (s : Store) (account : Account)
    (item : Transaction) (b : ℤ)
    → balance_step workspace at_hand s account item b
      ≡ (b +ℤ when (credits workspace at_hand s account item) item.amount)
        -ℤ when (debits workspace at_hand s account item) item.amount
unfolding balance_step
balance_step-entries workspace at_hand s account item b =
    elim (Bool-cases (ltb item.occurred_at account.opening_balance_at)) [
      | inl early ↦ rw early (omega int_laws)
      | inr counted ↦ rw counted (add_item-entries item.transaction_type _ _ _ item.amount b)
    ]

sum_amounts-filter :
    (p : Transaction → Bool) (t : Transaction) (ts : List Transaction)
    → sum_amounts (filter p (t ∷ ts)) ≡ when (p t) t.amount +ℤ sum_amounts (filter p ts)
sum_amounts-filter p t ts = elim (Bool-cases (p t)) [
  | inl kept ↦ rw kept (omega int_laws)
  | inr out ↦ rw out (omega int_laws)
]

-- The balance that the loop of `calculate_balances` comes to is the one that it starts from, and
-- the amounts of the transactions that pay the account, less the amounts of those that it pays: it
-- is paid as the source of an income, an adjustment or the refund of an expense and as the target
-- of a transfer, and pays as the source of an expense, a transfer or the refund of an income, in
-- both cases from its opening on.
pub balance_from_lem :
    (workspace : ℕ) (at_hand : List Transaction) (s : Store) (account : Account)
    (items : List Transaction) (b : ℤ)
    → balance_from workspace at_hand s account items b
      ≡ (b +ℤ sum_amounts (filter (credits workspace at_hand s account) items))
        -ℤ sum_amounts (filter (debits workspace at_hand s account) items)
unfolding balance_from
balance_from_lem workspace at_hand s account [] b = omega int_laws
balance_from_lem workspace at_hand s account (item ∷ items) b =
    rw
      (
        balance_from_lem workspace at_hand s account items _,
        balance_step-entries workspace at_hand s account item b,
        sum_amounts-filter (credits workspace at_hand s account) item items,
        sum_amounts-filter (debits workspace at_hand s account) item items,
      )
      (omega int_laws)
