-- ===== src/Reconciliation/Balance/Agreement.antt =====
-- The two computations of an account's balance agree: `calculate_balances` as of an instant, and a
-- reconciliation that ends there.
use finspace.Common.{
  ℕ, ◌≡◌, refl, sym, ◌∙◌, ap, Bool, true, false, Option, none, some, List, [], ◌∷◌, ◌==◌, ltb, ◌&&◌,
  same_option, arith, All, All-map, filter, find, any, Bool-cases, Option-cases, inl, inr,
}
use finspace.Common.Int.{ℤ, pos, ◌+ℤ◌, int_laws}
use finspace.Common.Result.{ok, Result-cases}
use finspace.Model.{
  Account, Transaction, TransactionType, income, expense, transfer, refund, adjustment, is_refund,
}
use finspace.Model.Store.{Store}
use finspace.Model.Store.Rows.{IsUnique, is_row, find_row}
use finspace.Common.Queries.{
  All-forall, find-filter, find_congr, any-filter, any-sort_by, any_of_All, sum_map, sum_map-filter,
  sum_map-sort_by,
}
use finspace.Balances.{add_refund, original_of, counts, counted_transactions, balance_from}
use finspace.Balances.Effects.{effect, effect_on, sum_effects, balance_from-sum_effects}
use finspace.Reconciliation.Balance.{
  transaction_leb, is_selected, effective_transactions, originals, is_referred, original_among,
  refund_effect, signed_amount, transaction_effect, sum_signed, calculated_balance,
}

zero_plus : (a : ℤ) → a ≡ pos 0 +ℤ a
zero_plus a = omega int_laws

refund_effect-eq :
    (t : Transaction) (a : ℤ) → refund_effect (some t) a ≡ add_refund (some t) a (pos 0)
refund_effect-eq t a = ground (arith, zero_plus a)

-- Both ladders give one effect.
signed_amount-effect :
    (type : TransactionType) (mine theirs : Bool) (o : Option Transaction) (a : ℤ)
    → signed_amount type mine theirs o a ≡ effect type mine theirs o a
signed_amount-effect income true theirs o a = omega int_laws
signed_amount-effect income false theirs o a = refl
signed_amount-effect expense true theirs o a = refl
signed_amount-effect expense false theirs o a = refl
signed_amount-effect transfer true true o a = refl
signed_amount-effect transfer true false o a = refl
signed_amount-effect transfer false true o a = refl
signed_amount-effect transfer false false o a = refl
signed_amount-effect adjustment true theirs o a = omega int_laws
signed_amount-effect adjustment false theirs o a = refl
signed_amount-effect refund false theirs o a = refl
signed_amount-effect refund true theirs none a = refl
signed_amount-effect refund true theirs (some t) a = refund_effect-eq t a

-- `calculate_balances` finds a refund's original by key and workspace.
original_of-eq :
    (workspace : ℕ) (as_of : Option ℕ) (s : Store) (id : ℕ)
    → IsUnique s.transactions
    → original_of workspace (counted_transactions workspace as_of s) s (some id)
      ≡ find (is_row workspace id) s.transactions
unfolding original_of counted_transactions
original_of-eq workspace as_of s id unique =
    elim (Option-cases (find (λ t. t.id == id) (filter (counts workspace as_of) s.transactions))) [
      | inl missing ↦ rw (missing, original_of)
      | inr (t, e) ↦
          rw (e, original_of)
            (sym (
              find_row workspace id (λ u. counts workspace as_of u && (u.id == id)) s.transactions t
                unique (λ u h. ground arith) (sym (find-filter _ _ s.transactions) ∙ e)))
    ]

-- A reconciliation finds it so too, among the rows that it has loaded, if the refund is one of its
-- own transactions.
original_among-eq :
    (account : Account) (ts : List Transaction) (s : Store) (id : ℕ)
    → is_referred ts id ≡ true
    → original_among (originals account ts s) (some id)
      ≡ find (is_row account.workspace_id id) s.transactions
unfolding original_among originals
original_among-eq account ts s id referred =
    find-filter _ _ s.transactions
    ∙ find_congr
        (λ x. (is_referred ts x.id && (x.workspace_id == account.workspace_id)) && (x.id == id))
        (is_row account.workspace_id id) s.transactions
        (λ t. elim (Bool-cases (t.id == id)) [
          | inl same ↦ let key : t.id ≡ id = ground arith in rw key (ground arith)
          | inr other ↦ ground arith
        ])

-- A reconciliation that succeeds has added up the effects of its transactions.
sum_signed-ok :
    (account : Account) (rows items : List Transaction) (z : ℤ)
    → sum_signed account rows items ≡ ok z
    → z ≡ sum_map (transaction_effect account rows) items
unfolding sum_signed
sum_signed-ok account rows [] z h = ground arith
sum_signed-ok account rows (item ∷ items) z h =
    elim (Result-cases (sum_signed account rows items)) [
      | inl (rest, e) ↦
          let tail = sum_signed-ok account rows items rest e in
          let whole : z ≡ transaction_effect account rows item +ℤ rest = ground arith in
          whole ∙ ap (λ y. transaction_effect account rows item +ℤ y) tail
      | inr (x, e) ↦ absurd (ground arith)
    ]

sum_effects-sum_map :
    (workspace : ℕ) (at_hand : List Transaction) (s : Store) (account : Account)
    (items : List Transaction)
    → sum_effects workspace at_hand s account items
      ≡ sum_map (effect_on workspace at_hand s account) items
sum_effects-sum_map workspace at_hand s account [] = refl
sum_effects-sum_map workspace at_hand s account (item ∷ items) =
    ap (λ z. effect_on workspace at_hand s account item +ℤ z)
      (sum_effects-sum_map workspace at_hand s account items)

-- The original matters to refunds only.
effect_original :
    (type : TransactionType) (mine theirs : Bool) (o o' : Option Transaction) (a : ℤ)
    → (is_refund type ≡ true → o ≡ o')
    → effect type mine theirs o a ≡ effect type mine theirs o' a
effect_original income mine theirs o o' a h = refl
effect_original expense mine theirs o o' a h = refl
effect_original transfer mine theirs o o' a h = refl
effect_original adjustment mine theirs o o' a h = refl
effect_original refund mine theirs o o' a h = rw (h refl)

effect_of_others :
    (type : TransactionType) (o : Option Transaction) (a : ℤ) → effect type false false o a ≡ pos 0
effect_of_others income o a = refl
effect_of_others expense o a = refl
effect_of_others transfer o a = refl
effect_of_others adjustment o a = refl
effect_of_others refund o a = refl

module _ (account : Account) (cutoff : ℕ) (s : Store) (unique : IsUnique s.transactions) where
  abbrev mine : List Transaction
  mine = effective_transactions account.workspace_id account cutoff s

  abbrev counted : List Transaction
  counted = counted_transactions account.workspace_id (some cutoff) s

  abbrev refers : ℕ → Transaction → Bool
  refers id t = is_refund t.transaction_type && same_option t.related_transaction_id (some id)

  referred_mine :
      (id : ℕ)
      → any (λ t. is_selected account.workspace_id account cutoff t && refers id t) s.transactions
        ≡ is_referred mine id
  unfolding effective_transactions
  referred_mine id =
      sym (any-sort_by transaction_leb (refers id) _ ∙ any-filter (refers id) _ s.transactions)

  abbrev Linked : Transaction → Type 0
  Linked u =
      (id : ℕ)
      → (is_selected account.workspace_id account cutoff u && refers id u) ≡ true
      → is_referred mine id ≡ true

  -- A refund of the selection has its original among the rows loaded.
  linked : All Linked s.transactions
  linked =
      All-forall
        (λ id u.
          (is_selected account.workspace_id account cutoff u && refers id u) ≡ true
          → is_referred mine id ≡ true)
        s.transactions
        (λ id. rw (referred_mine id) at (
          any_of_All (λ t. is_selected account.workspace_id account cutoff t && refers id t)
            s.transactions))

  same_original :
      (related : Option ℕ)
      → ((id : ℕ) → related ≡ some id → is_referred mine id ≡ true)
      → original_among (originals account mine s) related
        ≡ original_of account.workspace_id counted s related
  unfolding original_among original_of
  same_original none h = refl
  same_original (some id) h =
      original_among-eq account mine s id (h id refl)
      ∙ sym (original_of-eq account.workspace_id (some cutoff) s id unique)

  selected_counts :
      (u : Transaction)
      → is_selected account.workspace_id account cutoff u ≡ true
      → (counts account.workspace_id (some cutoff) u ≡ true)
        × (ltb u.occurred_at account.opening_balance_at ≡ false)
  unfolding counts is_selected
  selected_counts u h = ground arith

  -- Where a transaction is selected, both computations count it alike.
  same_effect :
      (u : Transaction)
      → Linked u
      → is_selected account.workspace_id account cutoff u ≡ true
      → transaction_effect account (originals account mine s) u
        ≡ effect_on account.workspace_id counted s account u
  unfolding transaction_effect
  same_effect u link selected = rw (selected_counts u selected).1 (
      signed_amount-effect u.transaction_type _ _ _ u.amount
      ∙ effect_original u.transaction_type _ _ _ _ u.amount
          (λ e. same_original u.related_transaction_id (λ id k. link id (ground arith))))

  -- What is counted but not selected has no effect on the account.
  no_effect :
      (u : Transaction)
      → is_selected account.workspace_id account cutoff u ≡ false
      → counts account.workspace_id (some cutoff) u ≡ true
      → effect_on account.workspace_id counted s account u ≡ pos 0
  unfolding counts is_selected
  no_effect u out counted_in = elim (Bool-cases (ltb u.occurred_at account.opening_balance_at)) [
    | inl early ↦ rw early
    | inr later ↦
        let (not_mine, not_theirs) : ((u.account_id == account.id) ≡ false)
            × (same_option u.target_account_id (some account.id) ≡ false) =
          ground arith in
        rw (later, not_mine, not_theirs) (effect_of_others u.transaction_type _ u.amount)
  ]

  total_eq :
      (total : ℤ)
      → sum_signed account (originals account mine s) mine ≡ ok total
      → total ≡ sum_effects account.workspace_id counted s account counted
  unfolding effective_transactions counted_transactions
  total_eq total e =
      sum_signed-ok account (originals account mine s) mine total e
      ∙ sum_map-sort_by (transaction_effect account (originals account mine s)) transaction_leb _
      ∙ sum_map-filter (transaction_effect account (originals account mine s))
          (effect_on account.workspace_id counted s account)
          (is_selected account.workspace_id account cutoff)
          (counts account.workspace_id (some cutoff)) s.transactions
          (All-map Linked _ s.transactions
            (λ u link. (λ h. ((selected_counts u h).0, same_effect u link h), no_effect u)) linked)
      ∙ sym (sum_effects-sum_map account.workspace_id counted s account counted)

  -- For an account of a ledger with unique primary keys, the balance that a successful
  -- reconciliation computes for a cutoff is the one that `calculate_balances` computes as of it.
  pub calculated_balance-balance_from :
      (z : ℤ)
      → calculated_balance account.workspace_id account cutoff s ≡ ok z
      → z ≡ balance_from account.workspace_id counted s account counted account.opening_balance
  unfolding calculated_balance
  calculated_balance-balance_from z h =
      elim (Result-cases (sum_signed account (originals account mine s) mine)) [
        | inl (total, e) ↦
            let whole : z ≡ account.opening_balance +ℤ total = ground arith in
            whole
            ∙ ap (λ y. account.opening_balance +ℤ y) (total_eq total e)
            ∙ sym (balance_from-sum_effects account.workspace_id counted s account counted _)
        | inr (x, e) ↦ absurd (ground arith)
      ]
