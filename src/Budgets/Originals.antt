-- ===== src/Budgets/Originals.antt =====
-- The original of a refund: the projection and the summary find rows that count alike.
use finspace.Common.{
  ℕ, ◌≡◌, refl, sym, ◌∙◌, ap, subst, Bool, true, false, Option, none, some, List, [], ◌∷◌, ◌++◌,
  ◌&&◌, ◌==◌, arith, leb, ltb, is_none, same_option, find, find_sound, filter, any, Bool-cases,
  Option-cases, inl, inr,
}
use finspace.Common.Int.{ℤ, pos}
use finspace.Common.Queries.{
  any_of_none, any_weaker, find_missing, find-filter, find_congr, any-filter, any-sort_by,
}
use finspace.Model.{
  Transaction, TransactionType, income, expense, transfer, refund, adjustment, is_effective,
  is_refund,
}
use finspace.Model.Store.{Store}
use finspace.Model.Store.Rows.{IsUnique, is_row, find_row}
use finspace.Balances.Summary.{
  type_of, summary_transactions, summary_original, is_income_or_expense, is_from, is_to,
}
use finspace.Budgets.{related_original, period_transactions, period_originals}
use finspace.Budgets.Figures.{Figure, incomes, expenses, adjustments, refund_delta}

-- A row that is found fails a test that no row passes.
fails :
    (p q : Transaction → Bool) (ts : List Transaction) (t : Transaction)
    → find p ts ≡ none
    → find q ts ≡ some t
    → p t ≡ false
fails p q [] t h k = cc
fails p q (x ∷ ts) t h k = elim (Bool-cases (q x)) [
  | inl here ↦ let same : x ≡ t = ground arith in subst (λ z. p z ≡ false) same (ground arith)
  | inr later ↦ fails p q ts t (ground arith) (rw later at k)
]

find-append_some :
    (p : Transaction → Bool) (ts us : List Transaction) (t : Transaction)
    → find p ts ≡ some t
    → find p (ts ++ us) ≡ some t
find-append_some p [] us t h = cc
find-append_some p (x ∷ ts) us t h = ground (arith, find-append_some p ts us t)

find-append_both :
    (p : Transaction → Bool) (ts us : List Transaction)
    → find p ts ≡ none
    → find p us ≡ none
    → find p (ts ++ us) ≡ none
find-append_both p [] us h k = k
find-append_both p (x ∷ ts) us h k = ground (arith, find-append_both p ts us)

-- `r.related_transaction_id == id`, for some refund of the period
abbrev pub is_referred : List Transaction → ℕ → Bool
is_referred ts id =
    any (λ r. is_refund r.transaction_type && same_option r.related_transaction_id (some id)) ts

-- The projection finds the original of its own refunds by key and workspace.
pub related_original-eq :
    (workspace start end : ℕ) (s : Store) (id : ℕ)
    → is_referred (period_transactions workspace start end s) id ≡ true
    → related_original
        (period_originals workspace (period_transactions workspace start end s) s)
        (some id)
      ≡ find (is_row workspace id) s.transactions
unfolding related_original period_originals period_transactions
related_original-eq workspace start end s id referred =
    let ts = period_transactions workspace start end s in
    let rows = filter (λ t. (t.workspace_id == workspace) && is_referred ts t.id) s.transactions in
    let loaded : find (λ t. t.id == id) rows ≡ find (is_row workspace id) s.transactions =
      find-filter _ _ s.transactions
      ∙ find_congr (λ x. ((x.workspace_id == workspace) && is_referred ts x.id) && (x.id == id))
          (is_row workspace id) s.transactions
          (λ t. elim (Bool-cases (t.id == id)) [
            | inl same ↦ let key : t.id ≡ id = ground arith in rw key (ground arith)
            | inr other ↦ ground arith
          ]) in
    elim (Option-cases (find (is_row workspace id) s.transactions)) [
      | inr (t, e) ↦ find-append_some (λ t. t.id == id) rows ts t (loaded ∙ e) ∙ sym e
      | inl missing ↦
          let absent =
            find_missing (λ t. t.id == id) ts
              (any-sort_by _ (λ t. t.id == id) _
                ∙ any-filter (λ t. t.id == id) _ s.transactions
                ∙ any_weaker
                    (λ t.
                      ((t.workspace_id == workspace)
                        && leb start t.occurred_at
                        && ltb t.occurred_at end
                        && is_effective t.status
                        && is_none t.deleted_at)
                      && (t.id == id))
                    (is_row workspace id) s.transactions (λ t h. ground arith)
                    (any_of_none _ s.transactions missing)) in
          find-append_both (λ t. t.id == id) rows ts (loaded ∙ missing) absent ∙ sym missing
    ]

other_type :
    (f : Figure) (type : TransactionType) (amount : ℤ)
    → is_income_or_expense type ≡ false
    → refund_delta f (some type) amount ≡ pos 0
other_type f income amount h = cc
other_type f expense amount h = cc
other_type incomes transfer amount h = refl
other_type incomes refund amount h = refl
other_type incomes adjustment amount h = refl
other_type expenses transfer amount h = refl
other_type expenses refund amount h = refl
other_type expenses adjustment amount h = refl
other_type adjustments transfer amount h = refl
other_type adjustments refund amount h = refl
other_type adjustments adjustment amount h = refl

no_type : (f : Figure) (amount : ℤ) → refund_delta f none amount ≡ pos 0
no_type incomes amount = refl
no_type expenses amount = refl
no_type adjustments amount = refl

row_adds_none :
    (f : Figure) (workspace id : ℕ) (s : Store) (amount : ℤ)
    → find
        (λ t.
          (t.id == id) && (t.workspace_id == workspace) && is_income_or_expense t.transaction_type)
        s.transactions
      ≡ none
    → refund_delta f (type_of (find (is_row workspace id) s.transactions)) amount ≡ pos 0
row_adds_none f workspace id s amount nothing =
    let adds = λ (o : Option Transaction). refund_delta f (type_of o) amount in
    elim (Option-cases (find (is_row workspace id) s.transactions)) [
      | inl gone ↦ ap adds gone ∙ no_type f amount
      | inr (t, e) ↦
          let out =
            fails
              (λ t.
                (t.id == id)
                && (t.workspace_id == workspace)
                && is_income_or_expense t.transaction_type)
              (is_row workspace id) s.transactions t nothing e in
          let row = find_sound (is_row workspace id) s.transactions t e in
          ap adds e ∙ other_type f t.transaction_type amount (ground arith)
    ]

abbrev selects : ℕ → Option ℕ → Option ℕ → Transaction → Bool
selects workspace date_from date_to t =
    (t.workspace_id == workspace)
    && is_effective t.status
    && is_none t.deleted_at
    && is_from date_from t.occurred_at
    && is_to date_to t.occurred_at

-- The summary finds an original that counts like the row of its key and workspace.
pub summary_original-eq :
    (f : Figure) (workspace : ℕ) (date_from date_to : Option ℕ) (s : Store) (id : ℕ) (amount : ℤ)
    → IsUnique s.transactions
    → refund_delta f
        (type_of (
          summary_original workspace
            (summary_transactions workspace date_from date_to s)
            s
            (some id)))
        amount
      ≡ refund_delta f (type_of (find (is_row workspace id) s.transactions)) amount
unfolding summary_original summary_transactions
summary_original-eq f workspace date_from date_to s id amount unique =
    let ts = summary_transactions workspace date_from date_to s in
    let adds = λ (o : Option Transaction). refund_delta f (type_of o) amount in
    elim (Option-cases (find (λ t. t.id == id) ts)) [
      | inr (t, e) ↦
          let row =
            find_row workspace id (λ u. selects workspace date_from date_to u && (u.id == id))
              s.transactions t unique (λ u h. ground arith)
              (sym (find-filter _ _ s.transactions) ∙ e) in
          let found : summary_original workspace ts s (some id) ≡ some t = ground arith in
          ap adds (found ∙ sym row)
      | inl missing ↦
          elim (Option-cases (
            find
              (λ t.
                (t.id == id)
                && (t.workspace_id == workspace)
                && is_income_or_expense t.transaction_type)
              s.transactions)) [
                | inr (t, e) ↦
                    let row =
                      find_row workspace id
                        (λ t.
                          (t.id == id)
                          && (t.workspace_id == workspace)
                          && is_income_or_expense t.transaction_type)
                        s.transactions t unique (λ u h. ground arith) e in
                    let found : summary_original workspace ts s (some id) ≡ some t = ground arith in
                    ap adds (found ∙ sym row)
                | inl nothing ↦
                    let lost : summary_original workspace ts s (some id) ≡ none = ground arith in
                    ap adds lost
                    ∙ no_type f amount
                    ∙ sym (row_adds_none f workspace id s amount nothing)
              ]
    ]
