-- ===== src/Transactions/Splits.antt =====
-- The splits of one transaction in the table of all splits: their sum, in whatever order they are
-- read, and what `_replace_splits` makes of them.
use mathlib.Core.List.{append-nil}
use finspace.Common.{
  is_empty, ℕ, suc, ◌≡◌, refl, ◌∙◌, ap, false, List, [], ◌∷◌, ◌==◌, not, arith, map, filter,
  filter-append, Bool-cases, inl, inr,
}
use finspace.Common.Int.{ℤ, pos, ◌+ℤ◌, int_laws}
use finspace.Model.{Split, SplitInput}
use finspace.Model.Store.{Store, insert_split, sort_splits, split_leb, get_splits}
use finspace.Transactions.Validate.{sum_amounts}
use finspace.Transactions.Write.{split_input, split_rows, replace_splits}

abbrev pub rows_of : ℕ → List Split → List Split
rows_of id ps = filter (λ p. p.transaction_id == id) ps

abbrev pub total_of : List Split → ℤ
total_of [] = pos 0
total_of (p ∷ ps) = p.amount +ℤ total_of ps

total_of-insert_split :
    (p : Split) (ps : List Split) → total_of (insert_split p ps) ≡ p.amount +ℤ total_of ps
unfolding insert_split
total_of-insert_split p [] = refl
total_of-insert_split p (q ∷ qs) = elim (Bool-cases (split_leb p q)) [
  | inl before ↦ rw before
  | inr after ↦ rw (after, total_of-insert_split p qs) (omega int_laws)
]

total_of-sort_splits : (ps : List Split) → total_of (sort_splits ps) ≡ total_of ps
unfolding sort_splits
total_of-sort_splits [] = refl
total_of-sort_splits (p ∷ ps) =
    total_of-insert_split p (sort_splits ps) ∙ ap (λ z. p.amount +ℤ z) (total_of-sort_splits ps)

is_empty-insert_split : (p : Split) (ps : List Split) → is_empty (insert_split p ps) ≡ false
unfolding insert_split
is_empty-insert_split p [] = refl
is_empty-insert_split p (q ∷ qs) = elim (Bool-cases (split_leb p q)) [
  | inl before ↦ rw before
  | inr after ↦ rw after
]

is_empty-sort_splits : (ps : List Split) → is_empty (sort_splits ps) ≡ is_empty ps
unfolding sort_splits
is_empty-sort_splits [] = refl
is_empty-sort_splits (p ∷ ps) = is_empty-insert_split p (sort_splits ps)

sum_amounts-split_input : (ps : List Split) → sum_amounts (map split_input ps) ≡ total_of ps
sum_amounts-split_input [] = refl
sum_amounts-split_input (p ∷ ps) = ap (λ z. p.amount +ℤ z) (sum_amounts-split_input ps)

is_empty-split_input : (ps : List Split) → is_empty (map split_input ps) ≡ is_empty ps
is_empty-split_input [] = refl
is_empty-split_input (p ∷ ps) = refl

-- The splits that an update starts from add up as the rows do.
pub existing_splits :
    (id : ℕ) (s : Store)
    → (sum_amounts (map split_input (get_splits id s)) ≡ total_of (rows_of id s.splits))
      × (is_empty (map split_input (get_splits id s)) ≡ is_empty (rows_of id s.splits))
unfolding get_splits
existing_splits id s = (
  sum_amounts-split_input _ ∙ total_of-sort_splits (rows_of id s.splits),
  is_empty-split_input _ ∙ is_empty-sort_splits (rows_of id s.splits),
)

rows_of-removed :
    (id : ℕ) (ps : List Split) → rows_of id (filter (λ p. not (p.transaction_id == id)) ps) ≡ []
rows_of-removed id [] = refl
rows_of-removed id (p ∷ ps) = elim (Bool-cases (p.transaction_id == id)) [
  | inl mine ↦ rw mine (rows_of-removed id ps)
  | inr other ↦ rw other (rw other (rows_of-removed id ps))
]

rows_of-kept :
    (id k : ℕ) (ps : List Split)
    → (k == id) ≡ false
    → rows_of k (filter (λ p. not (p.transaction_id == id)) ps) ≡ rows_of k ps
rows_of-kept id k [] h = refl
rows_of-kept id k (p ∷ ps) h = ground (arith, rows_of-kept id k ps h)

rows_of-split_rows :
    (draw : ℕ → ℕ) (now id : ℕ) (inputs : List SplitInput)
    → rows_of id (split_rows draw now id inputs) ≡ split_rows draw now id inputs
unfolding split_rows
rows_of-split_rows draw now id [] = refl
rows_of-split_rows draw now id (p ∷ ps) =
    ground (arith, rows_of-split_rows (λ i. draw (suc i)) now id ps)

rows_of-split_rows_other :
    (draw : ℕ → ℕ) (now id k : ℕ) (inputs : List SplitInput)
    → (k == id) ≡ false
    → rows_of k (split_rows draw now id inputs) ≡ []
unfolding split_rows
rows_of-split_rows_other draw now id k [] h = refl
rows_of-split_rows_other draw now id k (p ∷ ps) h =
    ground (arith, rows_of-split_rows_other (λ i. draw (suc i)) now id k ps h)

total_of-split_rows :
    (draw : ℕ → ℕ) (now id : ℕ) (inputs : List SplitInput)
    → (total_of (split_rows draw now id inputs) ≡ sum_amounts inputs)
      × (is_empty (split_rows draw now id inputs) ≡ is_empty inputs)
unfolding split_rows
total_of-split_rows draw now id [] = (refl, refl)
total_of-split_rows draw now id (p ∷ ps) =
    (ap (λ z. p.amount +ℤ z) (total_of-split_rows (λ i. draw (suc i)) now id ps).0, refl)

-- After the replacement a transaction has the new splits, and no other one has changed.
pub replaced_splits :
    (draw : ℕ → ℕ) (now id : ℕ) (inputs : List SplitInput) (s : Store)
    → rows_of id (replace_splits draw now id inputs s).splits ≡ split_rows draw now id inputs
unfolding replace_splits
replaced_splits draw now id inputs s =
    rw (filter-append (λ (p : Split). p.transaction_id == id), rows_of-removed id s.splits)
      (rows_of-split_rows draw now id inputs)

pub replaced_totals :
    (draw : ℕ → ℕ) (now id : ℕ) (inputs : List SplitInput) (s : Store)
    → (total_of (rows_of id (replace_splits draw now id inputs s).splits) ≡ sum_amounts inputs)
      × (is_empty (rows_of id (replace_splits draw now id inputs s).splits) ≡ is_empty inputs)
replaced_totals draw now id inputs s =
    rw (replaced_splits draw now id inputs s) (total_of-split_rows draw now id inputs)

pub other_splits :
    (draw : ℕ → ℕ) (now id k : ℕ) (inputs : List SplitInput) (s : Store)
    → (k == id) ≡ false
    → rows_of k (replace_splits draw now id inputs s).splits ≡ rows_of k s.splits
unfolding replace_splits
other_splits draw now id k inputs s h =
    rw
      (
        filter-append (λ (p : Split). p.transaction_id == k),
        rows_of-kept id k s.splits h,
        rows_of-split_rows_other draw now id k inputs h,
      )
      (append-nil _)
