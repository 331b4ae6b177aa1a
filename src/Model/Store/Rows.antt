-- ===== src/Model/Store/Rows.antt =====
-- Laws of the transactions table: rows found by a query, and a row put in place of its old
-- version.
use finspace.Common.{
  ◌&&◌, find_sound, ℕ, ◌≡◌, refl, Bool, true, false, some, List, [], ◌∷◌, ◌++◌, ◌==◌, arith, All,
  All-append, All-map, filter, find, find-All, Bool-cases, inl, inr,
}
use finspace.Model.{Transaction}
use finspace.Model.Store.{put_transaction}

-- No primary key stands twice.
abbrev pub IsUnique : List Transaction → Type 0
IsUnique [] = Unit
IsUnique (t ∷ ts) = All (λ u. (u.id == t.id) ≡ false) ts × IsUnique ts

-- A row that a query finds is the only one of its primary key.
pub only_row :
    (p : Transaction → Bool) (ts : List Transaction) (t : Transaction)
    → IsUnique ts
    → find p ts ≡ some t
    → All (λ u. (u.id == t.id) ≡ true → u ≡ t) ts
only_row p [] t h e = tt
only_row p (x ∷ xs) t h e = elim (Bool-cases (p x)) [
  | inl here ↦
      let same : x ≡ t = ground arith in
      (
        λ k. same,
        All-map (λ u. (u.id == x.id) ≡ false) (λ u. (u.id == t.id) ≡ true → u ≡ t) xs
            (λ u other k. absurd (ground arith)) h.0,
      )
  | inr later ↦
      let other = find-All (λ u. (u.id == x.id) ≡ false) p xs t h.0 (rw later at e) in
      (λ k. absurd (ground arith), only_row p xs t h.1 (rw later at e))
]

-- The key of a row that a query by key and workspace finds.
abbrev pub is_row : ℕ → ℕ → Transaction → Bool
is_row workspace id t = (t.id == id) && (t.workspace_id == workspace)

-- A row that some query of the key finds is found by key and workspace, if keys are unique.
pub find_row :
    (workspace id : ℕ) (p : Transaction → Bool) (ts : List Transaction) (t : Transaction)
    → IsUnique ts
    → ((u : Transaction) → p u ≡ true → is_row workspace id u ≡ true)
    → find p ts ≡ some t
    → find (is_row workspace id) ts ≡ some t
find_row workspace id p [] t unique h e = cc
find_row workspace id p (x ∷ xs) t unique h e = elim (Bool-cases (p x)) [
  | inl here ↦ rw (h x here) (rw here at e)
  | inr later ↦
      let there : find p xs ≡ some t = rw later at e in
      let mine = h t (find_sound p xs t there) in
      let other = find-All (λ u. (u.id == x.id) ≡ false) p xs t unique.0 there in
      let skipped : is_row workspace id x ≡ false = ground arith in
      rw skipped (find_row workspace id p xs t unique.1 h there)
]

-- What a test excludes before and after a change, the change leaves alone.
pub filter-put_transaction :
    (q : Transaction → Bool) (t : Transaction) (ts : List Transaction)
    → q t ≡ false
    → All (λ u. (u.id == t.id) ≡ true → q u ≡ false) ts
    → filter q (put_transaction t ts) ≡ filter q ts
unfolding put_transaction
filter-put_transaction q t [] out h = refl
filter-put_transaction q t (x ∷ xs) out h = elim (Bool-cases (x.id == t.id)) [
  | inl same ↦ rw (same, out, h.0 same) (filter-put_transaction q t xs out h.1)
  | inr other ↦ rw (other, filter-put_transaction q t xs out h.1)
]

pub All-put_transaction {ℓ} :
    (P : Transaction → Type ℓ) (t : Transaction) (ts : List Transaction)
    → P t
    → All (λ u. (u.id == t.id) ≡ false → P u) ts
    → All P (put_transaction t ts)
unfolding put_transaction
All-put_transaction P t [] new h = tt
All-put_transaction P t (x ∷ xs) new h = elim (Bool-cases (x.id == t.id)) [
  | inl same ↦ rw same (new, All-put_transaction P t xs new h.1)
  | inr other ↦ rw other (h.0 other, All-put_transaction P t xs new h.1)
]

put_transaction_keys :
    (k : ℕ) (t : Transaction) (ts : List Transaction)
    → All (λ u. (u.id == k) ≡ false) ts
    → All (λ u. (u.id == k) ≡ false) (put_transaction t ts)
unfolding put_transaction
put_transaction_keys k t [] h = tt
put_transaction_keys k t (x ∷ xs) h = (ground arith, put_transaction_keys k t xs h.1)

-- Putting a row keeps the primary keys.
pub put_transaction-IsUnique :
    (t : Transaction) (ts : List Transaction) → IsUnique ts → IsUnique (put_transaction t ts)
unfolding put_transaction
put_transaction-IsUnique t [] h = tt
put_transaction-IsUnique t (x ∷ xs) h = elim (Bool-cases (x.id == t.id)) [
  | inl same ↦
      let keys : x.id ≡ t.id = ground arith in
      rw same (rw keys at (put_transaction_keys x.id t xs h.0), put_transaction-IsUnique t xs h.1)
  | inr other ↦ rw other (put_transaction_keys x.id t xs h.0, put_transaction-IsUnique t xs h.1)
]

pub append-IsUnique :
    (t : Transaction) (ts : List Transaction)
    → IsUnique ts
    → All (λ u. (u.id == t.id) ≡ false) ts
    → IsUnique (ts ++ t ∷ [])
append-IsUnique t [] h fresh = (tt, tt)
append-IsUnique t (x ∷ xs) h fresh = (
  All-append (λ u. (u.id == x.id) ≡ false) xs (t ∷ []) h.0 (ground arith, tt),
  append-IsUnique t xs h.1 fresh.1,
)
