-- ===== src/Reconciliation/Written.antt =====
-- What a confirmed reconciliation writes agrees with what was there in all that a balance reads: a
-- reconciled transaction counts like a confirmed one.
use finspace.Common.{
  ℕ, ◌≡◌, refl, sym, ap, ◌∙◌, subst, Bool, true, false, Option, some, List, [], ◌∷◌, ◌==◌, All,
  All-map, find, find-All, ◌++◌, arith, Bool-cases, inl, inr,
}
use finspace.Common.Pointwise.{Pointwise, Pointwise-refl, Pointwise-trans}
use finspace.Model.{Account, AccountReconciliation, Transaction, is_effective, Context}
use finspace.Model.Store.{Store, put_transaction, put_account, record_audit}
use finspace.Model.Store.Untouched.{enqueue_entity_outbox}
use finspace.Balances.{calculate_balances}
use finspace.Balances.Alike.{Alike, AlikeAccount, calculate_balances-Alike}
use finspace.Reconciliation.{
  reconciled_transaction, reconcile_transaction, reconcile_transactions, reconciled_account,
  reconcile_account, save_reconciliation,
}

pub Alike-refl : (t : Transaction) → Alike t t
Alike-refl t = record {
  key = refl;
  workspace = refl;
  type = refl;
  amount = refl;
  source = refl;
  target = refl;
  original = refl;
  instant = refl;
  deletion = refl;
  effect = refl;
}

Alike-trans : (t u v : Transaction) → Alike t u → Alike u v → Alike t v
Alike-trans t u v h k = record {
  key = h.key ∙ k.key;
  workspace = h.workspace ∙ k.workspace;
  type = h.type ∙ k.type;
  amount = h.amount ∙ k.amount;
  source = h.source ∙ k.source;
  target = h.target ∙ k.target;
  original = h.original ∙ k.original;
  instant = h.instant ∙ k.instant;
  deletion = h.deletion ∙ k.deletion;
  effect = h.effect ∙ k.effect;
}

Alike-sym : (t u : Transaction) → Alike t u → Alike u t
Alike-sym t u h = record {
  key = sym h.key;
  workspace = sym h.workspace;
  type = sym h.type;
  amount = sym h.amount;
  source = sym h.source;
  target = sym h.target;
  original = sym h.original;
  instant = sym h.instant;
  deletion = sym h.deletion;
  effect = sym h.effect;
}

-- The rows of a transaction's key are like it.
abbrev pub IsLikeRows : List Transaction → Transaction → Type 0
IsLikeRows base t = All (λ u. (u.id == t.id) ≡ true → Alike t u) base

put_transaction-Alike :
    (t : Transaction) (xs : List Transaction)
    → IsLikeRows xs t
    → Pointwise Alike (put_transaction t xs) xs
unfolding put_transaction
put_transaction-Alike t [] h = tt
put_transaction-Alike t (x ∷ xs) h = elim (Bool-cases (x.id == t.id)) [
  | inl same ↦ rw same (h.0 same, put_transaction-Alike t xs h.1)
  | inr other ↦ rw other (Alike-refl x, put_transaction-Alike t xs h.1)
]

-- So are the rows of a table that is like it.
carried :
    (t : Transaction) (xs base : List Transaction)
    → Pointwise Alike xs base
    → IsLikeRows base t
    → IsLikeRows xs t
carried t [] [] h k = tt
carried t [] (y ∷ ys) h k = absurd h
carried t (x ∷ xs) [] h k = absurd h
carried t (x ∷ xs) (y ∷ ys) h k = (
  λ same. Alike-trans t y x (k.0 (ap (λ n. n == t.id) (sym h.0.key) ∙ same)) (Alike-sym x y h.0),
  carried t xs ys h.1 k.1,
)

marked :
    (c : Context) (t : Transaction)
    → is_effective t.status ≡ true
    → Alike (reconciled_transaction c t) t
marked c t effective = record {
  key = refl;
  workspace = refl;
  type = refl;
  amount = refl;
  source = refl;
  target = refl;
  original = refl;
  instant = refl;
  deletion = refl;
  effect = sym effective;
}

marked_stands :
    (c : Context) (t : Transaction) (xs : List Transaction)
    → is_effective t.status ≡ true
    → IsLikeRows xs t
    → IsLikeRows xs (reconciled_transaction c t)
marked_stands c t xs effective h =
    All-map _ _ xs
      (λ u k same. Alike-trans (reconciled_transaction c t) t u (marked c t effective) (k same)) h

abbrev pub IsCounted : List Transaction → Transaction → Type 0
IsCounted base t = (is_effective t.status ≡ true) × IsLikeRows base t

reconcile_transaction-tables :
    (c : Context) (id : ℕ) (t : Transaction) (s : Store)
    → ((reconcile_transaction c id t s).transactions
        ≡ put_transaction (reconciled_transaction c t) s.transactions)
      × ((reconcile_transaction c id t s).accounts ≡ s.accounts)
unfolding reconcile_transaction record_audit
reconcile_transaction-tables c id t s =
    let plain = enqueue_entity_outbox c _ _ _ _ _ in
    (ap (λ x. x.transactions) plain, ap (λ x. x.accounts) plain)

reconcile_transactions-tables :
    (c : Context) (id : ℕ) (ts : List Transaction) (s : Store) (base : List Transaction)
    → Pointwise Alike s.transactions base
    → All (IsCounted base) ts
    → Pointwise Alike (reconcile_transactions c id ts s).transactions base
      × ((reconcile_transactions c id ts s).accounts ≡ s.accounts)
unfolding reconcile_transactions
reconcile_transactions-tables c id [] s base h k = (h, refl)
reconcile_transactions-tables c id (t ∷ ts) s base h k =
    let (rows, accounts) = reconcile_transaction-tables c id t s in
    let here =
      put_transaction-Alike (reconciled_transaction c t) s.transactions
        (marked_stands c t s.transactions k.0.0 (carried t s.transactions base h k.0.1)) in
    let one : Pointwise Alike (reconcile_transaction c id t s).transactions base =
      subst (λ xs. Pointwise Alike xs base) (sym rows)
        (Pointwise-trans Alike Alike-trans _ _ _ here h) in
    let (later, kept) =
      reconcile_transactions-tables c id ts (reconcile_transaction c id t s) base one k.1 in
    (later, kept ∙ accounts)

-- Primary keys of accounts are unique.
abbrev pub HasKeys : List Account → Type 0
HasKeys [] = Unit
HasKeys (a ∷ xs) = All (λ b. (b.id == a.id) ≡ false) xs × HasKeys xs

pub AlikeAccount-refl : (a : Account) → AlikeAccount a a
AlikeAccount-refl a = record {
  key = refl;
  workspace = refl;
  name = refl;
  currency = refl;
  opening = refl;
  opened = refl;
  deletion = refl;
}

abbrev IsLikeAccounts : List Account → Account → Type 0
IsLikeAccounts base a = All (λ b. (b.id == a.id) ≡ true → AlikeAccount a b) base

pub found_account :
    (p : Account → Bool) (xs : List Account) (a : Account)
    → HasKeys xs
    → find p xs ≡ some a
    → IsLikeAccounts xs a
found_account p [] a h e = tt
found_account p (x ∷ xs) a h e = elim (Bool-cases (p x)) [
  | inl here ↦
      let same : x ≡ a = ground arith in
      subst (IsLikeAccounts (x ∷ xs)) same
        (λ k. AlikeAccount-refl x, All-map _ _ xs (λ b other k. absurd (cc (other, k))) h.0)
  | inr later ↦
      let there : find p xs ≡ some a = ground arith in
      let other = find-All (λ b. (b.id == x.id) ≡ false) p xs a h.0 there in
      (λ k. absurd (ground arith), found_account p xs a h.1 there)
]

put_account-Alike :
    (a : Account) (xs : List Account)
    → IsLikeAccounts xs a
    → Pointwise AlikeAccount (put_account a xs) xs
unfolding put_account
put_account-Alike a [] h = tt
put_account-Alike a (x ∷ xs) h = elim (Bool-cases (x.id == a.id)) [
  | inl same ↦ rw same (h.0 same, put_account-Alike a xs h.1)
  | inr other ↦ rw other (AlikeAccount-refl x, put_account-Alike a xs h.1)
]

changed_account :
    (c : Context) (a b : Account) → AlikeAccount a b → AlikeAccount (reconciled_account c a) b
changed_account c a b h = record {
  key = h.key;
  workspace = h.workspace;
  name = h.name;
  currency = h.currency;
  opening = h.opening;
  opened = h.opened;
  deletion = h.deletion;
}

reconcile_account-tables :
    (c : Context) (a : Account) (s : Store)
    → ((reconcile_account c a s).accounts ≡ put_account (reconciled_account c a) s.accounts)
      × ((reconcile_account c a s).transactions ≡ s.transactions)
unfolding reconcile_account record_audit
reconcile_account-tables c a s =
    let plain = enqueue_entity_outbox c _ _ _ _ _ in
    (ap (λ x. x.accounts) plain, ap (λ x. x.transactions) plain)

-- What a confirmation writes changes no balance.
pub save_reconciliation-balances :
    (c : Context) (a : Account) (ts : List Transaction) (r : AccountReconciliation) (s : Store)
    (workspace : ℕ) (as_of : Option ℕ)
    → All (IsCounted s.transactions) ts
    → IsLikeAccounts s.accounts a
    → calculate_balances workspace as_of (save_reconciliation c a ts r s).1
      ≡ calculate_balances workspace as_of s
unfolding save_reconciliation record_audit
save_reconciliation-balances c a ts r s workspace as_of counted mine =
    let added = record s { reconciliations = s.reconciliations ++ r ∷ [] } in
    let (rows, accounts) =
      reconcile_transactions-tables c r.id ts added s.transactions
        (Pointwise-refl Alike Alike-refl s.transactions) counted in
    let (written, others) = reconcile_account-tables c a (reconcile_transactions c r.id ts added) in
    calculate_balances-Alike workspace as_of _ s
      (subst (λ xs. Pointwise Alike xs s.transactions) (sym others) rows)
      (subst (λ xs. Pointwise AlikeAccount xs s.accounts)
        (sym (written ∙ ap (put_account (reconciled_account c a)) accounts))
        (put_account-Alike (reconciled_account c a) s.accounts
          (All-map _ _ s.accounts (λ b k same. changed_account c a b (k same)) mine)))
