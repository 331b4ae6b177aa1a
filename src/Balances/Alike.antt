-- ===== src/Balances/Alike.antt =====
-- What the balances read of the rows: two tables whose rows agree on that have the same balances.
use finspace.Common.{
  ℕ, ◌≡◌, refl, ap, ◌∙◌, Bool, Option, none, some, List, [], ◌∷◌, ◌&&◌, ◌==◌, ltb, leb,
  if◌then◌else◌, is_none, same_option, find, arith,
}
use finspace.Common.Int.{ℤ}
use finspace.Common.Pointwise.{
  Pointwise, Related, filter-Pointwise, find-Pointwise, sort_by-Pointwise,
}
use finspace.Model.{Account, Transaction, TransactionType, is_effective}
use finspace.Model.Store.{Store}
use finspace.Balances.{
  AccountBalance, counts, counted_transactions, listed_accounts, original_of, add_refund, add_item,
  balance_step, balance_from, opens_later, balances_of, calculate_balances,
}

pub record Alike (t u : Transaction) : Type 0 where
  pub key : t.id ≡ u.id
  pub workspace : t.workspace_id ≡ u.workspace_id
  pub type : t.transaction_type ≡ u.transaction_type
  pub amount : t.amount ≡ u.amount
  pub source : t.account_id ≡ u.account_id
  pub target : t.target_account_id ≡ u.target_account_id
  pub original : t.related_transaction_id ≡ u.related_transaction_id
  pub instant : t.occurred_at ≡ u.occurred_at
  pub deletion : t.deleted_at ≡ u.deleted_at
  pub effect : is_effective t.status ≡ is_effective u.status

pub record AlikeAccount (a b : Account) : Type 0 where
  pub key : a.id ≡ b.id
  pub workspace : a.workspace_id ≡ b.workspace_id
  pub name : a.name ≡ b.name
  pub currency : a.currency ≡ b.currency
  pub opening : a.opening_balance ≡ b.opening_balance
  pub opened : a.opening_balance_at ≡ b.opening_balance_at
  pub deletion : a.deleted_at ≡ b.deleted_at

counts-Alike :
    (workspace : ℕ) (as_of : Option ℕ) (t u : Transaction)
    → Alike t u
    → counts workspace as_of t ≡ counts workspace as_of u
unfolding counts
counts-Alike workspace as_of t u h = rw (h.workspace, h.effect, h.deletion, h.instant) refl

original_of-Alike :
    (workspace : ℕ) (ts us : List Transaction) (s r : Store) (o : Option ℕ)
    → Pointwise Alike ts us
    → Pointwise Alike s.transactions r.transactions
    → Related Alike (original_of workspace ts s o) (original_of workspace us r o)
unfolding original_of
original_of-Alike workspace ts us s r none h k = tt
original_of-Alike workspace ts us s r (some id) h k =
    either (find (λ t. t.id == id) ts) (find (λ t. t.id == id) us)
      (find-Pointwise Alike (λ t. t.id == id) ts us (λ t u a. ap (λ n. n == id) a.key) h)
      (find-Pointwise Alike (λ t. (t.id == id) && (t.workspace_id == workspace)) s.transactions
        r.transactions (λ t u a. rw (a.key, a.workspace) refl) k)
  where
    either :
        (o p : Option Transaction)
        → Related Alike o p
        → Related Alike
            (find (λ t. (t.id == id) && (t.workspace_id == workspace)) s.transactions)
            (find (λ t. (t.id == id) && (t.workspace_id == workspace)) r.transactions)
        → Related Alike
            (elim o [
              | some t ↦ some t
              | none ↦ find (λ t. (t.id == id) && (t.workspace_id == workspace)) s.transactions
            ])
            (elim p [
              | some t ↦ some t
              | none ↦ find (λ t. (t.id == id) && (t.workspace_id == workspace)) r.transactions
            ])
    either none none a b = b
    either none (some u) a b = absurd a
    either (some t) none a b = absurd a
    either (some t) (some u) a b = a

add_refund-Alike :
    (o p : Option Transaction) (amount balance : ℤ)
    → Related Alike o p
    → add_refund o amount balance ≡ add_refund p amount balance
add_refund-Alike none none amount balance h = refl
add_refund-Alike none (some u) amount balance h = absurd h
add_refund-Alike (some t) none amount balance h = absurd h
add_refund-Alike (some t) (some u) amount balance h = rw h.type refl

add_item-Alike :
    (type : TransactionType) (mine theirs : Bool) (o p : Option Transaction) (amount balance : ℤ)
    → Related Alike o p
    → add_item type mine theirs o amount balance ≡ add_item type mine theirs p amount balance
add_item-Alike type mine theirs o p amount balance h =
    ground (arith, add_refund-Alike o p amount balance h)

balance_step-Alike :
    (workspace : ℕ) (ts us : List Transaction) (s r : Store) (a b : Account) (t u : Transaction)
    (balance : ℤ)
    → Pointwise Alike ts us
    → Pointwise Alike s.transactions r.transactions
    → AlikeAccount a b
    → Alike t u
    → balance_step workspace ts s a t balance ≡ balance_step workspace us r b u balance
unfolding balance_step
balance_step-Alike workspace ts us s r a b t u balance h k same h' =
    let refunded = original_of-Alike workspace ts us s r u.related_transaction_id h k in
    let added =
      add_item-Alike u.transaction_type (u.account_id == b.id)
        (same_option u.target_account_id (some b.id))
        (original_of workspace ts s u.related_transaction_id)
        (original_of workspace us r u.related_transaction_id) u.amount balance refunded in
    rw (h'.instant, same.opened, h'.type, h'.source, h'.target, same.key, h'.original, h'.amount)
      (ap (λ z. if ltb u.occurred_at b.opening_balance_at then balance else z) added)

balance_from-Alike :
    (workspace : ℕ) (ts us : List Transaction) (s r : Store) (a b : Account)
    (xs ys : List Transaction) (balance : ℤ)
    → Pointwise Alike ts us
    → Pointwise Alike s.transactions r.transactions
    → AlikeAccount a b
    → Pointwise Alike xs ys
    → balance_from workspace ts s a xs balance ≡ balance_from workspace us r b ys balance
unfolding balance_from
balance_from-Alike workspace ts us s r a b [] [] balance h k same l = refl
balance_from-Alike workspace ts us s r a b [] (y ∷ ys) balance h k same l = absurd l
balance_from-Alike workspace ts us s r a b (x ∷ xs) [] balance h k same l = absurd l
balance_from-Alike workspace ts us s r a b (x ∷ xs) (y ∷ ys) balance h k same l =
    balance_from-Alike workspace ts us s r a b xs ys _ h k same l.1
    ∙ ap (balance_from workspace us r b ys)
        (balance_step-Alike workspace ts us s r a b x y balance h k same l.0)

opens_later-Alike :
    (as_of : Option ℕ) (a b : Account)
    → a.opening_balance_at ≡ b.opening_balance_at
    → opens_later as_of a ≡ opens_later as_of b
opens_later-Alike none a b h = refl
opens_later-Alike (some limit) a b h = ap (λ n. leb limit n) h

same_balance :
    (p q : AccountBalance)
    → p.account_id ≡ q.account_id
    → p.name ≡ q.name
    → p.currency ≡ q.currency
    → p.opening_balance ≡ q.opening_balance
    → p.balance ≡ q.balance
    → p ≡ q
same_balance p q key name currency opening balance = ground arith

chosen :
    (c d : Bool) (p q : AccountBalance) (ps qs : List AccountBalance)
    → c ≡ d
    → p ≡ q
    → ps ≡ qs
    → (if c then ps else p ∷ ps) ≡ (if d then qs else q ∷ qs)
chosen c d p q ps qs same row rest = rw (same, row, rest) refl

balances_of-Alike :
    (workspace : ℕ) (as_of : Option ℕ) (ts us : List Transaction) (s r : Store)
    (xs ys : List Account)
    → Pointwise Alike ts us
    → Pointwise Alike s.transactions r.transactions
    → Pointwise AlikeAccount xs ys
    → balances_of workspace as_of ts s xs ≡ balances_of workspace as_of us r ys
unfolding balances_of
balances_of-Alike workspace as_of ts us s r [] [] h k l = refl
balances_of-Alike workspace as_of ts us s r [] (y ∷ ys) h k l = absurd l
balances_of-Alike workspace as_of ts us s r (x ∷ xs) [] h k l = absurd l
balances_of-Alike workspace as_of ts us s r (x ∷ xs) (y ∷ ys) h k l =
    let rest = balances_of-Alike workspace as_of ts us s r xs ys h k l.1 in
    let one =
      balance_from-Alike workspace ts us s r x y ts us x.opening_balance h k l.0 h
      ∙ ap (balance_from workspace us r y us) l.0.opening in
    chosen (opens_later as_of x) (opens_later as_of y) _ _ _ _
      (opens_later-Alike as_of x y l.0.opened)
      (same_balance _ _ l.0.key l.0.name l.0.currency l.0.opening one) rest

-- Tables whose transactions agree one by one in what a balance reads, and whose accounts do, have
-- the same balances.
pub calculate_balances-Alike :
    (workspace : ℕ) (as_of : Option ℕ) (s r : Store)
    → Pointwise Alike s.transactions r.transactions
    → Pointwise AlikeAccount s.accounts r.accounts
    → calculate_balances workspace as_of s ≡ calculate_balances workspace as_of r
unfolding calculate_balances listed_accounts counted_transactions
calculate_balances-Alike workspace as_of s r h k =
    balances_of-Alike workspace as_of _ _ s r _ _
      (filter-Pointwise Alike (counts workspace as_of) s.transactions r.transactions
        (counts-Alike workspace as_of) h)
      h
      (sort_by-Pointwise AlikeAccount _ _ _ (λ a b c d l m. rw (l.name, m.name, l.key, m.key) refl)
        (filter-Pointwise AlikeAccount (λ a. (a.workspace_id == workspace) && is_none a.deleted_at)
          s.accounts r.accounts (λ a b l. rw (l.workspace, l.deletion) refl) k))
