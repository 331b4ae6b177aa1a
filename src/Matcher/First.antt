-- ===== src/Matcher/First.antt =====
-- The rule that wins: the first one, in the order of the rule set, that applies.
use finspace.Common.{
  ℕ, ◌≡◌, refl, sym, ap, subst, Bool, true, false, Option, none, some, List, [], ◌∷◌, ◌++◌, ◌&&◌,
  arith, All, Bool-cases, inl, inr,
}
use finspace.Model.{TransactionType, is_transfer}
use finspace.Matcher.{
  MatchCandidate, PreparedRule, PreparedMatch, occurs_in, same_type, differs_type, differs, lacks,
  matches, category_compatible, match_rules,
}

-- What it is for a rule to apply: the transaction is no transfer, each condition that the rule has
-- holds of it, and the rule's category takes its type.
pub record Applies (t : MatchCandidate) (r : PreparedRule) : Type 0 where
  pub no_transfer : is_transfer t.transaction_type ≡ false
  pub type_fits :
      (k : TransactionType) → r.transaction_type ≡ some k → same_type k t.transaction_type ≡ true
  pub account_fits : (k : ℕ) → r.account_id ≡ some k → k ≡ t.account_id
  pub payee_fits : (k : ℕ) → r.payee_id ≡ some k → t.payee_id ≡ some k
  pub counterparty_fits :
      (n : List ℕ) → r.counterparty_needle ≡ some n → occurs_in n t.counterparty ≡ true
  pub description_fits :
      (n : List ℕ) → r.description_needle ≡ some n → occurs_in n t.description ≡ true
  pub compatible : category_compatible t.transaction_type r.category.category_type ≡ true

abbrev wins : MatchCandidate → PreparedRule → Bool
wins t r = matches r t && category_compatible t.transaction_type r.category.category_type

matches-Applies : (t : MatchCandidate) (r : PreparedRule) → wins t r ≡ true → Applies t r
unfolding matches
matches-Applies t r h = record {
  no_transfer = ground arith;
  type_fits = λ k e. ground arith;
  account_fits = λ k e. ground arith;
  payee_fits = λ k e. ground arith;
  counterparty_fits = λ n e. ground arith;
  description_fits = λ n e. ground arith;
  compatible = ground arith;
}

type_agrees :
    (o : Option TransactionType) (t : TransactionType)
    → ((k : TransactionType) → o ≡ some k → same_type k t ≡ true)
    → differs_type o t ≡ false
type_agrees none t h = refl
type_agrees (some k) t h = ground (arith, h k refl)

account_agrees :
    (o : Option ℕ) (a : ℕ) → ((k : ℕ) → o ≡ some k → k ≡ a) → differs o (some a) ≡ false
account_agrees none a h = refl
account_agrees (some k) a h = ground (arith, h k refl)

payee_agrees : (o x : Option ℕ) → ((k : ℕ) → o ≡ some k → x ≡ some k) → differs o x ≡ false
payee_agrees none x h = refl
payee_agrees (some k) x h = ground (arith, h k refl)

text_agrees :
    (o : Option (List ℕ)) (text : List ℕ)
    → ((n : List ℕ) → o ≡ some n → occurs_in n text ≡ true)
    → lacks o text ≡ false
text_agrees none text h = refl
text_agrees (some n) text h = ground (arith, h n refl)

Applies-matches : (t : MatchCandidate) (r : PreparedRule) → Applies t r → wins t r ≡ true
unfolding matches
Applies-matches t r a = ground (
  arith,
  a.no_transfer,
  type_agrees r.transaction_type t.transaction_type a.type_fits,
  account_agrees r.account_id t.account_id a.account_fits,
  payee_agrees r.payee_id t.payee_id a.payee_fits,
  text_agrees r.counterparty_needle t.counterparty a.counterparty_fits,
  text_agrees r.description_needle t.description a.description_fits,
  a.compatible,
)

-- The answers of `match_rules`: the first rule that applies, with its category; or nothing, if no
-- rule applies.
abbrev pub IsAnswer : MatchCandidate → List PreparedRule → Option PreparedMatch → Type 0
IsAnswer t rs none = All (λ r. ¬ Applies t r) rs
IsAnswer t rs (some m) =
    (before : List PreparedRule) × (r : PreparedRule) × (after : List PreparedRule) × (rs
      ≡ before ++ r ∷ after)
    × All (λ q. ¬ Applies t q) before
    × Applies t r
    × (m.rule ≡ r.rule)
    × (m.category ≡ r.category)

extend :
    (t : MatchCandidate) (r : PreparedRule) (rs : List PreparedRule) (answer : Option PreparedMatch)
    → ¬ Applies t r
    → IsAnswer t rs answer
    → IsAnswer t (r ∷ rs) answer
extend t r rs none h k = (h, k)
extend t r rs (some m) h (before, w, after, e, skipped, applies, rule, category) =
    (r ∷ before, w, after, ap (λ l. r ∷ l) e, (h, skipped), applies, rule, category)

-- `match_rules` answers with the first rule that applies and its category, and with nothing exactly
-- when no rule applies.
pub match_rules-IsAnswer :
    (t : MatchCandidate) (rs : List PreparedRule) → IsAnswer t rs (match_rules rs t)
unfolding match_rules
match_rules-IsAnswer t [] = tt
match_rules-IsAnswer t (r ∷ rs) = elim (Bool-cases (wins t r)) [
  | inl won ↦
      let found : match_rules (r ∷ rs) t ≡ some (record { rule = r.rule; category = r.category }) =
        ground arith in
      subst (IsAnswer t (r ∷ rs)) (sym found)
        ([], r, rs, refl, tt, matches-Applies t r won, refl, refl)
  | inr lost ↦
      let same : match_rules (r ∷ rs) t ≡ match_rules rs t = ground arith in
      let not_r : ¬ Applies t r = λ a. cc (lost, Applies-matches t r a) in
      subst (IsAnswer t (r ∷ rs)) (sym same)
        (extend t r rs (match_rules rs t) not_r (match_rules-IsAnswer t rs))
]
