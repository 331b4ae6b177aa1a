-- ===== src/Matcher.antt =====
-- Categorization rules: backend/app/services/categorization_matcher.py, and the query
-- `active_rules` of backend/app/repositories/categorization_rules.py. Texts are lists of code
-- points here, since the matcher looks into them. Unicode's tables are parameters.
use finspace.Common.{
  ℕ, Bool, true, false, Option, none, some, List, [], ◌∷◌, ◌&&◌, ◌||◌, not, ◌==◌, ltb, leb,
  if◌then◌else◌, is_none, same_option, filter, find, sort_by,
}
use finspace.Common.Text.{strip_left, strip_right}
use finspace.Model.{
  TransactionType, income, expense, transfer, refund, adjustment, is_transfer, Category,
  CategoryType, income_category, expense_category, both_categories,
}
pub mod First
pub mod Prepared

-- `unicodedata.normalize("NFKC", …)`, `str.casefold` and the characters that `\s` and `strip` take.
pub record Unicode : Type 0 where
  pub nfkc : List ℕ → List ℕ
  pub casefold : List ℕ → List ℕ
  pub is_space : ℕ → Bool

-- `re.sub(r"\s+", " ", …)`; the flag says that the character before was a space.
unfoldable pub collapse_from : (ℕ → Bool) → Bool → List ℕ → List ℕ
collapse_from is_space after_space [] = []
collapse_from is_space after_space (c ∷ cs) =
    let rest = collapse_from is_space (is_space c) cs in
    if is_space c then (if after_space then rest else 32 ∷ rest) else c ∷ rest

unfoldable pub normalize_match_text : Unicode → Option (List ℕ) → List ℕ
unfolding strip_left strip_right collapse_from
normalize_match_text u none = []
normalize_match_text u (some value) =
    let stripped = strip_right u.is_space (strip_left u.is_space (u.nfkc value)) in
    u.nfkc (u.casefold (collapse_from u.is_space false stripped))

unfoldable pub category_compatible : TransactionType → CategoryType → Bool
category_compatible income income_category = true
category_compatible income both_categories = true
category_compatible income expense_category = false
category_compatible expense expense_category = true
category_compatible expense both_categories = true
category_compatible expense income_category = false
category_compatible transfer _ = false
category_compatible _ _ = true

-- The `needle in text` of the language, for texts as lists of characters.
unfoldable pub starts_with : List ℕ → List ℕ → Bool
starts_with [] text = true
starts_with (c ∷ cs) [] = false
starts_with (c ∷ cs) (d ∷ ds) = c == d && starts_with cs ds

unfoldable pub occurs_in : List ℕ → List ℕ → Bool
unfolding starts_with
occurs_in needle [] = starts_with needle []
occurs_in needle (d ∷ ds) = starts_with needle (d ∷ ds) || occurs_in needle ds

pub record MatchableTransaction : Type 0 where
  pub transaction_type : TransactionType
  pub account_id : ℕ
  pub payee_id : Option ℕ
  pub counterparty : Option (List ℕ)
  pub description : Option (List ℕ)

pub record MatchCandidate : Type 0 where
  pub transaction_type : TransactionType
  pub account_id : ℕ
  pub payee_id : Option ℕ
  pub counterparty : List ℕ
  pub description : List ℕ

unfoldable pub from_transaction : Unicode → MatchableTransaction → MatchCandidate
unfolding normalize_match_text
from_transaction u t = record {
  transaction_type = t.transaction_type;
  account_id = t.account_id;
  payee_id = t.payee_id;
  counterparty = normalize_match_text u t.counterparty;
  description = normalize_match_text u t.description;
}

pub record CategorizationRule : Type 0 where
  pub id : ℕ
  pub workspace_id : ℕ
  pub priority : ℕ
  pub is_active : Bool
  pub transaction_type : Option TransactionType
  pub account_id : Option ℕ
  pub payee_id : Option ℕ
  pub counterparty_contains : Option (List ℕ)
  pub description_contains : Option (List ℕ)
  pub category_id : ℕ
  pub created_at : ℕ
  pub deleted_at : Option ℕ

pub record PreparedRule : Type 0 where
  pub rule : CategorizationRule
  pub category : Category
  pub transaction_type : Option TransactionType
  pub account_id : Option ℕ
  pub payee_id : Option ℕ
  pub counterparty_needle : Option (List ℕ)
  pub description_needle : Option (List ℕ)

abbrev pub same_type : TransactionType → TransactionType → Bool
same_type income income = true
same_type expense expense = true
same_type transfer transfer = true
same_type refund refund = true
same_type adjustment adjustment = true
same_type _ _ = false

-- `self.x is not None and self.x != candidate.x`, for each of the rule's conditions.
abbrev pub differs_type : Option TransactionType → TransactionType → Bool
differs_type none t = false
differs_type (some k) t = not (same_type k t)

abbrev pub differs : Option ℕ → Option ℕ → Bool
differs none x = false
differs (some k) x = not (same_option (some k) x)

abbrev pub lacks : Option (List ℕ) → List ℕ → Bool
lacks none text = false
lacks (some needle) text = not (occurs_in needle text)

-- `PreparedRule.matches`
unfoldable pub matches : PreparedRule → MatchCandidate → Bool
matches r t =
    if is_transfer t.transaction_type
    then false
    else if differs_type r.transaction_type t.transaction_type
    then false
    else if differs r.account_id (some t.account_id)
    then false
    else if differs r.payee_id t.payee_id
    then false
    else if lacks r.counterparty_needle t.counterparty
    then false
    else not (lacks r.description_needle t.description)

pub record PreparedMatch : Type 0 where
  pub rule : CategorizationRule
  pub category : Category

-- `PreparedRuleSet.match`
unfoldable pub match_rules : List PreparedRule → MatchCandidate → Option PreparedMatch
unfolding matches category_compatible
match_rules [] t = none
match_rules (r ∷ rs) t =
    let rest = match_rules rs t in
    if not (matches r t)
    then rest
    else if not (category_compatible t.transaction_type r.category.category_type)
    then rest
    else some (record { rule = r.rule; category = r.category })

-- `PreparedRuleSet.match_transaction`
unfoldable pub match_transaction :
    Unicode → List PreparedRule → MatchableTransaction → Option PreparedMatch
unfolding match_rules from_transaction
match_transaction u rs t = match_rules rs (from_transaction u t)

-- `order_by(priority, created_at, id)`
abbrev pub rule_leb : CategorizationRule → CategorizationRule → Bool
rule_leb a b =
    ltb a.priority b.priority
    || ((a.priority == b.priority)
        && (ltb a.created_at b.created_at || ((a.created_at == b.created_at) && leb a.id b.id)))

unfoldable pub active_rules : ℕ → List CategorizationRule → List CategorizationRule
active_rules workspace rules =
    sort_by rule_leb
      (filter (λ r. (r.workspace_id == workspace) && r.is_active && is_none r.deleted_at) rules)

-- The category of a rule, in the dictionary that the second query fills.
unfoldable pub usable_target : ℕ → List Category → ℕ → Option Category
usable_target workspace categories id =
    find (λ c. (c.id == id) && (c.workspace_id == workspace) && not c.is_archived) categories

abbrev pub needle_of : Unicode → Option (List ℕ) → Option (List ℕ)
needle_of u none = none
needle_of u (some text) = some (normalize_match_text u (some text))

unfoldable pub prepared_rule : Unicode → CategorizationRule → Category → PreparedRule
prepared_rule u r c = record {
  rule = r;
  category = c;
  transaction_type = r.transaction_type;
  account_id = r.account_id;
  payee_id = r.payee_id;
  counterparty_needle = needle_of u r.counterparty_contains;
  description_needle = needle_of u r.description_contains;
}

-- The loop of `prepare_rule_set`.
unfoldable pub prepare : Unicode → ℕ → List Category → List CategorizationRule → List PreparedRule
unfolding usable_target prepared_rule
prepare u workspace categories [] = []
prepare u workspace categories (r ∷ rs) =
    let rest = prepare u workspace categories rs in
    elim (usable_target workspace categories r.category_id) [
      | none ↦ rest
      | some c ↦ prepared_rule u r c ∷ rest
    ]

unfoldable pub prepare_rule_set :
    Unicode → ℕ → List Category → List CategorizationRule → List PreparedRule
unfolding prepare active_rules
prepare_rule_set u workspace categories rules =
    prepare u workspace categories (active_rules workspace rules)
