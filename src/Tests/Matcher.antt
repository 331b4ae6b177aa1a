-- ===== src/Tests/Matcher.antt =====
-- Runs of the rule matcher: three rules, of which the first is switched off and the second wins.
use finspace.Common.{
  ℕ, refl, Bool, true, false, none, some, List, [], ◌∷◌, ◌==◌, insert_by, sort_by,
}
use finspace.Common.Text.{strip_left, strip_right}
use finspace.Model.{expense}
use finspace.Matcher.{
  Unicode, collapse_from, normalize_match_text, category_compatible, starts_with, occurs_in,
  MatchableTransaction, MatchCandidate, from_transaction, CategorizationRule, PreparedRule, matches,
  PreparedMatch, match_rules, match_transaction, active_rules, usable_target, prepared_rule,
  prepare, prepare_rule_set,
}
use finspace.Matcher.First.{IsAnswer, match_rules-IsAnswer}
use finspace.Matcher.Prepared.{IsLive, IsTarget, match_transaction-IsLive}
use finspace.Tests.Fixture.{category, store}

abbrev unicode : Unicode
unicode = record { nfkc = λ cs. cs; casefold = λ cs. cs; is_space = λ c. c == 32 }

abbrev rule : ℕ → ℕ → Bool → CategorizationRule
rule id target active = record {
  id = id;
  workspace_id = 1;
  priority = id;
  is_active = active;
  transaction_type = some expense;
  account_id = none;
  payee_id = none;
  counterparty_contains = some (32 ∷ 98 ∷ 99 ∷ []);
  description_contains = none;
  category_id = target;
  created_at = 5;
  deleted_at = none;
}

abbrev rules : List CategorizationRule
rules = rule 3 31 true ∷ rule 1 30 false ∷ rule 2 30 true ∷ []

abbrev coffee : MatchableTransaction
coffee = record {
  transaction_type = expense;
  account_id = 10;
  payee_id = none;
  counterparty = some (97 ∷ 98 ∷ 99 ∷ 32 ∷ 32 ∷ 100 ∷ []);
  description = none;
}

matcher : Unit {0}
unfolding insert_by sort_by strip_left strip_right collapse_from normalize_match_text
    category_compatible starts_with occurs_in from_transaction matches match_rules match_transaction
    active_rules usable_target prepared_rule prepare prepare_rule_set
matcher = tt

abbrev prepared : List PreparedRule
prepared = prepare_rule_set unicode 1 store.categories rules

abbrev candidate : MatchCandidate
candidate = from_transaction unicode coffee

match_rules-IsAnswer_example : IsAnswer candidate prepared (match_rules prepared candidate)
match_rules-IsAnswer_example = match_rules-IsAnswer candidate prepared

abbrev winner : PreparedMatch
winner = record { rule = rule 2 30 true; category = category 30 none }

match_transaction-IsLive_example : IsLive 1 winner.rule × IsTarget 1 winner.rule winner.category
unfolding matcher
match_transaction-IsLive_example =
    match_transaction-IsLive unicode 1 store.categories rules coffee winner refl
