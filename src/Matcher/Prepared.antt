-- ===== src/Matcher/Prepared.antt =====
-- What the matcher may answer with: live rules and usable categories of the workspace.
use finspace.Common.Queries.{All-sort_by}
use finspace.Common.{
  ℕ, ◌≡◌, sym, subst, true, false, some, List, [], ◌∷◌, ◌++◌, ◌&&◌, ◌==◌, arith, All, filter,
  find_sound, is_none, Bool-cases, Option-cases, inl, inr,
}
use finspace.Model.{Category}
use finspace.Matcher.First.{IsAnswer, match_rules-IsAnswer}
use finspace.Matcher.{
  Unicode, CategorizationRule, PreparedRule, PreparedMatch, MatchableTransaction, MatchCandidate,
  match_rules, match_transaction, rule_leb, usable_target, prepared_rule, prepare, prepare_rule_set,
}

-- A rule that may be used: active, not deleted, and of the workspace.
pub record IsLive (workspace : ℕ) (r : CategorizationRule) : Type 0 where
  pub own : (r.workspace_id == workspace) ≡ true
  pub active : r.is_active ≡ true
  pub not_deleted : is_none r.deleted_at ≡ true

-- The category of a rule: of the workspace, not archived, and the one that the rule names.
pub record IsTarget (workspace : ℕ) (r : CategorizationRule) (c : Category) : Type 0 where
  pub own_category : (c.workspace_id == workspace) ≡ true
  pub not_archived : c.is_archived ≡ false
  pub named : (c.id == r.category_id) ≡ true

abbrev IsUsable : ℕ → PreparedRule → Type 0
IsUsable workspace p = IsLive workspace p.rule × IsTarget workspace p.rule p.category

filter-IsLive :
    (workspace : ℕ) (rs : List CategorizationRule)
    → All
        (IsLive workspace)
        (filter (λ r. (r.workspace_id == workspace) && r.is_active && is_none r.deleted_at) rs)
filter-IsLive workspace [] = tt
filter-IsLive workspace (r ∷ rs) =
    elim (Bool-cases ((r.workspace_id == workspace) && r.is_active && is_none r.deleted_at)) [
      | inl live ↦ rw live (ground arith, filter-IsLive workspace rs)
      | inr other ↦ rw other (filter-IsLive workspace rs)
    ]

prepare-IsUsable :
    (u : Unicode) (workspace : ℕ) (categories : List Category) (rs : List CategorizationRule)
    → All (IsLive workspace) rs
    → All (IsUsable workspace) (prepare u workspace categories rs)
unfolding prepare
prepare-IsUsable u workspace categories [] h = tt
prepare-IsUsable u workspace categories (r ∷ rs) h =
    elim (Option-cases (usable_target workspace categories r.category_id)) [
      | inl missing ↦
          let same : prepare u workspace categories (r ∷ rs) ≡ prepare u workspace categories rs =
            ground arith in
          subst (All (IsUsable workspace)) (sym same)
            (prepare-IsUsable u workspace categories rs h.1)
      | inr (c, e) ↦
          let whole : prepare u workspace categories (r ∷ rs)
              ≡ prepared_rule u r c ∷ prepare u workspace categories rs =
            ground arith in
          let target : IsTarget workspace r c = ground (arith, find_sound _ categories c e) in
          subst (All (IsUsable workspace)) (sym whole)
            ((h.0, target), prepare-IsUsable u workspace categories rs h.1)
    ]

All-middle :
    (P : PreparedRule → Type 0) (before : List PreparedRule) (r : PreparedRule)
    (after : List PreparedRule)
    → All P (before ++ r ∷ after)
    → P r
All-middle P [] r after h = h.0
All-middle P (x ∷ before) r after h = All-middle P before r after h.1

match_rules-All :
    (P : CategorizationRule → Category → Type 0) (rs : List PreparedRule) (t : MatchCandidate)
    (m : PreparedMatch)
    → All (λ p. P p.rule p.category) rs
    → match_rules rs t ≡ some m
    → P m.rule m.category
match_rules-All P rs t m h e =
    let (before, r, after, split, skipped, applies, rule, category) =
      subst (IsAnswer t rs) e (match_rules-IsAnswer t rs) in
    subst (λ x. P x m.category) (sym rule)
      (subst (P r.rule) (sym category) (
        All-middle (λ p. P p.rule p.category) before r after
          (subst (All (λ p. P p.rule p.category)) split h)))

-- Whatever the rule set answers for a transaction is an active, undeleted rule of the workspace,
-- with the unarchived category of the workspace that this rule names.
pub match_transaction-IsLive :
    (u : Unicode) (workspace : ℕ) (categories : List Category) (rules : List CategorizationRule)
    (t : MatchableTransaction) (m : PreparedMatch)
    → match_transaction u (prepare_rule_set u workspace categories rules) t ≡ some m
    → IsLive workspace m.rule × IsTarget workspace m.rule m.category
unfolding match_transaction prepare_rule_set
match_transaction-IsLive u workspace categories rules t m h =
    match_rules-All (λ r c. IsLive workspace r × IsTarget workspace r c) _ _ m
      (prepare-IsUsable u workspace categories _
        (All-sort_by rule_leb _ _ (filter-IsLive workspace rules)))
      h
