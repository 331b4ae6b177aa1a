-- ===== src/Categories/Hierarchy.antt =====
-- The walk of `_validate_parent` up the live categories: it ends, and if it lets a parent through,
-- the category is not above that parent.
use finspace.Common.{
  ◌≢◌, ℕ, ◌<◌, ◌≤◌, zero, suc, ◌≡◌, subst, Bool, false, Option, none, some, List, [], ◌∷◌, ◌==◌,
  arith, find, any, length, Bool-cases, Option-cases, inl, inr, if◌then◌else◌,
}
use finspace.Common.Result.{Result, ok}
use finspace.Model.{Category}
use finspace.Model.Store.{Store, get_category}
use finspace.Categories.{walk, validate_parent}

-- A live category of the workspace and its parent's key.
pub record Link (workspace : ℕ) (s : Store) (id parent : ℕ) : Type 0 where
  pub row : Category
  pub found : get_category workspace id false s ≡ some row
  pub named : row.parent_id ≡ some parent

-- The second key is above the first: reached by one link or more.
pub data Above (workspace : ℕ) (s : Store) : ℕ → ℕ → Type 0 where
  parent : (id above : ℕ) → Link workspace s id above → Above workspace s id above
  higher :
      (id above top : ℕ)
      → Link workspace s id above
      → Above workspace s above top
      → Above workspace s id top

-- The categories that the walk has not visited.
abbrev unseen : List ℕ → List Category → ℕ
unseen visited [] = 0
unseen visited (c ∷ cs) =
    let rest = unseen visited cs in if any (λ k. k == c.id) visited then rest else suc rest

unseen_shrinks :
    (id : ℕ) (visited : List ℕ) (cs : List Category) → unseen (id ∷ visited) cs ≤ unseen visited cs
unseen_shrinks id visited [] = omega arith
unseen_shrinks id visited (c ∷ cs) = ground (arith, unseen_shrinks id visited cs)

-- Visiting a row of the table leaves fewer.
unseen_drops :
    (p : Category → Bool) (visited : List ℕ) (cs : List Category) (c : Category)
    → find p cs ≡ some c
    → any (λ k. k == c.id) visited ≡ false
    → unseen (c.id ∷ visited) cs < unseen visited cs
unseen_drops p visited [] c h k = absurd (cc)
unseen_drops p visited (x ∷ xs) c h k = elim (Bool-cases (p x)) [
  | inl here ↦
      let same : x ≡ c = ground arith in
      subst (λ r. unseen (r.id ∷ visited) (x ∷ xs) < unseen visited (x ∷ xs)) same
        (ground (arith, unseen_shrinks x.id visited xs, same))
  | inr later ↦
      ground (arith, unseen_shrinks c.id visited xs, unseen_drops p visited xs c (rw later at h) k)
]

unseen_all : (cs : List Category) → unseen [] cs < suc (length cs)
unseen_all [] = omega arith
unseen_all (c ∷ cs) = ground (arith, unseen_all cs)

walk_from :
    (fuel workspace : ℕ) (id : Option ℕ) (s : Store) (visited : List ℕ) (current : Category) (k : ℕ)
    → get_category workspace k false s ≡ some current
    → unseen visited s.categories < fuel
    → walk fuel workspace id s visited current ≢ none
unfolding walk get_category
walk_from zero workspace id s visited current k h enough = absurd (omega arith)
walk_from (suc fuel) workspace id s visited current k h enough =
    elim (Option-cases current.parent_id) [
      | inl top ↦ λ e. ground arith
      | inr (above, up) ↦ elim (Bool-cases (any (λ j. j == current.id) visited)) [
        | inl seen ↦ λ e. ground arith
        | inr new ↦ elim (Option-cases (get_category workspace above false s)) [
          | inl gone ↦ λ e. ground arith
          | inr (ancestor, there) ↦
              let fewer = unseen_drops _ visited s.categories current h new in
              let rest =
                walk_from fuel workspace id s (current.id ∷ visited) ancestor above there
                  (omega (arith, fewer, enough)) in
              λ e. ground (arith, rest)
        ]
      ]
    ]

-- Whatever has something above it is a live category.
Above-live :
    (workspace : ℕ) (s : Store) (id top : ℕ)
    → Above workspace s id top
    → (row : Category) × (get_category workspace id false s ≡ some row)
Above-live workspace s id top (parent _ _ link) = (link.row, link.found)
Above-live workspace s id top (higher _ _ _ link _) = (link.row, link.found)

Link-up :
    (workspace : ℕ) (s : Store) (id above : ℕ) (row : Category)
    → Link workspace s id above
    → get_category workspace id false s ≡ some row
    → row.parent_id ≡ some above
Link-up workspace s id above row link h =
    let same : link.row ≡ row = ground (arith, link.found, h) in
    subst (λ r. r.parent_id ≡ some above) same link.named

walk_blocks :
    (fuel workspace id : ℕ) (s : Store) (visited : List ℕ) (current : Category) (k : ℕ)
    → get_category workspace k false s ≡ some current
    → walk fuel workspace (some id) s visited current ≡ some (ok tt)
    → ¬ Above workspace s k id
unfolding walk
walk_blocks zero workspace id s visited current k h e a = absurd (cc)
walk_blocks (suc fuel) workspace id s visited current k h e (parent _ _ link) =
    ground (arith, Link-up workspace s k id current link h)
walk_blocks (suc fuel) workspace id s visited current k h e (higher _ above _ link more) =
    let (ancestor, there) = Above-live workspace s above id more in
    let up = Link-up workspace s k above current link h in
    let onward : walk fuel workspace (some id) s (current.id ∷ visited) ancestor ≡ some (ok tt) =
      ground arith in
    walk_blocks fuel workspace id s (current.id ∷ visited) ancestor above there onward more

-- The walk of `_validate_parent` up the categories comes to an end, whatever the table holds.
pub walk_ends :
    (workspace parent_id : ℕ) (id : Option ℕ) (s : Store) (current : Category)
    → get_category workspace parent_id false s ≡ some current
    → (r : Result (Unit {0})) × (walk (suc (length s.categories)) workspace id s [] current
        ≡ some r)
walk_ends workspace parent_id id s current h =
    elim (Option-cases (walk (suc (length s.categories)) workspace id s [] current)) [
      | inl stuck ↦
          absurd (walk_from _ workspace id s [] current parent_id h (unseen_all s.categories) stuck)
      | inr answered ↦ answered
    ]

-- A parent that `_validate_parent` lets through is not the category, and the category is not above
-- it.
pub validate_parent_blocks :
    (workspace parent_id id : ℕ) (s : Store)
    → validate_parent workspace (some parent_id) (some id) s ≡ ok tt
    → (parent_id ≢ id) × ¬ Above workspace s parent_id id
unfolding validate_parent
validate_parent_blocks workspace parent_id id s h =
    elim (Option-cases (get_category workspace parent_id false s)) [
      | inl gone ↦ absurd (ground arith)
      | inr (row, there) ↦
          let (r, ends) = walk_ends workspace parent_id (some id) s row there in
          (
            λ e. ground arith,
            walk_blocks (suc (length s.categories)) workspace id s [] row parent_id there
                (ground arith),
          )
    ]
