-- ===== src/Categories/Table.antt =====
-- The categories table after a row was put or added: how its live rows link to their parents.
use finspace.Common.{
  ◌∙◌, ℕ, ◌≡◌, ◌⊎◌, refl, sym, ap, subst, Bool, true, false, Option, none, some, List, [], ◌∷◌,
  ◌++◌, ◌==◌, arith, find, find_sound, Bool-cases, inl, inr,
}
use finspace.Model.{Category, Context, AuditAction, Operation}
use finspace.Model.Store.{Store, get_category, record_audit}
use finspace.Model.Store.Untouched.{enqueue_entity_outbox}
use finspace.Categories.{put_category, write_category, publish_category}
use finspace.Categories.Hierarchy.{Link}

-- The bookkeeping leaves the categories alone.
pub publish_category-categories :
    (x : Context) (action : AuditAction) (operation : Operation) (before : Option Category)
    (c : Category) (s : Store)
    → (publish_category x action operation before c s).categories ≡ s.categories
unfolding publish_category record_audit
publish_category-categories x action operation before c s =
    ap (λ t. t.categories) (enqueue_entity_outbox x _ c.id c.version operation _)

pub Link-publish_category :
    (workspace : ℕ) (x : Context) (action : AuditAction) (operation : Operation)
    (before : Option Category) (c : Category) (s : Store) (id above : ℕ)
    → Link workspace (publish_category x action operation before c s) id above
    → Link workspace s id above
unfolding get_category
Link-publish_category workspace x action operation before c s id above link = record {
  row = link.row;
  found = rw (publish_category-categories x action operation before c s) at link.found;
  named = link.named;
}

find-put_same :
    (p : Category → Bool) (c r : Category) (cs : List Category)
    → find p (put_category c cs) ≡ some r
    → (r.id == c.id) ≡ true
    → r ≡ c
unfolding put_category
find-put_same p c r [] h k = absurd (cc)
find-put_same p c r (x ∷ xs) h k = elim (Bool-cases (x.id == c.id)) [
  | inl same ↦ elim (Bool-cases (p c)) [
    | inl here ↦ ground arith
    | inr later ↦ find-put_same p c r xs (ground arith) k
  ]
  | inr other ↦ elim (Bool-cases (p x)) [
    | inl here ↦ absurd (ground arith)
    | inr later ↦ find-put_same p c r xs (ground arith) k
  ]
]

find-put_other :
    (p : Category → Bool) (c : Category) (cs : List Category)
    → ((d : Category) → (d.id == c.id) ≡ true → p d ≡ false)
    → find p (put_category c cs) ≡ find p cs
unfolding put_category
find-put_other p c [] h = refl
find-put_other p c (x ∷ xs) h = elim (Bool-cases (x.id == c.id)) [
  | inl same ↦ rw (same, h c (ground arith), h x same) (find-put_other p c xs h)
  | inr other ↦ rw (other, find-put_other p c xs h)
]

-- A link in a table where a row was put is the row's, or was there.
pub Link-write_category :
    (workspace : ℕ) (c : Category) (s : Store) (id above : ℕ)
    → Link workspace (write_category c s) id above
    → ((id ≡ c.id) × ((c.parent_id ≡ some above) × (c.deleted_at ≡ none)))
      ⊎ Link workspace s id above
unfolding get_category
Link-write_category workspace c s id above link =
    let tested = find_sound _ (put_category c s.categories) link.row link.found in
    elim (Bool-cases (id == c.id)) [
      | inl same ↦
          let row = find-put_same _ c link.row s.categories link.found (ground arith) in
          inl (ground arith, (subst (λ r. r.parent_id ≡ some above) row link.named, ground arith))
      | inr other ↦
          let before = find-put_other _ c s.categories (λ d k. ground arith) in
          inr (record { row = link.row; found = sym before ∙ link.found; named = link.named })
    ]

find-append :
    (p : Category → Bool) (c r : Category) (cs : List Category)
    → find p (cs ++ c ∷ []) ≡ some r
    → (r ≡ c) ⊎ (find p cs ≡ some r)
find-append p c r [] h = inl (ground arith)
find-append p c r (x ∷ xs) h = elim (Bool-cases (p x)) [
  | inl here ↦ inr (ground arith)
  | inr later ↦ rw later (find-append p c r xs (rw later at h))
]

-- A link in a table where a row was added is the row's, or was there.
pub Link-add_category :
    (workspace : ℕ) (c : Category) (s : Store) (id above : ℕ)
    → Link workspace (record s { categories = s.categories ++ c ∷ [] }) id above
    → ((id ≡ c.id) × (c.parent_id ≡ some above)) ⊎ Link workspace s id above
unfolding get_category
Link-add_category workspace c s id above link =
    let tested = find_sound _ (s.categories ++ c ∷ []) link.row link.found in
    elim (find-append _ c link.row s.categories link.found) [
      | inl row ↦ inl (ground arith, subst (λ r. r.parent_id ≡ some above) row link.named)
      | inr there ↦ inr (record { row = link.row; found = there; named = link.named })
    ]
