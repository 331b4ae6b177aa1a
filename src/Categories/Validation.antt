-- ===== src/Categories/Validation.antt =====
-- What `_validate_parent` lets through, exactly, while the categories are a forest.
use finspace.Common.{
  ◌∙◌, ◌≢◌, ◌↔◌, ℕ, zero, suc, ◌≡◌, sym, ap, subst, true, false, some, List, [], ◌∷◌, ◌==◌, arith,
  find_sound, any, length, All, All-map, Bool-cases, Option-cases, inl, inr,
}
use finspace.Common.Result.{ok, err, ApiError, Result-cases}
use finspace.Model.{Category}
use finspace.Model.Store.{Store, get_category}
use finspace.Categories.{walk, validate_parent}
use finspace.Categories.Hierarchy.{Link, Above, parent, higher, walk_ends, validate_parent_blocks}
use finspace.Categories.Forest.{IsForest, Above-trans}

any-id : (P : ℕ → Type 0) (id : ℕ) (ks : List ℕ) → any (λ k. k == id) ks ≡ true → All P ks → P id
any-id P id [] h k = absurd (cc)
any-id P id (x ∷ xs) h k = elim (Bool-cases (x == id)) [
  | inl here ↦ let same : x ≡ id = ground arith in subst P same k.0
  | inr later ↦ any-id P id xs (ground arith) k.1
]

-- The walk refuses a parent only where the category is above it: a forest has no visited category
-- above itself.
walk_refuses :
    (fuel workspace id : ℕ) (s : Store) (visited : List ℕ) (current : Category) (e : ApiError)
    → IsForest workspace s
    → get_category workspace current.id false s ≡ some current
    → All (λ v. Above workspace s v current.id) visited
    → walk fuel workspace (some id) s visited current ≡ some (err e)
    → Above workspace s current.id id
unfolding walk get_category
walk_refuses zero workspace id s visited current e forest h below k = absurd (cc)
walk_refuses (suc fuel) workspace id s visited current e forest h below k =
    elim (Option-cases current.parent_id) [
      | inl top ↦ absurd (ground arith)
      | inr (above, up) ↦
          let link : Link workspace s current.id above = record {
            row = current;
            found = h;
            named = up;
          } in
          elim (Bool-cases (any (λ j. j == current.id) visited)) [
            | inl seen ↦ absurd (
                forest current.id
                  (any-id (λ v. Above workspace s v current.id) current.id visited seen below))
            | inr new ↦ elim (Bool-cases (above == id)) [
              | inl hit ↦
                  let same : above ≡ id = ground arith in
                  subst (λ z. Above workspace s current.id z) same (parent current.id above link)
              | inr miss ↦ elim (Option-cases (get_category workspace above false s)) [
                | inl gone ↦ absurd (ground arith)
                | inr (ancestor, there) ↦
                    let tested = find_sound _ s.categories ancestor there in
                    let key : above ≡ ancestor.id = ground arith in
                    let step : Link workspace s current.id ancestor.id =
                      subst (λ z. Link workspace s current.id z) key link in
                    let once = parent current.id ancestor.id step in
                    let rest =
                      walk_refuses fuel workspace id s (current.id ∷ visited) ancestor e forest
                        (subst (λ z. get_category workspace z false s ≡ some ancestor) key there)
                        (
                          once,
                          All-map _ (λ v. Above workspace s v ancestor.id) visited
                              (λ v b. Above-trans workspace s v current.id ancestor.id b once)
                              below,
                        )
                        (ground arith) in
                    higher current.id ancestor.id id step rest
              ]
            ]
          ]
    ]

-- While no category is above itself, `_validate_parent` lets a parent through exactly when it is a
-- live category of the workspace, not the category itself, and the category is not above it.
pub validate_parent-eq-ok :
    (workspace parent_id id : ℕ) (s : Store)
    → IsForest workspace s
    → (validate_parent workspace (some parent_id) (some id) s ≡ ok tt) ↔ (
        ((row : Category) × (get_category workspace parent_id false s ≡ some row))
        × (parent_id ≢ id)
        × ¬ Above workspace s parent_id id)
unfolding validate_parent get_category
validate_parent-eq-ok workspace parent_id id s forest = (
  λ h. elim (Option-cases (get_category workspace parent_id false s)) [
    | inl gone ↦ absurd (ground arith)
    | inr there ↦
        let (other, free) = validate_parent_blocks workspace parent_id id s h in
        (there, other, free)
  ],
  λ ((row, there), other, free).
      let (r, ends) = walk_ends workspace parent_id (some id) s row there in
      let tested = find_sound _ s.categories row there in
      let key : parent_id ≡ row.id = ground arith in
      let different : (id == parent_id) ≡ false = ground (arith, other) in
      elim (Result-cases r) [
        | inl (u, fine) ↦ ground arith
        | inr (e, refused) ↦ absurd (
            free (
              subst (λ z. Above workspace s z id) (sym key)
                (walk_refuses (suc (length s.categories)) workspace id s [] row e forest
                  (subst (λ z. get_category workspace z false s ≡ some row) key there) tt
                  (ends ∙ ap some refused))))
      ],
)
