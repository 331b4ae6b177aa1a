-- ===== src/Common/Queries.antt =====
-- Laws of the list operations that stand for queries: a search in a filtered list, tests and sums
-- over a filtered or sorted one.
use finspace.Common.{
  none, ◌≡◌, refl, ◌∙◌, ap, Bool, true, false, List, [], ◌∷◌, ◌&&◌, ◌||◌, arith, All, All-map,
  filter, find, any, insert_by, sort_by, Bool-cases, inl, inr,
}
use finspace.Common.Int.{ℤ, pos, ◌+ℤ◌, int_laws}

or_swap : (a b c : Bool) → (a || (b || c)) ≡ (b || (a || c))
or_swap a b c = ground arith

module _ {ℓ} {A : Type ℓ} where
  pub find-filter :
      (p q : A → Bool) (xs : List A) → find p (filter q xs) ≡ find (λ x. q x && p x) xs
  find-filter p q [] = refl
  find-filter p q (x ∷ xs) = elim (Bool-cases (q x)) [
    | inl kept ↦ rw kept (rw (find-filter p q xs))
    | inr out ↦ rw out (find-filter p q xs)
  ]

  pub find_congr : (p q : A → Bool) (xs : List A) → ((x : A) → p x ≡ q x) → find p xs ≡ find q xs
  find_congr p q [] h = refl
  find_congr p q (x ∷ xs) h = rw (h x, find_congr p q xs h)

  pub any-filter : (p q : A → Bool) (xs : List A) → any p (filter q xs) ≡ any (λ x. q x && p x) xs
  any-filter p q [] = refl
  any-filter p q (x ∷ xs) = elim (Bool-cases (q x)) [
    | inl kept ↦ rw kept (rw (any-filter p q xs))
    | inr out ↦ rw out (any-filter p q xs)
  ]

  any-insert_by :
      (leb : A → A → Bool) (p : A → Bool) (a : A) (xs : List A)
      → any p (insert_by leb a xs) ≡ (p a || any p xs)
  unfolding insert_by
  any-insert_by leb p a [] = refl
  any-insert_by leb p a (x ∷ xs) = elim (Bool-cases (leb a x)) [
    | inl before ↦ rw before
    | inr after ↦ rw after (rw (any-insert_by leb p a xs) (or_swap (p x) (p a) (any p xs)))
  ]

  pub any-sort_by :
      (leb : A → A → Bool) (p : A → Bool) (xs : List A) → any p (sort_by leb xs) ≡ any p xs
  unfolding sort_by
  any-sort_by leb p [] = refl
  any-sort_by leb p (x ∷ xs) =
      any-insert_by leb p x (sort_by leb xs) ∙ ap (λ b. p x || b) (any-sort_by leb p xs)

  pub All-forall {κ κ'} :
      {I : Type κ} (P : I → A → Type κ') (xs : List A)
      → ((i : I) → All (P i) xs)
      → All (λ x. (i : I) → P i x) xs
  All-forall P [] h = tt
  All-forall P (x ∷ xs) h = (λ i. (h i).0, All-forall P xs (λ i. (h i).1))

  -- Each element that passes a test makes `any` true.
  pub any_of_All : (p : A → Bool) (xs : List A) → All (λ x. p x ≡ true → any p xs ≡ true) xs
  any_of_All p [] = tt
  any_of_All p (x ∷ xs) = (
    λ h. ground arith,
    All-map (λ y. p y ≡ true → any p xs ≡ true) _ xs (λ y k h. ground (arith, k h))
        (any_of_All p xs),
  )

  pub any_of_none : (p : A → Bool) (xs : List A) → find p xs ≡ none → any p xs ≡ false
  any_of_none p [] h = refl
  any_of_none p (x ∷ xs) h = ground (arith, any_of_none p xs)

  pub find_missing : (p : A → Bool) (xs : List A) → any p xs ≡ false → find p xs ≡ none
  find_missing p [] h = refl
  find_missing p (x ∷ xs) h = ground (arith, find_missing p xs)

  pub any_weaker :
      (p q : A → Bool) (xs : List A)
      → ((x : A) → p x ≡ true → q x ≡ true)
      → any q xs ≡ false
      → any p xs ≡ false
  any_weaker p q [] h k = refl
  any_weaker p q (x ∷ xs) h k = ground (arith, h x, any_weaker p q xs h)

  pub All-filter :
      (P : A → Type 0) (p : A → Bool) (xs : List A)
      → All P xs
      → All (λ x. P x × (p x ≡ true)) (filter p xs)
  All-filter P p [] h = tt
  All-filter P p (x ∷ xs) h = elim (Bool-cases (p x)) [
    | inl kept ↦ rw kept ((h.0, kept), All-filter P p xs h.1)
    | inr out ↦ rw out (All-filter P p xs h.1)
  ]

  All-insert_by :
      (leb : A → A → Bool) (P : A → Type 0) (a : A) (xs : List A)
      → P a
      → All P xs
      → All P (insert_by leb a xs)
  unfolding insert_by
  All-insert_by leb P a [] h k = (h, tt)
  All-insert_by leb P a (x ∷ xs) h k = elim (Bool-cases (leb a x)) [
    | inl before ↦ rw before (h, k)
    | inr after ↦ rw after (k.0, All-insert_by leb P a xs h k.1)
  ]

  pub All-sort_by :
      (leb : A → A → Bool) (P : A → Type 0) (xs : List A) → All P xs → All P (sort_by leb xs)
  unfolding sort_by
  All-sort_by leb P [] h = tt
  All-sort_by leb P (x ∷ xs) h =
      All-insert_by leb P x (sort_by leb xs) h.0 (All-sort_by leb P xs h.1)

  -- `sum(f(x) for x in xs)`
  abbrev pub sum_map : (A → ℤ) → List A → ℤ
  sum_map f [] = pos 0
  sum_map f (x ∷ xs) = f x +ℤ sum_map f xs

module _ {ℓ} {A : Type ℓ} (f : A → ℤ) where
  sum_map-insert_by :
      (leb : A → A → Bool) (a : A) (xs : List A)
      → sum_map f (insert_by leb a xs) ≡ f a +ℤ sum_map f xs
  unfolding insert_by
  sum_map-insert_by leb a [] = refl
  sum_map-insert_by leb a (x ∷ xs) = elim (Bool-cases (leb a x)) [
    | inl before ↦ rw before
    | inr after ↦ rw (after, sum_map-insert_by leb a xs) (omega int_laws)
  ]

  -- A sum does not depend on the order of the rows.
  pub sum_map-sort_by :
      (leb : A → A → Bool) (xs : List A) → sum_map f (sort_by leb xs) ≡ sum_map f xs
  unfolding sort_by
  sum_map-sort_by leb [] = refl
  sum_map-sort_by leb (x ∷ xs) =
      sum_map-insert_by leb x (sort_by leb xs) ∙ ap (λ z. f x +ℤ z) (sum_map-sort_by leb xs)

  -- Two selections give one sum if they agree on the rows of the narrower one, and the wider one
  -- adds only zeros.
  pub sum_map-filter :
      (g : A → ℤ) (p q : A → Bool) (xs : List A)
      → All
          (λ x.
            (p x ≡ true → (q x ≡ true) × (f x ≡ g x)) × (p x ≡ false → q x ≡ true → g x ≡ pos 0))
          xs
      → sum_map f (filter p xs) ≡ sum_map g (filter q xs)
  sum_map-filter g p q [] h = refl
  sum_map-filter g p q (x ∷ xs) h =
      let rest = sum_map-filter g p q xs h.1 in
      elim (Bool-cases (p x)) [
        | inl narrow ↦ let (wide, same) = h.0.0 narrow in rw (narrow, wide, same, rest)
        | inr out ↦ elim (Bool-cases (q x)) [
          | inl wide ↦ rw (out, wide, h.0.1 out wide, rest) (omega int_laws)
          | inr neither ↦ rw (out, neither) rest
        ]
      ]
