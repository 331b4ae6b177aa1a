-- ===== src/Common/Pointwise.antt =====
-- Lists whose rows are related one by one, under the list operations that stand for queries.
use finspace.Common.{
  ◌≡◌, ◌∙◌, Bool, Option, none, some, List, [], ◌∷◌, filter, find, insert_by, sort_by, Bool-cases,
  inl, inr,
}

module _ {ℓ} {A : Type ℓ} (R : A → A → Type 0) where
  abbrev pub Pointwise : List A → List A → Type 0
  Pointwise [] [] = Unit
  Pointwise (x ∷ xs) (y ∷ ys) = R x y × Pointwise xs ys
  Pointwise _ _ = ⊥

  abbrev pub Related : Option A → Option A → Type 0
  Related none none = Unit
  Related (some x) (some y) = R x y
  Related _ _ = ⊥

  pub filter-Pointwise :
      (p : A → Bool) (xs ys : List A)
      → ((x y : A) → R x y → p x ≡ p y)
      → Pointwise xs ys
      → Pointwise (filter p xs) (filter p ys)
  filter-Pointwise p [] [] same h = tt
  filter-Pointwise p [] (y ∷ ys) same h = absurd h
  filter-Pointwise p (x ∷ xs) [] same h = absurd h
  filter-Pointwise p (x ∷ xs) (y ∷ ys) same h =
      let rest = filter-Pointwise p xs ys same h.1 in
      let equal = same x y h.0 in
      elim (Bool-cases (p y)) [
        | inl kept ↦ rw (kept, equal ∙ kept) (h.0, rest)
        | inr out ↦ rw (out, equal ∙ out) rest
      ]

  pub find-Pointwise :
      (p : A → Bool) (xs ys : List A)
      → ((x y : A) → R x y → p x ≡ p y)
      → Pointwise xs ys
      → Related (find p xs) (find p ys)
  find-Pointwise p [] [] same h = tt
  find-Pointwise p [] (y ∷ ys) same h = absurd h
  find-Pointwise p (x ∷ xs) [] same h = absurd h
  find-Pointwise p (x ∷ xs) (y ∷ ys) same h =
      let equal = same x y h.0 in
      elim (Bool-cases (p y)) [
        | inl here ↦ rw (here, equal ∙ here) h.0
        | inr later ↦ rw (later, equal ∙ later) (find-Pointwise p xs ys same h.1)
      ]

  insert_by-Pointwise :
      (leb : A → A → Bool) (x y : A) (xs ys : List A)
      → ((a b c d : A) → R a b → R c d → leb a c ≡ leb b d)
      → R x y
      → Pointwise xs ys
      → Pointwise (insert_by leb x xs) (insert_by leb y ys)
  unfolding insert_by
  insert_by-Pointwise leb x y [] [] same h k = (h, tt)
  insert_by-Pointwise leb x y [] (d ∷ ds) same h k = absurd k
  insert_by-Pointwise leb x y (c ∷ cs) [] same h k = absurd k
  insert_by-Pointwise leb x y (c ∷ cs) (d ∷ ds) same h k =
      let equal = same x y c d h k.0 in
      elim (Bool-cases (leb y d)) [
        | inl before ↦ rw (before, equal ∙ before) (h, k)
        | inr after ↦ rw (after, equal ∙ after) (k.0, insert_by-Pointwise leb x y cs ds same h k.1)
      ]

  pub sort_by-Pointwise :
      (leb : A → A → Bool) (xs ys : List A)
      → ((a b c d : A) → R a b → R c d → leb a c ≡ leb b d)
      → Pointwise xs ys
      → Pointwise (sort_by leb xs) (sort_by leb ys)
  unfolding sort_by
  sort_by-Pointwise leb [] [] same h = tt
  sort_by-Pointwise leb [] (y ∷ ys) same h = absurd h
  sort_by-Pointwise leb (x ∷ xs) [] same h = absurd h
  sort_by-Pointwise leb (x ∷ xs) (y ∷ ys) same h =
      insert_by-Pointwise leb x y _ _ same h.0 (sort_by-Pointwise leb xs ys same h.1)

  pub Pointwise-refl : ((x : A) → R x x) → (xs : List A) → Pointwise xs xs
  Pointwise-refl r [] = tt
  Pointwise-refl r (x ∷ xs) = (r x, Pointwise-refl r xs)

  pub Pointwise-trans :
      ((x y z : A) → R x y → R y z → R x z)
      → (xs ys zs : List A) → Pointwise xs ys
      → Pointwise ys zs
      → Pointwise xs zs
  Pointwise-trans t [] [] [] h k = tt
  Pointwise-trans t [] [] (z ∷ zs) h k = absurd k
  Pointwise-trans t [] (y ∷ ys) zs h k = absurd h
  Pointwise-trans t (x ∷ xs) [] zs h k = absurd h
  Pointwise-trans t (x ∷ xs) (y ∷ ys) [] h k = absurd k
  Pointwise-trans t (x ∷ xs) (y ∷ ys) (z ∷ zs) h k =
      (t x y z h.0 k.0, Pointwise-trans t xs ys zs h.1 k.1)
