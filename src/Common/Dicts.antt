-- ===== src/Common/Dicts.antt =====
-- Dictionaries with a default value, as lists of entries in the order of their insertion.
use finspace.Common.{
  ℕ, ◌≡◌, refl, true, false, List, [], ◌∷◌, ◌==◌, if◌then◌else◌, arith, Bool-cases, inl, inr,
}
use finspace.Common.Int.{ℤ, pos, ◌+ℤ◌, int_laws}

-- What one change adds to a figure.
abbrev pub added_at : ℕ → ℕ → ℤ → ℤ
added_at key changed amount = if changed == key then amount else pos 0

module _ {ℓ} {A : Type ℓ} where
  -- `d[key] = change(d[key])`, where a missing entry starts from the default.
  unfoldable pub change_entry : A → ℕ → (A → A) → List (ℕ × A) → List (ℕ × A)
  change_entry default key change [] = (key, change default) ∷ []
  change_entry default key change ((k, a) ∷ entries) =
      let rest = change_entry default key change entries in
      if k == key then (k, change a) ∷ entries else (k, a) ∷ rest

  -- A figure of the entry of a key, and zero where there is none.
  unfoldable pub read_entry : (A → ℤ) → ℕ → List (ℕ × A) → ℤ
  read_entry figure key [] = pos 0
  read_entry figure key ((k, a) ∷ entries) =
      let rest = read_entry figure key entries in if k == key then figure a else rest

  -- A change that adds to a figure of one entry adds it to the figure that is read there.
  pub read-change_entry :
      (default : A) (figure : A → ℤ) (key changed : ℕ) (change : A → A) (amount : ℤ)
      (entries : List (ℕ × A))
      → figure default ≡ pos 0
      → ((a : A) → figure (change a) ≡ figure a +ℤ amount)
      → read_entry figure key (change_entry default changed change entries)
        ≡ read_entry figure key entries +ℤ added_at key changed amount
  unfolding change_entry read_entry
  read-change_entry default figure key changed change amount [] zero_default adds =
      elim (Bool-cases (changed == key)) [
        | inl here ↦ rw (here, adds default, zero_default) refl
        | inr other ↦ rw other (omega int_laws)
      ]
  read-change_entry default figure key changed change amount ((k, a) ∷ entries) zero_default adds =
      let rest =
        read-change_entry default figure key changed change amount entries zero_default adds in
      elim (Bool-cases (k == changed)) [
        | inl found ↦ elim (Bool-cases (k == key)) [
          | inl here ↦
              let same : (changed == key) ≡ true = ground arith in rw (found, here, same) (adds a)
          | inr other ↦
              let differ : (changed == key) ≡ false = ground arith in
              rw (found, other, differ) (omega int_laws)
        ]
        | inr later ↦ elim (Bool-cases (k == key)) [
          | inl here ↦
              let differ : (changed == key) ≡ false = ground arith in
              rw (later, here, differ) (omega int_laws)
          | inr other ↦ rw (later, other, rest) refl
        ]
      ]
