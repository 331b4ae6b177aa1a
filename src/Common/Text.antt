-- ===== src/Common/Text.antt =====
-- Texts as lists of code points: `str.strip`, for the characters that it takes away, and equality.
use finspace.Common.{ℕ, Bool, true, false, List, [], ◌∷◌, ◌&&◌, ◌==◌, if◌then◌else◌}

unfoldable pub strip_left : (ℕ → Bool) → List ℕ → List ℕ
strip_left is_space [] = []
strip_left is_space (c ∷ cs) =
    let rest = strip_left is_space cs in if is_space c then rest else c ∷ cs

unfoldable pub strip_right : (ℕ → Bool) → List ℕ → List ℕ
strip_right is_space [] = []
strip_right is_space (c ∷ cs) = elim (strip_right is_space cs) [
  | [] ↦ if is_space c then [] else c ∷ []
  | d ∷ ds ↦ c ∷ d ∷ ds
]

-- `value.strip()`
unfoldable pub strip : (ℕ → Bool) → List ℕ → List ℕ
unfolding strip_left strip_right
strip is_space value = strip_right is_space (strip_left is_space value)

abbrev pub same_text : List ℕ → List ℕ → Bool
same_text [] [] = true
same_text (c ∷ cs) (d ∷ ds) = c == d && same_text cs ds
same_text _ _ = false
