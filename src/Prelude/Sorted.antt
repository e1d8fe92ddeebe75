-- ===== src/Prelude/Sorted.antt =====
-- The order of Python texts, and `sorted`.
use mathlib.Core.Bool.{Bool, true, false, ◌&&◌, ◌||◌}
use mathlib.Core.List.{List, [], ◌∷◌}
use hermes_vector_platform.Prelude.Tests.{ltb, ◌==◌, if◌then◌else◌}
use hermes_vector_platform.Prelude.Strings.{Text}

-- `s < t`
unfoldable pub text_lt : Text → Text → Bool
text_lt s [] = false
text_lt [] (d ∷ t) = true
text_lt (c ∷ s) (d ∷ t) = ltb c d || (c == d && text_lt s t)

module _ {ℓ} {A : Type ℓ} (before : A → A → Bool) where
  -- An item goes in front of the first item that it is before; equal items keep their order.
  unfoldable pub insert_sorted : A → List A → List A
  insert_sorted x [] = x ∷ []
  insert_sorted x (y ∷ ys) =
      let rest = insert_sorted x ys in if before y x then y ∷ rest else x ∷ y ∷ ys

  unfoldable pub sort : List A → List A
  unfolding insert_sorted
  sort [] = []
  sort (x ∷ xs) = insert_sorted x (sort xs)
