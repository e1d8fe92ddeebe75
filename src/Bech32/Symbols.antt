-- ===== src/Bech32/Symbols.antt =====
-- Lists of values of a fixed width.
use hermes_vector_platform.Prelude.{ℕ, ◌<◌, List, [], ◌∷◌, ◌++◌}

abbrev pub AllBelow : ℕ → List ℕ → Type 0
AllBelow n [] = Unit
AllBelow n (x ∷ xs) = (x < n) × AllBelow n xs

pub AllBelow-append :
    (n : ℕ) (xs ys : List ℕ) → AllBelow n xs → AllBelow n ys → AllBelow n (xs ++ ys)
AllBelow-append n [] ys h k = k
AllBelow-append n (x ∷ xs) ys (p, h) k = (p, AllBelow-append n xs ys h k)
