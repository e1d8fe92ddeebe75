-- ===== src/Prelude/Words.antt =====
-- `str.split`, with and without a separator.
use Prim.Native.Nat.{ℕ}
use mathlib.Core.List.{List, [], ◌∷◌}
use hermes_vector_platform.Prelude.Tests.{◌==◌, if◌then◌else◌}
use hermes_vector_platform.Prelude.Lists.{nonempty}
use hermes_vector_platform.Prelude.Strings.{Text, is_space}

abbrev pub push_word : Text → List Text → List Text
push_word w ws = if nonempty w then w ∷ ws else ws

-- The word that the text begins with, and the words behind the first space.
unfoldable pub words_from : Text → Text × List Text
words_from [] = ([], [])
words_from (c ∷ s) =
    let (w, ws) = words_from s in if is_space c then ([], push_word w ws) else (c ∷ w, ws)

-- `s.split()`
unfoldable pub words : Text → List Text
unfolding words_from is_space
words s = let (w, ws) = words_from s in push_word w ws

unfoldable pub split_from : ℕ → Text → Text × List Text
split_from sep [] = ([], [])
split_from sep (c ∷ s) =
    let (w, ws) = split_from sep s in if c == sep then ([], w ∷ ws) else (c ∷ w, ws)

-- `s.split(sep)` for a separator of one character
unfoldable pub split_on : ℕ → Text → List Text
unfolding split_from
split_on sep s = let (w, ws) = split_from sep s in w ∷ ws
