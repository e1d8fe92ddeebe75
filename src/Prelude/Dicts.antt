-- ===== src/Prelude/Dicts.antt =====
-- Dictionaries from texts, in insertion order.
use hermes_vector_platform.Prelude.Strings.{Text, text_eq, text_eq_iff, mem}
use hermes_vector_platform.Prelude.Tests.{if◌then◌else◌}
use mathlib.Core.Path.{◌≡◌}
use mathlib.Core.List.{List, [], ◌∷◌, ◌++◌}
use mathlib.Core.Option.{Option, none, some}
use native.Mathlib.Omega.{arith}

abbrev pub Map {ℓ} : Type ℓ → Type ℓ
Map V = List (Text × V)

abbrev pub Dict : Type 0
Dict = Map Text

unfoldable pub lookup {ℓ} : {V : Type ℓ} → Text → Map V → Option V
lookup key [] = none
lookup key ((k, v) ∷ d) = if text_eq k key then some v else lookup key d

-- `d.pop(key, None)`
unfoldable pub pop {ℓ} : {V : Type ℓ} → Text → Map V → Map V
pop key [] = []
pop key ((k, v) ∷ d) = let rest = pop key d in if text_eq k key then rest else (k, v) ∷ rest

-- `d[key] = value`: an old key keeps its place
unfoldable pub put {ℓ} : {V : Type ℓ} → Text → V → Map V → Map V
put key value [] = (key, value) ∷ []
put key value ((k, v) ∷ d) =
    let rest = put key value d in if text_eq k key then (k, value) ∷ d else (k, v) ∷ rest

pub lookup-pop {ℓ} :
    {V : Type ℓ} (k j : Text) (d : Map V)
    → lookup k (pop j d) ≡ (if text_eq k j then none else lookup k d)
unfolding lookup pop
lookup-pop k j [] = ground arith
lookup-pop k j ((i, v) ∷ d) =
    ground (arith, lookup-pop k j d, text_eq_iff i j, text_eq_iff i k, text_eq_iff k j)

pub lookup-put {ℓ} :
    {V : Type ℓ} (k j : Text) (v : V) (d : Map V)
    → lookup k (put j v d) ≡ (if text_eq k j then some v else lookup k d)
unfolding lookup put
lookup-put k j v [] = ground (arith, text_eq_iff j k, text_eq_iff k j)
lookup-put k j v ((i, w) ∷ d) =
    ground (arith, lookup-put k j v d, text_eq_iff i j, text_eq_iff i k, text_eq_iff k j)

-- A set of texts, in insertion order.
unfoldable pub add : Text → List Text → List Text
add key set = if mem key set then set else set ++ (key ∷ [])
