-- ===== src/Recent/Keys.antt =====
-- Lists of distinct keys: what `remove`, `trim` and an append do to membership and to length.
use hermes_vector_platform.Prelude.{
  Text, ℕ, ◌+◌, ◌≤◌, ◌≡◌, refl, arith, Bool, true, false, ◌||◌, ◌&&◌, List, [], ◌∷◌, ◌++◌, length,
  text_eq, text_eq_iff, mem, if◌then◌else◌,
}
use hermes_vector_platform.Recent.{trim, remove}

pub length-trim-le {ℓ} : {A : Type ℓ} (bound : ℕ) (xs : List A) → length (trim bound xs) ≤ bound
unfolding trim
length-trim-le bound [] = omega arith
length-trim-le bound (x ∷ xs) = ground (arith, length-trim-le bound xs)

pub trim_id {ℓ} : {A : Type ℓ} (bound : ℕ) (xs : List A) → length xs ≤ bound → trim bound xs ≡ xs
unfolding trim
trim_id bound [] h = refl
trim_id bound (x ∷ xs) h = ground arith

pub mem-append : (k : Text) (xs ys : List Text) → mem k (xs ++ ys) ≡ (mem k xs || mem k ys)
unfolding mem
mem-append k [] ys = refl
mem-append k (x ∷ xs) ys = ground (arith, mem-append k xs ys)

-- No key stands twice.
unfoldable pub distinct : List Text → Bool
distinct [] = true
distinct (k ∷ ks) = (if mem k ks then false else true) && distinct ks

pub mem-remove :
    (k j : Text) (ks : List Text) → mem k (remove j ks) ≡ (if text_eq k j then false else mem k ks)
unfolding mem remove
mem-remove k j [] = ground arith
mem-remove k j (i ∷ ks) =
    ground (arith, mem-remove k j ks, text_eq_iff i j, text_eq_iff i k, text_eq_iff k j)

pub distinct-remove :
    (j : Text) (ks : List Text) → distinct ks ≡ true → distinct (remove j ks) ≡ true
unfolding distinct remove
distinct-remove j [] h = refl
distinct-remove j (i ∷ ks) h =
    ground (arith, distinct-remove j ks, mem-remove i j ks, text_eq_iff i j)

pub distinct-concat :
    (k : Text) (ks : List Text)
    → distinct ks ≡ true
    → mem k ks ≡ false
    → distinct (ks ++ (k ∷ [])) ≡ true
unfolding distinct mem
distinct-concat k [] h n = refl
distinct-concat k (i ∷ ks) h n =
    ground (arith, distinct-concat k ks, mem-append i ks (k ∷ []), text_eq_iff i k, text_eq_iff k i)

pub distinct-trim :
    (bound : ℕ) (ks : List Text) → distinct ks ≡ true → distinct (trim bound ks) ≡ true
unfolding distinct trim
distinct-trim bound [] h = refl
distinct-trim bound (k ∷ ks) h = ground (arith, distinct-trim bound ks)

pub length-remove-le : (k : Text) (ks : List Text) → length (remove k ks) ≤ length ks
unfolding remove
length-remove-le k [] = omega arith
length-remove-le k (i ∷ ks) = ground (arith, length-remove-le k ks)

pub length-remove-mem :
    (k : Text) (ks : List Text) → mem k ks ≡ true → length (remove k ks) + 1 ≤ length ks
unfolding remove mem
length-remove-mem k [] h = absurd (ground arith)
length-remove-mem k (i ∷ ks) h = ground (arith, length-remove-mem k ks, length-remove-le k ks)
