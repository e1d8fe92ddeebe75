-- ===== src/Bech32/Regroup/Bits.antt =====
-- The binary digits of numbers and of lists of numbers, the highest first.
use native.Mathlib.Nat.{div-div-eq-div-mul, pow-succ', pow-suc, one-le-pow}
use mathlib.Core.Path.{ap₂}
use mathlib.Core.List.{append_assoc, append-nil}
use hermes_vector_platform.Prelude.{
  ℕ, zero, suc, ◌+◌, ◌-◌, ◌*◌, ◌/◌, ◌%◌, ◌^◌, ◌<◌, ◌≡◌, ◌≢◌, refl, sym, ap, ◌∙◌, arith, List, [],
  ◌∷◌, ◌++◌, length, length-append,
}
use hermes_vector_platform.Bech32.Digits.{low, mask}
use hermes_vector_platform.Bech32.Symbols.{AllBelow}

-- The `k` low binary digits of a number.
unfoldable pub bits_of : ℕ → ℕ → List ℕ
bits_of zero a = []
bits_of (suc k) a = bits_of k (a / 2) ++ (a % 2 ∷ [])

-- The digits of a list of values of `k` digits each.
unfoldable pub stream : ℕ → List ℕ → List ℕ
stream k [] = []
stream k (v ∷ vs) = bits_of k v ++ stream k vs

abbrev pub plus : ℕ → ℕ → ℕ
plus zero k = k
plus (suc j) k = suc (plus j k)

pub plus_lem : (j k : ℕ) → plus j k ≡ k + j
plus_lem zero k = omega arith
plus_lem (suc j) k = omega (arith, plus_lem j k)

pub length-bits_of : (k a : ℕ) → length (bits_of k a) ≡ k
unfolding bits_of
length-bits_of zero a = refl
length-bits_of (suc k) a =
    omega (arith, length-append {0} (bits_of k (a / 2)) (a % 2 ∷ []), length-bits_of k (a / 2))

-- `(a << j) | v` for a value of `j` digits.
pub bits_of-shift :
    (j k a v : ℕ) → v < 2 ^ j → bits_of (plus j k) (a * 2 ^ j + v) ≡ bits_of k a ++ bits_of j v
unfolding bits_of
bits_of-shift zero k a v h =
    let same : a * 2 ^ 0 + v ≡ a = omega arith in
    ap (bits_of k) same ∙ sym (append-nil (bits_of k a))
bits_of-shift (suc j) k a v h =
    let product = ap (λ (t : ℕ). a * t) (pow-suc 2 j) in
    let half : (a * 2 ^ suc j + v) / 2 ≡ a * 2 ^ j + v / 2 = omega (arith, product) in
    let digit : (a * 2 ^ suc j + v) % 2 ≡ v % 2 = omega (arith, product) in
    rw (half, digit, bits_of-shift j k a (v / 2) (omega (arith, pow-suc 2 j)))
      (append_assoc (bits_of k a) (bits_of j (v / 2)) (v % 2 ∷ []))

div_pow : (j a : ℕ) → a / 2 / 2 ^ j ≡ a / 2 ^ suc j
div_pow j a = div-div-eq-div-mul a 2 (2 ^ j) ∙ ap (λ (t : ℕ). a / t) (sym (pow-succ' 2 j))

-- `a >> j` and what the shift drops.
pub bits_of-split : (j k a : ℕ) → bits_of (plus j k) a ≡ bits_of k (a / 2 ^ j) ++ bits_of j a
unfolding bits_of
bits_of-split zero k a =
    let same : a / 2 ^ 0 ≡ a = omega arith in rw same (sym (append-nil (bits_of k a)))
bits_of-split (suc j) k a =
    rw (bits_of-split j k (a / 2), div_pow j a)
      (append_assoc (bits_of k (a / 2 ^ suc j)) (bits_of j (a / 2)) (a % 2 ∷ []))

pub bits_of-low : (k a : ℕ) → bits_of k (low k a) ≡ bits_of k a
unfolding bits_of
bits_of-low zero a = refl
bits_of-low (suc k) a =
    let half : (low k (a / 2) * 2 + a % 2) / 2 ≡ low k (a / 2) = omega arith in
    let digit : (low k (a / 2) * 2 + a % 2) % 2 ≡ a % 2 = omega arith in
    rw (half, digit, bits_of-low k (a / 2))

pub low_lt : (k a : ℕ) → low k a < 2 ^ k
low_lt zero a = omega arith
low_lt (suc k) a = omega (arith, low_lt k (a / 2), pow-suc 2 k)

pub low_of_lt : (k a : ℕ) → a < 2 ^ k → low k a ≡ a
low_of_lt zero a h = omega arith
low_of_lt (suc k) a h = omega (arith, pow-suc 2 k, low_of_lt k (a / 2) (omega (arith, pow-suc 2 k)))

pub mask_lem : (k : ℕ) → 2 ^ k - 1 ≡ mask k
mask_lem zero = refl
mask_lem (suc k) = omega (arith, mask_lem k, pow-suc 2 k, one-le-pow k 2)

-- Two numbers with the same digits.
append-cancel :
    (xs ys us vs : List ℕ) → length xs ≡ length ys → xs ++ us ≡ ys ++ vs → (xs ≡ ys) × (us ≡ vs)
append-cancel [] [] us vs h e = (refl, e)
append-cancel [] (y ∷ ys) us vs h e = absurd (omega arith)
append-cancel (x ∷ xs) [] us vs h e = absurd (omega arith)
append-cancel (x ∷ xs) (y ∷ ys) us vs h e =
    let (p, q) = append-cancel xs ys us vs (omega arith) (ground arith) in (ground arith, q)

pub low_of_bits : (k a b : ℕ) → bits_of k a ≡ bits_of k b → low k a ≡ low k b
unfolding bits_of
low_of_bits zero a b e = refl
low_of_bits (suc k) a b e =
    let (p, q) =
      append-cancel (bits_of k (a / 2)) (bits_of k (b / 2)) (a % 2 ∷ []) (b % 2 ∷ [])
        (omega (arith, length-bits_of k (a / 2), length-bits_of k (b / 2))) e in
    let digit : a % 2 ≡ b % 2 = cc in omega (arith, low_of_bits k (a / 2) (b / 2) p, digit)

too_long : (k y : ℕ) (rest us vs : List ℕ) → length us < k → us ≢ (bits_of k y ++ rest) ++ vs
too_long k y rest us vs h e = absurd (
    omega (
      arith,
      ap length e,
      length-append {0} (bits_of k y ++ rest) vs,
      length-append {0} (bits_of k y) rest,
      length-bits_of k y,
    ))

-- A list of values is determined by its digits, a rest shorter than a value included.
pub stream_unique :
    (k : ℕ) (xs ys us vs : List ℕ)
    → AllBelow (2 ^ k) xs
    → AllBelow (2 ^ k) ys
    → length us < k
    → length vs < k
    → stream k xs ++ us ≡ stream k ys ++ vs
    → (xs ≡ ys) × (us ≡ vs)
unfolding stream
stream_unique k [] [] us vs hx hy hu hv e = (refl, e)
stream_unique k [] (y ∷ ys) us vs hx hy hu hv e = absurd (too_long k y (stream k ys) us vs hu e)
stream_unique k (x ∷ xs) [] us vs hx hy hu hv e =
    absurd (too_long k x (stream k xs) vs us hv (sym e))
stream_unique k (x ∷ xs) (y ∷ ys) us vs (hx, hxs) (hy, hys) hu hv e =
    let regrouped =
      sym (append_assoc (bits_of k x) (stream k xs) us)
      ∙ (e ∙ append_assoc (bits_of k y) (stream k ys) vs) in
    let (same, rest) =
      append-cancel (bits_of k x) (bits_of k y) (stream k xs ++ us) (stream k ys ++ vs)
        (omega (arith, length-bits_of k x, length-bits_of k y)) regrouped in
    let value : x ≡ y = omega (arith, low_of_bits k x y same, low_of_lt k x hx, low_of_lt k y hy) in
    let (values, tails) = stream_unique k xs ys us vs hxs hys hu hv rest in
    (ap₂ ◌∷◌ value values, tails)
