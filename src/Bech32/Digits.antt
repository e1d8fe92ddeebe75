-- ===== src/Bech32/Digits.antt =====
-- Shifts and masks as recursions on binary digits: `halves k a` is `a >> k`, and `low k a` the
-- number that the `k` lowest digits of `a` make.
use mathlib.Core.Path.{ap₂}
use hermes_vector_platform.Prelude.{
  ℕ, zero, suc, ◌+◌, ◌*◌, ◌/◌, ◌%◌, ◌^◌, ◌<◌, ◌≡◌, refl, sym, ap, ◌∙◌, arith, bit_and, bit_xor,
}
use hermes_vector_platform.Bech32.Xor.{xor_halves, xor_low, and_step, zero-xor, xor-zero}

abbrev pub halves : ℕ → ℕ → ℕ
halves zero a = a
halves (suc k) a = halves k (a / 2)

abbrev pub low : ℕ → ℕ → ℕ
low zero a = 0
low (suc k) a = low k (a / 2) * 2 + a % 2

-- `(1 << k) - 1`
abbrev pub mask : ℕ → ℕ
mask zero = 0
mask (suc k) = mask k * 2 + 1

pub and-mask : (k a : ℕ) → bit_and a (mask k) ≡ low k a
and-mask zero a = and-zero a
  where
    and-zero_below : (n b : ℕ) → b < n → bit_and b 0 ≡ 0
    and-zero_below zero b h = absurd (omega arith)
    and-zero_below (suc n) zero h = refl
    and-zero_below (suc n) (suc b) h =
        omega (arith, and_step (suc b) 0, and-zero_below n (suc b / 2) (omega arith))

    and-zero : (b : ℕ) → bit_and b 0 ≡ 0
    and-zero b = and-zero_below (suc b) b (omega arith)
and-mask (suc k) a =
    let half : bit_and (a / 2) ((mask k * 2 + 1) / 2) ≡ bit_and (a / 2) (mask k) =
      ap (bit_and (a / 2)) (omega arith) in
    omega (arith, and_step a (mask (suc k)), half, and-mask k (a / 2))

pub halves-xor : (k a b : ℕ) → halves k (bit_xor a b) ≡ bit_xor (halves k a) (halves k b)
halves-xor zero a b = refl
halves-xor (suc k) a b = ap (halves k) (xor_halves a b) ∙ halves-xor k (a / 2) (b / 2)

low-lt_digits :
    (k a b : ℕ)
    → bit_xor (low (suc k) a) (low (suc k) b) / 2 ≡ bit_xor (low k (a / 2)) (low k (b / 2))
low-lt_digits k a b =
    let left : (low k (a / 2) * 2 + a % 2) / 2 ≡ low k (a / 2) = omega arith in
    let right : (low k (b / 2) * 2 + b % 2) / 2 ≡ low k (b / 2) = omega arith in
    xor_halves (low (suc k) a) (low (suc k) b) ∙ rw (left, right) refl

pub low-xor : (k a b : ℕ) → low k (bit_xor a b) ≡ bit_xor (low k a) (low k b)
low-xor zero a b = refl
low-xor (suc k) a b = omega (
  arith,
  low-lt_digits k a b,
  xor_low (low (suc k) a) (low (suc k) b),
  xor_low a b,
  low-xor k (a / 2) (b / 2),
  ap (low k) (xor_halves a b),
)

pub low-five : (a : ℕ) → low 5 a ≡ a % 32
low-five a = omega arith

pub halves-five : (a : ℕ) → halves 5 a ≡ a / 32
halves-five a = omega arith

pub xor-div : (a b : ℕ) → bit_xor a b / 32 ≡ bit_xor (a / 32) (b / 32)
xor-div a b =
    sym (halves-five (bit_xor a b))
    ∙ (halves-xor 5 a b ∙ ap₂ bit_xor (halves-five a) (halves-five b))

pub xor-mod : (a b : ℕ) → bit_xor a b % 32 ≡ bit_xor (a % 32) (b % 32)
xor-mod a b = sym (low-five (bit_xor a b)) ∙ (low-xor 5 a b ∙ ap₂ bit_xor (low-five a) (low-five b))

-- A shift left by five places.
pub xor-mul : (a b : ℕ) → bit_xor (a * 32) (b * 32) ≡ bit_xor a b * 32
xor-mul a b = ground (arith, xor-div (a * 32) (b * 32), xor-mod (a * 32) (b * 32), zero-xor 0)

-- A symbol of five bits is put below a shifted number.
pub xor_disjoint : (a v : ℕ) → v < 32 → bit_xor (a * 32) v ≡ a * 32 + v
xor_disjoint a v h = ground (arith, xor-div (a * 32) v, xor-mod (a * 32) v, zero-xor v, xor-zero a)

halves_group : (k a : ℕ) → halves (suc (suc (suc (suc (suc k))))) a ≡ halves k (a / 32)
halves_group k a = ap (halves k) (halves-five a)

low_group : (k a : ℕ) → low (suc (suc (suc (suc (suc k))))) a ≡ low k (a / 32) * 32 + a % 32
low_group k a = omega (arith, ap (low k) (halves-five a))

pub halves_top : (a : ℕ) → halves 25 a ≡ a / 2 ^ 25
halves_top a = omega (
  arith,
  halves_group 20 a,
  halves_group 15 (a / 32),
  halves_group 10 (a / 32 / 32),
  halves_group 5 (a / 32 / 32 / 32),
  halves-five (a / 32 / 32 / 32 / 32),
)

pub low_top : (a : ℕ) → low 25 a ≡ a % 2 ^ 25
low_top a = omega (
  arith,
  low_group 20 a,
  low_group 15 (a / 32),
  low_group 10 (a / 32 / 32),
  low_group 5 (a / 32 / 32 / 32),
  low-five (a / 32 / 32 / 32 / 32),
)

pub xor-top : (a b : ℕ) → bit_xor a b / 2 ^ 25 ≡ bit_xor (a / 2 ^ 25) (b / 2 ^ 25)
xor-top a b =
    sym (halves_top (bit_xor a b)) ∙ (halves-xor 25 a b ∙ ap₂ bit_xor (halves_top a) (halves_top b))

-- Thirty bits stay thirty bits.
pub xor_lt : (a b : ℕ) → a < 2 ^ 30 → b < 2 ^ 30 → bit_xor a b < 2 ^ 30
xor_lt a b h k =
    let small : bit_xor a b / 2 ^ 25 / 32 ≡ 0 =
      ground (arith, xor-top a b, xor-div (a / 2 ^ 25) (b / 2 ^ 25), zero-xor 0) in
    omega (arith, small)
