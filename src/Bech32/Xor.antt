-- ===== src/Bech32/Xor.antt =====
-- The laws of `^`, `&` and `|` on natural numbers that the checksum and the regrouping rest on.
-- A number is read digit by digit: `halves k a` is `a >> k`, `low k a` its `k` low digits.
use Prim.Native.Nat.{digits, differ, bit_and-bitwise, bit_or-bitwise, bit_xor-bitwise, min, max}
use hermes_vector_platform.Prelude.{
  ℕ, zero, suc, ◌+◌, ◌*◌, ◌/◌, ◌%◌, ◌≤◌, ◌<◌, ◌≡◌, ◌⊎◌, inl, inr, refl, ap, ◌∙◌, arith, bit_and,
  bit_or, bit_xor,
}

-- The fuel of the digit recursion does not count, as long as it is enough.
enough_digits :
    (z : ℕ → ℕ) (f : ℕ → ℕ → ℕ) (a b n m : ℕ) → a ≤ n → a ≤ m → digits z f n a b ≡ digits z f m a b
enough_digits z f zero b zero zero h k = refl
enough_digits z f zero b zero (suc m) h k = refl
enough_digits z f zero b (suc n) zero h k = refl
enough_digits z f zero b (suc n) (suc m) h k = refl
enough_digits z f (suc a) b zero m h k = absurd (omega arith)
enough_digits z f (suc a) b (suc n) zero h k = absurd (omega arith)
enough_digits z f (suc a) b (suc n) (suc m) h k =
    ap (λ (t : ℕ). t * 2 + f (suc a % 2) (b % 2))
      (enough_digits z f (suc a / 2) (b / 2) n m (omega arith) (omega arith))

-- One step of the recursion that `^` stands for.
xor_unfold :
    (a b : ℕ) → bit_xor (suc a) b ≡ bit_xor (suc a / 2) (b / 2) * 2 + differ (suc a % 2) (b % 2)
xor_unfold a b = omega (
  arith,
  bit_xor-bitwise (suc a) b,
  bit_xor-bitwise (suc a / 2) (b / 2),
  enough_digits (λ b. b) differ (suc a / 2) (b / 2) a (suc a / 2) (omega arith) (omega arith),
)

digit_cases : (x : ℕ) → x < 2 → (x ≡ 0) ⊎ (x ≡ 1)
digit_cases x h = ground arith

differ_digits : (x y : ℕ) → x < 2 → y < 2 → differ x y ≡ (x + y) % 2
differ_digits x y h k = elim (digit_cases x h) [
  | inl p ↦ rw p (elim (digit_cases y k) [ inl q ↦ rw q | inr q ↦ rw q ])
  | inr p ↦ rw p (elim (digit_cases y k) [ inl q ↦ rw q | inr q ↦ rw q ])
]

xor_step : (a b : ℕ) → bit_xor a b ≡ bit_xor (a / 2) (b / 2) * 2 + (a % 2 + b % 2) % 2
xor_step zero b = omega (arith, bit_xor-bitwise 0 b, bit_xor-bitwise 0 (b / 2))
xor_step (suc a) b =
    omega (arith, xor_unfold a b, differ_digits (suc a % 2) (b % 2) (omega arith) (omega arith))

pub xor_halves : (a b : ℕ) → bit_xor a b / 2 ≡ bit_xor (a / 2) (b / 2)
xor_halves a b = omega (arith, xor_step a b)

pub xor_low : (a b : ℕ) → bit_xor a b % 2 ≡ (a % 2 + b % 2) % 2
xor_low a b = omega (arith, xor_step a b)

and_unfold :
    (a b : ℕ) → bit_and (suc a) b ≡ bit_and (suc a / 2) (b / 2) * 2 + min (suc a % 2) (b % 2)
and_unfold a b = omega (
  arith,
  bit_and-bitwise (suc a) b,
  bit_and-bitwise (suc a / 2) (b / 2),
  enough_digits (λ b. 0) min (suc a / 2) (b / 2) a (suc a / 2) (omega arith) (omega arith),
)

pub and_step : (a b : ℕ) → bit_and a b ≡ bit_and (a / 2) (b / 2) * 2 + min (a % 2) (b % 2)
and_step zero b = omega (arith, bit_and-bitwise 0 b, bit_and-bitwise 0 (b / 2))
and_step (suc a) b = and_unfold a b

or_unfold : (a b : ℕ) → bit_or (suc a) b ≡ bit_or (suc a / 2) (b / 2) * 2 + max (suc a % 2) (b % 2)
or_unfold a b = omega (
  arith,
  bit_or-bitwise (suc a) b,
  bit_or-bitwise (suc a / 2) (b / 2),
  enough_digits (λ b. b) max (suc a / 2) (b / 2) a (suc a / 2) (omega arith) (omega arith),
)

pub or_step : (a b : ℕ) → bit_or a b ≡ bit_or (a / 2) (b / 2) * 2 + max (a % 2) (b % 2)
or_step zero b = omega (arith, bit_or-bitwise 0 b, bit_or-bitwise 0 (b / 2))
or_step (suc a) b = or_unfold a b

-- The laws of `^`, by recursion on a bound of the numbers.
xor_comm_below : (n a b : ℕ) → a ≤ n → b ≤ n → bit_xor a b ≡ bit_xor b a
xor_comm_below zero zero zero h k = refl
xor_comm_below zero (suc a) b h k = absurd (omega arith)
xor_comm_below zero zero (suc b) h k = absurd (omega arith)
xor_comm_below (suc n) a b h k = omega (
  arith,
  xor_step a b,
  xor_step b a,
  xor_comm_below n (a / 2) (b / 2) (omega arith) (omega arith),
)

pub xor_comm : (a b : ℕ) → bit_xor a b ≡ bit_xor b a
xor_comm a b = xor_comm_below (a + b) a b (omega arith) (omega arith)

xor_assoc_below : (n a b c : ℕ) → a + b + c ≤ n → bit_xor (bit_xor a b) c ≡ bit_xor a (bit_xor b c)
xor_assoc_below zero zero zero zero h = refl
xor_assoc_below zero (suc a) b c h = absurd (omega arith)
xor_assoc_below zero zero (suc b) c h = absurd (omega arith)
xor_assoc_below zero zero zero (suc c) h = absurd (omega arith)
xor_assoc_below (suc n) zero zero zero h = refl
xor_assoc_below (suc n) a b c h =
    let ih = xor_assoc_below n (a / 2) (b / 2) (c / 2) (omega arith) in
    let left = ap (λ (t : ℕ). bit_xor t (c / 2)) (xor_halves a b) in
    let right = ap (bit_xor (a / 2)) (xor_halves b c) in
    omega (
      arith,
      xor_step (bit_xor a b) c,
      xor_step a (bit_xor b c),
      xor_low a b,
      xor_low b c,
      left,
      right,
      ih,
    )

pub xor_assoc : (a b c : ℕ) → bit_xor (bit_xor a b) c ≡ bit_xor a (bit_xor b c)
xor_assoc a b c = xor_assoc_below (a + b + c) a b c (omega arith)

xor_self_below : (n a : ℕ) → a ≤ n → bit_xor a a ≡ 0
xor_self_below zero zero h = refl
xor_self_below zero (suc a) h = absurd (omega arith)
xor_self_below (suc n) a h = omega (arith, xor_step a a, xor_self_below n (a / 2) (omega arith))

pub xor_self : (a : ℕ) → bit_xor a a ≡ 0
xor_self a = xor_self_below a a (omega arith)

pub zero-xor : (a : ℕ) → bit_xor 0 a ≡ a
zero-xor a = bit_xor-bitwise 0 a

pub xor-zero : (a : ℕ) → bit_xor a 0 ≡ a
xor-zero a = xor_comm a 0 ∙ zero-xor a
