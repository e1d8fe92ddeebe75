-- ===== src/Bech32/Linear.antt =====
-- The checksum is linear: the register that a sum of two inputs leaves is the sum of the two
-- registers. The table of the generator's contributions is checked by evaluation.
use mathlib.Core.Path.{ap₂}
use hermes_vector_platform.Prelude.{
  ℕ, zero, suc, ◌+◌, ◌*◌, ◌/◌, ◌^◌, ◌<◌, ◌==◌, ==_iff, ◌≡◌, refl, sym, ap, ◌∙◌, arith, Bool, true,
  ◌&&◌, List, [], ◌∷◌, bit_and, bit_xor, if◌then◌else◌,
}
use hermes_vector_platform.Bech32.Checksum.{generator, mix, polymod_step}
use hermes_vector_platform.Bech32.Xor.{xor_assoc, xor_comm, xor-zero, zero-xor}
use hermes_vector_platform.Bech32.Digits.{
  low, and-mask, low-xor, low_top, xor-mul, xor-top, xor_lt, xor_disjoint,
}

mix-xor : (top i : ℕ) (gs : List ℕ) (chk : ℕ) → mix top i gs chk ≡ bit_xor chk (mix top i gs 0)
unfolding mix
mix-xor top i [] chk = sym (xor-zero chk)
mix-xor top i (g ∷ gs) chk =
    let term : ℕ = if bit_and (top / 2 ^ i) 1 == 0 then 0 else g in
    mix-xor top (i + 1) gs (bit_xor chk term)
    ∙ (xor_assoc chk term (mix top (i + 1) gs 0)
        ∙ ap (bit_xor chk)
            (sym (mix-xor top (i + 1) gs (bit_xor 0 term) ∙ rw (zero-xor term) refl)))

-- What the five top bits of the register add to it.
contrib : ℕ → ℕ
contrib top = mix top 0 generator 0

unfoldable pub all_below : ℕ → (ℕ → Bool) → Bool
all_below zero p = true
all_below (suc n) p = p n && all_below n p

pub all_below_sound : (n : ℕ) (p : ℕ → Bool) (x : ℕ) → all_below n p ≡ true → x < n → p x ≡ true
unfolding all_below
all_below_sound zero p x h k = absurd (omega arith)
all_below_sound (suc n) p x h k = ground (arith, all_below_sound n p x)

contrib_table :
    all_below 32 (λ s. all_below 32 (λ t. contrib (bit_xor s t) == bit_xor (contrib s) (contrib t)))
    ≡ true
unfolding all_below contrib mix
contrib_table = refl

contrib-xor : (s t : ℕ) → s < 32 → t < 32 → contrib (bit_xor s t) ≡ bit_xor (contrib s) (contrib t)
contrib-xor s t h k = (==_iff _ _).0 (
    all_below_sound 32 (λ t'. contrib (bit_xor s t') == bit_xor (contrib s) (contrib t')) t
      (all_below_sound 32
        (λ s'. all_below 32 (λ t'. contrib (bit_xor s' t') == bit_xor (contrib s') (contrib t'))) s
        contrib_table h)
      k)

contrib_lt_table : all_below 32 (λ s. contrib s / 2 ^ 30 == 0) ≡ true
unfolding all_below contrib mix
contrib_lt_table = refl

contrib_lt : (s : ℕ) → s < 32 → contrib s < 2 ^ 30
contrib_lt s h =
    let small : contrib s / 2 ^ 30 ≡ 0 =
      (==_iff _ _).0 (all_below_sound 32 (λ s'. contrib s' / 2 ^ 30 == 0) s contrib_lt_table h) in
    omega (arith, small)

step_lem :
    (chk v : ℕ)
    → polymod_step chk v ≡ bit_xor (bit_xor (low 25 chk * 32) v) (contrib (chk / 2 ^ 25))
unfolding polymod_step contrib
step_lem chk v =
    mix-xor (chk / 2 ^ 25) 0 generator (bit_xor (bit_and chk 0x1FFFFFF * 2 ^ 5) v)
    ∙ ap (λ (t : ℕ). bit_xor (bit_xor (t * 32) v) (mix (chk / 2 ^ 25) 0 generator 0))
        (and-mask 25 chk)

pub step_lt : (chk v : ℕ) → chk < 2 ^ 30 → v < 32 → polymod_step chk v < 2 ^ 30
step_lt chk v h k = rw step_lem (
    xor_lt _ _ (xor_lt _ _ (omega (arith, low_top chk)) (omega arith))
      (contrib_lt (chk / 2 ^ 25) (omega arith)))

-- (a + b) + (c + d) is (a + c) + (b + d).
xor_swap : (a b c d : ℕ) → bit_xor (bit_xor a b) (bit_xor c d) ≡ bit_xor (bit_xor a c) (bit_xor b d)
xor_swap a b c d = cc (
  xor_assoc a b (bit_xor c d),
  xor_assoc b c d,
  xor_comm b c,
  xor_assoc c b d,
  xor_assoc a c (bit_xor b d),
)

pub step-xor :
    (a b u v : ℕ)
    → a < 2 ^ 30
    → b < 2 ^ 30
    → polymod_step (bit_xor a b) (bit_xor u v) ≡ bit_xor (polymod_step a u) (polymod_step b v)
step-xor a b u v h k =
    let la : ℕ = low 25 a * 32 in
    let lb : ℕ = low 25 b * 32 in
    let ca : ℕ = contrib (a / 2 ^ 25) in
    let cb : ℕ = contrib (b / 2 ^ 25) in
    let lows : low 25 (bit_xor a b) * 32 ≡ bit_xor la lb =
      ap (λ (t : ℕ). t * 32) (low-xor 25 a b) ∙ sym (xor-mul (low 25 a) (low 25 b)) in
    let tops : contrib (bit_xor a b / 2 ^ 25) ≡ bit_xor ca cb =
      ap contrib (xor-top a b)
      ∙ contrib-xor (a / 2 ^ 25) (b / 2 ^ 25) (omega arith) (omega arith) in
    step_lem (bit_xor a b) (bit_xor u v)
    ∙ (ap₂ (λ (s t : ℕ). bit_xor (bit_xor s (bit_xor u v)) t) lows tops
        ∙ (ap (λ (t : ℕ). bit_xor t (bit_xor ca cb)) (xor_swap la lb u v)
            ∙ (xor_swap (bit_xor la u) (bit_xor lb v) ca cb
                ∙ ap₂ bit_xor (sym (step_lem a u)) (sym (step_lem b v)))))

contrib-zero : contrib 0 ≡ 0
unfolding contrib mix
contrib-zero = refl

-- Below 2 ^ 25 nothing is fed back: the symbol is appended.
pub step_small : (a v : ℕ) → a < 2 ^ 25 → v < 32 → polymod_step a v ≡ a * 32 + v
step_small a v h k =
    step_lem a v
    ∙ (ap₂ (λ (s t : ℕ). bit_xor (bit_xor (s * 32) v) (contrib t)) {x = low 25 a} {y = a}
          {u = a / 2 ^ 25} {v = 0} (omega (arith, low_top a)) (omega arith)
        ∙ (ap (bit_xor (bit_xor (a * 32) v)) contrib-zero
            ∙ (xor-zero (bit_xor (a * 32) v) ∙ xor_disjoint a v k)))
