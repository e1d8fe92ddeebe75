-- ===== src/Bech32/Residue.antt =====
-- The checksum symbols that the encoder appends make the checksum of the whole text 1.
use hermes_vector_platform.Prelude.{
  ℕ, ◌+◌, ◌*◌, ◌/◌, ◌%◌, ◌^◌, ◌<◌, ◌≡◌, refl, sym, ap, ◌∙◌, arith, List, [], ◌∷◌, ◌++◌, bit_and,
  bit_xor,
}
use hermes_vector_platform.Bech32
use hermes_vector_platform.Bech32.Checksum.{polymod, polymod_from, polymod_step}
use hermes_vector_platform.Bech32.Xor.{xor_assoc, xor-zero, zero-xor, xor_self}
use hermes_vector_platform.Bech32.Digits.{low-five, and-mask, xor_lt}
use hermes_vector_platform.Bech32.Linear.{step-xor, step_lt, step_small}
use hermes_vector_platform.Bech32.Symbols.{AllBelow}

abbrev pub zeros : List ℕ
zeros = 0 ∷ 0 ∷ 0 ∷ 0 ∷ 0 ∷ 0 ∷ []

polymod_from-append :
    (s : ℕ) (xs ys : List ℕ) → polymod_from s (xs ++ ys) ≡ polymod_from (polymod_from s xs) ys
unfolding polymod_from
polymod_from-append s [] ys = refl
polymod_from-append s (x ∷ xs) ys = polymod_from-append (polymod_step s x) xs ys

polymod_from_lt : (s : ℕ) (xs : List ℕ) → s < 2 ^ 30 → AllBelow 32 xs → polymod_from s xs < 2 ^ 30
unfolding polymod_from
polymod_from_lt s [] h k = h
polymod_from_lt s (x ∷ xs) h (p, k) = polymod_from_lt (polymod_step s x) xs (step_lt s x h p) k

-- Feeding symbols is feeding zeros, and adding what the symbols leave in an empty register.
abbrev SameLength : List ℕ → List ℕ → Type 0
SameLength [] [] = Unit
SameLength (x ∷ xs) (y ∷ ys) = (x ≡ 0) × SameLength xs ys
SameLength _ _ = ⊥

superpose :
    (s t : ℕ) (xs zs : List ℕ)
    → s < 2 ^ 30
    → t < 2 ^ 30
    → AllBelow 32 xs
    → SameLength zs xs
    → polymod_from (bit_xor s t) xs ≡ bit_xor (polymod_from s zs) (polymod_from t xs)
unfolding polymod_from
superpose s t [] [] hs ht k z = refl
superpose s t [] (w ∷ zs) hs ht k z = absurd z
superpose s t (x ∷ xs) [] hs ht k z = absurd z
superpose s t (x ∷ xs) (w ∷ zs) hs ht (p, k) (e, z) = rw e (
    ap (λ (r : ℕ). polymod_from (polymod_step (bit_xor s t) r) xs) (sym (zero-xor x))
    ∙ (ap (λ (r : ℕ). polymod_from r xs) (step-xor s t 0 x hs ht)
        ∙ superpose (polymod_step s 0) (polymod_step t x) xs zs (step_lt s 0 hs (omega arith))
            (step_lt t x ht p) k z))

-- Six symbols in an empty register are the digits of a number to the base 32.
pack :
    (a b c d e f : ℕ)
    → AllBelow 32 (a ∷ b ∷ c ∷ d ∷ e ∷ f ∷ [])
    → polymod_from 0 (a ∷ b ∷ c ∷ d ∷ e ∷ f ∷ [])
      ≡ ((((a * 32 + b) * 32 + c) * 32 + d) * 32 + e) * 32 + f
unfolding polymod_from
pack a b c d e f h =
    let s1 : polymod_step 0 a ≡ a = step_small 0 a (omega arith) (omega arith) ∙ omega arith in
    rw s1 (
      rw (step_small a b (omega arith) (omega arith)) (
        rw (step_small (a * 32 + b) c (omega arith) (omega arith)) (
          rw (step_small ((a * 32 + b) * 32 + c) d (omega arith) (omega arith)) (
            rw (step_small (((a * 32 + b) * 32 + c) * 32 + d) e (omega arith) (omega arith)) (
              step_small ((((a * 32 + b) * 32 + c) * 32 + d) * 32 + e) f (omega arith)
                (omega arith))))))

symbol : ℕ → ℕ → ℕ
symbol p k = bit_and (p / 2 ^ k) 31

symbol_lem : (p k : ℕ) → symbol p k ≡ p / 2 ^ k % 32
unfolding symbol
symbol_lem p k = and-mask 5 (p / 2 ^ k) ∙ low-five (p / 2 ^ k)

checksum_symbols_lem :
    (p : ℕ)
    → Bech32.checksum_symbols p
      ≡ p / 2 ^ 25 % 32
        ∷ p / 2 ^ 20 % 32
        ∷ p / 2 ^ 15 % 32
        ∷ p / 2 ^ 10 % 32
        ∷ p / 2 ^ 5 % 32
        ∷ p / 2 ^ 0 % 32
        ∷ []
unfolding Bech32.checksum_symbols symbol
checksum_symbols_lem p = simp (
  symbol_lem p 25,
  symbol_lem p 20,
  symbol_lem p 15,
  symbol_lem p 10,
  symbol_lem p 5,
  symbol_lem p 0,
)

pub checksum_symbols_below : (p : ℕ) → AllBelow 32 (Bech32.checksum_symbols p)
checksum_symbols_below p = rw (checksum_symbols_lem p) (omega arith)

pack-checksum_symbols : (p : ℕ) → p < 2 ^ 30 → polymod_from 0 (Bech32.checksum_symbols p) ≡ p
pack-checksum_symbols p h =
    let packed =
      pack (p / 2 ^ 25 % 32) (p / 2 ^ 20 % 32) (p / 2 ^ 15 % 32) (p / 2 ^ 10 % 32) (p / 2 ^ 5 % 32)
        (p / 2 ^ 0 % 32) (omega arith) in
    rw (checksum_symbols_lem p) (packed ∙ omega arith)

SameLength-zeros : (p : ℕ) → SameLength zeros (Bech32.checksum_symbols p)
SameLength-zeros p = rw (checksum_symbols_lem p) (omega arith)

-- Whatever the symbols, the checksum that is appended is accepted.
pub residue :
    (values : List ℕ)
    → AllBelow 32 values
    → polymod (values ++ Bech32.checksum_symbols (bit_xor (polymod (values ++ zeros)) 1)) ≡ 1
unfolding polymod
residue values h =
    let s : ℕ = polymod_from 1 values in
    let P : ℕ = polymod_from s zeros in
    let p : ℕ = bit_xor P 1 in
    let s_lt : s < 2 ^ 30 = polymod_from_lt 1 values (omega arith) h in
    let P_lt : P < 2 ^ 30 = polymod_from_lt s zeros s_lt (omega arith) in
    let p_lt : p < 2 ^ 30 = xor_lt P 1 P_lt (omega arith) in
    let cs : List ℕ = Bech32.checksum_symbols p in
    let spread : polymod_from s cs ≡ bit_xor P p =
      ap (λ (r : ℕ). polymod_from r cs) (sym (xor-zero s))
      ∙ (superpose s 0 cs zeros s_lt (omega arith) (checksum_symbols_below p) (SameLength-zeros p)
          ∙ ap (bit_xor P) (pack-checksum_symbols p p_lt)) in
    let same : bit_xor P p ≡ 1 = sym (xor_assoc P P 1) ∙ rw (xor_self P) (zero-xor 1) in
    let start : polymod_from 1 (values ++ zeros) ≡ P = polymod_from-append 1 values zeros in
    rw (ap (λ (r : ℕ). polymod_from 1 (values ++ Bech32.checksum_symbols (bit_xor r 1))) start)
      (polymod_from-append 1 values cs ∙ (spread ∙ same))
