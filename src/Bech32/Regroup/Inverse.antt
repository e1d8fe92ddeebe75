-- ===== src/Bech32/Regroup/Inverse.antt =====
-- Regrouping bytes to symbols with padding, and back without, gives the bytes again.
use Prim.Native.Nat.{bit_and-bitwise}
use mathlib.Core.List.{append_assoc, append-nil}
use native.Mathlib.Nat.{one-le-pow}
use hermes_vector_platform.Prelude.{
  ℕ, ◌-◌, ◌*◌, ◌^◌, ◌≤◌, ◌<◌, ◌==◌, ==_iff, Bool-cases, ◌≡◌, inl, inr, refl, sym, ap, ◌∙◌, arith,
  true, false, some, List, [], ◌∷◌, ◌++◌, bit_and, length,
}
use hermes_vector_platform.Bech32.Convert.{flush, convertbits}
use hermes_vector_platform.Bech32.Symbols.{AllBelow, AllBelow-append}
use hermes_vector_platform.Bech32.Regroup.Bits.{
  bits_of, stream, plus, plus_lem, bits_of-shift, low_of_lt, low_of_bits, length-bits_of,
  stream_unique,
}
use hermes_vector_platform.Bech32.Regroup.Loop.{group_lem, stream-append, convert_lem}

-- The last group: the digits that stay, and zeros behind them.
last_lem :
    (t acc bits : ℕ)
    → bits ≤ t
    → bits_of t (bit_and (acc * 2 ^ (t - bits)) (2 ^ t - 1))
      ≡ bits_of bits acc ++ bits_of (t - bits) 0
last_lem t acc bits h =
    let j : ℕ = t - bits in
    (group_lem t (acc * 2 ^ j)).0
    ∙ (ap (λ (k : ℕ). bits_of k (acc * 2 ^ j)) (omega (arith, plus_lem j bits))
        ∙ (ap (bits_of (plus j bits)) (omega arith)
            ∙ bits_of-shift j bits acc 0 (omega (arith, one-le-pow j 2))))

flush_pad :
    (f t acc bits : ℕ)
    → bits < t
    → (tail : List ℕ) × (j : ℕ) × (flush f t true acc bits ≡ some tail)
      × (stream t tail ≡ bits_of bits acc ++ bits_of j 0)
      × (j < t)
      × AllBelow (2 ^ t) tail
unfolding flush stream
flush_pad f t acc bits h = elim (Bool-cases (bits == 0)) [
  | inl empty ↦
      let none_left : bits ≡ 0 = (==_iff bits 0).0 empty in
      ([], 0, rw empty, rw none_left (unfold bits_of in refl), omega arith, tt)
  | inr more ↦
      let last : ℕ = bit_and (acc * 2 ^ (t - bits)) (2 ^ t - 1) in
      (
        last ∷ [],
        t - bits,
        rw more,
        append-nil (bits_of t last) ∙ last_lem t acc bits (omega arith),
        ground arith,
        ((group_lem t (acc * 2 ^ (t - bits))).1, tt),
      )
]

-- Encoding: all digits of the data, and fewer zeros than a group has digits.
pub convertbits_pad :
    (f t : ℕ) (values : List ℕ)
    → 0 < t
    → AllBelow (2 ^ f) values
    → (out : List ℕ) × (j : ℕ) × (convertbits f t true values ≡ some out)
      × (stream t out ≡ stream f values ++ bits_of j 0)
      × (j < t)
      × AllBelow (2 ^ t) out
unfolding convertbits
convertbits_pad f t values pos h =
    let (out, acc', bits', result, digits, short, below) =
      convert_lem f t true 0 0 values pos h pos in
    let (tail, j, flushed, tail_digits, fits, tail_below) = flush_pad f t acc' bits' short in
    (
      out ++ tail,
      j,
      result ∙ rw flushed refl,
      stream-append t out tail
          ∙ (ap (λ (r : List ℕ). stream t out ++ r) tail_digits
              ∙ (sym (append_assoc (stream t out) (bits_of bits' acc') (bits_of j 0))
                  ∙ ap (λ (r : List ℕ). r ++ bits_of j 0) (unfold bits_of in digits))),
      fits,
      AllBelow-append (2 ^ t) out tail below tail_below,
    )

-- What stays at the end of a decoding is zeros, so nothing is refused.
flush_strict :
    (f t acc bits : ℕ)
    → bits < f
    → bits ≤ t
    → bits_of bits acc ≡ bits_of bits 0
    → flush f t false acc bits ≡ some []
unfolding flush
flush_strict f t acc bits h k zeros =
    let last : ℕ = bit_and (acc * 2 ^ (t - bits)) (2 ^ t - 1) in
    let blank : ℕ = bit_and (0 * 2 ^ (t - bits)) (2 ^ t - 1) in
    let same : bits_of t last ≡ bits_of t blank =
      last_lem t acc bits k
      ∙ (ap (λ (r : List ℕ). r ++ bits_of (t - bits) 0) zeros ∙ sym (last_lem t 0 bits k)) in
    let low_same = low_of_bits t last blank same in
    let blank_zero : blank ≡ 0 =
      ap (λ (r : ℕ). bit_and r (2 ^ t - 1)) (omega arith) ∙ bit_and-bitwise 0 (2 ^ t - 1) in
    let last_zero : last ≡ 0 = omega (
      arith,
      low_same,
      low_of_lt t last (group_lem t (acc * 2 ^ (t - bits))).1,
      low_of_lt t blank (group_lem t (0 * 2 ^ (t - bits))).1,
      blank_zero,
    ) in
    ground arith

-- Decoding: data whose digits are those of a list of values and a few zeros give that list.
pub convertbits_strict :
    (f t j : ℕ) (values result : List ℕ)
    → j < f
    → f ≤ t
    → AllBelow (2 ^ f) values
    → AllBelow (2 ^ t) result
    → stream f values ≡ stream t result ++ bits_of j 0
    → convertbits f t false values ≡ some result
unfolding convertbits
convertbits_strict f t j values result h k below expected digits =
    let (out, acc', bits', converted, kept, short, out_below) =
      convert_lem f t false 0 0 values (omega arith) below (omega arith) in
    let (same, rest) =
      stream_unique t out result (bits_of bits' acc') (bits_of j 0) out_below expected
        (omega (arith, length-bits_of bits' acc')) (omega (arith, length-bits_of j 0))
        (kept ∙ (unfold bits_of in digits)) in
    let size : bits' ≡ j =
      omega (arith, ap length rest, length-bits_of bits' acc', length-bits_of j 0) in
    let zeros : bits_of bits' acc' ≡ bits_of bits' 0 =
      rest ∙ ap (λ (k' : ℕ). bits_of k' 0) (sym size) in
    converted
    ∙ rw (flush_strict f t acc' bits' (omega arith) (omega arith) zeros)
        (ap some (append-nil out ∙ same))
