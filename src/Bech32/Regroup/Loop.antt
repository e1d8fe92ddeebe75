-- ===== src/Bech32/Regroup/Loop.antt =====
-- What the two loops of `_convertbits` compute, in terms of binary digits.
use native.Mathlib.Nat.{pow-suc}
use mathlib.Core.List.{append_assoc, append-nil}
use hermes_vector_platform.Prelude.{
  ℕ, zero, suc, ◌+◌, ◌-◌, ◌*◌, ◌/◌, ◌^◌, ◌≤◌, ◌<◌, ◌==◌, leb, leb→le, ==_iff, Bool-cases, ◌≡◌, inl,
  inr, refl, sym, ap, ◌∙◌, arith, Bool, true, Option, none, some, List, [], ◌∷◌, ◌++◌, bit_and,
  bit_or,
}
use hermes_vector_platform.Prelude.Maybe.{◌>>=◌}
use hermes_vector_platform.Bech32.Convert.{drain, flush, convert_from}
use hermes_vector_platform.Bech32.Digits.{low, and-mask}
use hermes_vector_platform.Bech32.Xor.{or_step}
use hermes_vector_platform.Bech32.Symbols.{AllBelow, AllBelow-append}
use hermes_vector_platform.Bech32.Regroup.Bits.{
  bits_of, stream, plus, plus_lem, bits_of-shift, bits_of-split, bits_of-low, low_lt, mask_lem,
}

or-zero_below : (n a : ℕ) → a < n → bit_or a 0 ≡ a
or-zero_below zero a h = absurd (omega arith)
or-zero_below (suc n) zero h = omega (arith, or_step 0 0)
or-zero_below (suc n) (suc a) h =
    omega (arith, or_step (suc a) 0, or-zero_below n (suc a / 2) (omega arith))

-- `(a << j) | v` is a sum where `v` has `j` digits.
or_sum : (j a v : ℕ) → v < 2 ^ j → bit_or (a * 2 ^ j) v ≡ a * 2 ^ j + v
or_sum zero a v h =
    let none_left : v ≡ 0 = omega arith in
    rw none_left (or-zero_below (suc (a * 2 ^ 0)) (a * 2 ^ 0) (omega arith) ∙ omega arith)
or_sum (suc j) a v h =
    let product = ap (λ (t : ℕ). a * t) (pow-suc 2 j) in
    let half : bit_or (a * 2 ^ suc j / 2) (v / 2) ≡ bit_or (a * 2 ^ j) (v / 2) =
      ap (λ (t : ℕ). bit_or t (v / 2)) (omega (arith, product)) in
    ground (
      arith,
      or_step (a * 2 ^ suc j) v,
      product,
      half,
      or_sum j a (v / 2) (omega (arith, pow-suc 2 j)),
    )

-- The group that a round appends.
pub group_lem :
    (t x : ℕ) → (bits_of t (bit_and x (2 ^ t - 1)) ≡ bits_of t x) × (bit_and x (2 ^ t - 1) < 2 ^ t)
group_lem t x =
    let masked : bit_and x (2 ^ t - 1) ≡ low t x = ap (bit_and x) (mask_lem t) ∙ and-mask t x in
    (ap (bits_of t) masked ∙ bits_of-low t x, rw masked (low_lt t x))

-- The inner loop: the groups and what stays are the digits that there were.
pub drain_lem :
    (fuel t acc bits : ℕ)
    → 0 < t
    → bits ≤ fuel
    → (stream t (drain fuel t acc bits).0 ++ bits_of (drain fuel t acc bits).1 acc
        ≡ bits_of bits acc)
      × ((drain fuel t acc bits).1 < t)
      × AllBelow (2 ^ t) (drain fuel t acc bits).0
unfolding drain stream
drain_lem zero t acc bits pos h = let none_left : bits ≡ 0 = omega arith in (refl, omega arith, tt)
drain_lem (suc fuel) t acc bits pos h = elim (Bool-cases (leb t bits)) [
  | inr small ↦ rw small (refl, ground arith, tt)
  | inl large ↦
      let t_le : t ≤ bits = leb→le t bits large in
      let (digits, short, below) = drain_lem fuel t acc (bits - t) pos (omega arith) in
      let (same, fits) = group_lem t (acc / 2 ^ (bits - t)) in
      let split : bits_of bits acc ≡ bits_of t (acc / 2 ^ (bits - t)) ++ bits_of (bits - t) acc =
        ap (λ (k : ℕ). bits_of k acc) (omega (arith, plus_lem (bits - t) t))
        ∙ bits_of-split (bits - t) t acc in
      rw large (
        append_assoc (bits_of t (bit_and (acc / 2 ^ (bits - t)) (2 ^ t - 1)))
              (stream t (drain fuel t acc (bits - t)).0)
              (bits_of (drain fuel t acc (bits - t)).1 acc)
            ∙ rw (same, digits) (sym split),
        short,
        (fits, below),
      )
]

bind-some {ℓ} : {A : Type ℓ} (m : Option A) → (m >>= λ x. some x) ≡ m
bind-some none = refl
bind-some (some x) = refl

bind-prefix :
    (out1 out2 : List ℕ) (m : Option (List ℕ))
    → ((m >>= λ tail. some (out2 ++ tail)) >>= λ more. some (out1 ++ more))
      ≡ (m >>= λ tail. some ((out1 ++ out2) ++ tail))
bind-prefix out1 out2 none = refl
bind-prefix out1 out2 (some tail) = ap some (sym (append_assoc out1 out2 tail))

pub stream-append : (k : ℕ) (xs ys : List ℕ) → stream k (xs ++ ys) ≡ stream k xs ++ stream k ys
unfolding stream
stream-append k [] ys = refl
stream-append k (x ∷ xs) ys =
    ap (λ (r : List ℕ). bits_of k x ++ r) (stream-append k xs ys)
    ∙ sym (append_assoc (bits_of k x) (stream k xs) (stream k ys))

div_small : (v p : ℕ) → v < p → (v / p == 0) ≡ true
div_small v p h = (==_iff (v / p) 0).1 (grind arith)

-- The loop over the data, up to the final `if pad`.
pub convert_lem :
    (f t : ℕ) (pad : Bool) (acc bits : ℕ) (values : List ℕ)
    → 0 < t
    → AllBelow (2 ^ f) values
    → bits < t
    → (out : List ℕ) × (acc' : ℕ) × (bits' : ℕ) × (convert_from f t pad acc bits values
        ≡ (flush f t pad acc' bits' >>= λ tail. some (out ++ tail)))
      × (stream t out ++ bits_of bits' acc' ≡ bits_of bits acc ++ stream f values)
      × (bits' < t)
      × AllBelow (2 ^ t) out
unfolding convert_from stream
convert_lem f t pad acc bits [] pos h short = (
  [],
  acc,
  bits,
  sym (bind-some (flush f t pad acc bits)),
  sym (append-nil (bits_of bits acc)),
  short,
  tt,
)
convert_lem f t pad acc bits (v ∷ vs) pos (hv, hvs) short =
    let acc1 : ℕ = bit_or (acc * 2 ^ f) v in
    let (digits, short1, below1) = drain_lem (bits + f) t acc1 (bits + f) pos (omega arith) in
    let out1 : List ℕ = (drain (bits + f) t acc1 (bits + f)).0 in
    let bits1 : ℕ = (drain (bits + f) t acc1 (bits + f)).1 in
    let (out2, acc', bits', result, rest, short', below2) =
      convert_lem f t pad acc1 bits1 vs pos hvs short1 in
    let taken : bits_of (bits + f) acc1 ≡ bits_of bits acc ++ bits_of f v =
      ap (λ (k : ℕ). bits_of k acc1) (sym (plus_lem f bits))
      ∙ (ap (bits_of (plus f bits)) (or_sum f acc v hv) ∙ bits_of-shift f bits acc v hv) in
    (
      out1 ++ out2,
      acc',
      bits',
      rw (div_small v (2 ^ f) hv, result) (bind-prefix out1 out2 (flush f t pad acc' bits')),
      rw (stream-append t out1 out2) (
          append_assoc (stream t out1) (stream t out2) (bits_of bits' acc')
          ∙ (ap (λ (r : List ℕ). stream t out1 ++ r) rest
              ∙ (sym (append_assoc (stream t out1) (bits_of bits1 acc1) (stream f vs))
                  ∙ (ap (λ (r : List ℕ). r ++ stream f vs) (digits ∙ taken)
                      ∙ append_assoc (bits_of bits acc) (bits_of f v) (stream f vs))))),
      short',
      AllBelow-append (2 ^ t) out1 out2 below1 below2,
    )
