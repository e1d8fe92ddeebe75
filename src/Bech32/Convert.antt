-- ===== src/Bech32/Convert.antt =====
-- `_convertbits` of internal/bech32.py: regrouping of bits.
use hermes_vector_platform.Prelude.{
  ℕ, zero, suc, ◌+◌, ◌-◌, ◌*◌, ◌/◌, ◌^◌, ◌==◌, leb, Bool, ◌||◌, not, Option, none, some, List, [],
  ◌∷◌, ◌++◌, bit_and, bit_or, if◌then◌else◌,
}
use hermes_vector_platform.Prelude.Maybe.{◌>>=◌}

-- `while bits >= tobits`: the groups appended, and the bits that stay. Each round takes `tobits`
-- of the bits, so as many rounds as there are bits are enough where `tobits` is not 0.
unfoldable pub drain : ℕ → ℕ → ℕ → ℕ → List ℕ × ℕ
drain zero tobits acc bits = ([], bits)
drain (suc fuel) tobits acc bits =
    let rest = drain fuel tobits acc (bits - tobits) in
    if leb tobits bits
    then (bit_and (acc / 2 ^ (bits - tobits)) (2 ^ tobits - 1) ∷ rest.0, rest.1)
    else ([], bits)

-- What is returned behind the loop over the data.
unfoldable pub flush : ℕ → ℕ → Bool → ℕ → ℕ → Option (List ℕ)
flush frombits tobits pad acc bits =
    let last = bit_and (acc * 2 ^ (tobits - bits)) (2 ^ tobits - 1) in
    if pad
    then (if bits == 0 then some [] else some (last ∷ []))
    else if leb frombits bits || not (last == 0)
    then none
    else some []

-- `value < 0` never holds, since the data are symbols or bytes.
unfoldable pub convert_from : ℕ → ℕ → Bool → ℕ → ℕ → List ℕ → Option (List ℕ)
unfolding drain flush
convert_from frombits tobits pad acc bits [] = flush frombits tobits pad acc bits
convert_from frombits tobits pad acc bits (value ∷ values) =
    let acc' = bit_or (acc * 2 ^ frombits) value in
    let (out, bits') = drain (bits + frombits) tobits acc' (bits + frombits) in
    let rest = convert_from frombits tobits pad acc' bits' values in
    if value / 2 ^ frombits == 0 then (do more ← rest; some (out ++ more)) else none

unfoldable pub convertbits : ℕ → ℕ → Bool → List ℕ → Option (List ℕ)
unfolding convert_from
convertbits frombits tobits pad values = convert_from frombits tobits pad 0 0 values
